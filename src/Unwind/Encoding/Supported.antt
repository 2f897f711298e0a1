-- ===== src/Unwind/Encoding/Supported.antt =====
-- Which encodings are read at all.
use libdw_bcc.Prelude.{
  ℕ, ◌+◌, ◌/◌, ◌%◌, ◌<◌, ◌≤◌, ltb, ◌==◌, ◌&&◌, ◌||◌, not, ◌≡◌, refl, ◌∙◌, ap, sym, add64, Bool,
  true, false, Bool-cases, ◌⊎◌, inl, inr, Option, none, some, if◌then◌else◌, arith, length, take,
  drop, holds_below, holds_below-law, ge→ltb,
}
use libdw_bcc.Outcome.{ok}
use libdw_bcc.Unwind.Encoding.{
  Buffer, le_value, dw_read, Format, sdata4, udata4, sdata8, udata8, format_size, extend, add_base,
  application, sized_encoding, format, read_formatted, read_encoded_value,
}

-- The encodings that the code reads: omit, or an absolute or self-relative one of a known format.
-- (The bit 0x80, an indirect pointer, is not looked at.)
abbrev pub is_supported : ℕ → Bool
is_supported encoding =
    let low = encoding % 16 in
    encoding == 255
    || (ltb (encoding / 16 % 8) 2
        && (low == 0 || low == 3 || low == 4 || low == 8 || low == 11 || low == 12))

abbrev is_some : {A : Type 0} → Option A → Bool
is_some none = false
is_some (some x) = true

-- What the two tests of the code make of an encoding.
abbrev passes : ℕ → Bool
passes encoding =
    encoding == 255
    || encoding == 0
    || (is_some (application encoding 0) && is_some (format (sized_encoding encoding)))

supported_table : holds_below 256 (λ e. if is_supported e then passes e else not (passes e)) ≡ true
unfolding holds_below application format sized_encoding
supported_table = refl

passes-eq-supported : (e : ℕ) → e < 256 → passes e ≡ is_supported e
passes-eq-supported e h =
    let row =
      holds_below-law 256 (λ e. if is_supported e then passes e else not (passes e)) e
        supported_table h in
    elim (Bool-cases (is_supported e)) [
      | inl y ↦ (let r : passes e ≡ true = rw y at row in r ∙ sym y)
      | inr n ↦ (let r : not (passes e) ≡ true = rw n at row in ground (arith, r, n))
    ]

-- Whether an application is known does not depend on the address.
application-address : (e a : ℕ) → is_some (application e a) ≡ is_some (application e 0)
unfolding application
application-address e a = ground arith

dw_read-room :
    (buf : Buffer) (cur n : ℕ)
    → cur + n ≤ buf.end
    → buf.end ≤ length buf.bytes
    → dw_read buf cur n ≡ ok (some (le_value (take n (drop cur buf.bytes)), cur + n))
unfolding dw_read
dw_read-room buf cur n h k =
    rw (ge→ltb buf.end (cur + n) h, ge→ltb (length buf.bytes) (cur + n) (omega arith))

-- What a read comes to: an offset of at most 8 bytes behind the cursor, or -EINVAL.
abbrev Decided : Buffer → ℕ → ℕ → Type 0
Decided buf cur e =
    (is_supported e ≡ true)
      × ((v : ℕ) × (n : ℕ) × (read_encoded_value buf cur e ≡ ok (some (v, cur + n))) × (n ≤ 8))
    ⊎ (is_supported e ≡ false) × (read_encoded_value buf cur e ≡ ok none)

add_base-room :
    (buf : Buffer) (cur val : ℕ) (f : Format)
    → cur + format_size f ≤ buf.end
    → buf.end ≤ length buf.bytes
    → format_size f ≤ 8
    → (v : ℕ) × (n : ℕ) × (read_formatted buf cur val (some f) ≡ ok (some (v, cur + n))) × (n ≤ 8)
unfolding read_formatted
add_base-room buf cur val f h k le = (
  add64 val (extend f (le_value (take (format_size f) (drop cur buf.bytes)))),
  format_size f,
  ap (add_base val f) (dw_read-room buf cur (format_size f) h k),
  le,
)

read_formatted-room :
    (buf : Buffer) (cur val : ℕ) (f : Format)
    → cur + 8 ≤ buf.end
    → buf.end ≤ length buf.bytes
    → (v : ℕ) × (n : ℕ) × (read_formatted buf cur val (some f) ≡ ok (some (v, cur + n))) × (n ≤ 8)
read_formatted-room buf cur val sdata4 h k =
    add_base-room buf cur val sdata4 (omega arith) k (omega arith)
read_formatted-room buf cur val udata4 h k =
    add_base-room buf cur val udata4 (omega arith) k (omega arith)
read_formatted-room buf cur val sdata8 h k = add_base-room buf cur val sdata8 h k (omega arith)
read_formatted-room buf cur val udata8 h k = add_base-room buf cur val udata8 h k (omega arith)

-- The two tests, for an encoding that is neither omit nor ptr.
decide_formatted :
    (buf : Buffer) (cur e : ℕ) (a : Option ℕ) (f : Option Format)
    → (e == 255) ≡ false
    → (e == 0) ≡ false
    → application e (add64 buf.base cur) ≡ a
    → format (sized_encoding e) ≡ f
    → is_supported e ≡ is_some a && is_some f
    → cur + 8 ≤ buf.end
    → buf.end ≤ length buf.bytes
    → Decided buf cur e
unfolding read_encoded_value
decide_formatted buf cur e none f n m qa qf s h k = inr (s, rw (n, m, qa))
decide_formatted buf cur e (some val) none n m qa qf s h k =
    inr (s, rw (n, m, qa, qf) (unfold read_formatted in refl))
decide_formatted buf cur e (some val) (some f) n m qa qf s h k =
    let (v, size, reads, le) = read_formatted-room buf cur val f h k in
    inl (s, (v, size, rw (n, m, qa, qf) reads, le))

-- With room for 8 bytes a read succeeds exactly for the supported encodings, and moves the cursor
-- by 8 bytes at most; for any other encoding byte it is refused with -EINVAL.
pub read_encoded_value-decides :
    (buf : Buffer) (cur e : ℕ)
    → e < 256
    → cur + 8 ≤ buf.end
    → buf.end ≤ length buf.bytes
    → (is_supported e ≡ true)
        × ((v : ℕ) × (n : ℕ) × (read_encoded_value buf cur e ≡ ok (some (v, cur + n))) × (n ≤ 8))
      ⊎ (is_supported e ≡ false) × (read_encoded_value buf cur e ≡ ok none)
read_encoded_value-decides buf cur e lt h k =
    let same = passes-eq-supported e lt in
    elim (Bool-cases (e == 255)) [
      | inl omit ↦ inl (
        sym same ∙ rw omit,
        (
          0,
          0,
          unfold read_encoded_value in rw omit (ap (λ c. ok (some (0, c))) {x = cur} (omega arith)),
          omega arith,
        ),
      )
      | inr n ↦ elim (Bool-cases (e == 0)) [
        | inl ptr ↦ inl (
          sym same ∙ rw (n, ptr),
          (
            le_value (take 8 (drop cur buf.bytes)),
            8,
            unfold read_encoded_value in rw (n, ptr) (dw_read-room buf cur 8 h k),
            omega arith,
          ),
        )
        | inr m ↦
            decide_formatted buf cur e (application e (add64 buf.base cur))
              (format (sized_encoding e)) n m refl refl
              (sym same
                ∙ rw (n, m)
                    (ap (λ b. b && is_some (format (sized_encoding e)))
                      (sym (application-address e (add64 buf.base cur)))))
              h k
      ]
    ]
