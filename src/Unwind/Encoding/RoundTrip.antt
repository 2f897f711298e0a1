-- ===== src/Unwind/Encoding/RoundTrip.antt =====
-- What a compiler writes in an encoding is what is read; and which encodings are read at all.
use libdw_bcc.Prelude.{
  ℕ, zero, suc, ◌+◌, ◌/◌, ◌^◌, ◌%◌, ◌<◌, ltb, ◌≡◌, refl, ◌∙◌, ap, add64, sub64, ge→ltb,
  length-append, Bool, true, false, some, List, [], ◌∷◌, ◌++◌, if◌then◌else◌, arith, length, take,
  drop,
}
use libdw_bcc.Outcome.{ok}
use libdw_bcc.Unwind.Encoding.{
  Buffer, le_value, dw_read, Format, sdata4, udata4, sdata8, udata8, format_size, extend, add_base,
  application, sized_encoding, format, read_formatted, read_encoded_value,
}

-- The `k` low bytes of a number, little-endian.
unfoldable pub le_bytes : ℕ → ℕ → List ℕ
le_bytes zero v = []
le_bytes (suc k) v = v % 256 ∷ le_bytes k (v / 256)

-- The encoding byte of a format, absolute or relative to its own address.
abbrev pub encoding_of : Format → Bool → ℕ
encoding_of sdata4 pcrel = if pcrel then 0x1b else 0x0b
encoding_of udata4 pcrel = if pcrel then 0x13 else 0x03
encoding_of sdata8 pcrel = if pcrel then 0x1c else 0x0c
encoding_of udata8 pcrel = if pcrel then 0x14 else 0x04

le_value-take_4 : (v : ℕ) (rest : List ℕ) → le_value (take 4 (le_bytes 4 v ++ rest)) ≡ v % 2 ^ 32
unfolding le_bytes
le_value-take_4 v rest = omega arith

le_value-take_8 : (v : ℕ) (rest : List ℕ) → le_value (take 8 (le_bytes 8 v ++ rest)) ≡ v % 2 ^ 64
unfolding le_bytes
le_value-take_8 v rest = omega arith

abbrev pub format_mod : Format → ℕ
format_mod sdata4 = 2 ^ 32
format_mod udata4 = 2 ^ 32
format_mod sdata8 = 2 ^ 64
format_mod udata8 = 2 ^ 64

le_value-format :
    (f : Format) (v : ℕ) (rest : List ℕ)
    → le_value (take (format_size f) (le_bytes (format_size f) v ++ rest)) ≡ v % format_mod f
le_value-format sdata4 v rest = le_value-take_4 v rest
le_value-format udata4 v rest = le_value-take_4 v rest
le_value-format sdata8 v rest = le_value-take_8 v rest
le_value-format udata8 v rest = le_value-take_8 v rest

-- The value that is stored, for a target and the address of the encoded pointer.
abbrev pub stored_value : Bool → ℕ → ℕ → ℕ
stored_value pcrel target address = if pcrel then sub64 target address else target

-- The format can hold the value: it is what its low bytes are extended to.
abbrev pub Fits : Format → ℕ → Type 0
Fits f v = extend f (v % format_mod f) ≡ v

drop-length : (pre xs : List ℕ) → drop (length pre) (pre ++ xs) ≡ xs
drop-length [] xs = refl
drop-length (x ∷ pre) xs = drop-length pre xs

pub length-le_bytes : (k v : ℕ) → length (le_bytes k v) ≡ k
unfolding le_bytes
length-le_bytes zero v = refl
length-le_bytes (suc k) v = ap suc (length-le_bytes k (v / 256))

abbrev pub buffer_of : (base : ℕ) (pre mid rest : List ℕ) (room : ℕ) → Buffer
buffer_of base pre mid rest room = record {
  base = base;
  bytes = pre ++ (mid ++ rest);
  end = length (pre ++ mid) + room;
}

dw_read-le_bytes :
    (base : ℕ) (pre rest : List ℕ) (room : ℕ) (f : Format) (v : ℕ)
    → dw_read
        (buffer_of base pre (le_bytes (format_size f) v) rest room)
        (length pre)
        (format_size f)
      ≡ ok (some (v % format_mod f, length pre + format_size f))
unfolding dw_read
dw_read-le_bytes base pre rest room f v =
    let mid = le_bytes (format_size f) v in
    let size = length-le_bytes (format_size f) v in
    let in_end : ltb (length (pre ++ mid) + room) (length pre + format_size f) ≡ false =
      ge→ltb _ _ (omega (arith, size, length-append pre mid)) in
    let in_bytes : ltb (length (pre ++ (mid ++ rest))) (length pre + format_size f) ≡ false =
      ge→ltb _ _ (omega (arith, size, length-append pre (mid ++ rest), length-append mid rest)) in
    rw (in_end, in_bytes, drop-length pre (mid ++ rest)) (rw (le_value-format f v rest))

-- The format and the base that an encoding byte stands for.
encoding_read :
    (f : Format) (pcrel : Bool) (buf : Buffer) (cur : ℕ)
    → read_encoded_value buf cur (encoding_of f pcrel)
      ≡ add_base (if pcrel then add64 buf.base cur else 0) f (dw_read buf cur (format_size f))
unfolding read_encoded_value read_formatted application sized_encoding format
encoding_read sdata4 true buf cur = refl
encoding_read sdata4 false buf cur = refl
encoding_read udata4 true buf cur = refl
encoding_read udata4 false buf cur = refl
encoding_read sdata8 true buf cur = refl
encoding_read sdata8 false buf cur = refl
encoding_read udata8 true buf cur = refl
encoding_read udata8 false buf cur = refl

-- Whatever a format's bytes stand for is added to the base, and the cursor moves behind them.
pub read_encoded_value-le_bytes :
    (f : Format) (pcrel : Bool) (base v : ℕ) (pre rest : List ℕ) (room : ℕ)
    → read_encoded_value
        (buffer_of base pre (le_bytes (format_size f) v) rest room)
        (length pre)
        (encoding_of f pcrel)
      ≡ ok (
          some (
            add64 (if pcrel then add64 base (length pre) else 0) (extend f (v % format_mod f)),
            length pre + format_size f,
          ))
read_encoded_value-le_bytes f pcrel base v pre rest room =
    let buf = buffer_of base pre (le_bytes (format_size f) v) rest room in
    encoding_read f pcrel buf (length pre)
    ∙ ap (add_base (if pcrel then add64 base (length pre) else 0) f)
        (dw_read-le_bytes base pre rest room f v)

-- A pointer that a compiler stores in one of the eight encodings is read back as its target, and
-- the cursor moves behind it, if the end of the buffer is not before the end of the pointer.
pub read_encoded_value-stored :
    (f : Format) (pcrel : Bool) (base target : ℕ) (pre rest : List ℕ) (room : ℕ)
    → target < 2 ^ 64
    → let v = stored_value pcrel target (add64 base (length pre)) in
      Fits f v
      → read_encoded_value
          (buffer_of base pre (le_bytes (format_size f) v) rest room)
          (length pre)
          (encoding_of f pcrel)
        ≡ ok (some (target, length pre + format_size f))
read_encoded_value-stored f pcrel base target pre rest room h fits =
    let v = stored_value pcrel target (add64 base (length pre)) in
    read_encoded_value-le_bytes f pcrel base v pre rest room
    ∙ ap
        (λ w. ok (
          some
            (add64 (if pcrel then add64 base (length pre) else 0) w, length pre + format_size f)))
        fits
    ∙ ap (λ w. ok (some (w, length pre + format_size f))) (target_back pcrel)
  where
    target_back :
        (b : Bool)
        → add64
            (if b then add64 base (length pre) else 0)
            (stored_value b target (add64 base (length pre)))
          ≡ target
    target_back true = omega arith
    target_back false = omega arith
