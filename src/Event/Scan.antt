-- ===== src/Event/Scan.antt =====
-- sscanf with the format that src/event.c gives it, on the bytes of a line.
mod Numerals
pub mod Text
mod Tests
use libdw_bcc.Prelude.{
  ℕ, ◌+◌, ◌-◌, ◌*◌, ◌^◌, ◌%◌, leb, ltb, ◌==◌, ◌&&◌, ◌||◌, Bool, true, false, Option, none, some,
  List, [], ◌∷◌, if◌then◌else◌, length,
}
use libdw_bcc.Outcome.{Outcome, ok, fault, ◌>>=◌}
use libdw_bcc.Event.{Scanned}

-- isspace
abbrev pub is_space : ℕ → Bool
is_space b = (b == 0x20) || (leb 9 b && leb b 13)

abbrev pub skip_space : List ℕ → List ℕ
skip_space [] = []
skip_space (b ∷ l) = let rest = skip_space l in if is_space b then rest else b ∷ l

abbrev pub dec_digit : ℕ → Option ℕ
dec_digit b = if leb 0x30 b && leb b 0x39 then some (b - 0x30) else none

abbrev pub hex_digit : ℕ → Option ℕ
hex_digit b =
    if leb 0x30 b && leb b 0x39
    then some (b - 0x30)
    else if leb 0x61 b && leb b 0x66
    then some (b - 0x57)
    else if leb 0x41 b && leb b 0x46
    then some (b - 0x37)
    else none

-- A system of digits, with its base.
pub record Radix : Type 0 where
  pub base : ℕ
  pub digit : ℕ → Option ℕ

abbrev pub hex : Radix
hex = record { base = 16; digit = hex_digit }

abbrev pub dec : Radix
dec = record { base = 10; digit = dec_digit }

-- The digits in front, read onto a value.
abbrev pub read_digits : Radix → ℕ → List ℕ → ℕ × List ℕ
read_digits r acc [] = (acc, [])
read_digits r acc (b ∷ l) = elim (r.digit b) [
  | none ↦ (acc, b ∷ l)
  | some d ↦ read_digits r (acc * r.base + d) l
]

-- A number has one digit at least.
abbrev pub read_number : Radix → List ℕ → Option (ℕ × List ℕ)
read_number r [] = none
read_number r (b ∷ l) = elim (r.digit b) [ none ↦ none | some d ↦ some (read_digits r d l) ]

abbrev pub read_sign : List ℕ → Bool × List ℕ
read_sign [] = (false, [])
read_sign (b ∷ l) =
    if b == 0x2b then (false, l) else if b == 0x2d then (true, l) else (false, b ∷ l)

-- "0x", for hexadecimal numbers.
abbrev pub skip_prefix : List ℕ → List ℕ
skip_prefix [] = []
skip_prefix (a ∷ []) = a ∷ []
skip_prefix (a ∷ b ∷ l) = if a == 0x30 && (b == 0x78 || b == 0x58) then l else a ∷ b ∷ l

-- A conversion: a value and what is behind it, if there is one.
abbrev pub Conversion : Type 0 → Type 0
Conversion A = List ℕ → Outcome (Option (A × List ℕ))

-- The value in a variable of `w` bits. One that does not fit is not defined.
abbrev pub sized : ℕ → Bool → Option (ℕ × List ℕ) → Outcome (Option (ℕ × List ℕ))
sized w minus none = ok none
sized w minus (some (v, l)) =
    if ltb v (2 ^ w) then ok (some (if minus then (2 ^ w - v) % 2 ^ w else v, l)) else fault

-- %lx and %x
unfoldable pub scan_hex : ℕ → Conversion ℕ
scan_hex w l =
    let signed = read_sign (skip_space l) in
    sized w (signed.0) (read_number hex (skip_prefix (signed.1)))

-- %u
unfoldable pub scan_dec : ℕ → Conversion ℕ
scan_dec w l =
    let signed = read_sign (skip_space l) in sized w (signed.0) (read_number dec (signed.1))

-- The bytes in front up to one of a kind.
abbrev pub break_at : (ℕ → Bool) → List ℕ → List ℕ × List ℕ
break_at stop [] = ([], [])
break_at stop (b ∷ l) =
    let rest = break_at stop l in if stop b then ([], b ∷ l) else (b ∷ rest.0, rest.1)

-- The bytes in a buffer of `size` bytes, with a 0 behind them.
abbrev pub stored : ℕ → List ℕ × List ℕ → Outcome (Option (List ℕ × List ℕ))
stored size ([], l) = ok none
stored size (b ∷ bs, l) = if ltb (length (b ∷ bs)) size then ok (some (b ∷ bs, l)) else fault

-- %s
unfoldable pub scan_word : ℕ → Conversion (List ℕ)
scan_word size l = stored size (break_at is_space (skip_space l))

-- A blank and %[^\n]
unfoldable pub scan_line_end : ℕ → Conversion (List ℕ)
scan_line_end size l = stored size (break_at (λ b. b == 10) (skip_space l))

-- A byte of the format that is not a conversion.
abbrev pub literal : ℕ → Conversion (Unit {0})
literal c [] = ok none
literal c (b ∷ l) = if b == c then ok (some (tt, l)) else ok none

-- sscanf ends at the first conversion that fails.
abbrev pub field :
    {A : Type 0}
    → Outcome (Option (A × List ℕ))
    → Scanned
    → (A → List ℕ → Outcome Scanned)
    → Outcome Scanned
field conversion s k = conversion >>= λ r. elim r [ none ↦ ok s | some (a, l) ↦ k a l ]

-- Nothing is read yet. A line that ends before the first field gives EOF, which like 0 is below 7.
abbrev pub nothing_read : Scanned
nothing_read = record {
  count = 0;
  start = 0;
  end = 0;
  prot = [];
  pgoff = 0;
  maj = 0;
  min = 0;
  ino = 0;
  execname = [];
}

-- The format "%lx-%lx %s %lx %x:%x %u %[^\n]\n", with the sizes of prot and execname.
unfoldable pub scan_line : List ℕ → Outcome Scanned
scan_line l = field (scan_hex 64 l) nothing_read (λ start l.
    let s₁ : Scanned = record nothing_read { count = 1; start = start } in
    field (literal 0x2d l) s₁ (λ _ l. field (scan_hex 64 l) s₁ (λ end l.
      let s₂ : Scanned = record s₁ { count = 2; end = end } in
      field (scan_word 5 l) s₂ (λ prot l.
        let s₃ : Scanned = record s₂ { count = 3; prot = prot } in
        field (scan_hex 64 l) s₃ (λ pgoff l.
          let s₄ : Scanned = record s₃ { count = 4; pgoff = pgoff } in
          field (scan_hex 32 l) s₄ (λ maj l.
            let s₅ : Scanned = record s₄ { count = 5; maj = maj } in
            field (literal 0x3a l) s₅ (λ _ l. field (scan_hex 32 l) s₅ (λ min l.
              let s₆ : Scanned = record s₅ { count = 6; min = min } in
              field (scan_dec 32 l) s₆ (λ ino l.
                let s₇ : Scanned = record s₆ { count = 7; ino = ino } in
                field (scan_line_end 4096 l) s₇
                  (λ execname l. ok (record s₇ { count = 8; execname = execname })))))))))))
