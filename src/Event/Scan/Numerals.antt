-- ===== src/Event/Scan/Numerals.antt =====
-- The conversions of sscanf read a numeral that a byte which is no digit follows.
use libdw_bcc.Prelude.{
  ℕ, ◌+◌, ◌*◌, ◌^◌, ◌<◌, lt→ltb, ◌==◌, ◌||◌, ◌≡◌, ◌∙◌, ap, All, false, none, some, List, [], ◌∷◌,
  ◌++◌, arith,
}
use libdw_bcc.Outcome.{ok}
use libdw_bcc.Event.Scan.{
  is_space, hex_digit, dec_digit, Radix, hex, dec, read_digits, read_number, skip_prefix, scan_hex,
  scan_dec,
}

abbrev pub IsDigit : Radix → ℕ → Type 0
IsDigit r b = (d : ℕ) × (r.digit b ≡ some d)

abbrev pub digit_of : Radix → ℕ → ℕ
digit_of r b = elim (r.digit b) [ none ↦ 0 | some d ↦ d ]

-- The value of a numeral.
abbrev pub value_onto : Radix → ℕ → List ℕ → ℕ
value_onto r acc [] = acc
value_onto r acc (b ∷ ds) = value_onto r (acc * r.base + digit_of r b) ds

abbrev pub value : Radix → List ℕ → ℕ
value r ds = value_onto r 0 ds

-- A numeral whose value fits into `w` bits.
abbrev pub IsNumeral : Radix → ℕ → List ℕ → Type 0
IsNumeral r w [] = ⊥
IsNumeral r w (b ∷ ds) = IsDigit r b × All (IsDigit r) ds × (value r (b ∷ ds) < 2 ^ w)

read_digits-value :
    (r : Radix) (sep : ℕ) (rest : List ℕ)
    → r.digit sep ≡ none
    → (ds : List ℕ) (acc : ℕ) → All (IsDigit r) ds
    → read_digits r acc (ds ++ sep ∷ rest) ≡ (value_onto r acc ds, sep ∷ rest)
read_digits-value r sep rest e [] acc h = rw e
read_digits-value r sep rest e (b ∷ ds) acc ((d, k), h) =
    let own : d ≡ digit_of r b = rw (k, digit_of) in
    rw k (
      read_digits-value r sep rest e ds (acc * r.base + d) h
      ∙ ap (λ x. (value_onto r (acc * r.base + x) ds, sep ∷ rest)) own)

read_number-value :
    (r : Radix) (sep : ℕ) (rest : List ℕ) (b : ℕ) (ds : List ℕ)
    → r.digit sep ≡ none
    → IsDigit r b
    → All (IsDigit r) ds
    → read_number r (b ∷ ds ++ sep ∷ rest) ≡ some (value r (b ∷ ds), sep ∷ rest)
read_number-value r sep rest b ds e (d, k) h =
    let own : digit_of r b ≡ d = rw (k, digit_of) in
    let same : d ≡ 0 * r.base + digit_of r b = omega (arith, own) in
    rw k (
      ap some
        (read_digits-value r sep rest e ds d h ∙ ap (λ x. (value_onto r x ds, sep ∷ rest)) same))

-- A digit is no blank, no sign and no "x".
abbrev IsPlain : ℕ → Type 0
IsPlain b =
    (is_space b ≡ false)
    × ((b == 0x2b) ≡ false)
    × ((b == 0x2d) ≡ false)
    × ((b == 0x78 || b == 0x58) ≡ false)

hex_digit-IsPlain : (b d : ℕ) → hex_digit b ≡ some d → IsPlain b
hex_digit-IsPlain b d e =
    (ground (arith, e), ground (arith, e), ground (arith, e), ground (arith, e))

dec_digit-IsPlain : (b d : ℕ) → dec_digit b ≡ some d → IsPlain b
dec_digit-IsPlain b d e =
    (ground (arith, e), ground (arith, e), ground (arith, e), ground (arith, e))

skip_prefix-none :
    (a b : ℕ) (l : List ℕ) → (b == 0x78 || b == 0x58) ≡ false → skip_prefix (a ∷ b ∷ l) ≡ a ∷ b ∷ l
skip_prefix-none a b l e = ground (arith, e)

-- A numeral in front of a byte that is no digit.
pub scan_hex-value :
    (w : ℕ) (ds : List ℕ) (sep : ℕ) (rest : List ℕ)
    → IsNumeral hex w ds
    → hex_digit sep ≡ none
    → (sep == 0x78 || sep == 0x58) ≡ false
    → scan_hex w (ds ++ sep ∷ rest) ≡ ok (some (value hex ds, sep ∷ rest))
unfolding scan_hex
scan_hex-value w [] sep rest h e n = absurd h
scan_hex-value w (b ∷ ds) sep rest ((d, k), h, lt) e n =
    let (space, plus, minus, x) = hex_digit-IsPlain b d k in
    rw (space, plus, minus)
      (rw (
        prefix ds h,
        read_number-value hex sep rest b ds e (d, k) h,
        lt→ltb (value hex (b ∷ ds)) (2 ^ w) lt,
      ))
  where
    prefix :
        (cs : List ℕ)
        → All (IsDigit hex) cs
        → skip_prefix (b ∷ cs ++ sep ∷ rest) ≡ b ∷ cs ++ sep ∷ rest
    prefix [] i = skip_prefix-none b sep rest n
    prefix (c ∷ cs) ((v, j), i) =
        let (space, plus, minus, x) = hex_digit-IsPlain c v j in
        skip_prefix-none b c (cs ++ sep ∷ rest) x

pub scan_hex-after_blank :
    (w : ℕ) (ds : List ℕ) (sep : ℕ) (rest : List ℕ)
    → IsNumeral hex w ds
    → hex_digit sep ≡ none
    → (sep == 0x78 || sep == 0x58) ≡ false
    → scan_hex w (0x20 ∷ (ds ++ (sep ∷ rest))) ≡ ok (some (value hex ds, sep ∷ rest))
unfolding scan_hex
scan_hex-after_blank w ds sep rest h e n = scan_hex-value w ds sep rest h e n

pub scan_dec-value :
    (w : ℕ) (ds : List ℕ) (sep : ℕ) (rest : List ℕ)
    → IsNumeral dec w ds
    → dec_digit sep ≡ none
    → scan_dec w (0x20 ∷ (ds ++ (sep ∷ rest))) ≡ ok (some (value dec ds, sep ∷ rest))
unfolding scan_dec
scan_dec-value w [] sep rest h e = absurd h
scan_dec-value w (b ∷ ds) sep rest ((d, k), h, lt) e =
    let (space, plus, minus, x) = dec_digit-IsPlain b d k in
    rw (space, plus, minus)
      (rw (read_number-value dec sep rest b ds e (d, k) h, lt→ltb (value dec (b ∷ ds)) (2 ^ w) lt))
