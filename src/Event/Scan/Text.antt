-- ===== src/Event/Scan/Text.antt =====
-- sscanf reads the lines that the kernel writes.
use libdw_bcc.Prelude.{
  ℕ, ◌<◌, lt→ltb, ltb, ◌==◌, ◌≡◌, refl, ◌∙◌, ap, All, Bool, true, false, Option, some, List, [],
  ◌∷◌, ◌++◌, map, length,
}
use libdw_bcc.Outcome.{ok, ◌>>=◌}
use libdw_bcc.Event.{Scanned}
use libdw_bcc.Event.Lines.{Letters, letters}
use libdw_bcc.Event.Scan.{
  is_space, skip_space, hex, dec, break_at, stored, scan_word, scan_line_end, field, scan_line,
}
use libdw_bcc.Event.Scan.Numerals.{
  value, IsNumeral, scan_hex-value, scan_hex-after_blank, scan_dec-value,
}
use libdw_bcc.Event.{ProcMaps}
use libdw_bcc.Event.Lines.{Line, full, Reads}

break_at-run :
    (stop : ℕ → Bool) (sep : ℕ) (rest : List ℕ)
    → stop sep ≡ true
    → (bs : List ℕ) → All (λ b. stop b ≡ false) bs
    → break_at stop (bs ++ sep ∷ rest) ≡ (bs, sep ∷ rest)
break_at-run stop sep rest e [] h = rw e
break_at-run stop sep rest e (b ∷ bs) (k, h) =
    rw k (ap (λ r. (b ∷ r.0, r.1)) (break_at-run stop sep rest e bs h))

skip_space-gap :
    (gap l : List ℕ) → All (λ b. is_space b ≡ true) gap → skip_space (gap ++ l) ≡ skip_space l
skip_space-gap [] l h = refl
skip_space-gap (b ∷ gap) l (k, h) = rw k (skip_space-gap gap l h)

-- The protection is four letters.
abbrev pub AreLetters : Letters → Type 0
AreLetters p = All (λ b. is_space b ≡ false) (letters p)

scan_word-letters :
    (p : Letters) (rest : List ℕ)
    → AreLetters p
    → scan_word 5 (0x20 ∷ (letters p ++ (0x20 ∷ rest))) ≡ ok (some (letters p, 0x20 ∷ rest))
unfolding scan_word
scan_word-letters p rest h =
    rw (h.0) (ap (stored 5) (break_at-run is_space 0x20 rest refl (letters p) h))

-- What is behind the inode: blanks, and the name, if the map has one.
abbrev pub IsName : List ℕ → Type 0
IsName [] = Unit
IsName (b ∷ bs) =
    (is_space b ≡ false) × All (λ c. (c == 10) ≡ false) (b ∷ bs) × (length (b ∷ bs) < 4096)

abbrev pub count_of : List ℕ → ℕ
count_of [] = 7
count_of (b ∷ bs) = 8

-- A line of the file: its numerals, the protection, the blanks in front of the name, and the name.
pub record Text : Type 0 where
  pub start : List ℕ
  pub end : List ℕ
  pub prot : Letters
  pub pgoff : List ℕ
  pub maj : List ℕ
  pub min : List ℕ
  pub ino : List ℕ
  pub gap : List ℕ
  pub name : List ℕ

abbrev pub name_part : Text → List ℕ
name_part t = 0x20 ∷ (t.gap ++ (t.name ++ (10 ∷ [])))

-- "start-end prot pgoff maj:min ino name"
abbrev pub print : Text → List ℕ
print t =
    t.start
    ++ (0x2d
        ∷ (t.end
            ++ (0x20
                ∷ (letters t.prot
                    ++ (0x20
                        ∷ (t.pgoff
                            ++ (0x20
                                ∷ (t.maj
                                    ++ (0x3a ∷ (t.min ++ (0x20 ∷ (t.ino ++ name_part t))))))))))))

abbrev pub fields_of : Text → Scanned
fields_of t = record {
  count = count_of t.name;
  start = value hex t.start;
  end = value hex t.end;
  prot = letters t.prot;
  pgoff = value hex t.pgoff;
  maj = value hex t.maj;
  min = value hex t.min;
  ino = value dec t.ino;
  execname = t.name;
}

-- The numerals fit into the variables of the code, and the name into its buffer.
pub record IsText (t : Text) : Type 0 where
  pub start : IsNumeral hex 64 t.start
  pub end : IsNumeral hex 64 t.end
  pub prot : AreLetters t.prot
  pub pgoff : IsNumeral hex 64 t.pgoff
  pub maj : IsNumeral hex 32 t.maj
  pub min : IsNumeral hex 32 t.min
  pub ino : IsNumeral dec 32 t.ino
  pub gap : All (λ b. is_space b ≡ true) t.gap
  pub name : IsName t.name

scan_name :
    (s : Scanned) (t : Text)
    → All (λ b. is_space b ≡ true) t.gap
    → IsName t.name
    → s.count ≡ 7
    → s.execname ≡ []
    → field
        (scan_line_end 4096 (name_part t))
        s
        (λ execname l. ok (record s { count = 8; execname = execname }))
      ≡ ok (record s { count = count_of t.name; execname = t.name })
unfolding scan_line_end
scan_name s t gap name seven empty =
    ap
      (λ l.
        field (stored 4096 (break_at (λ b. b == 10) l)) s
          (λ execname l'. ok (record s { count = 8; execname = execname })))
      (skip_space-gap t.gap (t.name ++ (10 ∷ [])) gap)
    ∙ by_name t.name name
  where
    by_name :
        (n : List ℕ)
        → IsName n
        → field
            (stored 4096 (break_at (λ b. b == 10) (skip_space (n ++ 10 ∷ []))))
            s
            (λ execname l. ok (record s { count = 8; execname = execname }))
          ≡ ok (record s { count = count_of n; execname = n })
    by_name [] h =
        ap (λ c. ok (record s { count = c; execname = s.execname })) seven
        ∙ ap (λ n. ok (record s { count = 7; execname = n })) empty
    by_name (b ∷ bs) (front, inside, short) = rw front (
        ap
          (λ r.
            field (stored 4096 r) s
              (λ execname l. ok (record s { count = 8; execname = execname })))
          (break_at-run (λ c. c == 10) 10 [] refl (b ∷ bs) inside)
        ∙ rw (lt→ltb (length (b ∷ bs)) 4096 short))

-- A line of the kernel is read field by field: the numerals give their values, the protection and
-- the name are stored as they are. A line without a name has one field less.
pub scan_line-print : (t : Text) → IsText t → scan_line (print t) ≡ ok (fields_of t)
unfolding scan_line
scan_line-print t h =
    let s₇ : Scanned = record (fields_of t) { count = 7; execname = [] } in
    let l₆ = name_part t in
    let l₅ = 0x20 ∷ (t.ino ++ l₆) in
    let l₄ = 0x3a ∷ (t.min ++ l₅) in
    let l₃ = 0x20 ∷ (t.maj ++ l₄) in
    let l₂ = 0x20 ∷ (t.pgoff ++ l₃) in
    let l₁ = 0x20 ∷ (letters t.prot ++ l₂) in
    rw (scan_hex-value 64 t.start 0x2d (t.end ++ l₁) h.start refl refl, ◌>>=◌)
      (rw (scan_hex-value 64 t.end 0x20 (letters t.prot ++ l₂) h.end refl refl, ◌>>=◌)
        (rw (scan_word-letters t.prot (t.pgoff ++ l₃) h.prot, ◌>>=◌)
          (rw (scan_hex-after_blank 64 t.pgoff 0x20 (t.maj ++ l₄) h.pgoff refl refl, ◌>>=◌)
            (rw (scan_hex-after_blank 32 t.maj 0x3a (t.min ++ l₅) h.maj refl refl, ◌>>=◌)
              (rw (scan_hex-value 32 t.min 0x20 (t.ino ++ l₆) h.min refl refl, ◌>>=◌)
                (rw
                  (scan_dec-value 32 t.ino 0x20 (t.gap ++ (t.name ++ (10 ∷ []))) h.ino refl, ◌>>=◌)
                  (scan_name s₇ t h.gap h.name refl refl)))))))

-- stdio with this sscanf, on files of which only the lines are known.
abbrev pub text_proc : (ℕ → Option (List (List ℕ))) → ProcMaps
text_proc files = record { open_maps = files; sscanf = scan_line }

abbrev pub line_of : Text → Line
line_of t = full t.prot (fields_of t)

abbrev pub AreTexts : List Text → Type 0
AreTexts [] = Unit
AreTexts (t ∷ ts) = IsText t × AreTexts ts

count_of_enough : (name : List ℕ) → ltb (count_of name) 7 ≡ false
count_of_enough [] = refl
count_of_enough (b ∷ bs) = refl

-- All lines of such a file are read in full.
pub Reads-print :
    (files : ℕ → Option (List (List ℕ))) (ts : List Text)
    → AreTexts ts
    → Reads (text_proc files) (map print ts) (map line_of ts)
Reads-print files [] h = tt
Reads-print files (t ∷ ts) (h, hs) =
    (scan_line-print t h, count_of_enough t.name, Reads-print files ts hs)
