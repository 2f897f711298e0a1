-- ===== src/Event/Scan/Tests.antt =====
-- Lines of /proc/<pid>/task/<pid>/maps.
use libdw_bcc.Prelude.{arith, ℕ, ◌≡◌, refl, List, [], ◌∷◌}
use libdw_bcc.Outcome.{ok}
use libdw_bcc.Event.{Scanned}
use libdw_bcc.Event.Scan.Text.{Text, IsText, scan_line-print}
use libdw_bcc.Event.Scan.{scan_line, scan_hex, scan_dec, scan_word, scan_line_end}

-- "6000-7000 r-xp 01000 08:01 77   /b" and a newline
abbrev line : List ℕ
line =
    0x36 ∷ 0x30 ∷ 0x30 ∷ 0x30 ∷ 0x2d ∷ 0x37 ∷ 0x30 ∷ 0x30 ∷ 0x30 ∷ 0x20 ∷ 0x72 ∷ 0x2d ∷ 0x78 ∷ 0x70
    ∷ 0x20 ∷ 0x30 ∷ 0x31 ∷ 0x30 ∷ 0x30 ∷ 0x30 ∷ 0x20 ∷ 0x30 ∷ 0x38 ∷ 0x3a ∷ 0x30 ∷ 0x31 ∷ 0x20
    ∷ 0x37 ∷ 0x37 ∷ 0x20 ∷ 0x20 ∷ 0x20 ∷ 0x2f ∷ 0x62 ∷ 10 ∷ []

abbrev fields : Scanned
fields = record {
  count = 8;
  start = 0x6000;
  end = 0x7000;
  prot = 0x72 ∷ 0x2d ∷ 0x78 ∷ 0x70 ∷ [];
  pgoff = 0x1000;
  maj = 8;
  min = 1;
  ino = 77;
  execname = 0x2f ∷ 0x62 ∷ [];
}

scans : scan_line line ≡ ok fields
unfolding scan_line scan_hex scan_dec scan_word scan_line_end
scans = refl

abbrev text : Text
text = record {
  start = 0x36 ∷ 0x30 ∷ 0x30 ∷ 0x30 ∷ [];
  end = 0x37 ∷ 0x30 ∷ 0x30 ∷ 0x30 ∷ [];
  prot = record { r = 0x72; w = 0x2d; x = 0x78; s = 0x70 };
  pgoff = 0x30 ∷ 0x31 ∷ 0x30 ∷ 0x30 ∷ 0x30 ∷ [];
  maj = 0x30 ∷ 0x38 ∷ [];
  min = 0x30 ∷ 0x31 ∷ [];
  ino = 0x37 ∷ 0x37 ∷ [];
  gap = 0x20 ∷ 0x20 ∷ [];
  name = 0x2f ∷ 0x62 ∷ [];
}

text-IsText : IsText text
text-IsText = record {
  start = ((6, refl), ((0, refl), ((0, refl), ((0, refl), tt))), omega arith);
  end = ((7, refl), ((0, refl), ((0, refl), ((0, refl), tt))), omega arith);
  prot = (refl, (refl, (refl, (refl, tt))));
  pgoff = ((0, refl), ((1, refl), ((0, refl), ((0, refl), ((0, refl), tt)))), omega arith);
  maj = ((0, refl), ((8, refl), tt), omega arith);
  min = ((0, refl), ((1, refl), tt), omega arith);
  ino = ((7, refl), ((7, refl), tt), omega arith);
  gap = (refl, (refl, tt));
  name = (refl, (refl, (refl, tt)), omega arith);
}

scan_line-print_example : scan_line line ≡ ok fields
scan_line-print_example = scan_line-print text text-IsText
