-- ===== src/Event/Filled/Tests.antt =====
-- A machine that has just been set up reads a process of three lines.
use libdw_bcc.Prelude.{
  ℕ, pos, ◌==◌, ◌≡◌, refl, arith, Option, some, none, List, [], ◌∷◌, map, All, if◌then◌else◌, inl,
}
use libdw_bcc.Outcome.{ok}
use libdw_bcc.Rbtree.Concrete.{root_black, rebuilt}
use libdw_bcc.Store.{Maps, World}
use libdw_bcc.Maps.Objects.{Mmap2Event}
use libdw_bcc.Unwind.Access.{AddrSpaces}
use libdw_bcc.Unwind.Access.Prepared.{IsCreating}
use libdw_bcc.Machine.{dsos_init, threads_init}
use libdw_bcc.Machine.Findnew.Added.{IsTable}
use libdw_bcc.Event.{thread_map}
use libdw_bcc.Event.Lines.{event_of}
use libdw_bcc.Event.Scan.{hex_digit}
use libdw_bcc.Event.Scan.Text.{Text, IsText, print, fields_of, text_proc, line_of, Reads-print}
use libdw_bcc.Event.Serves.{Serves}
use libdw_bcc.Event.Filled.{covering_event, IsShown, thread_map-new}

abbrev nothing : World
nothing = record {
  thread = λ p. none;
  maps = λ p. none;
  map = λ p. none;
  dso = λ p. none;
  next = 1;
  threads = λ i. threads_init;
  dsos = dsos_init;
}

abbrev quiet_spaces : AddrSpaces
quiet_spaces = record {
  create = λ w. ok (some 5, w);
  flush_cache = λ o w. ok (tt, w);
  destroy = λ o w. ok (tt, w);
}

quiet_spaces-IsCreating : IsCreating quiet_spaces
quiet_spaces-IsCreating = record { space = 5; creates = λ w. refl; flushes = λ o w. refl }

nothing-IsTable : IsTable nothing
unfolding threads_init
nothing-IsTable b = record { tasks = tt; cached = inl refl }

-- "6000-7000 r-xp 1000 8:1 77 /b", a line of data, and "9000-a000 r-xp 3000 8:1 77 /b".
abbrev file_text : Text
file_text = record {
  start = 0x36 ∷ 0x30 ∷ 0x30 ∷ 0x30 ∷ [];
  end = 0x37 ∷ 0x30 ∷ 0x30 ∷ 0x30 ∷ [];
  prot = record { r = 0x72; w = 0x2d; x = 0x78; s = 0x70 };
  pgoff = 0x31 ∷ 0x30 ∷ 0x30 ∷ 0x30 ∷ [];
  maj = 0x38 ∷ [];
  min = 0x31 ∷ [];
  ino = 0x37 ∷ 0x37 ∷ [];
  gap = [];
  name = 0x2f ∷ 0x62 ∷ [];
}

abbrev data_text : Text
data_text = record file_text {
  start = 0x37 ∷ 0x30 ∷ 0x30 ∷ 0x30 ∷ [];
  end = 0x39 ∷ 0x30 ∷ 0x30 ∷ 0x30 ∷ [];
  prot = record { r = 0x72; w = 0x77; x = 0x2d; s = 0x70 };
}

abbrev high_text : Text
high_text = record file_text {
  start = 0x39 ∷ 0x30 ∷ 0x30 ∷ 0x30 ∷ [];
  end = 0x61 ∷ 0x30 ∷ 0x30 ∷ 0x30 ∷ [];
  pgoff = 0x33 ∷ 0x30 ∷ 0x30 ∷ 0x30 ∷ [];
}

abbrev texts : List Text
texts = file_text ∷ data_text ∷ high_text ∷ []

-- Three zeros behind a digit.
abbrev Zeros : Type 0
Zeros = All (λ b. (d : ℕ) × (hex_digit b ≡ some d)) (0x30 ∷ 0x30 ∷ 0x30 ∷ [])

zeros_ : Zeros
zeros_ = ((0, refl), ((0, refl), ((0, refl), tt)))

file_text-IsText : IsText file_text
file_text-IsText = record {
  start = ((6, refl), zeros_, omega arith);
  end = ((7, refl), zeros_, omega arith);
  prot = (refl, (refl, (refl, (refl, tt))));
  pgoff = ((1, refl), zeros_, omega arith);
  maj = ((8, refl), tt, omega arith);
  min = ((1, refl), tt, omega arith);
  ino = ((7, refl), ((7, refl), tt), omega arith);
  gap = tt;
  name = (refl, (refl, (refl, tt)), omega arith);
}

data_text-IsText : IsText data_text
data_text-IsText = record {
  start = ((7, refl), zeros_, omega arith);
  end = ((9, refl), zeros_, omega arith);
  prot = (refl, (refl, (refl, (refl, tt))));
  pgoff = ((1, refl), zeros_, omega arith);
  maj = ((8, refl), tt, omega arith);
  min = ((1, refl), tt, omega arith);
  ino = ((7, refl), ((7, refl), tt), omega arith);
  gap = tt;
  name = (refl, (refl, (refl, tt)), omega arith);
}

high_text-IsText : IsText high_text
high_text-IsText = record {
  start = ((9, refl), zeros_, omega arith);
  end = ((10, refl), zeros_, omega arith);
  prot = (refl, (refl, (refl, (refl, tt))));
  pgoff = ((3, refl), zeros_, omega arith);
  maj = ((8, refl), tt, omega arith);
  min = ((1, refl), tt, omega arith);
  ino = ((7, refl), ((7, refl), tt), omega arith);
  gap = tt;
  name = (refl, (refl, (refl, tt)), omega arith);
}

-- The file of the process 40.
abbrev files : ℕ → Option (List (List ℕ))
files tgid = if tgid == 40 then some (map print texts) else none

abbrev code_event : Mmap2Event
code_event = event_of 5 40 40 (file_text.prot) (fields_of file_text)

abbrev high_event : Mmap2Event
high_event = event_of 5 40 40 (high_text.prot) (fields_of high_text)

abbrev an_event : Mmap2Event
an_event = record code_event { tgid = 0; tid = 0 }

abbrev same_name : List ℕ → List ℕ
same_name name = name

thread_map-new_example :
    (w' : World) × (maps : Maps) × (thread_map root_black rebuilt quiet_spaces same_name
        (text_proc files)
        an_event
        40
        40
        nothing
      ≡ ok (pos 0, w'))
    × Serves w' 40 40 1 2 maps
    × ((ip : ℕ) → IsShown w' 2 none ip (covering_event ip (code_event ∷ high_event ∷ [])))
unfolding threads_init dsos_init
thread_map-new_example =
    thread_map-new root_black rebuilt quiet_spaces quiet_spaces-IsCreating same_name
      (text_proc files) nothing an_event code_event (high_event ∷ []) 40 (map print texts)
      (map line_of texts) (omega arith) nothing-IsTable refl (λ q le. refl) (λ q le. refl)
      (λ q le. refl) tt refl
      (Reads-print files texts (file_text-IsText, (data_text-IsText, (high_text-IsText, tt)))) refl
      ((refl, refl, omega arith), (inl (omega arith), tt), ((refl, refl, omega arith), tt, tt))
