-- ===== src/Unwind/Table/Tests.antt =====
-- A process that maps a small file, whose section .eh_frame_hdr begins at offset 4.
use libdw_bcc.Prelude.{
  ℕ, ℤ, ◌==◌, pos, negsuc, ◌≡◌, refl, inl, true, some, none, Option, List, [], ◌∷◌, if◌then◌else◌,
  arith, length, take, drop,
}
use libdw_bcc.Outcome.{ok}
use libdw_bcc.Rbtree.Concrete.{root_black}
use libdw_bcc.Rbtree.{leaf, node, black}
use libdw_bcc.Utility.{Files, path_join}
use libdw_bcc.Dso.{unknown, Dso}
use libdw_bcc.Dso.Open.{binary_type_filename}
use libdw_bcc.Dso.Cache.File.{IsFile, IsDso}
use libdw_bcc.Store.{Map, Maps, Thread, World, Cmd, update}
use libdw_bcc.Ptrace.{PtRegs}
use libdw_bcc.Symbol.{
  FoundIn, next_named, Shdr, Libelf, is_named, elf_section_by_name, elf_section_by_name-first, last,
  next,
}
use libdw_bcc.Unwind.Encoding.{sdata4, udata4}
use libdw_bcc.Unwind.Encoding.RoundTrip.{le_bytes}
use libdw_bcc.Unwind.Memory.{UnwindInfo}
use libdw_bcc.Unwind.Memory.Mapped.{IsThread, MapsFile}
use libdw_bcc.Unwind.Table.{eh_frame_hdr_name}
use libdw_bcc.Unwind.Table.Located.{HeaderAt, SectionAt, looked_up}
use libdw_bcc.Unwind.Table.Proc.{DynInfo, table_of, find_proc_info, find_proc_info-Located}

abbrev mapped_bytes : List ℕ
mapped_bytes =
    0 ∷ 0 ∷ 0 ∷ 0 ∷ 1 ∷ 0x1b ∷ 0x03 ∷ 0x3b ∷ 0x40 ∷ 0 ∷ 0 ∷ 0 ∷ 2 ∷ 0 ∷ 0 ∷ 0 ∷ 5 ∷ 6 ∷ 7 ∷ 8 ∷ 9
    ∷ 0 ∷ 0 ∷ 0 ∷ []

abbrev lib_name : List ℕ
lib_name = 0x2f ∷ 0x61 ∷ []

abbrev system : Files
system = record {
  stat = λ name. some true;
  open_rdonly = λ name. some 3;
  fstat = λ fd. some (length mapped_bytes);
  pread = λ fd count offset. some (take count (drop offset mapped_bytes));
  errno = 2;
}

system-IsFile : IsFile system lib_name mapped_bytes 3
system-IsFile = record {
  regular = refl;
  opens = refl;
  stats = refl;
  reads = λ count offset. refl;
  small = omega arith;
}

abbrev closed_dso : Dso
closed_dso = record {
  content = record {
    cache = leaf;
    fd = negsuc 0;
    status = unknown;
    file_size = 0;
    eh_frame_hdr_offset = 0;
  };
  short_name = lib_name;
  long_name = lib_name;
  refcnt = 1;
}

closed_dso-IsDso : IsDso lib_name mapped_bytes 3 closed_dso
unfolding binary_type_filename path_join
closed_dso-IsDso = record {
  cached = tt;
  named = refl;
  closed_or_open = inl refl;
  no_error = refl;
  size_known = inl refl;
}

abbrev text_map : Map
text_map = record {
  start = 0x4000;
  end = 0x5000;
  prot = 5;
  flags = 2;
  pgoff = 0;
  reloc = 0;
  maj = 8;
  min = 1;
  ino = 77;
  ino_generation = 0;
  dso = some 3;
  refcnt = 1;
}

abbrev process_maps : Maps
process_maps = record { entries = node black leaf 2 leaf; head = 2 ∷ []; refcnt = 1 }

abbrev main_thread : Thread
main_thread = record {
  maps = some 1;
  tgid = 40;
  tid = 40;
  name = [];
  addr_space = none;
  ulops = true;
  refcnt = 1;
}

-- The thread is object 0, its maps object 1, the map object 2 and the dso object 3.
abbrev memory : World
memory = record {
  thread = λ p. if p == 0 then some main_thread else none;
  maps = λ p. if p == 1 then some process_maps else none;
  map = λ p. if p == 2 then some text_map else none;
  dso = λ p. if p == 3 then some closed_dso else none;
  next = 10;
  threads = λ i. record { entries = leaf; nr = 0; dead = []; last_match = none };
  dsos = record { head = []; root = leaf };
}

abbrev sampled : PtRegs
sampled = record {
  r15 = 0;
  r14 = 0;
  r13 = 0;
  r12 = 0;
  bp = 0;
  bx = 0;
  r11 = 0;
  r10 = 0;
  r9 = 0;
  r8 = 0;
  ax = 0;
  cx = 0;
  dx = 0;
  si = 0;
  di = 0;
  orig_ax = 0;
  ip = 0x4001;
  cs = 51;
  flags = 2;
  sp = 0x7000;
  ss = 43;
}

abbrev saved_stack : List ℕ
saved_stack = 9 ∷ 0 ∷ 0 ∷ 0 ∷ 0 ∷ 0 ∷ 0 ∷ 0 ∷ 7 ∷ 0 ∷ 0 ∷ 0 ∷ 0 ∷ 0 ∷ 0 ∷ 0 ∷ []

abbrev sample : UnwindInfo
sample = record {
  uc = record {
    tid = 40;
    tgid = 40;
    uregs = sampled;
    name = 0x61 ∷ [];
    size = pos 16;
    stack = saved_stack;
  };
  thread = 0;
}

sample-IsThread : IsThread memory sample 1 process_maps
sample-IsThread = record {
  thread = main_thread;
  live = refl;
  mapped = refl;
  valid = record { holds = refl; ranges = ((text_map, refl, omega arith), tt, tt) };
}

text_map-MapsFile : MapsFile memory 2 text_map 3 closed_dso lib_name mapped_bytes 3
text_map-MapsFile = record { live = refl; of_dso = refl; dso_live = refl; valid = closed_dso-IsDso }

-- Sections 1 and 2 of an ELF file; the second one has the name at index 7.
abbrev two_sections : Libelf ℕ ℕ
two_sections = record {
  elf_begin = λ fd. some fd;
  gelf_getehdr = λ elf. some 3;
  elf_rawdata = λ elf shstrndx. true;
  elf_nextscn = λ elf sec. elim sec [ none ↦ some 1 | some s ↦ if s == 1 then some 2 else none ];
  gelf_getshdr = λ s.
      some (record { sh_name = if s == 1 then 1 else 7; sh_offset = if s == 1 then 64 else 4 });
  elf_strptr = λ elf shstrndx i. if i == 7 then some eh_frame_hdr_name else none;
}

abbrev section_1 : Shdr
section_1 = record { sh_name = 1; sh_offset = 64 }

abbrev section_2 : Shdr
section_2 = record { sh_name = 7; sh_offset = 4 }

section_at : SectionAt two_sections 3 3 4
unfolding is_named
section_at = record {
  elf = 3;
  shstrndx = 3;
  secs = (1, section_1) ∷ (2, section_2) ∷ [];
  scn = 2;
  shdr = section_2;
  idx = 2;
  begins = refl;
  has_header = refl;
  has_names = refl;
  sections = next refl refl (next refl refl (last refl));
  enough = omega arith;
  found = refl;
  at_offset = refl;
}

header_at : HeaderAt mapped_bytes 4 sdata4 udata4 2
unfolding le_bytes
header_at = record {
  version = 1;
  pcrel = true;
  ptr = 0x40;
  table_enc = 0x3b;
  rest = 5 ∷ 6 ∷ 7 ∷ 8 ∷ 9 ∷ 0 ∷ 0 ∷ 0 ∷ [];
  holds = refl;
  in_file = omega arith;
  not_first = omega arith;
  small = omega arith;
  fits = refl;
}

-- A search that finds nothing.
abbrev not_found : DynInfo → ℕ → Cmd ℤ
not_found di ip w = ok (negsuc 9, w)

find_proc_info-Located_example :
    (dso' : Dso) × (find_proc_info root_black system two_sections 3 0x7ff0 not_found 0x4001 sample
        memory
      ≡ not_found
          (table_of text_map 4 sdata4 udata4 2)
          0x4001
          (record memory { dso = update memory.dso 3 (some dso') }))
    × IsDso lib_name mapped_bytes 3 dso'
find_proc_info-Located_example =
    find_proc_info-Located two_sections 3 3 root_black system-IsFile 0x7ff0 not_found memory sample
      1 process_maps 2 text_map 3 closed_dso 0x4001 4 sdata4 udata4 2 sample-IsThread refl
      text_map-MapsFile (looked_up refl section_at) header_at (omega arith)

elf_section_by_name-first_example :
    (found : Option (ℕ × Shdr × ℕ)) × (elf_section_by_name two_sections 3 3 3 eh_frame_hdr_name
      ≡ ok found)
    × FoundIn two_sections 3 3 eh_frame_hdr_name ((1, section_1) ∷ (2, section_2) ∷ []) 1 found
elf_section_by_name-first_example =
    elf_section_by_name-first two_sections 3 3 3 eh_frame_hdr_name
      ((1, section_1) ∷ (2, section_2) ∷ []) refl (next refl refl (next refl refl (last refl)))
      (omega arith)

-- The first section has no string.
by_name : elf_section_by_name two_sections 3 3 3 eh_frame_hdr_name ≡ ok (some (2, section_2, 2))
unfolding elf_section_by_name next_named is_named
by_name = refl
