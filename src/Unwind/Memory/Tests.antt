-- ===== src/Unwind/Memory/Tests.antt =====
-- A sample with two saved words of stack, in a process that maps a file of nine bytes.
use libdw_bcc.Prelude.{
  ℕ, ◌+◌, ◌-◌, ◌==◌, pos, negsuc, ◌≡◌, refl, inl, false, true, some, none, List, [], ◌∷◌,
  if◌then◌else◌, arith, length, take, drop,
}
use libdw_bcc.Outcome.{ok}
use libdw_bcc.Rbtree.Concrete.{root_black}
use libdw_bcc.Rbtree.{leaf, node, black}
use libdw_bcc.Utility.{Files, path_join}
use libdw_bcc.Dso.{unknown, Dso}
use libdw_bcc.Dso.Open.{binary_type_filename}
use libdw_bcc.Dso.Cache.File.{IsFile, IsDso, window}
use libdw_bcc.Store.{Map, Maps, Thread, World, update}
use libdw_bcc.Ptrace.{PtRegs}
use libdw_bcc.Unwind.Encoding.{le_value}
use libdw_bcc.Unwind.Memory.{UnwindInfo, access_mem}
use libdw_bcc.Unwind.Memory.Words.{IsSaved, access_mem-stack}
use libdw_bcc.Unwind.Memory.Mapped.{IsThread, MapsFile, access_mem-mapped, access_mem-last_word}

abbrev mapped_bytes : List ℕ
mapped_bytes = 1 ∷ 2 ∷ 3 ∷ 4 ∷ 5 ∷ 6 ∷ 7 ∷ 8 ∷ 9 ∷ []

abbrev lib_name : List ℕ
lib_name = 0x2f ∷ 0x61 ∷ []

abbrev system : Files
system = record {
  stat = λ name. some true;
  open_rdonly = λ name. some 3;
  fstat = λ fd. some (length mapped_bytes);
  pread = λ fd count offset. some (take count (drop offset mapped_bytes));
  errno = 2;
}

system-IsFile : IsFile system lib_name mapped_bytes 3
system-IsFile = record {
  regular = refl;
  opens = refl;
  stats = refl;
  reads = λ count offset. refl;
  small = omega arith;
}

abbrev closed_dso : Dso
closed_dso = record {
  content = record {
    cache = leaf;
    fd = negsuc 0;
    status = unknown;
    file_size = 0;
    eh_frame_hdr_offset = 0;
  };
  short_name = lib_name;
  long_name = lib_name;
  refcnt = 1;
}

closed_dso-IsDso : IsDso lib_name mapped_bytes 3 closed_dso
unfolding binary_type_filename path_join
closed_dso-IsDso = record {
  cached = tt;
  named = refl;
  closed_or_open = inl refl;
  no_error = refl;
  size_known = inl refl;
}

abbrev text_map : Map
text_map = record {
  start = 0x4000;
  end = 0x5000;
  prot = 5;
  flags = 2;
  pgoff = 1;
  reloc = 0;
  maj = 8;
  min = 1;
  ino = 77;
  ino_generation = 0;
  dso = some 3;
  refcnt = 1;
}

abbrev process_maps : Maps
process_maps = record { entries = node black leaf 2 leaf; head = 2 ∷ []; refcnt = 1 }

abbrev main_thread : Thread
main_thread = record {
  maps = some 1;
  tgid = 40;
  tid = 40;
  name = [];
  addr_space = none;
  ulops = true;
  refcnt = 1;
}

-- The thread is object 0, its maps object 1, the map object 2 and the dso object 3.
abbrev memory : World
memory = record {
  thread = λ p. if p == 0 then some main_thread else none;
  maps = λ p. if p == 1 then some process_maps else none;
  map = λ p. if p == 2 then some text_map else none;
  dso = λ p. if p == 3 then some closed_dso else none;
  next = 10;
  threads = λ i. record { entries = leaf; nr = 0; dead = []; last_match = none };
  dsos = record { head = []; root = leaf };
}

abbrev sampled : PtRegs
sampled = record {
  r15 = 0;
  r14 = 0;
  r13 = 0;
  r12 = 0;
  bp = 0;
  bx = 0;
  r11 = 0;
  r10 = 0;
  r9 = 0;
  r8 = 0;
  ax = 0;
  cx = 0;
  dx = 0;
  si = 0;
  di = 0;
  orig_ax = 0;
  ip = 0x4001;
  cs = 51;
  flags = 2;
  sp = 0x7000;
  ss = 43;
}

abbrev saved_stack : List ℕ
saved_stack = 9 ∷ 0 ∷ 0 ∷ 0 ∷ 0 ∷ 0 ∷ 0 ∷ 0 ∷ 7 ∷ 0 ∷ 0 ∷ 0 ∷ 0 ∷ 0 ∷ 0 ∷ 0 ∷ []

abbrev sample : UnwindInfo
sample = record {
  uc = record {
    tid = 40;
    tgid = 40;
    uregs = sampled;
    name = 0x61 ∷ [];
    size = pos 16;
    stack = saved_stack;
  };
  thread = 0;
}

sample-IsSaved : IsSaved sample 16
sample-IsSaved = record {
  saved = refl;
  some_saved = omega arith;
  stored = omega arith;
  no_wrap = omega arith;
}

sample-IsThread : IsThread memory sample 1 process_maps
sample-IsThread = record {
  thread = main_thread;
  live = refl;
  mapped = refl;
  valid = record { holds = refl; ranges = ((text_map, refl, omega arith), tt, tt) };
}

text_map-MapsFile : MapsFile memory 2 text_map 3 closed_dso lib_name mapped_bytes 3
text_map-MapsFile = record { live = refl; of_dso = refl; dso_live = refl; valid = closed_dso-IsDso }

access_mem-stack_example :
    access_mem root_black system sample 0x7000 false memory
    ≡ ok ((pos 0, some (le_value (window saved_stack (0x7000 - 0x7000) 8))), memory)
access_mem-stack_example =
    access_mem-stack root_black system sample 16 sample-IsSaved 0x7000 memory (omega arith)
      (omega arith)

access_mem-mapped_example :
    (dso' : Dso) × (access_mem root_black system sample 0x4000 false memory
      ≡ ok (
        (pos 0, some (le_value (window mapped_bytes (0x4000 - 0x4000 + 1) 8))),
        record memory { dso = update memory.dso 3 (some dso') },
      ))
    × IsDso lib_name mapped_bytes 3 dso'
access_mem-mapped_example =
    access_mem-mapped root_black system-IsFile memory sample 16 1 process_maps 2 text_map 3
      closed_dso 0x4000 sample-IsSaved sample-IsThread refl text_map-MapsFile (omega arith)
      (omega arith) (inl (omega arith))

access_mem-last_word_example :
    access_mem root_black system sample 0x7008 false memory ≡ ok ((negsuc 0, some 0), memory)
access_mem-last_word_example =
    access_mem-last_word root_black system memory sample 16 1 process_maps 0x7008 sample-IsSaved
      sample-IsThread refl refl
