-- ===== src/Event/Tests.antt =====
-- A process with one map of the file "/b": an event adds a second, a callback sees the first, and a
-- sample is unwound.
use libdw_bcc.Prelude.{
  false, ◌<◌, ◌≤◌, ne→==, ℕ, ◌+◌, ℤ, pos, negsuc, ◌==◌, ◌&&◌, ltb, leb, ◌≡◌, refl, arith,
  Bool-cases, inl, inr, true, some, none, List, [], ◌∷◌, if◌then◌else◌,
}
use libdw_bcc.Outcome.{ok, fault}
use libdw_bcc.Rbtree.{leaf, node, black}
use libdw_bcc.Rbtree.Concrete.{root_black, rebuilt}
use libdw_bcc.Dso.{Dso, unknown}
use libdw_bcc.Store.{Ptr, Map, Maps, Thread, World, Cmd, pure, lift, ◌>>◌}
use libdw_bcc.Maps.{maps_find}
use libdw_bcc.Maps.Ranges.{covering}
use libdw_bcc.Maps.Laws.{IsMaps}
use libdw_bcc.Maps.Objects.{Mmap2Event, initial_map}
use libdw_bcc.Dsos.Names.{IsSorted}
use libdw_bcc.Thread.{c_string, zeros}
use libdw_bcc.Unwind.Frames.{Unwinder, get_entries}
use libdw_bcc.Unwind.Memory.{UnwindCtx}
use libdw_bcc.Unwind.Access.{AddrSpaces}
use libdw_bcc.Unwind.Access.Prepared.{IsCreating}
use libdw_bcc.Machine.{machine_threads}
use libdw_bcc.Machine.Findnew.Known.{with_last_match, with_reference}
use libdw_bcc.Machine.Findnew.Added.{IsTable}
use libdw_bcc.Event.{
  DlPhdrInfo, ProcMaps, Scanned, prepare_mmap, process_mmap, resolve_callchain, dl_iterate_phdr,
}
use libdw_bcc.Event.Lines.{Letters, full, short, event_of, each, prepare_mmap-each}
use libdw_bcc.Event.Mapped.{process_mmap-found}
use libdw_bcc.Event.Serves.{Serves, Shows}
use libdw_bcc.Event.Samples.{resolve_callchain-Serves}
use libdw_bcc.Event.Visit.{dl_iterate_phdr-calls}

-- The file /proc/40/task/40/maps, with its lines numbered.
abbrev code_line : Scanned
code_line = record {
  count = 8;
  start = 0x6000;
  end = 0x7000;
  prot = 0x72 ∷ 0x2d ∷ 0x78 ∷ 0x70 ∷ [];
  pgoff = 0;
  maj = 8;
  min = 1;
  ino = 77;
  execname = 0x2f ∷ 0x62 ∷ [];
}

abbrev cut_line : Scanned
cut_line = record code_line { count = 3 }

abbrev a_proc : ProcMaps
a_proc = record {
  open_maps = λ tgid. if tgid == 40 then some ((1 ∷ []) ∷ (2 ∷ []) ∷ []) else none;
  sscanf = λ l. elim l [ [] ↦ fault | n ∷ r ↦ if n == 1 then ok cut_line else ok code_line ];
}

abbrev an_event : Mmap2Event
an_event = record {
  tgid = 40;
  tid = 40;
  start = 0x6000;
  len = 0x1000;
  pgoff = 0;
  maj = 8;
  min = 1;
  ino = 77;
  ino_generation = 5;
  prot = 5;
  flags = 2;
  filename = 0x2f ∷ 0x62 ∷ [];
}

abbrev r_x : Letters
r_x = record { r = 0x72; w = 0x2d; x = 0x78; s = 0x70 }

-- A handler that only counts the objects.
abbrev counting : Mmap2Event → Cmd ℤ
counting event w = ok (pos 0, record w { next = event.start })

abbrev the_dso : Dso
the_dso = record {
  content = record {
    cache = leaf;
    fd = negsuc 0;
    status = unknown;
    file_size = 0;
    eh_frame_hdr_offset = 0;
  };
  short_name = 0x62 ∷ [];
  long_name = 0x2f ∷ 0x62 ∷ [];
  refcnt = 1;
}

abbrev the_map : Map
the_map = record {
  start = 0x4000;
  end = 0x6000;
  prot = 5;
  flags = 2;
  pgoff = 0;
  reloc = 0;
  maj = 8;
  min = 1;
  ino = 77;
  ino_generation = 0;
  dso = some 9;
  refcnt = 1;
}

abbrev main_thread : Thread
main_thread = record {
  maps = some 1;
  tgid = 40;
  tid = 40;
  name = zeros 16;
  addr_space = some 5;
  ulops = true;
  refcnt = 1;
}

abbrev one_map : Maps
one_map = record { entries = node black leaf 2 leaf; head = 2 ∷ []; refcnt = 1 }

abbrev memory : World
memory = record {
  thread = λ p. if p == 0 then some main_thread else none;
  maps = λ p. if p == 1 then some one_map else none;
  map = λ p. if p == 2 then some the_map else none;
  dso = λ p. if p == 9 then some the_dso else none;
  next = 10;
  threads = λ i. record {
    entries = if i == 40 then node black leaf 0 leaf else leaf;
    nr = if i == 40 then 1 else 0;
    dead = [];
    last_match = none;
  };
  dsos = record { head = 9 ∷ []; root = node black leaf 9 leaf };
}

abbrev quiet_spaces : AddrSpaces
quiet_spaces = record {
  create = λ w. ok (some 5, w);
  flush_cache = λ o w. ok (tt, w);
  destroy = λ o w. ok (tt, w);
}

quiet_spaces-IsCreating : IsCreating quiet_spaces
quiet_spaces-IsCreating = record { space = 5; creates = λ w. refl; flushes = λ o w. refl }

memory-IsTable : IsTable memory
memory-IsTable b = record {
  tasks = elim (Bool-cases (b == 40)) [
    | inl e ↦ rw e ((main_thread, refl, omega arith), tt, tt)
    | inr e ↦ rw e tt
  ];
  cached = inl refl;
}

memory-IsMaps : IsMaps memory 1 one_map
memory-IsMaps = record { holds = refl; ranges = ((the_map, refl, omega arith), tt, tt) }

memory-IsSorted : IsSorted memory (9 ∷ [])
memory-IsSorted = ((the_dso, refl), tt, tt)

abbrev same_name : List ℕ → List ℕ
same_name name = name

prepare_mmap-each_example :
    prepare_mmap a_proc counting an_event 40 40 memory
    ≡ (each counting (event_of 5 40 40 r_x code_line ∷ []) >> pure (pos 0)) memory
prepare_mmap-each_example =
    prepare_mmap-each a_proc counting 40 40 an_event ((1 ∷ []) ∷ (2 ∷ []) ∷ [])
      (short cut_line ∷ full r_x code_line ∷ []) memory refl (refl, refl, (refl, refl, tt))

process_mmap-found_example :
    (w' : World) × (maps' : Maps) × (process_mmap root_black rebuilt quiet_spaces same_name an_event
        memory
      ≡ ok (pos 0, w'))
    × IsMaps w' 1 maps'
    × (w'.map 10 ≡ some (initial_map an_event 9))
    × ((t' : Thread) × (w'.thread 0 ≡ some t') × (t'.maps ≡ some 1) × (t'.refcnt ≡ 1))
    × ((ip : ℕ)
        → maps_find 1 ip w'
          ≡ ok
              (if leb 0x6000 ip && ltb ip 0x7000 then some 10 else covering memory ip (2 ∷ []), w'))
unfolding machine_threads
process_mmap-found_example =
    process_mmap-found root_black rebuilt quiet_spaces quiet_spaces-IsCreating same_name memory
      an_event 0 1 9 main_thread one_map the_dso (omega arith) memory-IsTable refl refl refl
      (omega arith) (omega arith) refl memory-IsMaps refl memory-IsSorted refl refl (omega arith)
      (inl (omega arith), tt)

-- A callback that counts, and stops at the first map above 0x5000.
abbrev count_low : DlPhdrInfo → ℕ → ℤ × ℕ
count_low info n = if ltb 0x5000 info.start_addr then (negsuc 0, n) else (pos 0, n + 1)

dl_iterate_phdr-calls_example :
    dl_iterate_phdr root_black rebuilt quiet_spaces count_low 40 0 memory
    ≡ ok (
      (pos 0, 1),
      with_reference (with_last_match memory (machine_threads 40) (some 0)) 0 main_thread,
    )
unfolding machine_threads
dl_iterate_phdr-calls_example =
    dl_iterate_phdr-calls count_low root_black rebuilt quiet_spaces memory 0 1 main_thread one_map
      40 0 (record { start_addr = 0x4000; end_addr = 0x6000; dlpi_name = 0x2f ∷ 0x62 ∷ [] } ∷ [])
      (omega arith) memory-IsTable refl refl refl refl refl
      ((the_map, 9, the_dso, refl, refl, refl, refl), tt)

-- A stack of one frame.
abbrev one_frame : Unwinder ℕ
one_frame = record {
  init_remote = λ a. (pos 0, 0);
  step = λ c. (pos 0, c);
  get_ip = λ c. 0;
  is_signal_frame = λ c. pos 0;
}

abbrev sample : UnwindCtx
sample = record {
  tid = 40;
  tgid = 40;
  uregs = record {
    r15 = 0;
    r14 = 0;
    r13 = 0;
    r12 = 0;
    bp = 0;
    bx = 0;
    r11 = 0;
    r10 = 0;
    r9 = 0;
    r8 = 0;
    ax = 0;
    cx = 0;
    dx = 0;
    si = 0;
    di = 0;
    orig_ax = 0;
    ip = 0x4001;
    cs = 51;
    flags = 2;
    sp = 0x7000;
    ss = 43;
  };
  name = 0x61 ∷ [];
  size = pos 0;
  stack = [];
}

unused_from_ten : (q a : ℕ) → a < 10 → 10 ≤ q → (q == a) ≡ false
unused_from_ten q a lt le = ne→== q a (λ e. omega (arith, e, lt, le))

unfoldable serving : Serves memory 40 40 0 1 one_map
unfolding machine_threads
serving = record {
  table = memory-IsTable;
  found = refl;
  thread = main_thread;
  live = refl;
  own = refl;
  ready = (5, refl, refl);
  named = refl;
  shared = refl;
  referenced = omega arith;
  room = omega arith;
  valid = memory-IsMaps;
  sorted = memory-IsSorted;
  unused_map = λ q le. rw (unused_from_ten q 2 (omega arith) le);
  unused_dso = λ q le. rw (unused_from_ten q 9 (omega arith) le);
}

resolve_callchain-Serves_example :
    (w' : World) × (s : Serves w' 40 40 0 1 one_map) × (resolve_callchain root_black rebuilt
        quiet_spaces one_frame
        (record { depth = pos 4; has_ips = true })
        sample
        memory
      ≡ lift
          (get_entries one_frame sample.uregs (some 5) (record { depth = pos 4; has_ips = true }))
          w')
    × (s.thread.refcnt ≡ 2)
    × (c_string s.thread.name ≡ [])
    × ((ip : ℕ) → maps_find 1 ip w' ≡ ok (covering memory ip (2 ∷ []), w'))
    × ((e : Mmap2Event) (q : Ptr) → Shows memory e q → Shows w' e q)
unfolding serving
resolve_callchain-Serves_example =
    resolve_callchain-Serves one_frame root_black rebuilt quiet_spaces quiet_spaces-IsCreating
      memory (record { depth = pos 4; has_ips = true }) sample 0 1 one_map (omega arith) serving
      (omega arith)
