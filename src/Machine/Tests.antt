-- ===== src/Machine/Tests.antt =====
-- A machine with one process, and the searches for its threads.
use libdw_bcc.Prelude.{
  ℕ, ◌==◌, Bool-cases, inl, inr, ◌≡◌, refl, arith, false, true, none, some, [], ◌∷◌, if◌then◌else◌,
}
use libdw_bcc.Outcome.{ok}
use libdw_bcc.Refcount.{refcount_inc}
use libdw_bcc.Rbtree.{leaf, node, black}
use libdw_bcc.Rbtree.Concrete.{root_black, rebuilt}
use libdw_bcc.Store.{Ptr, pure, Maps, Thread, World}
use libdw_bcc.Thread.{zeros}
use libdw_bcc.Thread.Lifetime.{new_thread}
use libdw_bcc.Unwind.Access.{AddrSpaces}
use libdw_bcc.Machine.{machine_threads}
use libdw_bcc.Machine.Findnew.{findnew_in, machine_findnew_thread}
use libdw_bcc.Machine.Findnew.Depth.{findnew_depth}
use libdw_bcc.Machine.Findnew.Known.{with_last_match, with_reference}
use libdw_bcc.Machine.Findnew.Added.{IsTable}
use libdw_bcc.Machine.Findnew.Leader.{no_maps}
use libdw_bcc.Machine.Findnew.Member.{IsLeader}
use libdw_bcc.Machine.Laws.{thread_at, findnew-known, findnew-leader, findnew-member}

-- The process 40, whose thread is object 0 and whose maps are object 1.
abbrev main_thread : Thread
main_thread = record {
  maps = some 1;
  tgid = 40;
  tid = 40;
  name = zeros 16;
  addr_space = none;
  ulops = false;
  refcnt = 1;
}

abbrev one_map : Maps
one_map = record { entries = node black leaf 2 leaf; head = 2 ∷ []; refcnt = 1 }

abbrev memory : World
memory = record {
  thread = λ p. if p == 0 then some main_thread else none;
  maps = λ p. if p == 1 then some one_map else none;
  map = λ p. none;
  dso = λ p. none;
  next = 10;
  threads = λ i. record {
    entries = if i == 40 then node black leaf 0 leaf else leaf;
    nr = if i == 40 then 1 else 0;
    dead = [];
    last_match = none;
  };
  dsos = record { head = []; root = leaf };
}

abbrev quiet_spaces : AddrSpaces
quiet_spaces = record {
  create = λ w. ok (some 5, w);
  flush_cache = λ o w. ok (tt, w);
  destroy = λ o w. ok (tt, w);
}

memory-IsTable : IsTable memory
memory-IsTable b = record {
  tasks = elim (Bool-cases (b == 40)) [
    | inl e ↦ rw e ((main_thread, refl, omega arith), tt, tt)
    | inr e ↦ rw e tt
  ];
  cached = inl refl;
}

memory-IsLeader : IsLeader memory (machine_threads 40) 40 0 main_thread 1 one_map
unfolding machine_threads
memory-IsLeader = record {
  found = refl;
  live = refl;
  own = refl;
  shared = refl;
  held = refl;
  referenced = omega arith;
  room = omega arith;
}

findnew-known_example :
    machine_findnew_thread root_black rebuilt quiet_spaces 40 40 memory
    ≡ ok (
      some 0,
      with_reference (with_last_match memory (machine_threads 40) (some 0)) 0 main_thread,
    )
unfolding machine_threads
findnew-known_example =
    findnew-known root_black rebuilt quiet_spaces memory 0 main_thread 40 40 (omega arith)
      memory-IsTable refl refl refl

findnew-leader_example :
    (w' : World) × (machine_findnew_thread root_black rebuilt quiet_spaces 296 296 memory
      ≡ ok (some 10, w'))
    × IsTable w'
    × ((i : ℕ) → thread_at w' i ≡ (if 296 == i then some 10 else thread_at memory i))
    × (w'.thread 10 ≡ some (record (new_thread 296 296) { maps = some 11; refcnt = 2 }))
    × (w'.maps 11 ≡ some no_maps)
unfolding machine_threads
findnew-leader_example =
    findnew-leader root_black rebuilt quiet_spaces memory 296 (omega arith) memory-IsTable refl refl

findnew-member_example :
    (w' : World) × (machine_findnew_thread root_black rebuilt quiet_spaces 40 41 memory
      ≡ ok (some 10, w'))
    × IsTable w'
    × ((i : ℕ) → thread_at w' i ≡ (if 41 == i then some 10 else thread_at memory i))
    × (w'.thread 10 ≡ some (record (new_thread 40 41) { maps = some 1; refcnt = 2 }))
    × (w'.maps 1 ≡ some (record one_map { refcnt = refcount_inc 1 }))
    × ((q : Ptr) → ¬ (10 ≡ q) → w'.thread q ≡ memory.thread q)
unfolding machine_threads
findnew-member_example =
    findnew-member root_black rebuilt quiet_spaces memory 40 41 0 main_thread 1 one_map
      (omega arith) (omega arith) (λ e. omega arith) memory-IsTable refl refl memory-IsLeader

-- In place of a call inside the search for the leader: a command that says there is no thread.
findnew_depth_example :
    findnew_in root_black rebuilt quiet_spaces
      (λ leader.
        findnew_in root_black rebuilt quiet_spaces
          (λ l. pure none)
          true
          (machine_threads leader)
          leader
          leader)
      true
      (machine_threads 41)
      40
      41
      memory
    ≡ machine_findnew_thread root_black rebuilt quiet_spaces 40 41 memory
findnew_depth_example = findnew_depth root_black rebuilt quiet_spaces (λ l. pure none) 40 41 memory
