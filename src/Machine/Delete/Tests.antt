-- ===== src/Machine/Delete/Tests.antt =====
-- A thread of a process leaves the table.
use libdw_bcc.Prelude.{
  ℕ, ◌==◌, ==_iff, sym, Bool-cases, inl, inr, ◌≡◌, refl, arith, true, none, some, [], if◌then◌else◌,
}
use libdw_bcc.Outcome.{ok}
use libdw_bcc.Refcount.{refcount_inc}
use libdw_bcc.Rbtree.{leaf, node, black}
use libdw_bcc.Rbtree.Concrete.{rebuilt}
use libdw_bcc.Store.{Maps, Thread, World}
use libdw_bcc.Thread.{zeros}
use libdw_bcc.Unwind.Access.{AddrSpaces}
use libdw_bcc.Machine.{machine_threads}
use libdw_bcc.Machine.Findnew.Added.{IsTable}
use libdw_bcc.Machine.Laws.{thread_at}
use libdw_bcc.Machine.Delete.{remove_thread}
use libdw_bcc.Machine.Delete.Laws.{IsHashed, remove_thread-held, remove_thread-last}

-- The thread 41 of the process 40, with some number of references.
abbrev member : ℕ → Thread
member r = record {
  maps = some 1;
  tgid = 40;
  tid = 41;
  name = zeros 16;
  addr_space = some 5;
  ulops = true;
  refcnt = r;
}

abbrev shared_maps : Maps
shared_maps = record { entries = leaf; head = []; refcnt = 2 }

abbrev memory : ℕ → World
memory r = record {
  thread = λ p. if p == 0 then some (member r) else none;
  maps = λ p. if p == 1 then some shared_maps else none;
  map = λ p. none;
  dso = λ p. none;
  next = 10;
  threads = λ i. record {
    entries = if i == 41 then node black leaf 0 leaf else leaf;
    nr = if i == 41 then 1 else 0;
    dead = [];
    last_match = none;
  };
  dsos = record { head = []; root = leaf };
}

abbrev quiet_spaces : AddrSpaces
quiet_spaces = record {
  create = λ w. ok (some 5, w);
  flush_cache = λ o w. ok (tt, w);
  destroy = λ o w. ok (tt, w);
}

memory-IsTable : (r : ℕ) → IsTable (memory r)
memory-IsTable r b = record {
  tasks = elim (Bool-cases (b == 41)) [
    | inl e ↦ rw e ((member r, refl, omega arith), tt, tt)
    | inr e ↦ rw e tt
  ];
  cached = inl refl;
}

memory-IsHashed : (r : ℕ) → IsHashed (memory r)
unfolding machine_threads
memory-IsHashed r c = elim (Bool-cases (c == 41)) [
  | inl e ↦ rw e (sym ((==_iff c 41).0 e), tt)
  | inr e ↦ rw e tt
]

remove_thread-held_example :
    (w' : World) × (remove_thread rebuilt quiet_spaces 0 (memory 2) ≡ ok (tt, w'))
    × IsTable w'
    × ((i : ℕ) → thread_at w' i ≡ (if 41 == i then none else thread_at (memory 2) i))
    × (w'.thread 0 ≡ some (member 1))
unfolding machine_threads refcount_inc
remove_thread-held_example =
    remove_thread-held rebuilt quiet_spaces (memory 2) 0 (member 2) 1 (memory-IsTable 2) refl refl
      refl (omega arith) (omega arith)

remove_thread-last_example :
    (w' : World) × (remove_thread rebuilt quiet_spaces 0 (memory 1) ≡ ok (tt, w'))
    × IsTable w'
    × ((i : ℕ) → thread_at w' i ≡ (if 41 == i then none else thread_at (memory 1) i))
    × (w'.thread 0 ≡ none)
    × (w'.maps 1 ≡ some (record shared_maps { refcnt = 1 }))
unfolding machine_threads refcount_inc
remove_thread-last_example =
    remove_thread-last rebuilt quiet_spaces (λ o w. refl) (memory 1) 0 1 (member 1) shared_maps 1
      (memory-IsTable 1) (memory-IsHashed 1) refl refl refl refl refl refl (omega arith)
      (omega arith)
