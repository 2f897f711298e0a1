-- ===== src/Machine/Delete.antt =====
-- src/machine.c: a thread leaves the table, and the machine is deleted.
pub mod Removed
pub mod Run
mod Laws
mod Tests
use libdw_bcc.Prelude.{
  ℕ, zero, suc, ◌+◌, ◌==◌, ◌++◌, sub32, true, not, Option, none, some, List, [], ◌∷◌, if◌then◌else◌,
}
use libdw_bcc.Outcome.{ok, assert}
use libdw_bcc.Rbtree.{Erase, remove, to_list}
use libdw_bcc.Store.{Ptr, Cmd, pure, ◌>>=◌, ◌>>◌, lift, load_thread, load_threads, store_threads}
use libdw_bcc.Dsos.{dso_put}
use libdw_bcc.Thread.Lifetime.{thread_put}
use libdw_bcc.Unwind.Access.{AddrSpaces}
use libdw_bcc.Machine.{threads_table_size, machine_threads}
use libdw_bcc.Machine.Findnew.{is_ptr}

-- list_del_init(&pos->node), for the list of all shared objects.
abbrev pub unlink_dso : Ptr → Cmd (Unit {0})
unlink_dso d w = ok (tt, record w { dsos = record w.dsos { head = remove d w.dsos.head } })

-- The loop of dsos__purge. The root of the tree keeps its pointers: no search follows them.
unfoldable pub purge_dsos : List Ptr → Cmd (Unit {0})
purge_dsos [] = pure tt
purge_dsos (d ∷ ds) = (unlink_dso d >> dso_put d) >> purge_dsos ds

-- dsos__purge
unfoldable pub dsos_purge : Cmd (Unit {0})
dsos_purge w = purge_dsos w.dsos.head w

-- dsos__exit
abbrev pub dsos_exit : Cmd (Unit {0})
dsos_exit = dsos_purge

-- machine__exit
unfoldable pub machine_exit : Cmd (Unit {0})
machine_exit = dsos_exit

-- The cached thread of a bucket is forgotten, if it is the one that leaves.
unfoldable pub forget : ℕ → Ptr → Cmd (Unit {0})
forget b th = do
  threads ← load_threads b
  if is_ptr threads.last_match th
      then store_threads b (record threads { last_match = none })
      else pure tt

-- The thread goes from the tree of its bucket to the list of the dead.
unfoldable pub bury : Erase → ℕ → Ptr → Cmd (Unit {0})
bury erase b th = do
  threads ← load_threads b
  store_threads b (record threads {
    entries = erase.rb_erase th threads.entries;
    nr = sub32 threads.nr 1;
    dead = threads.dead ++ (th ∷ []);
  })

module _ (erase : Erase) (spaces : AddrSpaces) where
  -- __machine__remove_thread
  unfoldable pub remove_thread : Ptr → Cmd (Unit {0})
  remove_thread th = do
    thread ← load_thread th
    let b = machine_threads thread.tid
    forget b th
    lift (assert (not (thread.refcnt == 0)))
    bury erase b th
    thread_put erase spaces true th

  -- The inner loop of machine__delete_threads: the next node is read before one is erased.
  unfoldable pub remove_threads : List Ptr → Cmd (Unit {0})
  remove_threads [] = pure tt
  remove_threads (p ∷ ps) = remove_thread p >> remove_threads ps

  -- The outer loop, over `n` buckets from `i` on.
  unfoldable pub delete_buckets : ℕ → ℕ → Cmd (Unit {0})
  delete_buckets zero i = pure tt
  delete_buckets (suc n) i =
      (load_threads i >>= λ threads. remove_threads (to_list threads.entries))
      >> delete_buckets n (i + 1)

  -- machine__delete_threads
  unfoldable pub delete_threads : Cmd (Unit {0})
  delete_threads = delete_buckets threads_table_size 0

  -- machine__delete, on a pointer that is not NULL. The tables of the freed machine are not used
  -- any more.
  unfoldable pub machine_delete : Cmd (Unit {0})
  machine_delete = delete_threads >> machine_exit
