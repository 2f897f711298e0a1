-- ===== src/Thread/Lifetime.antt =====
-- src/thread.c: the references to a thread, and what goes with the last one.
use libdw_bcc.Prelude.{ℕ, ◌+◌, Bool, false, Option, none, some, if◌then◌else◌}
use libdw_bcc.Outcome.{ok, fault}
use libdw_bcc.Refcount.{refcount_inc, refcount_dec_and_test}
use libdw_bcc.Rbtree.{remove, Erase}
use libdw_bcc.Store.{
  Ptr, Thread, Cmd, pure, ◌>>=◌, ◌>>◌, load_thread, store_thread, update, free_thread,
}
use libdw_bcc.Maps.Lifetime.{maps_put}
use libdw_bcc.Unwind.Access.{AddrSpaces, finish_access}
use libdw_bcc.Thread.{zeros, task_comm_len}

-- The object that thread__new makes.
abbrev pub new_thread : ℕ → ℕ → Thread
new_thread tgid tid = record {
  maps = none;
  tgid = tgid;
  tid = tid;
  name = zeros task_comm_len;
  addr_space = none;
  ulops = false;
  refcnt = 1;
}

-- thread__new
unfoldable pub thread_new : ℕ → ℕ → Cmd Ptr
thread_new tgid tid w = ok (
  w.next,
  record w { thread = update w.thread w.next (some (new_thread tgid tid)); next = w.next + 1 },
)

-- thread__get, on a pointer that is not NULL.
unfoldable pub thread_get : Ptr → Cmd Ptr
thread_get p = do
  thread ← load_thread p
  store_thread p (record thread { refcnt = refcount_inc thread.refcnt })
  pure p

-- list_del_init(&thread->node), for a thread in a list of dead threads.
abbrev pub unlink_thread : Ptr → Cmd (Unit {0})
unlink_thread p w =
    ok (tt, record w { threads = λ b. record (w.threads b) { dead = remove p (w.threads b).dead } })

module _ (erase : Erase) (spaces : AddrSpaces) where
  abbrev pub put_maps : Ptr → Thread → Option Ptr → Cmd (Unit {0})
  put_maps p thread none = pure tt
  put_maps p thread (some ms) = do maps_put erase ms; store_thread p (record thread { maps = none })

  -- thread__delete. Its assert holds: list_del_init has left the node as RB_CLEAR_NODE does, since
  -- the two members of the union begin with the same word.
  unfoldable pub thread_delete : Ptr → Cmd (Unit {0})
  thread_delete p = do
    thread ← load_thread p
    put_maps p thread thread.maps
    finish_access spaces p
    free_thread p

  -- thread__put, on a pointer that is not NULL. The last reference must not go while the thread is
  -- in no list of dead threads: list_del_init would then follow the words of a tree's node.
  unfoldable pub thread_put : Bool → Ptr → Cmd (Unit {0})
  thread_put is_dead p = do
    thread ← load_thread p
    let counted = refcount_dec_and_test thread.refcnt
    store_thread p (record thread { refcnt = counted.0 })
    if counted.1
        then (if is_dead then (do unlink_thread p; thread_delete p) else (λ w. fault))
        else pure tt
