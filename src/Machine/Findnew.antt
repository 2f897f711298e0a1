-- ===== src/Machine/Findnew.antt =====
-- machine__findnew_thread with thread__init_maps (src/thread.c): the thread of a tid, made if there
-- is none. Threads of a process share the maps of its leader, so the search calls itself for the
-- leader; it takes that call as the argument `leader_of`, on the leader's id.
pub mod Depth
pub mod Known
pub mod Added
pub mod Search
pub mod Kept
pub mod Leader
pub mod Shared
pub mod Member
use libdw_bcc.Prelude.{
  ℕ, zero, suc, ◌+◌, ◌%◌, ◌^◌, ltb, ◌==◌, add32, Bool, true, false, Option, none, some,
  if◌then◌else◌,
}
use libdw_bcc.Outcome.{ok, abort, fault, assert}
use libdw_bcc.Rbtree.{Balance, Erase, rb_link_node, Slot}
use libdw_bcc.Rbtree.Search.{Turn, go_left, go_right, stop, descend, slot}
use libdw_bcc.Store.{
  Ptr, Thread, Threads, World, Cmd, pure, ◌>>=◌, ◌>>◌, lift, load_thread, store_thread,
  load_threads, store_threads, update, with_threads,
}
use libdw_bcc.Maps.Lifetime.{maps_new, maps_get, maps_empty, maps_put}
use libdw_bcc.Thread.Lifetime.{new_thread, thread_new, thread_get, thread_put}
use libdw_bcc.Unwind.Access.{AddrSpaces}
use libdw_bcc.Machine.{machine_threads}

-- The order of pid_t, on 32-bit patterns.
abbrev pub signed_key : ℕ → ℕ
signed_key a = (a + 2 ^ 31) % 2 ^ 32

abbrev pub lt_pid : ℕ → ℕ → Bool
lt_pid a b = ltb (signed_key a) (signed_key b)

abbrev pub is_some : Option Ptr → Bool
is_some none = false
is_some (some p) = true

abbrev pub is_ptr : Option Ptr → Ptr → Bool
is_ptr none p = false
is_ptr (some q) p = q == p

-- The comparison of the loop. It stops at a dangling pointer, which is then read.
unfoldable pub thread_turn : (Ptr → Option Thread) → ℕ → Ptr → Turn
thread_turn threads tid q = elim (threads q) [
  | none ↦ stop
  | some th ↦ if th.tid == tid then stop else if lt_pid tid th.tid then go_left else go_right
]

unfoldable pub set_maps : Ptr → Option Ptr → Cmd (Unit {0})
set_maps th ms = do thread ← load_thread th; store_thread th (record thread { maps = ms })

abbrev pub get_maps : Option Ptr → Cmd (Unit {0})
get_maps none = pure tt
get_maps (some ms) = maps_get ms >>= λ _. pure tt

module _ (balance : Balance Ptr) (erase : Erase) (spaces : AddrSpaces) where
  -- A new thread linked at a slot of its bucket.
  abbrev pub linked : World → ℕ → ℕ → ℕ → Slot → World
  linked w b tgid tid place =
      let threads = w.threads b in
      with_threads
        (record w {
          thread = update w.thread w.next (some (new_thread tgid tid));
          next = w.next + 1;
        })
        b
        (record threads {
          entries = balance.rb_insert_color place (rb_link_node w.next place threads.entries);
        })

  -- thread__init_maps, once the leader is found.
  abbrev pub share_maps : Ptr → Option Ptr → Cmd (Unit {0})
  share_maps th none = pure tt
  share_maps th (some l) = do
    leader ← load_thread l
    get_maps leader.maps
    set_maps th leader.maps
    thread_put erase spaces false l

  -- The maps of the leader in machine__update_thread_tgid.
  abbrev pub leader_maps : Ptr → Option Ptr → Cmd Ptr
  leader_maps l (some ms) = pure ms
  leader_maps l none = do ms ← maps_new; set_maps l (some ms); pure ms

  abbrev pub leave_maps : Option Ptr → Cmd (Unit {0})
  leave_maps none = pure tt
  leave_maps (some old) = do empty ← maps_empty old; lift (assert empty); maps_put erase old

  -- machine__update_thread_tgid, once the leader is found. Where the maps are the leader's already,
  -- the reference to the leader is not given back.
  abbrev pub join_leader : Ptr → Option Ptr → Cmd (Unit {0})
  join_leader th none = λ w. abort
  join_leader th (some l) = do
    leader ← load_thread l
    ms ← leader_maps l leader.maps
    thread ← load_thread th
    if is_ptr thread.maps ms then pure tt else (do
      leave_maps thread.maps
      ms' ← maps_get ms
      set_maps th (some ms)
      thread_put erase spaces false l)

  -- The end of ____machine__findnew_thread, where the maps are set.
  unfoldable pub kept : ℕ → Ptr → Cmd (Option Ptr)
  kept b th = do
    th' ← thread_get th
    threads ← load_threads b
    store_threads b (record threads { last_match = some th; nr = add32 threads.nr 1 })
    pure (some th)

  -- The same, where they are not.
  unfoldable pub dropped : ℕ → Ptr → Cmd (Option Ptr)
  dropped b th = do
    threads ← load_threads b
    store_threads b (record threads { entries = erase.rb_erase th threads.entries })
    thread_put erase spaces false th
    pure none

  module _ (leader_of : ℕ → Cmd (Option Ptr)) where
    -- thread__init_maps: whether the thread has maps then.
    unfoldable pub init_maps : Ptr → Cmd Bool
    init_maps th = do
      thread ← load_thread th
      if thread.tgid == thread.tid
          then (do ms ← maps_new; set_maps th (some ms))
          else (do leader ← leader_of thread.tgid; share_maps th leader)
      thread' ← load_thread th
      pure (is_some thread'.maps)

    -- machine__update_thread_tgid
    unfoldable pub update_thread_tgid : Ptr → ℕ → Cmd (Unit {0})
    update_thread_tgid th tgid = do
      thread ← load_thread th
      if tgid == thread.tgid then pure tt else (do
        store_thread th (record thread { tgid = tgid })
        if tgid == thread.tid then pure tt else (do leader ← leader_of tgid; join_leader th leader))

    -- The thread is known.
    unfoldable pub known : Ptr → ℕ → Cmd (Option Ptr)
    known th tgid = do update_thread_tgid th tgid; th' ← thread_get th; pure (some th)

    -- The thread is not known: it is linked at the slot where the search ended.
    unfoldable pub add_thread : ℕ → ℕ → ℕ → Slot → Cmd (Option Ptr)
    add_thread b tgid tid place = do
      th ← thread_new tgid tid
      threads ← load_threads b
      store_threads b (record threads {
        entries = balance.rb_insert_color place (rb_link_node th place threads.entries);
      })
      has_maps ← init_maps th
      if has_maps then kept b th else dropped b th

    -- The search in the tree.
    unfoldable pub search_tree : Bool → ℕ → ℕ → ℕ → Cmd (Option Ptr)
    search_tree create b tgid tid w =
        let threads = w.threads b in
        elim (descend (thread_turn w.thread tid) threads.entries) [
          | some q ↦
              (do
                thread ← load_thread q
                store_threads b (record threads { last_match = some q })
                known q tgid)
                w
          | none ↦
              (if create
                  then add_thread b tgid tid (slot (thread_turn w.thread tid) threads.entries)
                  else pure none)
                w
        ]

    -- The front-end cache.
    unfoldable pub search_from : Option Ptr → Bool → ℕ → ℕ → ℕ → Cmd (Option Ptr)
    search_from none create b tgid tid = search_tree create b tgid tid
    search_from (some th) create b tgid tid = do
      thread ← load_thread th
      if thread.tid == tid then known th tgid else (do
        threads ← load_threads b
        store_threads b (record threads { last_match = none })
        search_tree create b tgid tid)

    -- ____machine__findnew_thread
    unfoldable pub findnew_in : Bool → ℕ → ℕ → ℕ → Cmd (Option Ptr)
    findnew_in create b tgid tid w = search_from (w.threads b).last_match create b tgid tid w

  -- __machine__findnew_thread, on fuel for the calls inside one another.
  unfoldable pub findnew : ℕ → ℕ → ℕ → Cmd (Option Ptr)
  findnew zero tgid tid = λ w. fault
  findnew (suc n) tgid tid =
      findnew_in (λ leader. findnew n leader leader) true (machine_threads tid) tgid tid

  -- machine__findnew_thread
  unfoldable pub machine_findnew_thread : ℕ → ℕ → Cmd (Option Ptr)
  machine_findnew_thread tgid tid = findnew 2 tgid tid
