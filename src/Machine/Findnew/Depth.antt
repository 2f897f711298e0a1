-- ===== src/Machine/Findnew/Depth.antt =====
-- The search for a thread calls itself once at most: for the leader, which is its own leader.
use mathlib.Core.Path.{fun_ext}
use libdw_bcc.Prelude.{
  ℕ, ◌==◌, ==_iff, Bool-cases, inl, inr, ◌≡◌, refl, ap, sym, arith, true, Option, none, some,
}
use libdw_bcc.Rbtree.{Balance, Erase, Slot}
use libdw_bcc.Rbtree.Search.{stop, descend, slot, descend-stops}
use libdw_bcc.Store.{
  Ptr, Thread, World, Cmd, ◌>>=◌, ◌>>◌, load_thread, store_threads, update_same, with_threads,
}
use libdw_bcc.Thread.Lifetime.{new_thread, thread_new}
use libdw_bcc.Unwind.Access.{AddrSpaces}
use libdw_bcc.Unwind.Access.Prepared.{load_thread-ok}
use libdw_bcc.Machine.{machine_threads}
use libdw_bcc.Machine.Findnew.{
  thread_turn, init_maps, update_thread_tgid, known, add_thread, search_tree, search_from,
  findnew_in, findnew, linked, machine_findnew_thread,
}

module _ (balance : Balance Ptr) (erase : Erase) (spaces : AddrSpaces)
    (f g : ℕ → Cmd (Option Ptr)) where
  update_self :
      (w : World) (th : Ptr) (t : Thread) (tgid : ℕ)
      → w.thread th ≡ some t
      → tgid ≡ t.tid
      → update_thread_tgid balance erase spaces f th tgid w
        ≡ update_thread_tgid balance erase spaces g th tgid w
  unfolding update_thread_tgid
  update_self w th t tgid live own =
      rw (load_thread-ok w th t live, ◌>>=◌) (rw ((==_iff tgid t.tid).1 own))

  known_self :
      (w : World) (th : Ptr) (t : Thread) (tgid : ℕ)
      → w.thread th ≡ some t
      → tgid ≡ t.tid
      → known balance erase spaces f th tgid w ≡ known balance erase spaces g th tgid w
  unfolding known
  known_self w th t tgid live own = rw (update_self w th t tgid live own, ◌>>◌, ◌>>=◌)

  init_self :
      (w : World) (th : Ptr) (t : Thread)
      → w.thread th ≡ some t
      → t.tgid ≡ t.tid
      → init_maps balance erase spaces f th w ≡ init_maps balance erase spaces g th w
  unfolding init_maps
  init_self w th t live own =
      rw (load_thread-ok w th t live, ◌>>=◌) (rw ((==_iff t.tgid t.tid).1 own))

  add_self :
      (w : World) (b tid : ℕ) (place : Slot)
      → add_thread balance erase spaces f b tid tid place w
        ≡ add_thread balance erase spaces g b tid tid place w
  unfolding add_thread thread_new
  add_self w b tid place =
      let w' = linked balance erase spaces w b tid tid place in
      rw (
        init_self w' w.next (new_thread tid tid)
            (update_same w.thread w.next (some (new_thread tid tid))) refl,
        ◌>>=◌,
      )

  -- Where the search stops at a live thread, it has the tid.
  stops_at :
      (w : World) (tid : ℕ) (q : Ptr) (t : Thread)
      → thread_turn w.thread tid q ≡ stop
      → w.thread q ≡ some t
      → tid ≡ t.tid
  unfolding thread_turn
  stops_at w tid q t h live = ground arith

  found_self :
      (w : World) (b tid : ℕ) (q : Ptr) (o : Option Thread)
      → w.thread q ≡ o
      → thread_turn w.thread tid q ≡ stop
      → (load_thread q >>= λ thread.
            store_threads b (record (w.threads b) { last_match = some q })
            >> known balance erase spaces f q tid)
          w
        ≡ (load_thread q >>= λ thread.
              store_threads b (record (w.threads b) { last_match = some q })
              >> known balance erase spaces g q tid)
            w
  found_self w b tid q none dangling h = unfold load_thread in rw (dangling, ◌>>=◌)
  found_self w b tid q (some t) live h =
      rw (load_thread-ok w q t live, ◌>>=◌)
        (known_self (with_threads w b (record (w.threads b) { last_match = some q })) q t tid live
          (stops_at w tid q t h live))

  search_self :
      (w : World) (b tid : ℕ)
      → search_tree balance erase spaces f true b tid tid w
        ≡ search_tree balance erase spaces g true b tid tid w
  unfolding search_tree
  search_self w b tid = at_end (descend (thread_turn w.thread tid) (w.threads b).entries) refl
    where
      at_end :
          (o : Option Ptr)
          → descend (thread_turn w.thread tid) (w.threads b).entries ≡ o
          → search_tree balance erase spaces f true b tid tid w
            ≡ search_tree balance erase spaces g true b tid tid w
      at_end none e =
          rw (e, search_tree)
            (add_self w b tid (slot (thread_turn w.thread tid) (w.threads b).entries))
      at_end (some q) e =
          rw (e, search_tree)
            (found_self w b tid q (w.thread q) refl
              (descend-stops (thread_turn w.thread tid) (w.threads b).entries q e))

  cached_self :
      (w : World) (b tid : ℕ) (th : Ptr) (o : Option Thread)
      → w.thread th ≡ o
      → search_from balance erase spaces f (some th) true b tid tid w
        ≡ search_from balance erase spaces g (some th) true b tid tid w
  unfolding search_from
  cached_self w b tid th none dangling = unfold load_thread in rw (dangling, ◌>>=◌)
  cached_self w b tid th (some t) live =
      rw (load_thread-ok w th t live, ◌>>=◌)
        (elim (Bool-cases (t.tid == tid)) [
          | inl e ↦ rw e (known_self w th t tid live (sym ((==_iff t.tid tid).0 e)))
          | inr e ↦
              rw e
                (search_self (with_threads w b (record (w.threads b) { last_match = none })) b tid)
        ])

  findnew_self :
      (w : World) (b tid : ℕ)
      → findnew_in balance erase spaces f true b tid tid w
        ≡ findnew_in balance erase spaces g true b tid tid w
  unfolding findnew_in
  findnew_self w b tid = by_cache (w.threads b).last_match
    where
      by_cache :
          (o : Option Ptr)
          → search_from balance erase spaces f o true b tid tid w
            ≡ search_from balance erase spaces g o true b tid tid w
      by_cache none = unfold search_from in search_self w b tid
      by_cache (some th) = cached_self w b tid th (w.thread th) refl

-- The search for a thread calls itself for the leader at most, and that call does not call itself:
-- whatever command `deeper` stands for a call inside it, one that fails, one that changes the memory
-- or one without fuel, the search does the same, for any memory and any ids. So fuel for two
-- calls inside one another is enough.
pub findnew_depth :
    (balance : Balance Ptr) (erase : Erase) (spaces : AddrSpaces) (deeper : ℕ → Cmd (Option Ptr))
    (tgid tid : ℕ) (w : World)
    → findnew_in balance erase spaces
        (λ leader.
          findnew_in balance erase spaces deeper true (machine_threads leader) leader leader)
        true
        (machine_threads tid)
        tgid
        tid
        w
      ≡ machine_findnew_thread balance erase spaces tgid tid w
unfolding machine_findnew_thread findnew
findnew_depth balance erase spaces deeper tgid tid w =
    ap
      (λ leader_of. findnew_in balance erase spaces leader_of true (machine_threads tid) tgid tid w)
      (fun_ext (λ leader. fun_ext (λ w'.
        findnew_self balance erase spaces deeper (λ l. findnew balance erase spaces 0 l l) w'
          (machine_threads leader) leader)))
