-- ===== src/Machine/Findnew/Shared.antt =====
-- A new thread takes the maps of its process's leader, to which it gives back its reference.
use libdw_bcc.Prelude.{ℕ, ◌+◌, ◌^◌, ◌<◌, ne→==, ◌≡◌, ◌∙◌, ap, sym, arith, true, false, Option, some}
use libdw_bcc.Outcome.{ok}
use libdw_bcc.Refcount.{refcount_inc, refcount_dec_and_test}
use libdw_bcc.Rbtree.{Balance, Erase}
use libdw_bcc.Store.{
  Ptr, Maps, Thread, World, Cmd, ◌>>=◌, ◌>>◌, store_thread, load_maps, store_maps, update,
  update_same, update_other,
}
use libdw_bcc.Maps.Lifetime.{maps_get}
use libdw_bcc.Thread.Lifetime.{thread_put}
use libdw_bcc.Unwind.Access.{AddrSpaces}
use libdw_bcc.Unwind.Access.Prepared.{load_thread-ok}
use libdw_bcc.Machine.Findnew.{set_maps, get_maps, share_maps, init_maps}

-- A reference that is taken and given back, where there was one before.
pub refcount_back :
    (r : ℕ) → 0 < r → r + 1 < 2 ^ 32 → refcount_dec_and_test (refcount_inc r) ≡ (r, false)
unfolding refcount_inc refcount_dec_and_test
refcount_back r p small = ground arith

-- The maps of a leader, which gain a reference and are given to a thread.
abbrev pub with_shared_maps : World → Ptr → Thread → Ptr → Maps → World
with_shared_maps w p new ms maps = record w {
  maps = update w.maps ms (some (record maps { refcnt = refcount_inc maps.refcnt }));
  thread = update w.thread p (some (record new { maps = some ms }));
}

abbrev pub with_thread : World → Ptr → Thread → World
with_thread w p t = record w { thread = update w.thread p (some t) }

module _ (balance : Balance Ptr) (erase : Erase) (spaces : AddrSpaces) where
  -- A reference to a thread is given back; `t` is the thread without it.
  put_back :
      (w : World) (l : Ptr) (t : Thread)
      → w.thread l ≡ some (record t { refcnt = refcount_inc t.refcnt })
      → 0 < t.refcnt
      → t.refcnt + 1 < 2 ^ 32
      → thread_put erase spaces false l w ≡ ok (tt, with_thread w l t)
  unfolding thread_put store_thread
  put_back w l t live p small =
      rw (load_thread-ok w l (record t { refcnt = refcount_inc t.refcnt }) live, ◌>>=◌)
        (rw (refcount_back t.refcnt p small))

  pub share_maps-run :
      (w : World) (p l ms : Ptr) (new t : Thread) (maps : Maps)
      → ¬ (p ≡ l)
      → w.thread p ≡ some new
      → w.thread l ≡ some (record t { refcnt = refcount_inc t.refcnt })
      → t.maps ≡ some ms
      → w.maps ms ≡ some maps
      → 0 < t.refcnt
      → t.refcnt + 1 < 2 ^ 32
      → share_maps balance erase spaces p (some l) w
        ≡ ok (tt, with_thread (with_shared_maps w p new ms maps) l t)
  unfolding maps_get load_maps store_maps set_maps store_thread
  share_maps-run w p l ms new t maps ne live leader shared held pos_ small =
      let w₁ : World = record w {
        maps = update w.maps ms (some (record maps { refcnt = refcount_inc maps.refcnt }));
      } in
      rw (load_thread-ok w l (record t { refcnt = refcount_inc t.refcnt }) leader, ◌>>=◌)
        (ap (λ o. (get_maps o >> (set_maps p o >> thread_put erase spaces false l)) w) shared
          ∙ rw (held, ◌>>◌, ◌>>=◌)
              (rw (load_thread-ok w₁ p new live, ◌>>=◌)
                (put_back (with_shared_maps w p new ms maps) l t
                  (update_other w.thread p l (some (record new { maps = some ms })) ne ∙ leader)
                  pos_ small)))

  module _ (leader_of : ℕ → Cmd (Option Ptr)) where
    -- What the search for the leader leaves, where it is known.
    abbrev LeaderFound : World → World → ℕ → Ptr → Thread → Type 0
    LeaderFound w w' tgid l t =
        (leader_of tgid w ≡ ok (some l, w'))
        × (w'.thread l ≡ some (record t { refcnt = refcount_inc t.refcnt }))

    pub init_maps-member :
        (w w' : World) (p l ms : Ptr) (new t : Thread) (maps : Maps)
        → w.thread p ≡ some new
        → ¬ (new.tgid ≡ new.tid)
        → LeaderFound w w' new.tgid l t
        → ¬ (p ≡ l)
        → w'.thread p ≡ some new
        → t.maps ≡ some ms
        → w'.maps ms ≡ some maps
        → 0 < t.refcnt
        → t.refcnt + 1 < 2 ^ 32
        → init_maps balance erase spaces leader_of p w
          ≡ ok (true, with_thread (with_shared_maps w' p new ms maps) l t)
    unfolding init_maps
    init_maps-member w w' p l ms new t maps live other (finds, leader) ne live' shared held some_
          small =
        let after = with_thread (with_shared_maps w' p new ms maps) l t in
        let mine : after.thread p ≡ some (record new { maps = some ms }) =
          update_other (with_shared_maps w' p new ms maps).thread l p (some t) (λ e. ne (sym e))
          ∙ update_same w'.thread p (some (record new { maps = some ms })) in
        rw (load_thread-ok w p new live, ◌>>=◌)
          (rw (ne→== new.tgid new.tid other) (
            rw (finds, ◌>>◌, ◌>>=◌)
              (rw (share_maps-run w' p l ms new t maps ne live' leader shared held some_ small)
                (rw (load_thread-ok after p (record new { maps = some ms }) mine, ◌>>=◌)))))
