-- ===== src/Machine/Findnew/Leader.antt =====
-- A thread that is made for its own process: it gets maps of its own.
use libdw_bcc.Prelude.{
  ℕ, ◌+◌, ◌^◌, ◌<◌, ◌==◌, ==_iff, ne→==, ◌&&◌, add32, Bool-cases, inl, inr, ◌≡◌, refl, ◌∙◌, ap,
  true, Option, none, some, [], if◌then◌else◌,
}
use libdw_bcc.Outcome.{ok}
use libdw_bcc.Refcount.{refcount_inc}
use libdw_bcc.Rbtree.{leaf, Balance, Erase}
use libdw_bcc.Rbtree.Search.{slot}
use libdw_bcc.Store.{
  Ptr, Maps, Thread, World, Cmd, ◌>>=◌, store_thread, update, update_same, with_threads,
}
use libdw_bcc.Maps.Lifetime.{maps_new}
use libdw_bcc.Thread.Lifetime.{new_thread, thread_new, thread_get}
use libdw_bcc.Unwind.Access.{AddrSpaces}
use libdw_bcc.Unwind.Access.Prepared.{load_thread-ok}
use libdw_bcc.Machine.Table.{tid_of}
use libdw_bcc.Machine.Findnew.{
  thread_turn, set_maps, linked, init_maps, kept, add_thread, findnew_in,
}
use libdw_bcc.Machine.Findnew.Known.{task_of, with_reference}
use libdw_bcc.Machine.Findnew.Search.{uncached, task_of-uncached, IsTable-uncached, findnew_in-none}
use libdw_bcc.Machine.Findnew.Added.{
  IsTable, Adds, IsKept, IsTable-Adds, task_of-Adds, to_list-added,
}

-- The maps of a process that has none yet.
abbrev pub no_maps : Maps
no_maps = record { entries = leaf; head = []; refcnt = 1 }

-- A new thread is counted and cached.
abbrev pub counted : World → ℕ → Ptr → World
counted w b p =
    with_threads w b (record (w.threads b) { last_match = some p; nr = add32 (w.threads b).nr 1 })

-- New maps, given to a thread.
abbrev pub with_new_maps : World → Ptr → Thread → World
with_new_maps w p t = record w {
  maps = update w.maps w.next (some no_maps);
  next = w.next + 1;
  thread = update w.thread p (some (record t { maps = some w.next }));
}

module _ (balance : Balance Ptr) (erase : Erase) (spaces : AddrSpaces) where
  pub kept-run :
      (w : World) (b : ℕ) (p : Ptr) (t : Thread)
      → w.thread p ≡ some t
      → kept balance erase spaces b p w ≡ ok (some p, counted (with_reference w p t) b p)
  unfolding kept thread_get store_thread
  kept-run w b p t live = rw (load_thread-ok w p t live, ◌>>=◌)

  module _ (leader_of : ℕ → Cmd (Option Ptr)) where
    init_maps-leader :
        (w : World) (p : Ptr) (t : Thread)
        → w.thread p ≡ some t
        → t.tgid ≡ t.tid
        → init_maps balance erase spaces leader_of p w ≡ ok (true, with_new_maps w p t)
    unfolding init_maps maps_new set_maps store_thread
    init_maps-leader w p t live own =
        let w₁ : World = record w {
          maps = update w.maps w.next (some no_maps);
          next = w.next + 1;
        } in
        rw (load_thread-ok w p t live, ◌>>=◌)
          (rw ((==_iff t.tgid t.tid).1 own) (
            rw (load_thread-ok w₁ p t live, ◌>>=◌)
              (rw (
                load_thread-ok (with_new_maps w p t) p (record t { maps = some w.next })
                    (update_same w.thread p (some (record t { maps = some w.next }))),
                ◌>>=◌,
              ))))

    -- The memory after all of it.
    abbrev pub with_leader : World → ℕ → ℕ → World
    with_leader w b tid =
        let w₁ =
          linked balance erase spaces w b tid tid
            (slot (thread_turn w.thread tid) (w.threads b).entries) in
        let w₂ = with_new_maps w₁ w.next (new_thread tid tid) in
        counted (with_reference w₂ w.next (record (new_thread tid tid) { maps = some w₁.next })) b
          w.next

    add_thread-leader :
        (w : World) (b tid : ℕ)
        → add_thread balance erase spaces leader_of b tid tid
            (slot (thread_turn w.thread tid) (w.threads b).entries)
            w
          ≡ ok (some w.next, with_leader w b tid)
    unfolding add_thread thread_new
    add_thread-leader w b tid =
        let w₁ =
          linked balance erase spaces w b tid tid
            (slot (thread_turn w.thread tid) (w.threads b).entries) in
        let t = record (new_thread tid tid) { maps = some w₁.next } in
        rw
          (
            init_maps-leader w₁ w.next (new_thread tid tid)
                (update_same w.thread w.next (some (new_thread tid tid))) refl,
            ◌>>=◌,
          )
          (kept-run (with_new_maps w₁ w.next (new_thread tid tid)) b w.next t
            (update_same w₁.thread w.next (some t)))

    pub with_leader-new :
        (w : World) (b tid : ℕ)
        → (with_leader w b tid).thread w.next
          ≡ some (record (new_thread tid tid) { maps = some (w.next + 1); refcnt = refcount_inc 1 })
    with_leader-new w b tid =
        update_same
          (update (update w.thread w.next (some (new_thread tid tid))) w.next
            (some (record (new_thread tid tid) { maps = some (w.next + 1) })))
          w.next
          (some (record (new_thread tid tid) { maps = some (w.next + 1); refcnt = refcount_inc 1 }))

    with_leader-Adds :
        (w : World) (b tid : ℕ)
        → tid < 2 ^ 32
        → IsTable w
        → task_of w b tid ≡ none
        → w.thread w.next ≡ none
        → Adds w (with_leader w b tid) b tid w.next
    with_leader-Adds w b tid small h e fresh =
        let own : tid_of (with_leader w b tid).thread w.next ≡ tid =
          rw (with_leader-new w b tid, tid_of) in
        record {
          fresh = fresh;
          live = (
            record (new_thread tid tid) { maps = some (w.next + 1); refcnt = refcount_inc 1 },
            with_leader-new w b tid,
            rw own small,
          );
          own = own;
          others = λ q ne. rw (ne→== w.next q ne);
          entries = rw ((==_iff b b).1 refl) (
              to_list-added balance w.thread tid w.next (w.threads b).entries small ((h b).tasks)
                e);
          elsewhere = λ c ne. rw (ne→== b c ne);
        }

    -- The cached thread of each bucket.
    with_leader-IsKept :
        (w : World) (b tid : ℕ) (h : IsTable w) (c : ℕ)
        → IsKept w b w.next c ((with_leader w b tid).threads c).last_match
    with_leader-IsKept w b tid h c = elim (Bool-cases (b == c)) [
      | inl here ↦ inr (inl (rw here, (==_iff b c).0 here))
      | inr there ↦ elim ((h c).cached) [
        | inl empty ↦ inl (rw there empty)
        | inr (q, cache, among) ↦ inr (inr (q, rw there cache, among))
      ]
    ]

    -- A tid that is not in the table, of its own process.
    pub findnew_in-leader :
        (w : World) (b tid : ℕ)
        → tid < 2 ^ 32
        → IsTable w
        → task_of w b tid ≡ none
        → w.thread w.next ≡ none
        → let w₀ = uncached w b in
          let w' = with_leader w₀ b tid in
          (findnew_in balance erase spaces leader_of true b tid tid w ≡ ok (some w.next, w'))
          × Adds w₀ w' b tid w.next
          × IsTable w'
          × ((c i : ℕ)
              → task_of w' c i ≡ (if b == c && tid == i then some w.next else task_of w c i))
    findnew_in-leader w b tid small h e fresh =
        let w₀ = uncached w b in
        let w' = with_leader w₀ b tid in
        let h₀ = IsTable-uncached w b h in
        let e₀ = task_of-uncached w b b tid ∙ e in
        let adds = with_leader-Adds w₀ b tid small h₀ e₀ fresh in
        (
          findnew_in-none balance erase spaces leader_of w b tid tid small h e
              ∙ add_thread-leader w₀ b tid,
          adds,
          IsTable-Adds w₀ w' b tid w.next small adds h₀ e₀ (with_leader-IsKept w₀ b tid h₀),
          λ c i.
              task_of-Adds w₀ w' b tid w.next small adds h₀ e₀ c i
              ∙ ap (λ o. if b == c && tid == i then some w.next else o) (task_of-uncached w b c i),
        )
