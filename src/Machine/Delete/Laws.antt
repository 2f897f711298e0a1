-- ===== src/Machine/Delete/Laws.antt =====
-- __machine__remove_thread: the thread is dead, or it is gone.
use libdw_bcc.Prelude.{
  ℕ, ◌+◌, ◌^◌, ◌<◌, ◌==◌, ==_iff, ne→==, Bool-cases, inl, inr, ◌≡◌, refl, ◌∙◌, ap, sym, arith, All,
  All-imp, true, none, some, List, [], ◌∷◌, if◌then◌else◌,
}
use libdw_bcc.Outcome.{ok}
use libdw_bcc.Refcount.{refcount_inc, refcount_dec_and_test}
use libdw_bcc.Rbtree.{Erase, remove, to_list}
use libdw_bcc.Store.{
  Ptr, Maps, Thread, World, ◌>>=◌, ◌>>◌, store_thread, load_maps, store_maps, update, update_same,
  update_other, free_thread,
}
use libdw_bcc.Maps.Lifetime.{maps_put}
use libdw_bcc.Thread.Lifetime.{put_maps, thread_put, thread_delete}
use libdw_bcc.Unwind.Access.{AddrSpaces, finish_access}
use libdw_bcc.Unwind.Access.Prepared.{IsDestroying, load_thread-ok}
use libdw_bcc.Machine.{machine_threads}
use libdw_bcc.Machine.Table.{Tasks, tid_of, IsTasks, SameTids}
use libdw_bcc.Machine.Findnew.Added.{IsTable}
use libdw_bcc.Machine.Findnew.Shared.{refcount_back, with_thread}
use libdw_bcc.Machine.Laws.{thread_at, thread_at-one}
use libdw_bcc.Machine.Delete.{remove_thread}
use libdw_bcc.Machine.Delete.Removed.{SameTids-others, task_of-Removes, IsTable-Removes}
use libdw_bcc.Machine.Delete.Run.{with_left, remove_thread-run, with_left-Removes}

-- The others keep their ids, and so does a thread whose id does not change.
SameTids-update :
    (s : Tasks) (p : Ptr) (t t' : Thread) (ps : List Ptr)
    → s p ≡ some t
    → t'.tid ≡ t.tid
    → IsTasks s ps
    → SameTids s (update s p (some t')) ps
SameTids-update s p t t' [] live same r = tt
SameTids-update s p t t' (q ∷ ps) live same ((u, has, lt), above, rs) = (
  elim (Bool-cases (p == q)) [
    | inl e ↦
        let here : s q ≡ some t = ap s (sym ((==_iff p q).0 e)) ∙ live in
        let own : tid_of (update s p (some t')) q ≡ tid_of s q = rw (e, here, tid_of) same in
        (own, (t', rw e, rw own lt))
    | inr e ↦ (rw (e, tid_of), (u, rw e has, rw (e, tid_of) lt))
  ],
  SameTids-update s p t t' ps live same rs,
)

-- Each thread is in the bucket of its id.
abbrev pub IsHashed : World → Type 0
IsHashed w =
    (c : ℕ) → All (λ q. machine_threads (tid_of w.thread q) ≡ c) (to_list (w.threads c).entries)

away_elsewhere :
    (s : Tasks) (p : Ptr) (t : Thread) (c : ℕ) (ps : List Ptr)
    → s p ≡ some t
    → ¬ (machine_threads t.tid ≡ c)
    → All (λ q. machine_threads (tid_of s q) ≡ c) ps
    → All (λ q. ¬ (p ≡ q)) ps
away_elsewhere s p t c ps live ne =
    All-imp (λ q. machine_threads (tid_of s q) ≡ c) (λ q. ¬ (p ≡ q)) ps
      (λ q in_c e. ne (
        ap (λ i. machine_threads i) (sym (rw (live, tid_of)))
        ∙ ap (λ x. machine_threads (tid_of s x)) e
        ∙ in_c))

dec_last : refcount_dec_and_test 1 ≡ (0, true)
unfolding refcount_dec_and_test
dec_last = refl

module _ (erase : Erase) (spaces : AddrSpaces) where
  -- A thread of the table, to which someone else has a reference, leaves the table and loses one
  -- reference, but stays in memory; its tid is not found any more, any other tid where it was, and
  -- the table stays valid.
  pub remove_thread-held :
      (w : World) (p : Ptr) (t : Thread) (n : ℕ)
      → IsTable w
      → thread_at w t.tid ≡ some p
      → w.thread p ≡ some t
      → t.refcnt ≡ refcount_inc n
      → 0 < n
      → n + 1 < 2 ^ 32
      → (w' : World) × (remove_thread erase spaces p w ≡ ok (tt, w'))
        × IsTable w'
        × ((i : ℕ) → thread_at w' i ≡ (if t.tid == i then none else thread_at w i))
        × (w'.thread p ≡ some (record t { refcnt = n }))
  unfolding thread_put store_thread refcount_inc
  remove_thread-held w p t n table found live count some_ room =
      let b = machine_threads t.tid in
      let t' : Thread = record t { refcnt = n } in
      let w₁ = with_left erase w b p in
      let w' = with_thread w₁ p t' in
      let removes =
        with_left-Removes erase w w' b t.tid p found
          (λ q ne. update_other w.thread p q (some t') ne) (λ c. refl) (λ c. refl)
          (λ c ne.
            SameTids-update w.thread p t t' (to_list (w.threads c).entries) live refl
              ((table c).tasks)) in
      (
        w',
        remove_thread-run erase spaces w p t live (λ z. absurd (omega (arith, z, count)))
            ∙ rw (load_thread-ok w₁ p t live, ◌>>=◌)
                (rw (ap refcount_dec_and_test count ∙ refcount_back n some_ room)),
        IsTable-Removes w w' b t.tid p removes table,
        thread_at-one w w' t.tid none (task_of-Removes w w' b t.tid p removes table),
        update_same w.thread p (some t'),
      )

  maps_put-held :
      (w : World) (ms : Ptr) (maps : Maps) (n : ℕ)
      → w.maps ms ≡ some maps
      → maps.refcnt ≡ refcount_inc n
      → 0 < n
      → n + 1 < 2 ^ 32
      → maps_put erase ms w
        ≡ ok (tt, record w { maps = update w.maps ms (some (record maps { refcnt = n })) })
  unfolding maps_put load_maps store_maps
  maps_put-held w ms maps n held count some_ room =
      rw (held, ◌>>=◌) (rw (ap refcount_dec_and_test count ∙ refcount_back n some_ room))

  finish_access-quiet :
      (d : IsDestroying spaces) (w : World) (p : Ptr) (t : Thread)
      → w.thread p ≡ some t
      → finish_access spaces p w ≡ ok (tt, w)
  unfolding finish_access
  finish_access-quiet d w p t live =
      rw (load_thread-ok w p t live, ◌>>=◌)
        (elim (Bool-cases t.ulops) [ inl e ↦ rw e (d t.addr_space w) | inr e ↦ rw e ])

  -- A thread is deleted whose maps others share.
  abbrev without : World → Ptr → Ptr → Thread → Maps → ℕ → World
  without w p ms t maps n = record w {
    maps = update w.maps ms (some (record maps { refcnt = n }));
    thread = update (update w.thread p (some (record t { maps = none }))) p none;
  }

  thread_delete-run :
      (d : IsDestroying spaces) (w : World) (p ms : Ptr) (t : Thread) (maps : Maps) (n : ℕ)
      → w.thread p ≡ some t
      → t.maps ≡ some ms
      → w.maps ms ≡ some maps
      → maps.refcnt ≡ refcount_inc n
      → 0 < n
      → n + 1 < 2 ^ 32
      → thread_delete erase spaces p w ≡ ok (tt, without w p ms t maps n)
  unfolding thread_delete store_thread
  thread_delete-run d w p ms t maps n live shared held count some_ room =
      let w₁ : World = record w { maps = update w.maps ms (some (record maps { refcnt = n })) } in
      let w₂ = with_thread w₁ p (record t { maps = none }) in
      rw (load_thread-ok w p t live, ◌>>=◌)
        (ap (λ o. (put_maps erase spaces p t o >> (finish_access spaces p >> free_thread p)) w)
            shared
          ∙ rw (maps_put-held w ms maps n held count some_ room, ◌>>◌, ◌>>=◌)
              (rw (
                finish_access-quiet d w₂ p (record t { maps = none })
                    (update_same w.thread p (some (record t { maps = none }))),
                ◌>>◌,
                ◌>>=◌,
              )))

  -- A thread of the table, to which only the table has a reference, leaves the table and is freed,
  -- whether or not it has an address space of libunwind, where destroying one leaves the objects of
  -- the library alone; its maps, which others share, lose its reference. Its tid is not found any
  -- more, any other tid where it was, and the table stays valid.
  pub remove_thread-last :
      IsDestroying spaces
      → (w : World) (p ms : Ptr) (t : Thread) (maps : Maps) (n : ℕ) → IsTable w
      → IsHashed w
      → thread_at w t.tid ≡ some p
      → w.thread p ≡ some t
      → t.refcnt ≡ 1
      → t.maps ≡ some ms
      → w.maps ms ≡ some maps
      → maps.refcnt ≡ refcount_inc n
      → 0 < n
      → n + 1 < 2 ^ 32
      → (w' : World) × (remove_thread erase spaces p w ≡ ok (tt, w'))
        × IsTable w'
        × ((i : ℕ) → thread_at w' i ≡ (if t.tid == i then none else thread_at w i))
        × (w'.thread p ≡ none)
        × (w'.maps ms ≡ some (record maps { refcnt = n }))
  unfolding thread_put store_thread
  remove_thread-last d w p ms t maps n table hashed found live last shared held count some_ room =
      let b = machine_threads t.tid in
      let w₁ = with_left erase w b p in
      let t₀ : Thread = record t { refcnt = 0 } in
      let w₂ : World =
        with_thread
          (record w₁ {
            threads = λ c. record (w₁.threads c) { dead = remove p (w₁.threads c).dead };
          })
          p t₀ in
      let w' = without w₂ p ms t₀ maps n in
      let others : (q : Ptr) → ¬ (p ≡ q) → w'.thread q ≡ w.thread q = λ q ne. rw (ne→== p q ne) in
      let removes =
        with_left-Removes erase w w' b t.tid p found others (λ c. refl) (λ c. refl)
          (λ c ne.
            SameTids-others w.thread w'.thread p (to_list (w.threads c).entries) others
              ((table c).tasks)
              (away_elsewhere w.thread p t c (to_list (w.threads c).entries) live ne (hashed c))) in
      (
        w',
        remove_thread-run erase spaces w p t live (λ z. absurd (omega (arith, z, last)))
            ∙ rw (load_thread-ok w₁ p t live, ◌>>=◌)
                (rw (ap refcount_dec_and_test last ∙ dec_last) (
                  thread_delete-run d w₂ p ms t₀ maps n (update_same w.thread p (some t₀)) shared
                    held count some_ room)),
        IsTable-Removes w w' b t.tid p removes table,
        thread_at-one w w' t.tid none (task_of-Removes w w' b t.tid p removes table),
        update_same (update w₂.thread p (some (record t₀ { maps = none }))) p none,
        update_same w.maps ms (some (record maps { refcnt = n })),
      )
