-- ===== src/Machine/Delete/Removed.antt =====
-- What a thread that leaves the table changes there.
use mathlib.Core.Path.{subst}
use mathlib.Core.Option.{some-injective}
use libdw_bcc.Prelude.{
  ℕ, ◌<◌, ◌==◌, ==_iff, ne→==, ==→ne, ◌&&◌, Bool-cases, inl, inr, ◌⊎◌, ◌≡◌, refl, ◌∙◌, ap, sym,
  arith, All, All-imp, true, none, some, List, [], ◌∷◌, if◌then◌else◌,
}
use libdw_bcc.Rbtree.{remove, to_list}
use libdw_bcc.Store.{Ptr, World}
use libdw_bcc.Machine.Table.{
  Tasks, tid_of, key_of, IsTask, IsTasks, SameTids, of_tid, of_tid-IsTask, of_tid-frame,
  IsTasks-frame,
}
use libdw_bcc.Machine.Findnew.Known.{IsBucket, task_of}
use libdw_bcc.Machine.Findnew.Added.{IsTable}

All-remove : (P : Ptr → Type 0) (p : Ptr) (ps : List Ptr) → All P ps → All P (remove p ps)
All-remove P p [] h = tt
All-remove P p (q ∷ ps) (h, hs) = elim (Bool-cases (p == q)) [
  | inl e ↦ rw e hs
  | inr e ↦ rw e (h, All-remove P p ps hs)
]

-- What holds of all threads of a list holds of one that is found.
of_tid-All :
    (s : Tasks) (i : ℕ) (P : Ptr → Type 0) (ps : List Ptr) (q : Ptr)
    → All P ps
    → of_tid s i ps ≡ some q
    → P q
of_tid-All s i P [] q h e = absurd (cc)
of_tid-All s i P (x ∷ ps) q (h, hs) e = elim (Bool-cases (tid_of s x == i)) [
  | inl here ↦ subst P (some-injective x q (rw here at e)) h
  | inr there ↦ of_tid-All s i P ps q hs (rw there at e)
]

module _ (s : Tasks) (p : Ptr) where
  remove-IsTasks : (ps : List Ptr) → IsTasks s ps → IsTasks s (remove p ps)
  remove-IsTasks [] r = tt
  remove-IsTasks (q ∷ ps) (r, above, rs) = elim (Bool-cases (p == q)) [
    | inl e ↦ rw e rs
    | inr e ↦ rw e (r, All-remove (λ x. key_of s q < key_of s x) p ps above, remove-IsTasks ps rs)
  ]

  -- Threads with greater ids.
  ne_of_above :
      (q : Ptr) (ps : List Ptr) → All (λ x. key_of s q < key_of s x) ps → All (λ x. ¬ (q ≡ x)) ps
  ne_of_above q ps =
      All-imp (λ x. key_of s q < key_of s x) (λ x. ¬ (q ≡ x)) ps
        (λ x lt e. absurd (omega (arith, lt, ap (key_of s) e)))

  -- No thread is twice in the list.
  ne_of_removed : (ps : List Ptr) → IsTasks s ps → All (λ x. ¬ (p ≡ x)) (remove p ps)
  ne_of_removed [] r = tt
  ne_of_removed (q ∷ ps) (r, above, rs) = elim (Bool-cases (p == q)) [
    | inl e ↦
        rw e
          (subst (λ x. All (λ y. ¬ (x ≡ y)) ps) (sym ((==_iff p q).0 e)) (ne_of_above q ps above))
    | inr e ↦ rw e (==→ne p q e, ne_of_removed ps rs)
  ]

  of_tid_above :
      (q : Ptr) (ps : List Ptr)
      → All (λ x. key_of s q < key_of s x) ps
      → of_tid s (tid_of s q) ps ≡ none
  of_tid_above q [] h = refl
  of_tid_above q (x ∷ ps) (lt, hs) =
      rw (ne→== (tid_of s x) (tid_of s q) (λ e. absurd (omega (arith, lt, e))))
        (of_tid_above q ps hs)

  -- The search, once the thread with the id is gone.
  of_tid-remove :
      (tid i : ℕ) (ps : List Ptr)
      → IsTasks s ps
      → of_tid s tid ps ≡ some p
      → of_tid s i (remove p ps) ≡ (if tid == i then none else of_tid s i ps)
  of_tid-remove tid i [] r e = absurd (cc)
  of_tid-remove tid i (q ∷ ps) (r, above, rs) e = elim (Bool-cases (tid_of s q == tid)) [
    | inl here ↦
        let gone : of_tid s tid ps ≡ none =
          subst (λ x. of_tid s x ps ≡ none) ((==_iff (tid_of s q) tid).0 here)
            (of_tid_above q ps above) in
        let same : p ≡ q = sym (some-injective q p (rw here at e)) in
        rw ((==_iff p q).1 same) (elim (Bool-cases (tid == i)) [
          | inl it ↦ rw it (subst (λ x. of_tid s x ps ≡ none) ((==_iff tid i).0 it) gone)
          | inr other ↦ rw (other, ap (λ x. x == i) ((==_iff (tid_of s q) tid).0 here) ∙ other)
        ])
    | inr there ↦
        let later : of_tid s tid ps ≡ some p = rw there at e in
        let own = (of_tid-IsTask s tid ps p rs later).1 in
        let apart : ¬ (p ≡ q) = λ x. ==→ne (tid_of s q) tid there (ap (tid_of s) (sym x) ∙ own) in
        let rest = of_tid-remove tid i ps rs later in rw (ne→== p q apart) (ground (arith, rest))
  ]

-- A thread leaves a bucket: the others stay, and so does its id, where it is looked up.
pub record Removes (w w' : World) (b tid : ℕ) (p : Ptr) : Type 0 where
  pub found : task_of w b tid ≡ some p
  pub others : (q : Ptr) → ¬ (p ≡ q) → w'.thread q ≡ w.thread q
  pub entries : to_list (w'.threads b).entries ≡ remove p (to_list (w.threads b).entries)
  pub elsewhere :
      (c : ℕ)
      → ¬ (b ≡ c)
      → ((w'.threads c).entries ≡ (w.threads c).entries)
        × SameTids w.thread w'.thread (to_list (w.threads c).entries)
        × ((w'.threads c).last_match ≡ (w.threads c).last_match)
  pub cached :
      ((w'.threads b).last_match ≡ none)
      ⊎ (((w'.threads b).last_match ≡ (w.threads b).last_match)
          × ¬ ((w.threads b).last_match ≡ some p))

pub SameTids-others :
    (s s' : Tasks) (p : Ptr) (ps : List Ptr)
    → ((q : Ptr) → ¬ (p ≡ q) → s' q ≡ s q)
    → IsTasks s ps
    → All (λ q. ¬ (p ≡ q)) ps
    → SameTids s s' ps
SameTids-others s s' p [] h r n = tt
SameTids-others s s' p (q ∷ ps) h ((t, live, lt), above, rs) (n, ns) =
    let stays = h q n in
    let same : tid_of s' q ≡ tid_of s q = rw (stays, live, tid_of) in
    ((same, (t, stays ∙ live, rw same lt)), SameTids-others s s' p ps h rs ns)

module _ (w w' : World) (b tid : ℕ) (p : Ptr) (a : Removes w w' b tid p) (table : IsTable w) where
  removed :
      IsTasks w'.thread (to_list (w'.threads b).entries)
      × ((i : ℕ) → task_of w' b i ≡ (if tid == i then none else task_of w b i))
  removed =
      let ps = to_list (w.threads b).entries in
      let r = (table b).tasks in
      let r₁ = remove-IsTasks w.thread p ps r in
      let h =
        SameTids-others w.thread w'.thread p (remove p ps) a.others r₁
          (ne_of_removed w.thread p ps r) in
      (
        subst (IsTasks w'.thread) (sym a.entries)
            (IsTasks-frame w.thread w'.thread (remove p ps) h r₁),
        λ i.
            ap (of_tid w'.thread i) a.entries
            ∙ of_tid-frame w.thread w'.thread i (remove p ps) h
            ∙ of_tid-remove w.thread p tid i ps r a.found,
      )

  -- The search by tid, in each bucket.
  pub task_of-Removes :
      (c i : ℕ) → task_of w' c i ≡ (if b == c && tid == i then none else task_of w c i)
  task_of-Removes c i = elim (Bool-cases (b == c)) [
    | inl e ↦ rw e (
        subst (λ x. task_of w' x i ≡ (if tid == i then none else task_of w x i)) ((==_iff b c).0 e)
          (removed.1 i))
    | inr e ↦
        let (same, h, stay) = a.elsewhere c (==→ne b c e) in
        rw e (
          ap (λ t. of_tid w'.thread i (to_list t)) same
          ∙ of_tid-frame w.thread w'.thread i (to_list (w.threads c).entries) h)
  ]

  -- A thread that is cached is in the table still.
  kept_cache :
      (c : ℕ) (q : Ptr)
      → task_of w c (tid_of w.thread q) ≡ some q
      → (b == c ≡ true → ¬ (p ≡ q))
      → tid_of w'.thread q ≡ tid_of w.thread q
      → task_of w' c (tid_of w'.thread q) ≡ some q
  kept_cache c q among ne same =
      ap (task_of w' c) same ∙ task_of-Removes c (tid_of w.thread q) ∙ (elim (Bool-cases (b == c)) [
        | inr e ↦ rw e among
        | inl e ↦
            let in_b : task_of w b (tid_of w.thread q) ≡ some q =
              subst (λ x. task_of w x (tid_of w.thread q) ≡ some q) (sym ((==_iff b c).0 e))
                among in
            rw
              (
                e,
                ne→== tid (tid_of w.thread q)
                    (λ i. ne e (some-injective p q (sym (a.found) ∙ ap (task_of w b) i ∙ in_b))),
              )
              among
      ])

  pub IsTable-Removes : IsTable w'
  IsTable-Removes c = elim (Bool-cases (b == c)) [
    | inl e ↦ subst (IsBucket w') ((==_iff b c).0 e) (record {
      tasks = removed.0;
      cached = elim (a.cached) [
        | inl empty ↦ inl empty
        | inr (same, ne) ↦ elim ((table b).cached) [
          | inl empty ↦ inl (same ∙ empty)
          | inr (q, cache, among) ↦
              let apart : ¬ (p ≡ q) = λ i. ne (cache ∙ ap some (sym i)) in
              let stays = a.others q apart in
              inr (
                q,
                same ∙ cache,
                kept_cache b q among (λ k. apart)
                    (ap (λ o. elim o [ none ↦ 0 | some th ↦ th.tid ]) stays),
              )
        ]
      ];
    })
    | inr e ↦
        let (same, h, stay) = a.elsewhere c (==→ne b c e) in
        record {
          tasks =
              subst (λ t. IsTasks w'.thread (to_list t)) (sym same)
                (IsTasks-frame w.thread w'.thread (to_list (w.threads c).entries) h
                  ((table c).tasks));
          cached = elim ((table c).cached) [
            | inl empty ↦ inl (stay ∙ empty)
            | inr (q, cache, among) ↦ inr (
              q,
              stay ∙ cache,
              kept_cache c q among (λ k. absurd (cc))
                  ((of_tid-All w.thread (tid_of w.thread q)
                    (λ x. (tid_of w'.thread x ≡ tid_of w.thread x) × IsTask w'.thread x)
                    (to_list (w.threads c).entries) q h among).0),
            )
          ];
        }
  ]
