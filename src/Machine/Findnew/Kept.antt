-- ===== src/Machine/Findnew/Kept.antt =====
-- The table, where the threads keep their ids and the buckets their trees.
use mathlib.Core.Path.{subst}
use mathlib.Core.Option.{some-injective}
use libdw_bcc.Prelude.{
  ℕ, ◌==◌, ==_iff, ==→ne, Bool-cases, inl, inr, ◌⊎◌, ◌≡◌, refl, ◌∙◌, ap, sym, some, List, [], ◌∷◌,
}
use libdw_bcc.Rbtree.{to_list}
use libdw_bcc.Store.{Ptr, Thread, World}
use libdw_bcc.Machine.Table.{
  Tasks, tid_of, IsTask, IsTasks, SameTids, of_tid, of_tid-IsTask, IsTasks-frame, of_tid-frame,
}
use libdw_bcc.Machine.Findnew.Known.{task_of, with_last_match}
use libdw_bcc.Machine.Findnew.Search.{entries-with_last_match}
use libdw_bcc.Machine.Findnew.Added.{IsTable}

-- Every thread is there still, with its tid.
abbrev pub KeepsTids : Tasks → Tasks → Type 0
KeepsTids s s' =
    (q : Ptr) (t : Thread) → s q ≡ some t → (t' : Thread) × (s' q ≡ some t') × (t'.tid ≡ t.tid)

-- A thread is written anew, with its tid.
pub KeepsTids-one :
    (s s' : Tasks) (p : Ptr) (t t' : Thread)
    → s p ≡ some t
    → s' p ≡ some t'
    → t'.tid ≡ t.tid
    → ((q : Ptr) → ¬ (p ≡ q) → s' q ≡ s q)
    → KeepsTids s s'
KeepsTids-one s s' p t t' live live' same others q this e = elim (Bool-cases (p == q)) [
  | inl here ↦
      let at : p ≡ q = (==_iff p q).0 here in
      let own = some-injective t this (sym live ∙ ap s at ∙ e) in
      (t', sym (ap s' at) ∙ live', same ∙ ap (λ x. x.tid) own)
  | inr other ↦ (this, others q (==→ne p q other) ∙ e, refl)
]

tid_of-KeepsTids :
    (s s' : Tasks) (q : Ptr)
    → KeepsTids s s'
    → IsTask s q
    → (tid_of s' q ≡ tid_of s q) × IsTask s' q
tid_of-KeepsTids s s' q k (t, live, small) =
    let (t', live', same) = k q t live in
    let own : tid_of s' q ≡ tid_of s q = rw (live, live', tid_of) same in
    (own, (t', live', rw own small))

SameTids-KeepsTids :
    (s s' : Tasks) (ps : List Ptr) → KeepsTids s s' → IsTasks s ps → SameTids s s' ps
SameTids-KeepsTids s s' [] k r = tt
SameTids-KeepsTids s s' (p ∷ ps) k (r, above, rs) =
    (tid_of-KeepsTids s s' p k r, SameTids-KeepsTids s s' ps k rs)

module _ (w v : World) (tids : KeepsTids w.thread v.thread)
    (entries : (b : ℕ) → (v.threads b).entries ≡ (w.threads b).entries) (h : IsTable w) where
  pub task_of-kept : (b i : ℕ) → task_of v b i ≡ task_of w b i
  task_of-kept b i =
      let ps = to_list (w.threads b).entries in
      ap (λ t. of_tid v.thread i (to_list t)) (entries b)
      ∙ of_tid-frame w.thread v.thread i ps
          (SameTids-KeepsTids w.thread v.thread ps tids ((h b).tasks))

  among-kept :
      (b : ℕ) (p : Ptr)
      → task_of w b (tid_of w.thread p) ≡ some p
      → task_of v b (tid_of v.thread p) ≡ some p
  among-kept b p among =
      let (task, own) =
        of_tid-IsTask w.thread (tid_of w.thread p) (to_list (w.threads b).entries) p ((h b).tasks)
          among in
      ap (task_of v b) (tid_of-KeepsTids w.thread v.thread p tids task).0
      ∙ task_of-kept b (tid_of w.thread p)
      ∙ among

  -- The cached thread is the one that it was, or another one of the bucket.
  abbrev IsCached : ℕ → Type 0
  IsCached b =
      ((v.threads b).last_match ≡ (w.threads b).last_match)
      ⊎ ((p : Ptr) × ((v.threads b).last_match ≡ some p)
          × (task_of w b (tid_of w.thread p) ≡ some p))

  pub IsTable-kept : ((b : ℕ) → IsCached b) → IsTable v
  IsTable-kept caches b =
      let ps = to_list (w.threads b).entries in
      record {
        tasks =
            subst (λ t. IsTasks v.thread (to_list t)) (sym (entries b))
              (IsTasks-frame w.thread v.thread ps
                (SameTids-KeepsTids w.thread v.thread ps tids ((h b).tasks)) ((h b).tasks));
        cached = elim (caches b) [
          | inr (p, e, among) ↦ inr (p, e, among-kept b p among)
          | inl same ↦ elim ((h b).cached) [
            | inl empty ↦ inl (same ∙ empty)
            | inr (p, e, among) ↦ inr (p, same ∙ e, among-kept b p among)
          ]
        ];
      }

-- A thread of the table is cached, and a thread written anew with its tid.
pub IsTable-served :
    (w : World) (b tid : ℕ) (p : Ptr) (s : Tasks)
    → KeepsTids w.thread s
    → IsTable w
    → task_of w b tid ≡ some p
    → let v : World = record (with_last_match w b (some p)) { thread = s } in
      IsTable v × ((c i : ℕ) → task_of v c i ≡ task_of w c i)
IsTable-served w b tid p s tids h found =
    let v : World = record (with_last_match w b (some p)) { thread = s } in
    let entries = λ (c : ℕ). entries-with_last_match w b c (some p) in
    let (task, own) =
      of_tid-IsTask w.thread tid (to_list (w.threads b).entries) p ((h b).tasks) found in
    (
      IsTable-kept w v tids entries h (λ c. elim (Bool-cases (b == c)) [
        | inl here ↦ inr (
          p,
          rw here,
          subst (λ x. task_of w x (tid_of w.thread p) ≡ some p) ((==_iff b c).0 here)
              (ap (task_of w b) own ∙ found),
        )
        | inr other ↦ inl (rw other)
      ]),
      task_of-kept w v tids entries h,
    )
