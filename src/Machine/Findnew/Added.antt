-- ===== src/Machine/Findnew/Added.antt =====
-- What a new thread changes in the table.
use mathlib.Core.Path.{subst}
use libdw_bcc.Prelude.{
  ℕ, ◌^◌, ◌<◌, ◌==◌, ==_iff, ne→==, ==→ne, ◌&&◌, Bool-cases, inl, inr, ◌⊎◌, ◌≡◌, refl, ◌∙◌, ap, sym,
  false, Option, none, some, List, [], ◌∷◌, if◌then◌else◌,
}
use libdw_bcc.Rbtree.{Tree, Balance, to_list, rb_link_node}
use libdw_bcc.Rbtree.Search.{place, slot, to_list-link}
use libdw_bcc.Store.{Ptr, World}
use libdw_bcc.Machine.Table.{
  Tasks, tid_of, IsTask, IsTasks, SameTids, of_tid, of_tid-IsTask, of_tid-frame, IsTasks-frame,
  find-of_tid, insert-IsTasks,
}
use libdw_bcc.Machine.Findnew.{thread_turn}
use libdw_bcc.Machine.Findnew.Known.{IsBucket, task_of}

-- The whole table.
abbrev pub IsTable : World → Type 0
IsTable w = (b : ℕ) → IsBucket w b

-- The thread of a fresh pointer is put at its place in a bucket, and the others stay as they are.
pub record Adds (w w' : World) (b tid : ℕ) (p : Ptr) : Type 0 where
  pub fresh : w.thread p ≡ none
  pub live : IsTask w'.thread p
  pub own : tid_of w'.thread p ≡ tid
  pub others : (q : Ptr) → ¬ (p ≡ q) → w'.thread q ≡ w.thread q
  pub entries :
      to_list (w'.threads b).entries
      ≡ place (thread_turn w.thread tid) p (to_list (w.threads b).entries)
  pub elsewhere : (c : ℕ) → ¬ (b ≡ c) → (w'.threads c).entries ≡ (w.threads c).entries

-- What the cache of a bucket holds afterwards: nothing, the new thread, or one that was found
-- before.
abbrev pub IsKept : World → ℕ → Ptr → ℕ → Option Ptr → Type 0
IsKept w b p c o =
    (o ≡ none)
    ⊎ (((o ≡ some p) × (b ≡ c))
        ⊎ ((q : Ptr) × (o ≡ some q) × (task_of w c (tid_of w.thread q) ≡ some q)))

-- The tree, where the new node is linked at the end of the search.
pub to_list-added :
    (balance : Balance Ptr) (s : Tasks) (tid : ℕ) (p : Ptr) (t : Tree Ptr)
    → tid < 2 ^ 32
    → IsTasks s (to_list t)
    → of_tid s tid (to_list t) ≡ none
    → let at = slot (thread_turn s tid) t in
      to_list (balance.rb_insert_color at (rb_link_node p at t))
      ≡ place (thread_turn s tid) p (to_list t)
to_list-added balance s tid p t small r e =
    let at = slot (thread_turn s tid) t in
    let (cut, found) = find-of_tid s tid small (to_list t) r in
    balance.insert_keeps_order at (rb_link_node p at t)
    ∙ to_list-link (thread_turn s tid) p t cut (found ∙ e)

module _ (w w' : World) (b tid : ℕ) (p : Ptr) (small : tid < 2 ^ 32) (a : Adds w w' b tid p) where
  ne_of_live : (q : Ptr) → IsTask w.thread q → ¬ (p ≡ q)
  ne_of_live q (t, live, r) e = cc (a.fresh, subst (λ x. w.thread x ≡ some t) (sym e) live)

  SameTids-Adds : (ps : List Ptr) → IsTasks w.thread ps → SameTids w.thread w'.thread ps
  SameTids-Adds [] r = tt
  SameTids-Adds (q ∷ ps) ((t, live, lt), above, rs) =
      let stays = a.others q (ne_of_live q (t, live, lt)) in
      let same : tid_of w'.thread q ≡ tid_of w.thread q = rw (stays, live, tid_of) in
      ((same, (t, stays ∙ live, rw same lt)), SameTids-Adds ps rs)

  module _ (table : IsTable w) (new : task_of w b tid ≡ none) where
    added :
        IsTasks w'.thread (to_list (w'.threads b).entries)
        × ((i : ℕ) → task_of w' b i ≡ (if tid == i then some p else task_of w b i))
    added =
        let r = (table b).tasks in
        let (r', found) =
          insert-IsTasks w.thread w'.thread tid p (to_list (w.threads b).entries) small r new
            (SameTids-Adds (to_list (w.threads b).entries) r) a.live a.own in
        (
          subst (IsTasks w'.thread) (sym a.entries) r',
          λ i. ap (of_tid w'.thread i) a.entries ∙ found i,
        )

    stays :
        (c : ℕ)
        → ¬ (b ≡ c)
        → IsTasks w'.thread (to_list (w'.threads c).entries)
          × ((i : ℕ) → task_of w' c i ≡ task_of w c i)
    stays c ne =
        let r = (table c).tasks in
        let same = ap to_list (a.elsewhere c ne) in
        let h = SameTids-Adds (to_list (w.threads c).entries) r in
        (
          subst (IsTasks w'.thread) (sym same)
              (IsTasks-frame w.thread w'.thread (to_list (w.threads c).entries) h r),
          λ i.
              ap (of_tid w'.thread i) same
              ∙ of_tid-frame w.thread w'.thread i (to_list (w.threads c).entries) h,
        )

    pub IsTasks-Adds : (c : ℕ) → IsTasks w'.thread (to_list (w'.threads c).entries)
    IsTasks-Adds c = elim (Bool-cases (b == c)) [
      | inl e ↦
          subst (λ x. IsTasks w'.thread (to_list (w'.threads x).entries)) ((==_iff b c).0 e) added.0
      | inr e ↦ (stays c (==→ne b c e)).0
    ]

    -- The search by tid, in each bucket.
    pub task_of-Adds :
        (c i : ℕ) → task_of w' c i ≡ (if b == c && tid == i then some p else task_of w c i)
    task_of-Adds c i = elim (Bool-cases (b == c)) [
      | inl e ↦ rw e (
          subst (λ x. task_of w' x i ≡ (if tid == i then some p else task_of w x i))
            ((==_iff b c).0 e) (added.1 i))
      | inr e ↦ rw e ((stays c (==→ne b c e)).1 i)
    ]

    some_ne_none : (q : Ptr) (o : Option Ptr) → o ≡ some q → ¬ (o ≡ none)
    some_ne_none q o e n = cc

    -- A thread that was found by its tid is found by it still.
    pub kept_task :
        (c : ℕ) (q : Ptr)
        → task_of w c (tid_of w.thread q) ≡ some q
        → task_of w' c (tid_of w'.thread q) ≡ some q
    kept_task c q among =
        let ((t, live, lt), own) =
          of_tid-IsTask w.thread (tid_of w.thread q) (to_list (w.threads c).entries) q
            ((table c).tasks) among in
        let same : tid_of w'.thread q ≡ tid_of w.thread q =
          rw (a.others q (ne_of_live q (t, live, lt)), live, tid_of) in
        let other : (b == c && tid == tid_of w.thread q) ≡ false = elim (Bool-cases (b == c)) [
          | inr e ↦ rw e
          | inl e ↦ rw e (
              ne→== tid (tid_of w.thread q) (λ i.
                some_ne_none q (task_of w c (tid_of w.thread q)) among (
                  subst (λ x. task_of w x (tid_of w.thread q) ≡ none) ((==_iff b c).0 e)
                    (ap (task_of w b) (sym i) ∙ new))))
        ] in
        ap (task_of w' c) same
        ∙ task_of-Adds c (tid_of w.thread q)
        ∙ ap (λ x. if x then some p else task_of w c (tid_of w.thread q)) other
        ∙ among

    pub IsTable-Adds : ((c : ℕ) → IsKept w b p c (w'.threads c).last_match) → IsTable w'
    IsTable-Adds caches c = record {
      tasks = IsTasks-Adds c;
      cached = elim (caches c) [
        | inl e ↦ inl e
        | inr (inl (e, here)) ↦ inr (
          p,
          e,
          subst (λ x. task_of w' x (tid_of w'.thread p) ≡ some p) here
              (ap (task_of w' b) a.own
                ∙ task_of-Adds b tid
                ∙ rw ((==_iff b b).1 refl, (==_iff tid tid).1 refl)),
        )
        | inr (inr (q, e, among)) ↦ inr (q, e, kept_task c q among)
      ];
    }
