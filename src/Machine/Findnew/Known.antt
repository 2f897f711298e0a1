-- ===== src/Machine/Findnew/Known.antt =====
-- The search for a thread that is in the table.
use mathlib.Core.Path.{fun_ext, subst}
use mathlib.Core.Option.{some-injective}
use libdw_bcc.Prelude.{
  ℕ, ◌^◌, ◌<◌, ◌==◌, ==_iff, Bool-cases, inl, inr, ◌⊎◌, ◌≡◌, refl, ◌∙◌, ap, sym, true, Option, none,
  some,
}
use libdw_bcc.Outcome.{ok}
use libdw_bcc.Refcount.{refcount_inc}
use libdw_bcc.Rbtree.{Balance, Erase, to_list}
use libdw_bcc.Rbtree.Search.{descend-eq-find}
use libdw_bcc.Store.{Ptr, Thread, Threads, World, Cmd, ◌>>=◌, store_thread, update, with_threads}
use libdw_bcc.Thread.Lifetime.{thread_get}
use libdw_bcc.Unwind.Access.{AddrSpaces}
use libdw_bcc.Unwind.Access.Prepared.{load_thread-ok}
use libdw_bcc.Machine.Table.{tid_of, IsTasks, of_tid, of_tid-IsTask, find-of_tid}
use libdw_bcc.Machine.Findnew.{
  thread_turn, update_thread_tgid, known, search_tree, search_from, findnew_in,
}

-- One bucket of the table: its threads are live and in order, and the cached one is among them.
pub record IsBucket (w : World) (b : ℕ) : Type 0 where
  pub tasks : IsTasks w.thread (to_list (w.threads b).entries)
  pub cached :
      ((w.threads b).last_match ≡ none)
      ⊎ ((p : Ptr) × ((w.threads b).last_match ≡ some p)
          × (of_tid w.thread (tid_of w.thread p) (to_list (w.threads b).entries) ≡ some p))

-- The thread of a tid in a bucket.
abbrev pub task_of : World → ℕ → ℕ → Option Ptr
task_of w b tid = of_tid w.thread tid (to_list (w.threads b).entries)

-- The bucket with another cached thread.
abbrev pub with_last_match : World → ℕ → Option Ptr → World
with_last_match w b p = with_threads w b (record (w.threads b) { last_match = p })

-- A thread with one more reference.
abbrev pub with_reference : World → Ptr → Thread → World
with_reference w p t = record w {
  thread = update w.thread p (some (record t { refcnt = refcount_inc t.refcnt }));
}

pub with_threads_self : (w : World) (b : ℕ) (t : Threads) → (with_threads w b t).threads b ≡ t
with_threads_self w b t = rw ((==_iff b b).1 refl)

pub with_threads_twice :
    (w : World) (b : ℕ) (t u : Threads) → with_threads (with_threads w b t) b u ≡ with_threads w b u
with_threads_twice w b t u =
    ap (λ ts. record w { threads = ts })
      (fun_ext (λ i. elim (Bool-cases (b == i)) [ inl e ↦ rw e | inr e ↦ rw e ]))

pub with_last_match_same : (w : World) (b : ℕ) → with_last_match w b (w.threads b).last_match ≡ w
with_last_match_same w b =
    ap (λ ts. record w { threads = ts })
      (fun_ext (λ i. elim (Bool-cases (b == i)) [
        | inl e ↦ rw e (ap w.threads ((==_iff b i).0 e))
        | inr e ↦ rw e
      ]))

with_last_match_twice :
    (w : World) (b : ℕ) (p q : Option Ptr)
    → with_last_match (with_last_match w b p) b q ≡ with_last_match w b q
with_last_match_twice w b p q =
    ap (λ t. with_threads (with_last_match w b p) b (record t { last_match = q }))
      (with_threads_self w b (record (w.threads b) { last_match = p }))
    ∙ with_threads_twice w b (record (w.threads b) { last_match = p })
        (record (w.threads b) { last_match = q })

module _ (balance : Balance Ptr) (erase : Erase) (spaces : AddrSpaces)
    (leader_of : ℕ → Cmd (Option Ptr)) where
  -- The thread belongs to the process already.
  known-same_tgid :
      (w : World) (p : Ptr) (t : Thread) (tgid : ℕ)
      → w.thread p ≡ some t
      → tgid ≡ t.tgid
      → known balance erase spaces leader_of p tgid w ≡ ok (some p, with_reference w p t)
  unfolding known update_thread_tgid thread_get store_thread
  known-same_tgid w p t tgid live same =
      rw (load_thread-ok w p t live, ◌>>=◌)
        (rw ((==_iff tgid t.tgid).1 same) (rw (load_thread-ok w p t live, ◌>>=◌)))

  search_tree-task_of :
      (w : World) (b : ℕ) (p : Ptr) (t : Thread) (tgid tid : ℕ)
      → tid < 2 ^ 32
      → IsTasks w.thread (to_list (w.threads b).entries)
      → task_of w b tid ≡ some p
      → w.thread p ≡ some t
      → tgid ≡ t.tgid
      → search_tree balance erase spaces leader_of true b tgid tid w
        ≡ ok (some p, with_reference (with_last_match w b (some p)) p t)
  unfolding search_tree
  search_tree-task_of w b p t tgid tid small tasks e live same =
      let (cut, found) = find-of_tid w.thread tid small (to_list (w.threads b).entries) tasks in
      rw
        (
          descend-eq-find (thread_turn w.thread tid) (w.threads b).entries cut ∙ found ∙ e,
          search_tree,
        )
        (rw (load_thread-ok w p t live, ◌>>=◌)
          (known-same_tgid (with_last_match w b (some p)) p t tgid live same))

  cached-task_of :
      (w : World) (b : ℕ) (p : Ptr) (t : Thread) (tgid tid : ℕ)
      → tid < 2 ^ 32
      → IsTasks w.thread (to_list (w.threads b).entries)
      → task_of w b tid ≡ some p
      → w.thread p ≡ some t
      → tgid ≡ t.tgid
      → (th : Ptr) → (w.threads b).last_match ≡ some th
      → task_of w b (tid_of w.thread th) ≡ some th
      → search_from balance erase spaces leader_of (some th) true b tgid tid w
        ≡ ok (some p, with_reference (with_last_match w b (some p)) p t)
  unfolding search_from
  cached-task_of w b p t tgid tid small tasks e live same th cache among =
      let ((c, c_live, c_small), own) =
        of_tid-IsTask w.thread (tid_of w.thread th) (to_list (w.threads b).entries) th tasks
          among in
      rw (load_thread-ok w th c c_live, ◌>>=◌)
        (elim (Bool-cases (c.tid == tid)) [
          | inl hit ↦
              let its_tid : tid_of w.thread th ≡ tid =
                rw (c_live, tid_of) ((==_iff c.tid tid).0 hit) in
              let same_ptr : th ≡ p =
                some-injective th p (sym among ∙ ap (task_of w b) its_tid ∙ e) in
              rw hit (
                ap (λ q. known balance erase spaces leader_of q tgid w) same_ptr
                ∙ known-same_tgid w p t tgid live same
                ∙ ap (λ w'. ok (some p, with_reference w' p t))
                    (sym (with_last_match_same w b)
                      ∙ ap (with_last_match w b) (cache ∙ ap some same_ptr)))
          | inr miss ↦
              let w₁ = with_last_match w b none in
              let self = with_threads_self w b (record (w.threads b) { last_match = none }) in
              rw miss (
                search_tree-task_of w₁ b p t tgid tid small
                  (subst (λ ts. IsTasks w.thread (to_list ts.entries)) (sym self) tasks)
                  (ap (λ ts. of_tid w.thread tid (to_list ts.entries)) self ∙ e) live same
                ∙ ap (λ w'. ok (some p, with_reference w' p t))
                    (with_last_match_twice w b none (some p)))
        ])

  -- Any search for a thread that is in the table, with the id of its process, gives this thread,
  -- which becomes the cached one and has one more reference; all else stays.
  pub findnew_in-task_of :
      (w : World) (b : ℕ) (p : Ptr) (t : Thread) (tgid tid : ℕ)
      → tid < 2 ^ 32
      → IsBucket w b
      → task_of w b tid ≡ some p
      → w.thread p ≡ some t
      → tgid ≡ t.tgid
      → findnew_in balance erase spaces leader_of true b tgid tid w
        ≡ ok (some p, with_reference (with_last_match w b (some p)) p t)
  unfolding findnew_in
  findnew_in-task_of w b p t tgid tid small h e live same = elim h.cached [
    | inl empty ↦
        rw empty
          (unfold search_from in search_tree-task_of w b p t tgid tid small h.tasks e live same)
    | inr (th, cache, among) ↦
        rw cache (cached-task_of w b p t tgid tid small h.tasks e live same th cache among)
  ]
