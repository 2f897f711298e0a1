-- ===== src/Machine/Findnew/Search.antt =====
-- The search for a thread that is not in the table comes to the end of the tree, with no thread
-- cached.
use mathlib.Core.Path.{subst}
use libdw_bcc.Prelude.{
  ℕ, ◌^◌, ◌<◌, ◌==◌, ==_iff, ne→==, Bool-cases, inl, inr, ◌≡◌, refl, ◌∙◌, ap, sym, true, false,
  Option, none, some,
}
use libdw_bcc.Rbtree.{Balance, Erase, to_list}
use libdw_bcc.Rbtree.Search.{slot, descend-eq-find}
use libdw_bcc.Store.{Ptr, Threads, World, Cmd, ◌>>=◌, with_threads}
use libdw_bcc.Unwind.Access.{AddrSpaces}
use libdw_bcc.Unwind.Access.Prepared.{load_thread-ok}
use libdw_bcc.Machine.Table.{tid_of, IsTasks, of_tid, of_tid-IsTask, find-of_tid}
use libdw_bcc.Machine.Findnew.{thread_turn, add_thread, search_tree, search_from, findnew_in}
use libdw_bcc.Machine.Findnew.Known.{task_of, with_last_match, with_last_match_same}
use libdw_bcc.Machine.Findnew.Added.{IsTable}

-- The bucket with no thread cached.
abbrev pub uncached : World → ℕ → World
uncached w b = with_last_match w b none

pub entries-with_threads :
    (w : World) (b c : ℕ) (t : Threads)
    → t.entries ≡ (w.threads b).entries
    → ((with_threads w b t).threads c).entries ≡ (w.threads c).entries
entries-with_threads w b c t h = elim (Bool-cases (b == c)) [
  | inl e ↦ rw e (h ∙ ap (λ i. (w.threads i).entries) ((==_iff b c).0 e))
  | inr e ↦ rw e
]

pub entries-with_last_match :
    (w : World) (b c : ℕ) (o : Option Ptr)
    → ((with_last_match w b o).threads c).entries ≡ (w.threads c).entries
entries-with_last_match w b c o =
    entries-with_threads w b c (record (w.threads b) { last_match = o }) refl

pub task_of-uncached : (w : World) (b c i : ℕ) → task_of (uncached w b) c i ≡ task_of w c i
task_of-uncached w b c i =
    ap (λ t. of_tid w.thread i (to_list t)) (entries-with_last_match w b c none)

pub IsTable-uncached : (w : World) (b : ℕ) → IsTable w → IsTable (uncached w b)
IsTable-uncached w b h c = record {
  tasks =
      subst (λ t. IsTasks w.thread (to_list t)) (sym (entries-with_last_match w b c none))
        ((h c).tasks);
  cached = elim (Bool-cases (b == c)) [
    | inl e ↦ inl (rw e)
    | inr e ↦ elim ((h c).cached) [
      | inl empty ↦ inl (rw e empty)
      | inr (p, cache, among) ↦
          inr (p, rw e cache, task_of-uncached w b c (tid_of w.thread p) ∙ among)
    ]
  ];
}

not_both : (p : Ptr) (o : Option Ptr) → o ≡ some p → ¬ (o ≡ none)
not_both p o e n = cc

module _ (balance : Balance Ptr) (erase : Erase) (spaces : AddrSpaces)
    (leader_of : ℕ → Cmd (Option Ptr)) where
  search_tree-none :
      (w : World) (b tgid tid : ℕ)
      → tid < 2 ^ 32
      → IsTasks w.thread (to_list (w.threads b).entries)
      → task_of w b tid ≡ none
      → search_tree balance erase spaces leader_of true b tgid tid w
        ≡ add_thread balance erase spaces leader_of b tgid tid
            (slot (thread_turn w.thread tid) (w.threads b).entries)
            w
  unfolding search_tree
  search_tree-none w b tgid tid small tasks e =
      let (cut, found) = find-of_tid w.thread tid small (to_list (w.threads b).entries) tasks in
      rw (
        descend-eq-find (thread_turn w.thread tid) (w.threads b).entries cut ∙ found ∙ e,
        search_tree,
      )

  pub findnew_in-none :
      (w : World) (b tgid tid : ℕ)
      → tid < 2 ^ 32
      → IsTable w
      → task_of w b tid ≡ none
      → let w₀ = uncached w b in
        findnew_in balance erase spaces leader_of true b tgid tid w
        ≡ add_thread balance erase spaces leader_of b tgid tid
            (slot (thread_turn w₀.thread tid) (w₀.threads b).entries)
            w₀
  unfolding findnew_in search_from
  findnew_in-none w b tgid tid small h e = elim ((h b).cached) [
    | inl empty ↦
        ap (λ o. search_from balance erase spaces leader_of o true b tgid tid w) empty
        ∙ search_tree-none w b tgid tid small ((h b).tasks) e
        ∙ ap
            (λ v.
              add_thread balance erase spaces leader_of b tgid tid
                (slot (thread_turn v.thread tid) (v.threads b).entries) v)
            (sym (with_last_match_same w b) ∙ ap (with_last_match w b) empty)
    | inr (th, cache, among) ↦
        let ((c, live, lt), own) =
          of_tid-IsTask w.thread (tid_of w.thread th) (to_list (w.threads b).entries) th
            ((h b).tasks) among in
        let miss : (c.tid == tid) ≡ false = ne→== c.tid tid (λ i.
          not_both th (task_of w b tid) (ap (task_of w b) (sym (rw (live, tid_of) i)) ∙ among) e) in
        ap (λ o. search_from balance erase spaces leader_of o true b tgid tid w) cache
        ∙ rw (load_thread-ok w th c live, ◌>>=◌)
            (rw miss (
              search_tree-none (uncached w b) b tgid tid small ((IsTable-uncached w b h b).tasks)
                (task_of-uncached w b b tid ∙ e)))
  ]
