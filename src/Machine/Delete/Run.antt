-- ===== src/Machine/Delete/Run.antt =====
-- __machine__remove_thread: what is left of the bucket, before the reference is given back.
use mathlib.Core.Option.{some-injective}
use libdw_bcc.Prelude.{
  ℕ, ◌==◌, ◌++◌, ==_iff, ne→==, ==→ne, ◌⊎◌, sub32, Bool-cases, inl, inr, ◌≡◌, refl, ◌∙◌, ap, sym,
  true, Option, none, some, [], ◌∷◌, if◌then◌else◌,
}
use libdw_bcc.Outcome.{ok}
use libdw_bcc.Rbtree.{Erase, to_list}
use libdw_bcc.Store.{Ptr, Thread, Threads, World, ◌>>=◌, ◌>>◌, with_threads}
use libdw_bcc.Thread.Lifetime.{thread_put}
use libdw_bcc.Unwind.Access.{AddrSpaces}
use libdw_bcc.Unwind.Access.Prepared.{load_thread-ok}
use libdw_bcc.Machine.{machine_threads}
use libdw_bcc.Machine.Table.{SameTids}
use libdw_bcc.Machine.Findnew.{is_ptr}
use libdw_bcc.Machine.Findnew.Known.{
  task_of, with_last_match, with_last_match_same, with_threads_self, with_threads_twice,
}
use libdw_bcc.Machine.Delete.{forget, bury, remove_thread}
use libdw_bcc.Machine.Delete.Removed.{Removes}

-- The cache of a bucket, once a thread is forgotten.
abbrev pub uncached_of : Option Ptr → Ptr → Option Ptr
uncached_of o p = if is_ptr o p then none else o

-- The bucket without the thread, which is one of the dead.
abbrev pub left : Erase → Threads → Ptr → Threads
left erase threads p = record {
  entries = erase.rb_erase p threads.entries;
  nr = sub32 threads.nr 1;
  dead = threads.dead ++ (p ∷ []);
  last_match = uncached_of threads.last_match p;
}

abbrev pub with_left : Erase → World → ℕ → Ptr → World
with_left erase w b p = with_threads w b (left erase (w.threads b) p)

forget-run :
    (w : World) (b : ℕ) (p : Ptr)
    → forget b p w ≡ ok (tt, with_last_match w b (uncached_of (w.threads b).last_match p))
unfolding forget
forget-run w b p = elim (Bool-cases (is_ptr (w.threads b).last_match p)) [
  | inl e ↦ rw e
  | inr e ↦ rw e (ap (λ v. ok (tt, v)) (sym (with_last_match_same w b)))
]

bury-run :
    (erase : Erase) (w : World) (b : ℕ) (p : Ptr)
    → bury erase b p (with_last_match w b (uncached_of (w.threads b).last_match p))
      ≡ ok (tt, with_left erase w b p)
unfolding bury
bury-run erase w b p =
    let o = uncached_of (w.threads b).last_match p in
    let t : Threads = record (w.threads b) { last_match = o } in
    ap
      (λ u. ok (
        tt,
        with_threads (with_last_match w b o) b (record u {
          entries = erase.rb_erase p u.entries;
          nr = sub32 u.nr 1;
          dead = u.dead ++ (p ∷ []);
        }),
      ))
      (with_threads_self w b t)
    ∙ ap (λ v. ok (tt, v)) (with_threads_twice w b t (left erase (w.threads b) p))

module _ (erase : Erase) (spaces : AddrSpaces) where
  pub remove_thread-run :
      (w : World) (p : Ptr) (t : Thread)
      → w.thread p ≡ some t
      → ¬ (t.refcnt ≡ 0)
      → remove_thread erase spaces p w
        ≡ thread_put erase spaces true p (with_left erase w (machine_threads t.tid) p)
  unfolding remove_thread
  remove_thread-run w p t live held =
      rw (load_thread-ok w p t live, ◌>>=◌)
        (rw (forget-run w (machine_threads t.tid) p, ◌>>◌, ◌>>=◌)
          (rw (ne→== t.refcnt 0 held, ◌>>◌, ◌>>=◌)
            (rw (bury-run erase w (machine_threads t.tid) p, ◌>>◌, ◌>>=◌))))

-- The cache does not hold a thread that has left.
uncached_lem :
    (o : Option Ptr) (p : Ptr) → (uncached_of o p ≡ none) ⊎ ((uncached_of o p ≡ o) × ¬ (o ≡ some p))
uncached_lem none p = inl refl
uncached_lem (some q) p = elim (Bool-cases (q == p)) [
  | inl e ↦ inl (rw e)
  | inr e ↦ inr (rw e, λ i. ==→ne q p e (some-injective q p i))
]

module _ (erase : Erase) (w w' : World) (b tid : ℕ) (p : Ptr) (found : task_of w b tid ≡ some p)
    (others : (q : Ptr) → ¬ (p ≡ q) → w'.thread q ≡ w.thread q)
    (same : (c : ℕ) → (w'.threads c).entries ≡ ((with_left erase w b p).threads c).entries)
    (cache : (c : ℕ) → (w'.threads c).last_match ≡ ((with_left erase w b p).threads c).last_match)
    (rest : (c : ℕ) → ¬ (b ≡ c) → SameTids w.thread w'.thread (to_list (w.threads c).entries)) where
  pub with_left-Removes : Removes w w' b tid p
  with_left-Removes = record {
    found = found;
    others = others;
    entries =
        ap to_list (same b)
        ∙ rw ((==_iff b b).1 refl) (erase.erase_removes p (w.threads b).entries);
    elsewhere = λ c ne. (same c ∙ rw (ne→== b c ne), rest c ne, cache c ∙ rw (ne→== b c ne));
    cached = elim (uncached_lem (w.threads b).last_match p) [
      | inl e ↦ inl (cache b ∙ rw ((==_iff b b).1 refl) e)
      | inr (e, ne) ↦ inr (cache b ∙ rw ((==_iff b b).1 refl) e, ne)
    ];
  }
