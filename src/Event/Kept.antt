-- ===== src/Event/Kept.antt =====
-- What bpf_unwind_ctx__process_mmap gives back at its end, and the maps that it leaves as they are.
use libdw_bcc.Prelude.{
  All, ◌≤◌, ℕ, ◌+◌, ◌^◌, ◌<◌, ◌==◌, ==_iff, ◌≡◌, refl, ◌∙◌, ap, sym, arith, Bool-cases, inl, inr,
  true, false, none, some, List, [], ◌∷◌, if◌then◌else◌,
}
use libdw_bcc.Outcome.{ok}
use libdw_bcc.Refcount.{refcount_inc, refcount_dec_and_test}
use libdw_bcc.Rbtree.{Erase}
use libdw_bcc.Store.{Ptr, Map, Thread, World, ◌>>=◌, load_map, store_map, store_thread, update}
use libdw_bcc.Maps.Ranges.{start_of, end_of, IsRanges, Apart, covers, covering}
use libdw_bcc.Maps.Laws.{SameRanges}
use libdw_bcc.Maps.Lifetime.{map_put}
use libdw_bcc.Thread.Lifetime.{thread_put}
use libdw_bcc.Unwind.Access.{AddrSpaces}
use libdw_bcc.Unwind.Access.Prepared.{load_thread-ok}
use libdw_bcc.Machine.Findnew.Shared.{refcount_back, with_thread}

abbrev pub with_count : World → Ptr → Map → ℕ → World
with_count w p m n = record w { map = update w.map p (some (record m { refcnt = n })) }

-- Ranges do not see a count.
pub with_count-SameRanges :
    (w : World) (p : Ptr) (m : Map) (n : ℕ) → w.map p ≡ some m → SameRanges w (with_count w p m n)
with_count-SameRanges w p m n h q = elim (Bool-cases (p == q)) [
  | inl same ↦
      let here : w.map q ≡ some m = ap w.map (sym ((==_iff p q).0 same)) ∙ h in
      (
        ground (arith, here, same),
        ground (arith, here, same),
        λ r. (record m { refcnt = n }, ground (arith, same), ground (arith, here, same, r.2)),
      )
  | inr other ↦ (
    ground (arith, other),
    ground (arith, other),
    λ r. (r.0, ground (arith, other, r.1), ground (arith, other, r.2)),
  )
]

-- A second reference is given back.
pub map_put-second :
    (w : World) (p : Ptr) (m : Map)
    → w.map p ≡ some (record m { refcnt = 2 })
    → map_put true p w ≡ ok (tt, with_count w p (record m { refcnt = 2 }) 1)
unfolding map_put load_map store_map refcount_dec_and_test
map_put-second w p m h = rw (h, ◌>>=◌)

pub thread_put-second :
    (erase : Erase) (spaces : AddrSpaces) (w : World) (p : Ptr) (t : Thread) (n : ℕ)
    → w.thread p ≡ some t
    → t.refcnt ≡ refcount_inc n
    → 0 < n
    → n + 1 < 2 ^ 32
    → thread_put erase spaces false p w ≡ ok (tt, with_thread w p (record t { refcnt = n }))
unfolding thread_put store_thread
thread_put-second erase spaces w p t n live count some_ small =
    rw (load_thread-ok w p t live, ◌>>=◌)
      (rw (ap refcount_dec_and_test count ∙ refcount_back n some_ small))

-- The listed maps are the same objects.
abbrev pub SameMaps : World → World → List Ptr → Type 0
SameMaps w w' ps = All (λ q. w'.map q ≡ w.map q) ps

-- A fresh pointer is none of the live maps.
pub fresh-SameMaps :
    (w w' : World) (p : Ptr) (ps : List Ptr)
    → w.map p ≡ none
    → ((q : Ptr) → ¬ (p ≡ q) → w'.map q ≡ w.map q)
    → IsRanges w ps
    → SameMaps w w' ps
fresh-SameMaps w w' p [] h k r = tt
fresh-SameMaps w w' p (q ∷ ps) h k ((m, live, lt), above, rs) =
    (k q (λ e. cc (h, live, ap w.map e)), fresh-SameMaps w w' p ps h k rs)

module _ (w w' : World) where
  pub IsRanges-kept : (ps : List Ptr) → SameMaps w w' ps → IsRanges w ps → IsRanges w' ps
  IsRanges-kept [] h r = tt
  IsRanges-kept (p ∷ ps) (h, hs) ((m, live, lt), above, rs) =
      ((m, h ∙ live, rw (h, start_of, end_of) lt), above_kept ps hs above, IsRanges-kept ps hs rs)
    where
      above_kept :
          (qs : List Ptr)
          → SameMaps w w' qs
          → All (λ q. end_of w p ≤ start_of w q) qs
          → All (λ q. end_of w' p ≤ start_of w' q) qs
      above_kept [] k a = tt
      above_kept (q ∷ qs) (k, ks) (a, as_) = (rw (k, h, start_of, end_of) a, above_kept qs ks as_)

  pub Apart-kept : (s e : ℕ) (ps : List Ptr) → SameMaps w w' ps → Apart w s e ps → Apart w' s e ps
  Apart-kept s e [] h a = tt
  Apart-kept s e (p ∷ ps) (h, hs) (a, as_) = (rw (h, start_of, end_of) a, Apart-kept s e ps hs as_)

  pub covering-kept :
      (ip : ℕ) (ps : List Ptr) → SameMaps w w' ps → covering w' ip ps ≡ covering w ip ps
  covering-kept ip [] h = refl
  covering-kept ip (p ∷ ps) (h, hs) =
      rw (h, covers, start_of, end_of)
        (ap (λ r. if covers w ip p then some p else r) (covering-kept ip ps hs))

-- Maps that are not written.
pub same_maps : (w : World) (ps : List Ptr) → All (λ q. w.map q ≡ w.map q) ps
same_maps w [] = tt
same_maps w (q ∷ ps) = (refl, same_maps w ps)
