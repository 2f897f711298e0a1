-- ===== src/Machine/Table.antt =====
-- One bucket of the machine's table: the search by tid, and where a new thread goes.
use mathlib.Core.Path.{subst}
use mathlib.Core.Option.{some-injective}
use libdw_bcc.Prelude.{
  ℕ, ◌^◌, ◌<◌, ◌≤◌, ◌==◌, ◌≡◌, refl, ◌∙◌, ap, sym, false, Bool-cases, inl, inr, Option, none, some,
  List, [], ◌∷◌, if◌then◌else◌, arith, All, All-imp, ==_iff, ltb→lt, ltb→le, ==→ne, ==_iff,
}
use libdw_bcc.Rbtree.Search.{go_left, go_right, stop, find, place, place-All, place-congr, IsCut}
use libdw_bcc.Store.{Ptr, Thread}
use libdw_bcc.Machine.Findnew.{signed_key, lt_pid, thread_turn}

-- The threads behind pointers, as a memory has them.
abbrev pub Tasks : Type 0
Tasks = Ptr → Option Thread

abbrev pub tid_of : Tasks → Ptr → ℕ
tid_of s p = elim (s p) [ none ↦ 0 | some th ↦ th.tid ]

abbrev pub key_of : Tasks → Ptr → ℕ
key_of s p = signed_key (tid_of s p)

-- A live thread, whose tid is a 32-bit pattern.
abbrev pub IsTask : Tasks → Ptr → Type 0
IsTask s p = (th : Thread) × (s p ≡ some th) × (tid_of s p < 2 ^ 32)

-- Live threads with ascending ids.
abbrev pub IsTasks : Tasks → List Ptr → Type 0
IsTasks s [] = Unit
IsTasks s (p ∷ ps) = IsTask s p × All (λ q. key_of s p < key_of s q) ps × IsTasks s ps

-- The specification: the thread of a tid.
abbrev pub of_tid : Tasks → ℕ → List Ptr → Option Ptr
of_tid s tid [] = none
of_tid s tid (p ∷ ps) = if tid_of s p == tid then some p else of_tid s tid ps

-- Of two different ids the one that is not above is below.
key_lt :
    (a b : ℕ)
    → a < 2 ^ 32
    → b < 2 ^ 32
    → ¬ (a ≡ b)
    → lt_pid b a ≡ false
    → signed_key a < signed_key b
key_lt a b ha hb ne h = omega (arith, ltb→le (signed_key b) (signed_key a) h)

module _ (s : Tasks) (tid : ℕ) (small : tid < 2 ^ 32) where
  thread_turn-IsTask :
      (p : Ptr)
      → IsTask s p
      → thread_turn s tid p ≡ (
          if tid_of s p == tid then stop else if lt_pid tid (tid_of s p) then go_left else go_right)
  unfolding thread_turn
  thread_turn-IsTask p (th, e, r) = rw (e, thread_turn, tid_of)

  above-Lefts :
      (k : ℕ) (ps : List Ptr)
      → signed_key tid ≤ k
      → All (λ q. k < key_of s q) ps
      → IsTasks s ps
      → All (λ q. thread_turn s tid q ≡ go_left) ps
  above-Lefts k [] le h r = tt
  above-Lefts k (p ∷ ps) le h (r, above, rs) =
      (ground (arith, thread_turn-IsTask p r), above-Lefts k ps le h.1 rs)

  of_tid_above :
      (k : ℕ) (ps : List Ptr)
      → signed_key tid ≤ k
      → All (λ q. k < key_of s q) ps
      → of_tid s tid ps ≡ none
  of_tid_above k [] le h = refl
  of_tid_above k (p ∷ ps) le h = ground (arith, of_tid_above k ps le h.1)

  pub find-of_tid :
      (ps : List Ptr)
      → IsTasks s ps
      → IsCut (thread_turn s tid) ps × (find (thread_turn s tid) ps ≡ of_tid s tid ps)
  unfolding find
  find-of_tid [] r = (tt, refl)
  find-of_tid (p ∷ ps) (r, above, rs) = ground (
    arith,
    thread_turn-IsTask p r,
    find-of_tid ps rs,
    above-Lefts (key_of s p) ps,
    of_tid_above (key_of s p) ps,
  )

  below-All :
      (j k : ℕ) (ps : List Ptr)
      → j < k
      → All (λ q. k < key_of s q) ps
      → All (λ q. j < key_of s q) ps
  below-All j k ps h = All-imp (λ q. k < key_of s q) (λ q. j < key_of s q) ps (λ q i. omega arith)

  -- A new thread goes to its place among the others, is found there, and leaves the others found.
  module _ (p : Ptr) (new : IsTask s p) (own : tid_of s p ≡ tid) where
    pub place-IsTasks :
        (ps : List Ptr)
        → IsTasks s ps
        → of_tid s tid ps ≡ none
        → IsTasks s (place (thread_turn s tid) p ps)
    unfolding place
    place-IsTasks [] r e = (new, tt, tt)
    place-IsTasks (q ∷ ps) (r, above, rs) e =
        let other : (tid_of s q == tid) ≡ false = ground arith in
        let later : of_tid s tid ps ≡ none = ground arith in
        let apart = ==→ne (tid_of s q) tid other in
        let turn = thread_turn-IsTask q r in
        elim (Bool-cases (lt_pid tid (tid_of s q))) [
          | inl before ↦
              let lt : key_of s p < key_of s q = rw own (ltb→lt _ _ before) in
              rw (turn, other, before, place)
                (new, (lt, below-All (key_of s p) (key_of s q) ps lt above), (r, above, rs))
          | inr after ↦
              let lt : key_of s q < key_of s p =
                rw own (key_lt (tid_of s q) tid (r.2) small apart after) in
              rw (turn, other, after, place)
                (
                  r,
                  place-All (thread_turn s tid) (λ x. key_of s q < key_of s x) p ps lt above,
                  place-IsTasks ps rs later,
                )
        ]

    pub of_tid-place :
        (i : ℕ) (ps : List Ptr)
        → IsTasks s ps
        → of_tid s tid ps ≡ none
        → of_tid s i (place (thread_turn s tid) p ps) ≡ (if tid == i then some p else of_tid s i ps)
    unfolding place
    of_tid-place i [] r e = rw own
    of_tid-place i (q ∷ ps) (r, above, rs) e =
        ground (arith, thread_turn-IsTask q r, of_tid-place i ps rs)

-- What IsTasks and of_tid say stays, where the threads of the list keep their ids.
abbrev pub SameTids : Tasks → Tasks → List Ptr → Type 0
SameTids s s' ps = All (λ q. (tid_of s' q ≡ tid_of s q) × IsTask s' q) ps

pub IsTasks-frame : (s s' : Tasks) (ps : List Ptr) → SameTids s s' ps → IsTasks s ps → IsTasks s' ps
IsTasks-frame s s' [] h r = tt
IsTasks-frame s s' (p ∷ ps) (h, hs) (r, above, rs) =
    (h.1, above-frame ps hs above, IsTasks-frame s s' ps hs rs)
  where
    above-frame :
        (qs : List Ptr)
        → SameTids s s' qs
        → All (λ q. key_of s p < key_of s q) qs
        → All (λ q. key_of s' p < key_of s' q) qs
    above-frame [] k a = tt
    above-frame (q ∷ qs) (k, ks) (a, as_) = (rw (k.0, h.0) a, above-frame qs ks as_)

pub of_tid-frame :
    (s s' : Tasks) (tid : ℕ) (ps : List Ptr) → SameTids s s' ps → of_tid s' tid ps ≡ of_tid s tid ps
of_tid-frame s s' tid [] h = refl
of_tid-frame s s' tid (p ∷ ps) (h, hs) =
    rw (h.0) (ap (λ r. if tid_of s p == tid then some p else r) (of_tid-frame s s' tid ps hs))

-- A thread that is found is live and has the tid.
pub of_tid-IsTask :
    (s : Tasks) (tid : ℕ) (ps : List Ptr) (p : Ptr)
    → IsTasks s ps
    → of_tid s tid ps ≡ some p
    → IsTask s p × (tid_of s p ≡ tid)
of_tid-IsTask s tid [] p r e = absurd (cc)
of_tid-IsTask s tid (q ∷ ps) p (r, above, rs) e = elim (Bool-cases (tid_of s q == tid)) [
  | inl here ↦
      let same : q ≡ p = some-injective q p (rw here at e) in
      subst (λ x. IsTask s x × (tid_of s x ≡ tid)) same (r, (==_iff (tid_of s q) tid).0 here)
  | inr there ↦ of_tid-IsTask s tid ps p rs (rw there at e)
]

thread_turn-frame :
    (s s' : Tasks) (tid : ℕ) (ps : List Ptr)
    → tid < 2 ^ 32
    → IsTasks s ps
    → SameTids s s' ps
    → All (λ q. thread_turn s tid q ≡ thread_turn s' tid q) ps
thread_turn-frame s s' tid [] small r h = tt
thread_turn-frame s s' tid (p ∷ ps) small (r, above, rs) (h, hs) = (
  thread_turn-IsTask s tid small p r
      ∙ ap (λ i. if i == tid then stop else if lt_pid tid i then go_left else go_right) (sym h.0)
      ∙ sym (thread_turn-IsTask s' tid small p h.1),
  thread_turn-frame s s' tid ps small rs hs,
)

-- A new thread is put among threads that keep their ids.
pub insert-IsTasks :
    (s s' : Tasks) (tid : ℕ) (p : Ptr) (ps : List Ptr)
    → tid < 2 ^ 32
    → IsTasks s ps
    → of_tid s tid ps ≡ none
    → SameTids s s' ps
    → IsTask s' p
    → tid_of s' p ≡ tid
    → IsTasks s' (place (thread_turn s tid) p ps)
      × ((i : ℕ)
          → of_tid s' i (place (thread_turn s tid) p ps)
            ≡ (if tid == i then some p else of_tid s i ps))
insert-IsTasks s s' tid p ps small r e h new own =
    let moved =
      place-congr (thread_turn s tid) (thread_turn s' tid) p ps
        (thread_turn-frame s s' tid ps small r h) in
    let r' = IsTasks-frame s s' ps h r in
    let e' = of_tid-frame s s' tid ps h ∙ e in
    (
      rw moved (place-IsTasks s' tid small p new own ps r' e'),
      λ i. rw moved (
          of_tid-place s' tid small p new own i ps r' e'
          ∙ ap (λ o. if tid == i then some p else o) (of_tid-frame s s' i ps h)),
    )
