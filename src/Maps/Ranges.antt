-- ===== src/Maps/Ranges.antt =====
-- Maps that do not overlap: the search by address, and where a new map goes.
use libdw_bcc.Prelude.{
  ℕ, ◌<◌, ◌≤◌, ◌≡◌, ◌⊎◌, inl, inr, refl, ltb, leb, ◌&&◌, Bool, Option, none, some, List, [], ◌∷◌,
  if◌then◌else◌, arith, All, All-imp, ◌∙◌, Bool-cases, ltb→lt,
}
use libdw_bcc.Rbtree.Search.{go_left, go_right, stop, find, place, place-All, IsCut}
use libdw_bcc.Store.{Ptr, Map, World}
use libdw_bcc.Maps.{find_turn, insert_turn}

abbrev pub start_of : World → Ptr → ℕ
start_of w p = elim (w.map p) [ none ↦ 0 | some m ↦ m.start ]

abbrev pub end_of : World → Ptr → ℕ
end_of w p = elim (w.map p) [ none ↦ 0 | some m ↦ m.end ]

-- A live map object, whose range is not empty.
abbrev pub IsRange : World → Ptr → Type 0
IsRange w p = (m : Map) × (w.map p ≡ some m) × (start_of w p < end_of w p)

-- Live maps, each below the next.
abbrev pub IsRanges : World → List Ptr → Type 0
IsRanges w [] = Unit
IsRanges w (p ∷ ps) = IsRange w p × All (λ q. end_of w p ≤ start_of w q) ps × IsRanges w ps

-- The map that contains an address, by a scan.
abbrev pub covers : World → ℕ → Ptr → Bool
covers w ip p = leb (start_of w p) ip && ltb ip (end_of w p)

abbrev pub covering : World → ℕ → List Ptr → Option Ptr
covering w ip [] = none
covering w ip (p ∷ ps) = if covers w ip p then some p else covering w ip ps

module _ (w : World) where
  find_turn-range :
      (ip : ℕ) (p : Ptr)
      → IsRange w p
      → find_turn w ip p ≡ (
          if ltb ip (start_of w p) then go_left else if leb (end_of w p) ip then go_right else stop)
  unfolding find_turn
  find_turn-range ip p (m, e, r) = ground arith

  insert_turn-range :
      (ip : ℕ) (p : Ptr)
      → IsRange w p
      → insert_turn w ip p ≡ (if ltb ip (start_of w p) then go_left else go_right)
  unfolding insert_turn
  insert_turn-range ip p (m, e, r) = ground arith

  -- Maps above an address that lies below some end.
  Lefts-find :
      (ip b : ℕ) (ps : List Ptr)
      → ip < b
      → All (λ q. b ≤ start_of w q) ps
      → IsRanges w ps
      → All (λ q. find_turn w ip q ≡ go_left) ps
  Lefts-find ip b [] lt h r = tt
  Lefts-find ip b (p ∷ ps) lt h (r, above, rs) =
      (ground (arith, find_turn-range ip p r), Lefts-find ip b ps lt h.1 rs)

  Lefts-insert :
      (s b : ℕ) (ps : List Ptr)
      → s < b
      → All (λ q. b ≤ start_of w q) ps
      → IsRanges w ps
      → All (λ q. insert_turn w s q ≡ go_left) ps
  Lefts-insert s b [] lt h r = tt
  Lefts-insert s b (p ∷ ps) lt h (r, above, rs) =
      (ground (arith, insert_turn-range s p r), Lefts-insert s b ps lt h.1 rs)

  above_le :
      (b c : ℕ) (ps : List Ptr)
      → b ≤ c
      → All (λ q. c ≤ start_of w q) ps
      → All (λ q. b ≤ start_of w q) ps
  above_le b c ps h =
      All-imp (λ q. c ≤ start_of w q) (λ q. b ≤ start_of w q) ps (λ q k. omega arith)

  pub find-IsCut : (ip : ℕ) (ps : List Ptr) → IsRanges w ps → IsCut (find_turn w ip) ps
  find-IsCut ip [] r = tt
  find-IsCut ip (p ∷ ps) (r, above, rs) =
      ground (arith, find_turn-range ip p r, find-IsCut ip ps rs, Lefts-find ip (end_of w p) ps)

  covering_below :
      (ip b : ℕ) (ps : List Ptr) → All (λ q. b ≤ start_of w q) ps → ip < b → covering w ip ps ≡ none
  covering_below ip b [] h lt = refl
  covering_below ip b (p ∷ ps) h lt = ground (arith, h.0, covering_below ip b ps h.1 lt)

  -- What the search finds is the map that a scan finds.
  pub find-eq-covering :
      (ip : ℕ) (ps : List Ptr) → IsRanges w ps → find (find_turn w ip) ps ≡ covering w ip ps
  unfolding find
  find-eq-covering ip [] r = refl
  find-eq-covering ip (p ∷ ps) (r, above, rs) = ground (
    arith,
    find_turn-range ip p r,
    find-eq-covering ip ps rs,
    covering_below ip (end_of w p) ps above,
  )

-- A range apart from all the others.
abbrev pub Apart : World → ℕ → ℕ → List Ptr → Type 0
Apart w s e ps = All (λ q. (end_of w q ≤ s) ⊎ (e ≤ start_of w q)) ps

module _ (w : World) (p : Ptr) (new : IsRange w p) where
  pub insert-IsCut :
      (ps : List Ptr)
      → IsRanges w ps
      → Apart w (start_of w p) (end_of w p) ps
      → IsCut (insert_turn w (start_of w p)) ps × (find (insert_turn w (start_of w p)) ps ≡ none)
  unfolding find
  insert-IsCut [] r a = (tt, refl)
  insert-IsCut (q ∷ ps) (r, above, rs) a = ground (
    arith,
    new,
    r,
    insert_turn-range w (start_of w p) q r,
    insert-IsCut ps rs a.1,
    Lefts-insert w (start_of w p) (end_of w q) ps,
  )

  -- Inserted at its place, the new map keeps the order, and is found at its addresses.
  pub place-IsRanges :
      (ps : List Ptr)
      → IsRanges w ps
      → Apart w (start_of w p) (end_of w p) ps
      → IsRanges w (place (insert_turn w (start_of w p)) p ps)
  unfolding place
  place-IsRanges [] r a = (new, tt, tt)
  place-IsRanges (q ∷ ps) (r, above, rs) a = elim (Bool-cases (ltb (start_of w p) (start_of w q))) [
    | inl before ↦
        let lt = ltb→lt _ _ before in
        let turn : insert_turn w (start_of w p) q ≡ go_left =
          insert_turn-range w (start_of w p) q r ∙ rw before in
        let ends : end_of w p ≤ start_of w q = omega (arith, lt, a.0, r.2) in
        rw (turn, place)
          (
            new,
            (ends, above_le w (end_of w p) (end_of w q) ps (omega (arith, ends, r.2)) above),
            (r, above, rs),
          )
    | inr after ↦
        let turn : insert_turn w (start_of w p) q ≡ go_right =
          insert_turn-range w (start_of w p) q r ∙ rw after in
        let ends : end_of w q ≤ start_of w p = ground (arith, new.2, a.0) in
        rw (turn, place)
          (
            r,
            place-All (insert_turn w (start_of w p)) (λ x. end_of w q ≤ start_of w x) p ps ends
                above,
            place-IsRanges ps rs a.1,
          )
  ]

  pub covering-place :
      (ip : ℕ) (ps : List Ptr)
      → IsRanges w ps
      → Apart w (start_of w p) (end_of w p) ps
      → covering w ip (place (insert_turn w (start_of w p)) p ps)
        ≡ (if covers w ip p then some p else covering w ip ps)
  unfolding place
  covering-place ip [] r a = refl
  covering-place ip (q ∷ ps) (r, above, rs) a =
      ground (arith, insert_turn-range w (start_of w p) q r, covering-place ip ps rs a.1)
