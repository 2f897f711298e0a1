-- ===== src/Dso/Cache/Valid.antt =====
-- The invariant of the chunk cache, and what its search finds.
use libdw_bcc.Prelude.{
  ℕ, ◌+◌, ◌%◌, ◌^◌, ◌<◌, ◌≤◌, ◌≡◌, refl, false, none, some, List, [], ◌∷◌, arith, length, take,
  drop, All, All-imp,
}
use libdw_bcc.Rbtree.Search.{Turn, go_left, go_right, stop, find, place, IsCut, place-All}
use libdw_bcc.Dso.{DsoCache}
use libdw_bcc.Dso.Cache.{cache_turn, cache_size, align_down}

-- A chunk in use: a whole page of the file, or what the file has of its last page.
pub record IsChunk (file : List ℕ) (e : DsoCache) : Type 0 where
  pub live : e.freed ≡ false
  pub aligned : e.offset % cache_size ≡ 0
  pub within : e.offset < length file
  pub sized : e.size ≡ length e.bytes
  pub window : e.bytes ≡ take cache_size (drop e.offset file)

-- The chunks in the order of the tree: each page at most once, by increasing offset.
abbrev pub IsCache : List ℕ → List DsoCache → Type 0
IsCache file [] = Unit
IsCache file (e ∷ es) = IsChunk file e × All (λ d. e.offset < d.offset) es × IsCache file es

module _ (file : List ℕ) (small : length file < 2 ^ 63) where
  Lefts-of_lt :
      (o b : ℕ) (es : List DsoCache)
      → b % cache_size ≡ 0
      → o < b + cache_size
      → All (λ d. b < d.offset) es
      → IsCache file es
      → All (λ d. cache_turn o d ≡ go_left) es
  unfolding cache_turn
  Lefts-of_lt o b [] m lt h c = tt
  Lefts-of_lt o b (e ∷ es) m lt h (chunk, rest, c) =
      (ground (arith, chunk), Lefts-of_lt o b es m lt h.1 c)

  -- The cache is sorted for the search of any offset.
  pub IsCache-IsCut : (o : ℕ) (es : List DsoCache) → IsCache file es → IsCut (cache_turn o) es
  unfolding cache_turn
  IsCache-IsCut o [] c = tt
  IsCache-IsCut o (e ∷ es) (chunk, rest, c) =
      ground (arith, chunk, IsCache-IsCut o es c, Lefts-of_lt o e.offset es)

  -- What the search finds is a chunk that covers the offset.
  pub find-IsCache :
      (o : ℕ) (es : List DsoCache) (e : DsoCache)
      → IsCache file es
      → find (cache_turn o) es ≡ some e
      → IsChunk file e × (e.offset ≤ o) × (o < e.offset + cache_size)
  unfolding find cache_turn
  find-IsCache o [] e c h = absurd (cc)
  find-IsCache o (d ∷ es) e (chunk, rest, c) h = ground (arith, chunk, find-IsCache o es e c)

  -- Two offsets in one page are searched for alike.
  pub turn_page :
      (o p : ℕ) (es : List DsoCache)
      → align_down o ≡ align_down p
      → IsCache file es
      → All (λ d. cache_turn o d ≡ cache_turn p d) es
  unfolding cache_turn
  turn_page o p [] h c = tt
  turn_page o p (e ∷ es) h (chunk, rest, c) = (page_turn, turn_page o p es h c)
    where
      page_turn : cache_turn o e ≡ cache_turn p e
      page_turn = ground (arith, chunk)

  turn-left : (o : ℕ) (d : DsoCache) → IsChunk file d → cache_turn o d ≡ go_left → o < d.offset
  unfolding cache_turn
  turn-left o d c e = ground (arith, c)

  turn-right : (o : ℕ) (d : DsoCache) → IsChunk file d → cache_turn o d ≡ go_right → d.offset < o
  unfolding cache_turn
  turn-right o d c e = ground (arith, c)

  -- A chunk of a page that the search did not find goes to its place.
  pub place-IsCache :
      (e : DsoCache) (es : List DsoCache)
      → IsChunk file e
      → IsCache file es
      → find (cache_turn e.offset) es ≡ none
      → IsCache file (place (cache_turn e.offset) e es)
  unfolding find place
  place-IsCache e [] k c h = (k, tt, tt)
  place-IsCache e (d ∷ es) k (chunk, rest, c) h =
      by_turn (cache_turn e.offset d) refl (place-IsCache e es k c)
    where
      by_turn :
          (t : Turn)
          → cache_turn e.offset d ≡ t
          → (find (cache_turn e.offset) es ≡ none → IsCache file (place (cache_turn e.offset) e es))
          → IsCache file (place (cache_turn e.offset) e (d ∷ es))
      by_turn go_left q ih =
          let lt = turn-left e.offset d chunk q in
          let above =
            All-imp (λ x. d.offset < x.offset) (λ x. e.offset < x.offset) es (λ x p. omega arith)
              rest in
          rw (q, place) (k, (lt, above), (chunk, rest, c))
      by_turn go_right q ih =
          let lt = turn-right e.offset d chunk q in
          rw (q, place)
            (
              chunk,
              place-All (cache_turn e.offset) (λ x. d.offset < x.offset) e es lt rest,
              ih (rw (q, find) at h),
            )
      by_turn stop q ih = absurd (cc (rw (q, find) at h))
