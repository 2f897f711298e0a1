-- ===== src/Rbtree/Search.antt =====
-- The loop by which every user of the tree looks for a key or for the slot of a new node:
-- `while (*p != NULL) { … p = &(*p)->rb_left … }`. It is written once, over the comparison.
use libdw_bcc.Prelude.{◌≡◌, refl, List, [], ◌∷◌, ◌++◌, Option, none, some, arith, All, All-append}
use libdw_bcc.Rbtree.{Color, Tree, leaf, node, Slot, rb_left, rb_right, to_list, rb_link_node}

-- What the body of the loop does at a node.
pub data Turn : Type 0 where
  go_left go_right stop : Turn

module _ {A : Type 0} (turn : A → Turn) where
  -- The object at which the loop stops, if it does.
  unfoldable pub descend : Tree A → Option A
  descend leaf = none
  descend (node c l a r) = elim (turn a) [
    | go_left ↦ descend l
    | go_right ↦ descend r
    | stop ↦ some a
  ]

  -- The slot at which the loop ends, when it meets no match.
  unfoldable pub slot : Tree A → Slot
  slot leaf = []
  slot (node c l a r) = elim (turn a) [
    | go_left ↦ rb_left ∷ slot l
    | go_right ↦ rb_right ∷ slot r
    | stop ↦ []
  ]

  -- The same search and the same place, in the list of the objects.
  unfoldable pub find : List A → Option A
  find [] = none
  find (a ∷ xs) = elim (turn a) [ go_left ↦ none | go_right ↦ find xs | stop ↦ some a ]

  unfoldable pub place : A → List A → List A
  place b [] = b ∷ []
  place b (a ∷ xs) = elim (turn a) [
    | go_left ↦ b ∷ a ∷ xs
    | go_right ↦ a ∷ place b xs
    | stop ↦ a ∷ xs
  ]

  -- The list is sorted for this comparison: first all that turn right, then at most one match,
  -- then all that turn left.
  abbrev pub IsCut : List A → Type 0
  IsCut [] = Unit
  IsCut (a ∷ xs) = elim (turn a) [
    | go_left ↦ All (λ b. turn b ≡ go_left) xs
    | go_right ↦ IsCut xs
    | stop ↦ All (λ b. turn b ≡ go_left) xs
  ]

  abbrev Lefts : List A → Type 0
  Lefts xs = All (λ b. turn b ≡ go_left) xs

  IsCut-of_Lefts : (xs : List A) → Lefts xs → IsCut xs
  IsCut-of_Lefts [] h = tt
  IsCut-of_Lefts (a ∷ xs) h = ground arith

  find-Lefts : (xs : List A) → Lefts xs → find xs ≡ none
  unfolding find
  find-Lefts [] h = refl
  find-Lefts (a ∷ xs) h = ground arith

  place-Lefts : (b : A) (xs : List A) → Lefts xs → place b xs ≡ b ∷ xs
  unfolding place
  place-Lefts b [] h = refl
  place-Lefts b (a ∷ xs) h = ground arith

  -- What a sorted list says of its parts on the two sides of an object.
  append_left :
      (xs : List A) (a : A) (ys : List A)
      → turn a ≡ go_left
      → IsCut (xs ++ a ∷ ys)
      → IsCut xs × (find (xs ++ a ∷ ys) ≡ find xs)
  unfolding find
  append_left [] a ys e h = ground arith
  append_left (x ∷ xs) a ys e h = ground (
    arith,
    append_left xs a ys e,
    All-append (λ b. turn b ≡ go_left) xs (a ∷ ys),
    find-Lefts (xs ++ a ∷ ys),
    find-Lefts xs,
  )

  place-append_left :
      (b : A) (xs : List A) (a : A) (ys : List A)
      → turn a ≡ go_left
      → find xs ≡ none
      → place b (xs ++ a ∷ ys) ≡ place b xs ++ a ∷ ys
  unfolding find place
  place-append_left b [] a ys e h = ground arith
  place-append_left b (x ∷ xs) a ys e h = ground (arith, place-append_left b xs a ys e)

  append_right :
      (xs : List A) (a : A) (ys : List A)
      → turn a ≡ go_right
      → IsCut (xs ++ a ∷ ys)
      → IsCut ys × (find (xs ++ a ∷ ys) ≡ find ys)
  unfolding find
  append_right [] a ys e h = ground arith
  append_right (x ∷ xs) a ys e h =
      ground (arith, append_right xs a ys e, All-append (λ b. turn b ≡ go_left) xs (a ∷ ys))

  place-append_right :
      (b : A) (xs : List A) (a : A) (ys : List A)
      → turn a ≡ go_right
      → IsCut (xs ++ a ∷ ys)
      → place b (xs ++ a ∷ ys) ≡ xs ++ a ∷ place b ys
  unfolding place
  place-append_right b [] a ys e h = ground arith
  place-append_right b (x ∷ xs) a ys e h =
      ground (arith, place-append_right b xs a ys e, All-append (λ b. turn b ≡ go_left) xs (a ∷ ys))

  find-append_stop :
      (xs : List A) (a : A) (ys : List A)
      → turn a ≡ stop
      → IsCut (xs ++ a ∷ ys)
      → find (xs ++ a ∷ ys) ≡ some a
  unfolding find
  find-append_stop [] a ys e h = ground arith
  find-append_stop (x ∷ xs) a ys e h =
      ground (arith, find-append_stop xs a ys e, All-append (λ b. turn b ≡ go_left) xs (a ∷ ys))

  -- One turn of the loop.
  pub descend-left :
      (c : Color) (l : Tree A) (a : A) (r : Tree A)
      → turn a ≡ go_left
      → descend (node c l a r) ≡ descend l
  unfolding descend
  descend-left c l a r e = ground arith

  pub descend-right :
      (c : Color) (l : Tree A) (a : A) (r : Tree A)
      → turn a ≡ go_right
      → descend (node c l a r) ≡ descend r
  unfolding descend
  descend-right c l a r e = ground arith

  pub descend-stop :
      (c : Color) (l : Tree A) (a : A) (r : Tree A)
      → turn a ≡ stop
      → descend (node c l a r) ≡ some a
  unfolding descend
  descend-stop c l a r e = ground arith

  -- Where the loop ends at an object, it stopped there.
  pub descend-stops : (t : Tree A) (q : A) → descend t ≡ some q → turn q ≡ stop
  unfolding descend
  descend-stops leaf q h = cc
  descend-stops (node c l a r) q h = ground (arith, descend-stops l q, descend-stops r q)

  -- In a sorted tree the loop finds what a scan of the list finds.
  pub descend-eq-find : (t : Tree A) → IsCut (to_list t) → descend t ≡ find (to_list t)
  unfolding descend
  descend-eq-find leaf h = unfold find in refl
  descend-eq-find (node c l a r) h = ground (
    arith,
    append_left (to_list l) a (to_list r),
    append_right (to_list l) a (to_list r),
    find-append_stop (to_list l) a (to_list r),
    descend-eq-find l,
    descend-eq-find r,
  )

  -- A node linked at the slot stands in the list at its place.
  pub to_list-link :
      (b : A) (t : Tree A)
      → IsCut (to_list t)
      → find (to_list t) ≡ none
      → to_list (rb_link_node b (slot t) t) ≡ place b (to_list t)
  unfolding slot rb_link_node
  to_list-link b leaf h e = unfold place in refl
  to_list-link b (node c l a r) h e = ground (
    arith,
    append_left (to_list l) a (to_list r),
    append_right (to_list l) a (to_list r),
    find-append_stop (to_list l) a (to_list r),
    place-append_left b (to_list l) a (to_list r),
    place-append_right b (to_list l) a (to_list r),
    to_list-link b l,
    to_list-link b r,
  )

  -- The new node is what the same comparison finds afterwards.
  pub find-place :
      (b : A) (xs : List A) → turn b ≡ stop → find xs ≡ none → find (place b xs) ≡ some b
  unfolding find place
  find-place b [] s e = ground arith
  find-place b (a ∷ xs) s e = ground (arith, find-place b xs s)

  pub place-All {κ} : (P : A → Type κ) (b : A) (xs : List A) → P b → All P xs → All P (place b xs)
  unfolding place
  place-All P b [] p h = (p, tt)
  place-All P b (a ∷ xs) p h = ground (arith, place-All P b xs p)

-- Two comparisons that agree on the objects find the same.
pub find-congr :
    {A : Type 0} (f g : A → Turn) (xs : List A) → All (λ a. f a ≡ g a) xs → find f xs ≡ find g xs
unfolding find
find-congr f g [] h = refl
find-congr f g (a ∷ xs) h = ground (arith, find-congr f g xs h.1)

-- And put a new object at the same place.
pub place-congr :
    {A : Type 0} (f g : A → Turn) (b : A) (xs : List A)
    → All (λ a. f a ≡ g a) xs
    → place f b xs ≡ place g b xs
unfolding place
place-congr f g b [] h = refl
place-congr f g b (a ∷ xs) h = ground (arith, place-congr f g b xs h.1)
