-- ===== src/Dsos/Place.antt =====
-- Where a shared object of a new name goes in the tree, and what the search then finds.
use libdw_bcc.Prelude.{
  ℕ, ◌≡◌, refl, ◌∙◌, ap, sym, All, All-imp, Option, none, some, List, [], ◌∷◌, arith,
}
use libdw_bcc.Rbtree.Search.{Turn, go_left, find, place, place-All, IsCut}
use libdw_bcc.Dso.{Dso}
use libdw_bcc.Store.{Ptr, World}
use libdw_bcc.Dsos.{Sign, negative, null, positive, strcmp, longname_turn}
use libdw_bcc.Dsos.Names.{
  strcmp_trans, strcmp-null, name_of, IsLive, IsSorted, named, key_turn, longname_turn-IsLive,
}

strcmp_flip : (s t : List ℕ) → strcmp s t ≡ positive → strcmp t s ≡ negative
strcmp_flip [] [] h = absurd (cc)
strcmp_flip [] (d ∷ t) h = absurd (cc)
strcmp_flip (c ∷ s) [] h = refl
strcmp_flip (c ∷ s) (d ∷ t) h = ground (arith, strcmp_flip s t)

-- The object `p` comes first, in a search for its name.
abbrev pub first : List ℕ → Ptr → Option Ptr → List ℕ → Option Ptr
first name p o n = elim (strcmp n name) [ null ↦ some p | sign ↦ o ]

module _ (v : World) (p : Ptr) (name : List ℕ) (new : IsLive v p) (own : name_of v p ≡ name) where
  abbrev pub Placed : List Ptr → Type 0
  Placed ps =
      IsSorted v (place (longname_turn v none name) p ps)
      × ((n : List ℕ)
          → named v n (place (longname_turn v none name) p ps) ≡ first name p (named v n ps) n)

  place-before :
      (q : Ptr) (ps : List Ptr)
      → IsSorted v (q ∷ ps)
      → strcmp name (name_of v q) ≡ negative
      → IsSorted v (p ∷ q ∷ ps)
  place-before q ps (live, above, h) e = (
    new,
    (
      ap (λ n. strcmp n (name_of v q)) own ∙ e,
      All-imp (λ x. strcmp (name_of v q) (name_of v x) ≡ negative)
          (λ x. strcmp (name_of v p) (name_of v x) ≡ negative) ps
          (λ x k.
            ap (λ n. strcmp n (name_of v x)) own
            ∙ strcmp_trans name (name_of v q) (name_of v x) e k)
          above,
    ),
    (live, above, h),
  )

  named-after :
      (q : Ptr) (ps : List Ptr) (n : List ℕ)
      → strcmp name (name_of v q) ≡ positive
      → named v n (place (longname_turn v none name) p ps) ≡ first name p (named v n ps) n
      → named v n (q ∷ place (longname_turn v none name) p ps) ≡ first name p (named v n (q ∷ ps)) n
  named-after q ps n e rest = by_sign (strcmp n (name_of v q)) refl (strcmp n name) refl
    where
      by_sign :
          (s : Sign)
          → strcmp n (name_of v q) ≡ s
          → (t : Sign) → strcmp n name ≡ t
          → named v n (q ∷ place (longname_turn v none name) p ps)
            ≡ first name p (named v n (q ∷ ps)) n
      by_sign null i null j =
          let same = ap (λ x. strcmp x (name_of v q)) (sym (strcmp-null n name j)) ∙ i in
          absurd (cc)
      by_sign null i negative j = rw (i, named) (rw (j, first))
      by_sign null i positive j = rw (i, named) (rw (j, first))
      by_sign negative i t j = rw (i, named) rest
      by_sign positive i t j = rw (i, named) rest

  pub place-IsSorted : (ps : List Ptr) → IsSorted v ps → named v name ps ≡ none → Placed ps
  unfolding place
  place-IsSorted [] h e = ((new, tt, tt), λ n. ap (λ x. first x p none n) own)
  place-IsSorted (q ∷ ps) (live, above, h) e =
      by_sign (λ k. place-IsSorted ps h k) (strcmp name (name_of v q)) refl
    where
      turn : longname_turn v none name q ≡ key_turn (strcmp name (name_of v q))
      turn = longname_turn-IsLive v name q live

      by_sign :
          (named v name ps ≡ none → Placed ps)
          → (s : Sign) → strcmp name (name_of v q) ≡ s
          → Placed (q ∷ ps)
      by_sign rest negative i =
          rw (turn ∙ ap key_turn i, place)
            (
              place-before q ps (live, above, h) i,
              λ n. ap (λ x. first x p (named v n (q ∷ ps)) n) own,
            )
      by_sign rest null i = let there : some q ≡ none = rw (i, named) at e in absurd (cc)
      by_sign rest positive i =
          let (sorted, search) = rest (rw (i, named) at e) in
          rw (turn ∙ ap key_turn i, place)
            (
              (
                live,
                place-All (longname_turn v none name)
                    (λ x. strcmp (name_of v q) (name_of v x) ≡ negative) p ps
                    (ap (strcmp (name_of v q)) own ∙ strcmp_flip name (name_of v q) i) above,
                sorted,
              ),
              λ n. named-after q ps n i (search n),
            )

-- The objects of a list have the names that they had.
pub IsSorted-kept :
    (w v : World) (ps : List Ptr) → All (λ q. v.dso q ≡ w.dso q) ps → IsSorted w ps → IsSorted v ps
IsSorted-kept w v [] k h = tt
IsSorted-kept w v (p ∷ ps) (k, ks) ((dso, live), above, h) =
    ((dso, k ∙ live), above_kept ps ks above, IsSorted-kept w v ps ks h)
  where
    above_kept :
        (qs : List Ptr)
        → All (λ q. v.dso q ≡ w.dso q) qs
        → All (λ q. strcmp (name_of w p) (name_of w q) ≡ negative) qs
        → All (λ q. strcmp (name_of v p) (name_of v q) ≡ negative) qs
    above_kept [] i a = tt
    above_kept (q ∷ qs) (i, is_) (a, as_) = (rw (i, k, name_of) a, above_kept qs is_ as_)

pub named-kept :
    (w v : World) (n : List ℕ) (ps : List Ptr)
    → All (λ q. v.dso q ≡ w.dso q) ps
    → named v n ps ≡ named w n ps
named-kept w v n [] k = refl
named-kept w v n (p ∷ ps) (k, ks) =
    ap
      (λ o. elim (strcmp n (elim o [ none ↦ [] | some dso ↦ dso.long_name ])) [
        | null ↦ some p
        | sign ↦ named v n ps
      ])
      k
    ∙ ap (λ r. elim (strcmp n (name_of w p)) [ null ↦ some p | sign ↦ r ]) (named-kept w v n ps ks)

pub fresh_kept :
    (w v : World) (p : Ptr) (ps : List Ptr)
    → w.dso p ≡ none
    → ((q : Ptr) → ¬ (p ≡ q) → v.dso q ≡ w.dso q)
    → IsSorted w ps
    → All (λ q. v.dso q ≡ w.dso q) ps
fresh_kept w v p [] fresh k h = tt
fresh_kept w v p (q ∷ ps) fresh k ((dso, live), above, h) =
    (k q (λ e. cc (fresh, live, ap w.dso e)), fresh_kept w v p ps fresh k h)

-- The comparison with the object itself in hand, at objects of other names.
pub linking_turn :
    (v : World) (p : Ptr) (dso : Dso) (name : List ℕ) (ps : List Ptr)
    → IsSorted v ps
    → named v name ps ≡ none
    → All (λ q. longname_turn v none name q ≡ longname_turn v (some (p, dso)) name q) ps
unfolding longname_turn
linking_turn v p dso name [] h e = tt
linking_turn v p dso name (q ∷ ps) ((this, live), above, h) e =
    by_sign (λ k. linking_turn v p dso name ps h k) (strcmp name this.long_name) refl
  where
    its : {s : Sign} → strcmp name this.long_name ≡ s → strcmp name (name_of v q) ≡ s
    its i = rw (live, name_of) i

    by_sign :
        (named v name ps ≡ none
          → All (λ q. longname_turn v none name q ≡ longname_turn v (some (p, dso)) name q) ps)
        → (s : Sign) → strcmp name this.long_name ≡ s
        → All (λ q. longname_turn v none name q ≡ longname_turn v (some (p, dso)) name q) (q ∷ ps)
    by_sign rest negative i = (rw (live, longname_turn) (rw i), rest (rw (its i, named) at e))
    by_sign rest null i = let there : some q ≡ none = rw (its i, named) at e in absurd (cc)
    by_sign rest positive i = (rw (live, longname_turn) (rw i), rest (rw (its i, named) at e))

-- Two comparisons that agree on a list.
module _ (f g : Ptr → Turn) where
  Lefts-congr :
      (ps : List Ptr)
      → All (λ q. f q ≡ g q) ps
      → All (λ q. f q ≡ go_left) ps
      → All (λ q. g q ≡ go_left) ps
  Lefts-congr [] h k = tt
  Lefts-congr (q ∷ ps) (h, hs) (k, ks) = (sym h ∙ k, Lefts-congr ps hs ks)

  pub find-congr :
      (ps : List Ptr) → All (λ q. f q ≡ g q) ps → IsCut f ps → IsCut g ps × (find g ps ≡ find f ps)
  unfolding find
  find-congr [] h cut = (tt, refl)
  find-congr (q ∷ ps) (h, hs) cut = ground (arith, h, find-congr ps hs, Lefts-congr ps hs)

pub turn-kept :
    (w v : World) (name : List ℕ) (ps : List Ptr)
    → All (λ q. v.dso q ≡ w.dso q) ps
    → All (λ q. longname_turn v none name q ≡ longname_turn w none name q) ps
unfolding longname_turn
turn-kept w v name ps =
    All-imp (λ q. v.dso q ≡ w.dso q)
      (λ q. longname_turn v none name q ≡ longname_turn w none name q) ps
      (λ q k. rw (k, longname_turn))
