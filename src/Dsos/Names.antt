-- ===== src/Dsos/Names.antt =====
-- The search by long name, where the tree is sorted by it.
use libdw_bcc.Prelude.{
  ℕ, ◌≡◌, refl, ◌∙◌, ap, sym, All, All-imp, Option, none, some, List, [], ◌∷◌, false, arith,
}
use mathlib.Core.Path.{subst}
use mathlib.Core.Option.{some-injective}
use libdw_bcc.Outcome.{ok, fault}
use libdw_bcc.Rbtree.{Balance, to_list}
use libdw_bcc.Rbtree.Search.{Turn, go_left, go_right, stop, find, IsCut, descend-eq-find}
use libdw_bcc.Dso.{Dso}
use libdw_bcc.Refcount.{refcount_inc}
use libdw_bcc.Store.{Ptr, World, update, ◌>>=◌, load_dso, store_dso}
use libdw_bcc.Dsos.{
  Sign, negative, null, positive, strcmp, turn_of, longname_turn, findlink_by_longname, link,
  find_by_longname, dsos_find, dsos_findnew, dso_get, met,
}

pub strcmp_trans :
    (s t u : List ℕ) → strcmp s t ≡ negative → strcmp t u ≡ negative → strcmp s u ≡ negative
strcmp_trans [] [] u h k = absurd (cc)
strcmp_trans [] (d ∷ t) [] h k = absurd (cc)
strcmp_trans [] (d ∷ t) (e ∷ u) h k = refl
strcmp_trans (c ∷ s) [] u h k = absurd (cc)
strcmp_trans (c ∷ s) (d ∷ t) [] h k = absurd (cc)
strcmp_trans (c ∷ s) (d ∷ t) (e ∷ u) h k = ground (arith, strcmp_trans s t u)

pub strcmp-null : (s t : List ℕ) → strcmp s t ≡ null → s ≡ t
strcmp-null [] [] h = refl
strcmp-null [] (d ∷ t) h = absurd (cc)
strcmp-null (c ∷ s) [] h = absurd (cc)
strcmp-null (c ∷ s) (d ∷ t) h = ground (arith, strcmp-null s t)

abbrev pub name_of : World → Ptr → List ℕ
name_of w p = elim (w.dso p) [ none ↦ [] | some dso ↦ dso.long_name ]

abbrev pub IsLive : World → Ptr → Type 0
IsLive w p = (dso : Dso) × (w.dso p ≡ some dso)

-- The objects are live, and their long names ascend.
abbrev pub IsSorted : World → List Ptr → Type 0
IsSorted w [] = Unit
IsSorted w (p ∷ ps) =
    IsLive w p × All (λ q. strcmp (name_of w p) (name_of w q) ≡ negative) ps × IsSorted w ps

-- The specification: the object of a name.
abbrev pub named : World → List ℕ → List Ptr → Option Ptr
named w name [] = none
named w name (p ∷ ps) = elim (strcmp name (name_of w p)) [ null ↦ some p | sign ↦ named w name ps ]

abbrev pub key_turn : Sign → Turn
key_turn negative = go_left
key_turn null = stop
key_turn positive = go_right

module _ (w : World) (name : List ℕ) where
  pub longname_turn-IsLive :
      (p : Ptr) → IsLive w p → longname_turn w none name p ≡ key_turn (strcmp name (name_of w p))
  unfolding longname_turn
  longname_turn-IsLive p (dso, live) =
      rw (live, longname_turn, name_of) (by_sign (strcmp name dso.long_name))
    where
      by_sign : (s : Sign) → elim s [ null ↦ stop | sign ↦ turn_of sign ] ≡ key_turn s
      by_sign negative = refl
      by_sign null = refl
      by_sign positive = refl

  above-Lefts :
      (ps : List Ptr)
      → IsSorted w ps
      → All (λ q. strcmp name (name_of w q) ≡ negative) ps
      → All (λ q. longname_turn w none name q ≡ go_left) ps
  above-Lefts [] h k = tt
  above-Lefts (p ∷ ps) (live, above, h) (k, ks) =
      (longname_turn-IsLive p live ∙ ap key_turn k, above-Lefts ps h ks)

  named_above :
      (ps : List Ptr) → All (λ q. strcmp name (name_of w q) ≡ negative) ps → named w name ps ≡ none
  named_above [] h = refl
  named_above (p ∷ ps) (k, ks) = rw (k, named) (named_above ps ks)

  pub find-named :
      (ps : List Ptr)
      → IsSorted w ps
      → IsCut (longname_turn w none name) ps
        × (find (longname_turn w none name) ps ≡ named w name ps)
  unfolding find
  find-named [] h = (tt, refl)
  find-named (p ∷ ps) (live, above, h) = by_sign (find-named ps h) (strcmp name (name_of w p)) refl
    where
      turn : longname_turn w none name p ≡ key_turn (strcmp name (name_of w p))
      turn = longname_turn-IsLive p live

      by_sign :
          IsCut (longname_turn w none name) ps
            × (find (longname_turn w none name) ps ≡ named w name ps)
          → (s : Sign) → strcmp name (name_of w p) ≡ s
          → IsCut (longname_turn w none name) (p ∷ ps)
            × (find (longname_turn w none name) (p ∷ ps) ≡ named w name (p ∷ ps))
      by_sign rest negative e =
          let higher =
            All-imp (λ q. strcmp (name_of w p) (name_of w q) ≡ negative)
              (λ q. strcmp name (name_of w q) ≡ negative) ps
              (λ q k. strcmp_trans name (name_of w p) (name_of w q) e k) above in
          (
            rw (turn ∙ ap key_turn e, IsCut) (above-Lefts ps h higher),
            rw (turn ∙ ap key_turn e, find) (rw (e, named) (sym (named_above ps higher))),
          )
      by_sign rest null e =
          let higher =
            All-imp (λ q. strcmp (name_of w p) (name_of w q) ≡ negative)
              (λ q. strcmp name (name_of w q) ≡ negative) ps
              (λ q k. ap (λ n. strcmp n (name_of w q)) (strcmp-null name (name_of w p) e) ∙ k)
              above in
          (
            rw (turn ∙ ap key_turn e, IsCut) (above-Lefts ps h higher),
            rw (turn ∙ ap key_turn e, find) (rw (e, named)),
          )
      by_sign rest positive e = (
        rw (turn ∙ ap key_turn e, IsCut) (rest.0),
        rw (turn ∙ ap key_turn e, find) (rw (e, named) (rest.1)),
      )

  pub named-IsLive :
      (ps : List Ptr) (p : Ptr) → IsSorted w ps → named w name ps ≡ some p → IsLive w p
  named-IsLive [] p h k = absurd (cc)
  named-IsLive (q ∷ ps) p (live, above, h) k =
      by_sign (λ r. named-IsLive ps p h r) (strcmp name (name_of w q)) refl
    where
      by_sign :
          (named w name ps ≡ some p → IsLive w p)
          → (s : Sign) → strcmp name (name_of w q) ≡ s
          → IsLive w p
      by_sign rest negative e = rest (rw (e, named) at k)
      by_sign rest null e = subst (IsLive w) (some-injective q p (rw (e, named) at k)) live
      by_sign rest positive e = rest (rw (e, named) at k)

-- The search by long name finds the object of that name, if there is one, and changes nothing.
pub dsos_find-named :
    (balance : Balance Ptr) (basename : List ℕ → List ℕ) (w : World) (name : List ℕ)
    → IsSorted w (to_list w.dsos.root)
    → dsos_find balance basename name false w ≡ ok (named w name (to_list w.dsos.root), w)
unfolding dsos_find findlink_by_longname
dsos_find-named balance basename w name h =
    let (cut, found) = find-named w name (to_list w.dsos.root) h in
    rw
      (
        descend-eq-find (longname_turn w none name) w.dsos.root cut ∙ found,
        dsos_find,
        find_by_longname,
        findlink_by_longname,
      )
      (at_end (named w name (to_list w.dsos.root)) refl)
  where
    at_end :
        (o : Option Ptr)
        → named w name (to_list w.dsos.root) ≡ o
        → elim o [
          | none ↦ link balance basename none name w
          | some q ↦ elim (w.dso q) [ none ↦ fault | some this ↦ ok (met none q, w) ]
        ]
          ≡ ok (o, w)
    at_end none e = unfold link in refl
    at_end (some p) e = let (dso, live) = named-IsLive w name (to_list w.dsos.root) p h e in rw live

-- A shared object that is known by its name is not made again: it gains a reference.
pub dsos_findnew-named :
    (balance : Balance Ptr) (basename : List ℕ → List ℕ) (w : World) (name : List ℕ) (p : Ptr)
    (dso : Dso)
    → IsSorted w (to_list w.dsos.root)
    → named w name (to_list w.dsos.root) ≡ some p
    → w.dso p ≡ some dso
    → dsos_findnew balance basename name w
      ≡ ok (
        p,
        record w { dso = update w.dso p (some (record dso { refcnt = refcount_inc dso.refcnt })) },
      )
unfolding dsos_findnew dso_get load_dso store_dso
dsos_findnew-named balance basename w name p dso h e live =
    rw (dsos_find-named balance basename w name h, ◌>>=◌) (rw (e, ◌>>=◌) (rw (live, ◌>>=◌)))
