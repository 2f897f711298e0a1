-- ===== src/Dsos/Findnew.antt =====
-- dsos__findnew gives an object of the name it is asked for, whether it is known or not, and the
-- other objects keep their names.
use mathlib.Core.Option.{some-injective}
use libdw_bcc.Prelude.{
  ℕ, ◌+◌, ◌≤◌, ◌<◌, ◌==◌, ltb, ltb→lt, ltb→le, ==_iff, ne→==, Bool-cases, inl, inr, ◌≡◌, refl, ◌∙◌,
  ap, sym, All, Option, none, some, List, [], ◌∷◌, arith,
}
use libdw_bcc.Outcome.{ok}
use libdw_bcc.Refcount.{refcount_inc}
use libdw_bcc.Rbtree.{Balance, to_list}
use libdw_bcc.Dso.{Dso}
use libdw_bcc.Store.{Ptr, Dsos, World, update, update_same, update_other}
use libdw_bcc.Dsos.{Sign, negative, null, positive, strcmp, dsos_findnew}
use libdw_bcc.Dsos.Names.{
  strcmp-null, name_of, IsLive, IsSorted, named, named-IsLive, dsos_findnew-named,
}
use libdw_bcc.Dsos.Added.{made, added, findnew-run, added-IsSorted}

-- The shared objects behind pointers, as a memory has them.
abbrev pub Objects : Type 0
Objects = Ptr → Option Dso

-- Every object is there still, with its long name.
abbrev pub KeepsNames : Objects → Objects → Type 0
KeepsNames f g =
    (q : Ptr) (o : Dso) → f q ≡ some o → (o' : Dso) × (g q ≡ some o') × (o'.long_name ≡ o.long_name)

pub KeepsNames-trans : (f g h : Objects) → KeepsNames f g → KeepsNames g h → KeepsNames f h
KeepsNames-trans f g h k l q o e =
    let (o₁, e₁, same₁) = k q o e in let (o₂, e₂, same₂) = l q o₁ e₁ in (o₂, e₂, same₂ ∙ same₁)

-- An object is written anew, with its name.
pub KeepsNames-update :
    (f : Objects) (p : Ptr) (o o' : Dso)
    → f p ≡ some o
    → o'.long_name ≡ o.long_name
    → KeepsNames f (update f p (some o'))
KeepsNames-update f p o o' live same q this e = elim (Bool-cases (p == q)) [
  | inl here ↦
      let own = some-injective o this (sym live ∙ ap f ((==_iff p q).0 here) ∙ e) in
      (o', rw here, same ∙ ap (λ d. d.long_name) own)
  | inr other ↦ (this, rw (other) e, refl)
]

-- What was not there is written.
pub KeepsNames-fresh :
    (f g : Objects) (p : Ptr) → f p ≡ none → ((q : Ptr) → ¬ (p ≡ q) → g q ≡ f q) → KeepsNames f g
KeepsNames-fresh f g p fresh others q o e = (o, others q (λ i. cc (fresh, e, ap f i)) ∙ e, refl)

-- No object is at a pointer that xmalloc has not given yet.
abbrev pub IsUnused : {A : Type 0} → (Ptr → Option A) → Ptr → Type 0
IsUnused f n = (q : Ptr) → n ≤ q → f q ≡ none

pub IsUnused-update :
    {A : Type 0} (f : Ptr → Option A) (n : Ptr) (p : Ptr) (o : Option A)
    → p < n
    → IsUnused f n
    → IsUnused (update f p o) n
IsUnused-update f n p o lt h q le = update_other f p q o (λ i. omega (arith, i, lt, le)) ∙ h q le

pub used_below :
    {A : Type 0} (f : Ptr → Option A) (n p : Ptr) (a : A) → IsUnused f n → f p ≡ some a → p < n
used_below f n p a h e = elim (Bool-cases (ltb p n)) [
  | inl lt ↦ ltb→lt p n lt
  | inr ge ↦ let none_ = h p (ltb→le p n ge) in absurd (cc)
]

-- The names of the objects stay, and with them the order.
pub IsSorted-KeepsNames :
    (w v : World) (ps : List Ptr) → KeepsNames w.dso v.dso → IsSorted w ps → IsSorted v ps
IsSorted-KeepsNames w v ps k = go ps
  where
    name-kept : (q : Ptr) → IsLive w q → name_of v q ≡ name_of w q
    name-kept q (o, live) = let (o', live', same) = k q o live in rw (live, live', name_of) same

    live_kept : (q : Ptr) → IsLive w q → IsLive v q
    live_kept q (o, live) = let (o', live', same) = k q o live in (o', live')

    above_kept :
        (p : Ptr) (qs : List Ptr)
        → IsLive w p
        → IsSorted w qs
        → All (λ q. strcmp (name_of w p) (name_of w q) ≡ negative) qs
        → All (λ q. strcmp (name_of v p) (name_of v q) ≡ negative) qs
    above_kept p [] l h a = tt
    above_kept p (q ∷ qs) l (live, above, h) (a, as_) =
        (rw (name-kept p l, name-kept q live) a, above_kept p qs l h as_)

    go : (qs : List Ptr) → IsSorted w qs → IsSorted v qs
    go [] h = tt
    go (q ∷ qs) (live, above, h) = (live_kept q live, above_kept q qs live h above, go qs h)

-- The object of a name has this name.
named-own :
    (w : World) (name : List ℕ) (ps : List Ptr) (p : Ptr) (o : Dso)
    → w.dso p ≡ some o
    → named w name ps ≡ some p
    → o.long_name ≡ name
named-own w name [] p o live e = absurd (cc)
named-own w name (q ∷ ps) p o live e =
    by_sign (named-own w name ps p o live) (strcmp name (name_of w q)) refl
  where
    by_sign :
        (named w name ps ≡ some p → o.long_name ≡ name)
        → (s : Sign) → strcmp name (name_of w q) ≡ s
        → o.long_name ≡ name
    by_sign rest negative i = rest (rw (i, named) at e)
    by_sign rest positive i = rest (rw (i, named) at e)
    by_sign rest null i =
        let same : q ≡ p = some-injective q p (rw (i, named) at e) in
        let its : name_of w q ≡ o.long_name = rw (same, name_of) (rw live) in
        sym (strcmp-null name (name_of w q) i ∙ its)

-- The memory with other shared objects, and pointers given up to another one.
abbrev pub with_objects : World → Ptr → Objects → Dsos → World
with_objects w n f ds = record w { next = n; dso = f; dsos = ds }

-- What is left by a call that gives the object `d` of a name.
pub record Finds (w : World) (name : List ℕ) (d : Ptr) (n : Ptr) (f : Objects) (ds : Dsos)
    : Type 0 where
  pub upwards : w.next ≤ n
  pub sorted : IsSorted (with_objects w n f ds) (to_list ds.root)
  pub object : Dso
  pub live : f d ≡ some object
  pub own : object.long_name ≡ name
  pub keeps : KeepsNames w.dso f
  pub unused : IsUnused f n

module _ (balance : Balance Ptr) (basename : List ℕ → List ℕ) (w : World) (name : List ℕ)
    (unused : IsUnused w.dso w.next) (h : IsSorted w (to_list w.dsos.root)) where
  Finds-known :
      (d : Ptr) (o : Dso)
      → named w name (to_list w.dsos.root) ≡ some d
      → w.dso d ≡ some o
      → Finds w name d w.next
          (update w.dso d (some (record o { refcnt = refcount_inc o.refcnt })))
          w.dsos
  Finds-known d o e live =
      let o' = record o { refcnt = refcount_inc o.refcnt } in
      let keeps = KeepsNames-update w.dso d o o' live refl in
      record {
        upwards = omega arith;
        sorted =
            IsSorted-KeepsNames w (with_objects w w.next (update w.dso d (some o')) w.dsos)
              (to_list w.dsos.root) keeps h;
        object = o';
        live = update_same w.dso d (some o');
        own = named-own w name (to_list w.dsos.root) d o live e;
        keeps = keeps;
        unused =
            IsUnused-update w.dso w.next d (some o') (used_below w.dso w.next d o unused live)
              unused;
      }

  Finds-new :
      named w name (to_list w.dsos.root) ≡ none
      → let w' = added balance basename w name in Finds w name w.next (w.next + 1) w'.dso w'.dsos
  Finds-new e =
      let w' = added balance basename w name in
      let fresh = unused w.next (omega arith) in
      record {
        upwards = omega arith;
        sorted = (added-IsSorted balance basename w name fresh h e).0;
        object = record (made name) { short_name = basename name; refcnt = 2 };
        live = rw ((==_iff w.next w.next).1 refl);
        own = refl;
        keeps = KeepsNames-fresh w.dso w'.dso w.next fresh (λ q ne. rw (ne→== w.next q ne));
        unused =
            λ q le. rw (ne→== w.next q (λ i. omega (arith, i, le))) (unused q (omega (arith, le)));
      }

  -- The call gives an object of the name, and changes nothing but shared objects.
  pub dsos_findnew-Finds :
      (d : Ptr) × (n : Ptr) × (f : Objects) × (ds : Dsos) × (dsos_findnew balance basename name w
        ≡ ok (d, with_objects w n f ds))
      × Finds w name d n f ds
  dsos_findnew-Finds = by_name (named w name (to_list w.dsos.root)) refl
    where
      by_name :
          (o : Option Ptr)
          → named w name (to_list w.dsos.root) ≡ o
          → (d : Ptr) × (n : Ptr) × (f : Objects) × (ds : Dsos) × (dsos_findnew balance basename
                name w
              ≡ ok (d, with_objects w n f ds))
            × Finds w name d n f ds
      by_name none e =
          let w' = added balance basename w name in
          (
            w.next,
            w.next + 1,
            w'.dso,
            w'.dsos,
            findnew-run balance basename w name (unused w.next (omega arith)) h e,
            Finds-new e,
          )
      by_name (some d) e =
          let (o, live) = named-IsLive w name (to_list w.dsos.root) d h e in
          (
            d,
            w.next,
            update w.dso d (some (record o { refcnt = refcount_inc o.refcnt })),
            w.dsos,
            dsos_findnew-named balance basename w name d o h e live,
            Finds-known d o e live,
          )
