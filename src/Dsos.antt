-- ===== src/Dsos.antt =====
-- src/dso.c: all shared objects of the machine, by long name in a search tree and in a list.
pub mod Names
mod Place
mod Added
pub mod Findnew
mod Shared
mod Tests
use libdw_bcc.Prelude.{
  ℕ, ◌+◌, pos, negsuc, ltb, ◌==◌, ◌++◌, Bool, true, false, Option, none, some, List, [], ◌∷◌,
  if◌then◌else◌,
}
use libdw_bcc.Outcome.{ok, fault}
use libdw_bcc.Refcount.{refcount_inc, refcount_dec_and_test}
use libdw_bcc.Rbtree.{Tree, leaf, Balance, rb_link_node}
use libdw_bcc.Rbtree.Search.{Turn, go_left, go_right, stop, descend, slot}
use libdw_bcc.Dso.{unknown, Dso}
use libdw_bcc.Store.{Ptr, Dsos, World, Cmd, pure, ◌>>=◌, ◌>>◌, load_dso, store_dso, update}

-- The sign of strcmp's result.
pub data Sign : Type 0 where
  negative null positive : Sign

abbrev pub strcmp : List ℕ → List ℕ → Sign
strcmp [] [] = null
strcmp [] (c ∷ t) = negative
strcmp (c ∷ s) [] = positive
strcmp (c ∷ s) (d ∷ t) =
    let rest = strcmp s t in if ltb c d then negative else if ltb d c then positive else rest

-- rc < 0 goes to the left, anything else to the right.
abbrev pub turn_of : Sign → Turn
turn_of negative = go_left
turn_of null = go_right
turn_of positive = go_right

-- The body of the loop at an object of the same long name, for the dso that is to be linked, if
-- there is one.
abbrev pub same_long_name : Option (Ptr × Dso) → Ptr → Dso → Turn
same_long_name none q this = stop
same_long_name (some (p, dso)) q this =
    if p == q
    then stop
    else elim (strcmp dso.short_name this.short_name) [ null ↦ stop | sign ↦ turn_of sign ]

-- The comparison of __dso__findlink_by_longname. The loop stops at a dangling pointer.
unfoldable pub longname_turn : World → Option (Ptr × Dso) → List ℕ → Ptr → Turn
longname_turn w dso name q = elim (w.dso q) [
  | none ↦ stop
  | some this ↦ elim (strcmp name this.long_name) [
    | null ↦ same_long_name dso q this
    | sign ↦ turn_of sign
  ]
]

-- The end of the loop at an object: it is returned, or it is a duplicate.
abbrev pub met : Option (Ptr × Dso) → Ptr → Option Ptr
met none q = some q
met (some (p, dso)) q = if p == q then some q else none

abbrev pub set_dsos : World → List Ptr → Tree Ptr → World
set_dsos w head root = record w { dsos = record { head = head; root = root } }

-- dso__new: the object is not in the tree yet, so that dso__set_long_name has nothing to relink.
unfoldable pub dso_new : List ℕ → Cmd Ptr
dso_new name w =
    let dso : Dso = record {
      content = record {
        cache = leaf;
        fd = negsuc 0;
        status = unknown;
        file_size = 0;
        eh_frame_hdr_offset = 0;
      };
      short_name = name;
      long_name = name;
      refcnt = 1;
    } in
    ok (w.next, record w { dso = update w.dso w.next (some dso); next = w.next + 1 })

-- dso__get and dso__put, on a pointer that is not NULL; dso__delete does nothing.
unfoldable pub dso_get : Ptr → Cmd Ptr
dso_get p = do
  dso ← load_dso p
  store_dso p (record dso { refcnt = refcount_inc dso.refcnt })
  pure p

unfoldable pub dso_put : Ptr → Cmd (Unit {0})
dso_put p = do
  dso ← load_dso p
  store_dso p (record dso { refcnt = (refcount_dec_and_test dso.refcnt).0 })

module _ (balance : Balance Ptr) (basename : List ℕ → List ℕ) where
  -- The end of the loop at an empty link.
  unfoldable pub link : Option (Ptr × Dso) → List ℕ → Cmd (Option Ptr)
  link none name w = ok (none, w)
  link (some (p, dso)) name w =
      let root = w.dsos.root in
      let place = slot (longname_turn w (some (p, dso)) name) root in
      ok (none, set_dsos w w.dsos.head (balance.rb_insert_color place (rb_link_node p place root)))

  -- __dso__findlink_by_longname, with the name that is compared.
  unfoldable pub findlink_by_longname : Option (Ptr × Dso) → List ℕ → Cmd (Option Ptr)
  findlink_by_longname dso name w = elim (descend (longname_turn w dso name) w.dsos.root) [
    | none ↦ link dso name w
    | some q ↦ elim (w.dso q) [ none ↦ fault | some this ↦ ok (met dso q, w) ]
  ]

  -- __dso__find_by_longname
  abbrev pub find_by_longname : List ℕ → Cmd (Option Ptr)
  find_by_longname name = findlink_by_longname none name

  -- dso__set_basename; strdup is taken to find memory.
  unfoldable pub set_basename : Ptr → Cmd (Unit {0})
  set_basename p = do
    dso ← load_dso p
    store_dso p (record dso { short_name = basename dso.long_name })

  abbrev pub list_add_tail : Ptr → Cmd (Unit {0})
  list_add_tail p w = ok (tt, set_dsos w (w.dsos.head ++ (p ∷ [])) w.dsos.root)

  -- __dsos__add
  unfoldable pub dsos_add : Ptr → Cmd (Unit {0})
  dsos_add p = do
    dso ← load_dso p
    list_add_tail p
    found ← findlink_by_longname (some (p, dso)) dso.long_name
    p' ← dso_get p
    pure tt

  -- The scan of __dsos__find by short name.
  abbrev pub scan_short_name : List ℕ → List Ptr → Cmd (Option Ptr)
  scan_short_name name [] = pure none
  scan_short_name name (p ∷ ps) = load_dso p >>= λ dso. elim (strcmp dso.short_name name) [
    | null ↦ pure (some p)
    | sign ↦ scan_short_name name ps
  ]

  -- __dsos__find
  unfoldable pub dsos_find : List ℕ → Bool → Cmd (Option Ptr)
  dsos_find name true w = scan_short_name name w.dsos.head w
  dsos_find name false w = find_by_longname name w

  -- __dsos__addnew
  unfoldable pub dsos_addnew : List ℕ → Cmd Ptr
  dsos_addnew name = do p ← dso_new name; dsos_add p; set_basename p; dso_put p; pure p

  -- dsos__findnew
  unfoldable pub dsos_findnew : List ℕ → Cmd Ptr
  dsos_findnew name = do
    found ← dsos_find name false
    p ← elim found [ none ↦ dsos_addnew name | some p ↦ pure p ]
    dso_get p
