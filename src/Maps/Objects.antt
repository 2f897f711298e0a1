-- ===== src/Maps/Objects.antt =====
-- src/map.c: a map object is made for a range of a file.
use libdw_bcc.Prelude.{
  ℕ, ◌+◌, ◌^◌, ◌<◌, add64, ◌≡◌, ==_iff, refl, ◌∙◌, ap, some, List, [], ◌∷◌, arith,
}
use libdw_bcc.Outcome.{ok}
use libdw_bcc.Refcount.{refcount_inc, refcount_dec_and_test}
use libdw_bcc.Rbtree.{Balance, to_list}
use libdw_bcc.Dso.{Dso}
use libdw_bcc.Store.{
  Ptr, Map, World, Cmd, pure, ◌>>=◌, ◌>>◌, store_map, load_dso, store_dso, update, update_same,
  allocate,
}
use libdw_bcc.Dsos.{Sign, negative, null, positive, strcmp, dso_get, dso_put, dsos_findnew}
use libdw_bcc.Dsos.Names.{name_of, IsSorted, named, dsos_findnew-named}

-- struct mmap2_event
pub record Mmap2Event : Type 0 where
  pub tgid : ℕ
  pub tid : ℕ
  pub start : ℕ
  pub len : ℕ
  pub pgoff : ℕ
  pub maj : ℕ
  pub min : ℕ
  pub ino : ℕ
  pub ino_generation : ℕ
  pub prot : ℕ
  pub flags : ℕ
  pub filename : List ℕ

-- The object that map__init writes.
abbrev pub initial_map : Mmap2Event → Ptr → Map
initial_map event d = record {
  start = event.start;
  end = add64 event.start event.len;
  prot = event.prot;
  flags = event.flags;
  pgoff = event.pgoff;
  reloc = 0;
  maj = event.maj;
  min = event.min;
  ino = event.ino;
  ino_generation = event.ino_generation;
  dso = some d;
  refcnt = 1;
}

-- The order of the names depends on the shared objects only.
pub IsSorted-dsos :
    (w v : World) (ps : List Ptr) → IsSorted w ps → IsSorted (record v { dso = w.dso }) ps
IsSorted-dsos w v [] h = tt
IsSorted-dsos w v (p ∷ ps) (live, above, h) = (live, above, IsSorted-dsos w v ps h)

pub named-dsos :
    (w v : World) (name : List ℕ) (ps : List Ptr)
    → named (record v { dso = w.dso }) name ps ≡ named w name ps
named-dsos w v name [] = refl
named-dsos w v name (p ∷ ps) = by_sign (named-dsos w v name ps) (strcmp name (name_of w p))
  where
    by_sign :
        named (record v { dso = w.dso }) name ps ≡ named w name ps
        → (s : Sign)
        → elim s [ null ↦ some p | sign ↦ named (record v { dso = w.dso }) name ps ]
          ≡ elim s [ null ↦ some p | sign ↦ named w name ps ]
    by_sign e negative = e
    by_sign e null = refl
    by_sign e positive = e

module _ (balance : Balance Ptr) (basename : List ℕ → List ℕ) where
  -- map__init
  unfoldable pub map_init : Ptr → Mmap2Event → Ptr → Cmd (Unit {0})
  map_init p event d = do d' ← dso_get d; store_map p (initial_map event d')

  -- map__new
  unfoldable pub map_new : Mmap2Event → Cmd Ptr
  map_new event = do
    p ← allocate
    d ← dsos_findnew balance basename event.filename
    map_init p event d
    dso_put d
    pure p

  pub dso_get-live :
      (w : World) (d : Ptr) (dso : Dso)
      → w.dso d ≡ some dso
      → dso_get d w
        ≡ ok (
          d,
          record w {
            dso = update w.dso d (some (record dso { refcnt = refcount_inc dso.refcnt }));
          },
        )
  unfolding dso_get load_dso store_dso
  dso_get-live w d dso live = rw (live, ◌>>=◌)

  pub dso_put-live :
      (w : World) (d : Ptr) (dso : Dso)
      → w.dso d ≡ some dso
      → dso_put d w
        ≡ ok (
          tt,
          record w {
            dso =
                update w.dso d
                  (some (record dso { refcnt = (refcount_dec_and_test dso.refcnt).0 }));
          },
        )
  unfolding dso_put load_dso store_dso
  dso_put-live w d dso live = rw (live, ◌>>=◌)

  -- The memory after a map of a known shared object is made, whose two further references
  -- map__new has taken and one of which it has given back.
  abbrev pub with_map : World → Mmap2Event → Ptr → Dso → World
  with_map w event d dso =
      let one : Dso = record dso { refcnt = refcount_inc dso.refcnt } in
      let two : Dso = record one { refcnt = refcount_inc one.refcnt } in
      let back : Dso = record two { refcnt = (refcount_dec_and_test two.refcnt).0 } in
      record w {
        next = w.next + 1;
        map = update w.map w.next (some (initial_map event d));
        dso = update (update (update w.dso d (some one)) d (some two)) d (some back);
      }

  pub map_new-run :
      (w : World) (event : Mmap2Event) (d : Ptr) (dso : Dso)
      → IsSorted w (to_list w.dsos.root)
      → named w event.filename (to_list w.dsos.root) ≡ some d
      → w.dso d ≡ some dso
      → map_new event w ≡ ok (w.next, with_map w event d dso)
  unfolding map_new map_init store_map
  map_new-run w event d dso h e live =
      let w₀ : World = record w { next = w.next + 1 } in
      let one : Dso = record dso { refcnt = refcount_inc dso.refcnt } in
      let two : Dso = record one { refcnt = refcount_inc one.refcnt } in
      let w₁ : World = record w₀ { dso = update w₀.dso d (some one) } in
      let w₂ : World = record w₁ { dso = update w₁.dso d (some two) } in
      let w₃ : World = record w₂ { map = update w₂.map w.next (some (initial_map event d)) } in
      let known =
        dsos_findnew-named balance basename w₀ event.filename d dso
          (IsSorted-dsos w w₀ (to_list w.dsos.root) h)
          (named-dsos w w₀ event.filename (to_list w.dsos.root) ∙ e) live in
      rw (known, ◌>>=◌)
        (rw (dso_get-live w₁ d one (update_same w₀.dso d (some one)), ◌>>=◌)
          (rw (dso_put-live w₃ d two (update_same w₁.dso d (some two)), ◌>>=◌)))

  -- A map of a file whose shared object is known is a new object for the range of the event, with
  -- one reference to it; the shared object gains one reference, which is the map's.
  pub map_new-named :
      (w : World) (event : Mmap2Event) (d : Ptr) (dso : Dso)
      → IsSorted w (to_list w.dsos.root)
      → named w event.filename (to_list w.dsos.root) ≡ some d
      → w.dso d ≡ some dso
      → dso.refcnt + 2 < 2 ^ 32
      → (w' : World) × (map_new event w ≡ ok (w.next, w'))
        × (w'.map w.next ≡ some (initial_map event d))
        × (w'.dso d ≡ some (record dso { refcnt = dso.refcnt + 1 }))
  unfolding refcount_inc refcount_dec_and_test
  map_new-named w event d dso h e live small =
      let w' = with_map w event d dso in
      (
        w',
        map_new-run w event d dso h e live,
        update_same w.map w.next (some (initial_map event d)),
        rw ((==_iff d d).1 refl)
            (ap (λ n. some (record dso { refcnt = n })) {y = dso.refcnt + 1} (omega arith)),
      )
