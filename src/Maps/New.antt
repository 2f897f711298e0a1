-- ===== src/Maps/New.antt =====
-- src/map.c: a map is made of any file, whether its shared object is known or not.
use libdw_bcc.Prelude.{ℕ, ◌+◌, ◌≡◌, refl, ◌∙◌, some, List, arith}
use libdw_bcc.Outcome.{ok}
use libdw_bcc.Refcount.{refcount_inc, refcount_dec_and_test}
use libdw_bcc.Rbtree.{Balance, to_list}
use libdw_bcc.Dso.{Dso}
use libdw_bcc.Store.{Ptr, Dsos, World, ◌>>=◌, store_map, update, update_same}
use libdw_bcc.Dsos.Names.{IsSorted}
use libdw_bcc.Dsos.Findnew.{
  Objects, KeepsNames-trans, KeepsNames-update, IsUnused, IsUnused-update, used_below,
  IsSorted-KeepsNames, with_objects, Finds, dsos_findnew-Finds,
}
use libdw_bcc.Maps.Objects.{
  Mmap2Event, initial_map, IsSorted-dsos, map_init, map_new, dso_get-live, dso_put-live,
}

-- The memory with a new map, whose shared object is `d`.
abbrev pub with_new_map : World → Mmap2Event → Ptr → Ptr → Objects → Dsos → World
with_new_map w event d n f ds = record w {
  next = n;
  map = update w.map w.next (some (initial_map event d));
  dso = f;
  dsos = ds;
}

-- The object that was found is counted anew.
Finds-counted :
    (w : World) (name : List ℕ) (d n : Ptr) (f : Objects) (ds : Dsos) (o o' : Dso)
    → Finds w name d n f ds
    → f d ≡ some o
    → o'.long_name ≡ o.long_name
    → o.long_name ≡ name
    → Finds w name d n (update f d (some o')) ds
Finds-counted w name d n f ds o o' h live same own =
    let g = update f d (some o') in
    let keeps = KeepsNames-update f d o o' live same in
    record {
      upwards = h.upwards;
      sorted =
          IsSorted-KeepsNames (with_objects w n f ds) (with_objects w n g ds) (to_list ds.root)
            keeps h.sorted;
      object = o';
      live = update_same f d (some o');
      own = same ∙ own;
      keeps = KeepsNames-trans w.dso f g h.keeps keeps;
      unused = IsUnused-update f n d (some o') (used_below f n d o h.unused live) h.unused;
    }

-- A map of any file is a new object for the range of the event, with a shared object of the file's
-- name.
pub map_new-Finds :
    (balance : Balance Ptr) (basename : List ℕ → List ℕ) (w : World) (event : Mmap2Event)
    → IsUnused w.dso w.next
    → IsSorted w (to_list w.dsos.root)
    → let w₀ : World = record w { next = w.next + 1 } in
      (d : Ptr) × (n : Ptr) × (f : Objects) × (ds : Dsos) × (map_new balance basename event w
        ≡ ok (w.next, with_new_map w event d n f ds))
      × Finds w₀ event.filename d n f ds
unfolding map_new map_init store_map
map_new-Finds balance basename w event unused h =
    let w₀ : World = record w { next = w.next + 1 } in
    let (d, n, f, ds, finds, found) =
      dsos_findnew-Finds balance basename w₀ event.filename (λ q le. unused q (omega (arith, le)))
        (IsSorted-dsos w w₀ (to_list w.dsos.root) h) in
    let o = found.object in
    let one : Dso = record o { refcnt = refcount_inc o.refcnt } in
    let back : Dso = record one { refcnt = (refcount_dec_and_test one.refcnt).0 } in
    let w₁ = with_objects w₀ n f ds in
    let g = update f d (some one) in
    let w₂ : World = record w₁ {
      dso = g;
      map = update w.map w.next (some (initial_map event d));
    } in
    let found₁ = Finds-counted w₀ event.filename d n f ds o one found found.live refl found.own in
    let found₂ =
      Finds-counted w₀ event.filename d n g ds one back found₁ (update_same f d (some one)) refl
        found.own in
    (
      d,
      n,
      update g d (some back),
      ds,
      rw (finds, ◌>>=◌)
          (rw (dso_get-live balance basename w₁ d o found.live, ◌>>=◌)
            (rw (dso_put-live balance basename w₂ d one (update_same f d (some one)), ◌>>=◌))),
      found₂,
    )
