-- ===== src/Maps/Release.antt =====
-- maps__put, where the last reference to the maps of a process goes.
use libdw_bcc.Prelude.{
  ◌≤◌, ◌==◌, ne→==, ◌≡◌, refl, ◌∙◌, ap, sym, arith, All, All-imp, Bool-cases, inl, inr, true, false,
  Option, none, some, List, [], ◌∷◌,
}
use libdw_bcc.Outcome.{ok}
use libdw_bcc.Refcount.{refcount_dec_and_test}
use libdw_bcc.Rbtree.{Erase, remove, to_list}
use libdw_bcc.Dso.{Dso}
use libdw_bcc.Store.{
  Ptr, Map, Maps, World, ◌>>=◌, ◌>>◌, load_map, store_map, load_maps, store_maps, load_dso,
  store_dso, update, update_same, free_map,
}
use libdw_bcc.Dsos.{dso_put}
use libdw_bcc.Maps.Ranges.{start_of, end_of, IsRanges}
use libdw_bcc.Maps.Laws.{IsMaps}
use libdw_bcc.Maps.Lifetime.{
  zput, map_delete, map_put, purge_from, maps_purge, maps_delete, maps_put,
}

-- A map to which only the tree has a reference; its shared object is live.
pub record IsOwned (w : World) (p : Ptr) : Type 0 where
  pub map : Map
  pub file : Ptr
  pub dso : Dso
  pub live : w.map p ≡ some map
  pub last : map.refcnt ≡ 1
  pub of_file : map.dso ≡ some file
  pub known : w.dso file ≡ some dso

-- Objects that were there are there still.
abbrev StillLive : World → World → Type 0
StillLive w w' =
    ((d : Ptr) (dso : Dso) → w.dso d ≡ some dso → (dso' : Dso) × (w'.dso d ≡ some dso'))
    × ((ms : Ptr) (maps : Maps)
        → w.maps ms ≡ some maps
        → (maps' : Maps) × (w'.maps ms ≡ some maps'))

dec_last : refcount_dec_and_test 1 ≡ (0, true)
unfolding refcount_dec_and_test
dec_last = refl

dso_put-run :
    (w : World) (d : Ptr) (dso : Dso)
    → w.dso d ≡ some dso
    → dso_put d w
      ≡ ok (
        tt,
        record w {
          dso =
              update w.dso d (some (record dso { refcnt = (refcount_dec_and_test dso.refcnt).0 }));
        },
      )
unfolding dso_put load_dso store_dso
dso_put-run w d dso live = rw (live, ◌>>=◌)

-- A map without its last reference is freed.
map_put-last :
    (w : World) (p : Ptr)
    → IsOwned w p
    → (w' : World) × (map_put false p w ≡ ok (tt, w'))
      × (w'.map p ≡ none)
      × ((q : Ptr) → ¬ (p ≡ q) → w'.map q ≡ w.map q)
      × StillLive w w'
unfolding map_put map_delete load_map store_map
map_put-last w p o =
    let m₀ : Map = record (o.map) { refcnt = 0 } in
    let w₁ : World = record w {
      map = update w.map p (some m₀);
      maps = λ q. elim (w.maps q) [
        | none ↦ none
        | some maps ↦ some (record maps { head = remove p maps.head })
      ];
    } in
    let put = dso_put-run w₁ o.file o.dso o.known in
    (
      record w₁ {
        dso =
            update w.dso o.file
              (some (record (o.dso) { refcnt = (refcount_dec_and_test o.dso.refcnt).0 }));
        map = update w₁.map p none;
      },
      rw (o.live, ◌>>=◌)
          (rw (ap refcount_dec_and_test o.last ∙ dec_last)
            (ap (λ d. (zput d >> free_map p) w₁) o.of_file ∙ rw (put, ◌>>◌, ◌>>=◌))),
      update_same w₁.map p none,
      (λ q ne. rw (ne→== p q ne)),
      (
        λ d dso live. elim (Bool-cases (o.file == d)) [
          | inl e ↦ (record (o.dso) { refcnt = (refcount_dec_and_test o.dso.refcnt).0 }, rw e)
          | inr e ↦ (dso, rw e live)
        ],
        λ ms maps live. (record maps { head = remove p maps.head }, rw live),
      ),
    )

-- No map is twice in the list.
abbrev IsDistinct : List Ptr → Type 0
IsDistinct [] = Unit
IsDistinct (p ∷ ps) = All (λ q. ¬ (p ≡ q)) ps × IsDistinct ps

IsRanges-IsDistinct : (w : World) (ps : List Ptr) → IsRanges w ps → IsDistinct ps
IsRanges-IsDistinct w [] r = tt
IsRanges-IsDistinct w (p ∷ ps) ((m, live, lt), above, rs) = (
  All-imp (λ q. end_of w p ≤ start_of w q) (λ q. ¬ (p ≡ q)) ps
      (λ q le e. absurd (omega (arith, lt, le, ap (start_of w) e))) above,
  IsRanges-IsDistinct w ps rs,
)

IsOwned-frame :
    (w w' : World) (p : Ptr) (ps : List Ptr)
    → ((q : Ptr) → ¬ (p ≡ q) → w'.map q ≡ w.map q)
    → ((d : Ptr) (dso : Dso) → w.dso d ≡ some dso → (dso' : Dso) × (w'.dso d ≡ some dso'))
    → All (λ q. ¬ (p ≡ q)) ps
    → All (IsOwned w) ps
    → All (IsOwned w') ps
IsOwned-frame w w' p [] same still ne h = tt
IsOwned-frame w w' p (q ∷ ps) same still (n, ne) (o, h) =
    let (dso', live') = still o.file o.dso o.known in
    (
      record {
        map = o.map;
        file = o.file;
        dso = dso';
        live = same q n ∙ o.live;
        last = o.last;
        of_file = o.of_file;
        known = live';
      },
      IsOwned-frame w w' p ps same still ne h,
    )

-- Maps objects do not matter.
IsOwned-maps :
    (w : World) (maps : Ptr → Option Maps) (ps : List Ptr)
    → All (IsOwned w) ps
    → All (IsOwned (record w { maps = maps })) ps
IsOwned-maps w maps ps = All-imp (IsOwned w) (IsOwned (record w { maps = maps })) ps (λ q o.
    record {
      map = o.map;
      file = o.file;
      dso = o.dso;
      live = o.live;
      last = o.last;
      of_file = o.of_file;
      known = o.known;
    })

module _ (erase : Erase) where
  purge_from-frees :
      (ms : Ptr) (ps : List Ptr) (w : World) (maps : Maps)
      → w.maps ms ≡ some maps
      → IsDistinct ps
      → All (IsOwned w) ps
      → (w' : World) × (maps' : Maps) × (purge_from erase ms ps w ≡ ok (tt, w'))
        × All (λ q. w'.map q ≡ none) ps
        × ((q : Ptr) → All (λ p. ¬ (p ≡ q)) ps → w'.map q ≡ w.map q)
  unfolding purge_from load_maps store_maps
  purge_from-frees ms [] w maps held ne h = (w, maps, refl, tt, λ q n. refl)
  purge_from-frees ms (p ∷ ps) w maps held (n, ne) (o, h) =
      let m₁ : Maps = record maps { entries = erase.rb_erase p maps.entries } in
      let w₁ : World = record w { maps = update w.maps ms (some m₁) } in
      let (w₂, puts, gone, same, still) =
        map_put-last w₁ p (IsOwned-maps w w₁.maps (p ∷ []) (o, tt)).0 in
      let (m₂, held₂) = still.1 ms m₁ (update_same w.maps ms (some m₁)) in
      let (w₃, m₃, runs, freed, kept) =
        purge_from-frees ms ps w₂ m₂ held₂ ne (IsOwned-frame w w₂ p ps same (still.0) n h) in
      (
        w₃,
        m₃,
        rw (held, ◌>>=◌) (rw (puts, ◌>>◌, ◌>>=◌) runs),
        (
          kept p (All-imp (λ q. ¬ (p ≡ q)) (λ q. ¬ (q ≡ p)) ps (λ q k e. k (sym e)) n) ∙ gone,
          freed,
        ),
        λ q (a, as_). kept q as_ ∙ same q a,
      )

  -- Where the last reference to the maps of a process is given back, and only the tree has
  -- references to its maps, all of them are freed, and so is the maps object; no other map changes.
  pub maps_put-frees :
      (w : World) (ms : Ptr) (maps : Maps)
      → IsMaps w ms maps
      → maps.refcnt ≡ 1
      → All (IsOwned w) (to_list maps.entries)
      → (w' : World) × (maps_put erase ms w ≡ ok (tt, w'))
        × (w'.maps ms ≡ none)
        × All (λ q. w'.map q ≡ none) (to_list maps.entries)
        × ((q : Ptr) → All (λ p. ¬ (p ≡ q)) (to_list maps.entries) → w'.map q ≡ w.map q)
  unfolding maps_put maps_delete maps_purge load_maps store_maps
  maps_put-frees w ms maps h last owned =
      let m₀ : Maps = record maps { refcnt = 0 } in
      let w₁ : World = record w { maps = update w.maps ms (some m₀) } in
      let held = update_same w.maps ms (some m₀) in
      let ps = to_list maps.entries in
      let (w₂, m₂, purges, freed, kept) =
        purge_from-frees ms ps w₁ m₀ held (IsRanges-IsDistinct w ps h.ranges)
          (IsOwned-maps w w₁.maps ps owned) in
      (
        record w₂ { maps = update w₂.maps ms none },
        rw (h.holds, ◌>>=◌)
            (rw (ap refcount_dec_and_test last ∙ dec_last, ◌>>◌, ◌>>=◌)
              (rw (held, ◌>>=◌) (rw (purges, ◌>>◌, ◌>>=◌)))),
        update_same w₂.maps ms none,
        freed,
        kept,
      )
