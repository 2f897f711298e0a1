-- ===== src/Maps/Laws.antt =====
-- maps__find and maps__insert on maps that do not overlap.
use libdw_bcc.Prelude.{
  ◌^◌, ℕ, ◌<◌, ◌≤◌, ◌≡◌, refl, inl, inr, ◌==◌, ==_iff, leb, ltb, ◌&&◌, Bool-cases, Option, none,
  some, List, [], ◌∷◌, ◌++◌, if◌then◌else◌, arith, All-imp, ◌∙◌, ap, sym,
}
use mathlib.Core.Path.{subst}
use mathlib.Core.Option.{some-injective}
use libdw_bcc.Outcome.{ok}
use libdw_bcc.Refcount.{refcount_inc}
use libdw_bcc.Rbtree.{Balance, to_list, rb_link_node}
use libdw_bcc.Rbtree.Search.{IsCut, find, place, slot, descend, descend-eq-find, to_list-link}
use libdw_bcc.Store.{
  Ptr, Map, Maps, World, update, load_maps, load_map, store_maps, store_map, ◌>>=◌,
}
use libdw_bcc.Maps.{map_ip, unmap_ip, live, find_turn, insert_turn, map_get, maps_find, maps_insert}
use libdw_bcc.Maps.Ranges.{
  start_of, end_of, IsRange, IsRanges, Apart, covers, covering, find-IsCut, find-eq-covering,
  insert-IsCut, place-IsRanges, covering-place,
}

-- A maps object whose maps are live and do not overlap.
pub record IsMaps (w : World) (ms : Ptr) (maps : Maps) : Type 0 where
  pub holds : w.maps ms ≡ some maps
  pub ranges : IsRanges w (to_list maps.entries)

covering-live :
    (w : World) (ip : ℕ) (ps : List Ptr) (p : Ptr)
    → IsRanges w ps
    → covering w ip ps ≡ some p
    → IsRange w p
covering-live w ip [] p r h = absurd (cc)
covering-live w ip (q ∷ ps) p (r, above, rs) h = elim (Bool-cases (covers w ip q)) [
  | inl here ↦ subst (IsRange w) (some-injective q p (rw here at h)) r
  | inr there ↦ covering-live w ip ps p rs (rw there at h)
]

load_maps-ok :
    (w : World) (ms : Ptr) (maps : Maps) → w.maps ms ≡ some maps → load_maps ms w ≡ ok (maps, w)
unfolding load_maps
load_maps-ok w ms maps h = rw (h, load_maps)

load_map-ok : (w : World) (p : Ptr) (m : Map) → w.map p ≡ some m → load_map p w ≡ ok (m, w)
unfolding load_map
load_map-ok w p m h = rw (h, load_map)

live-covering :
    (w : World) (o : Option Ptr) → ((p : Ptr) → o ≡ some p → IsRange w p) → live w o w ≡ ok (o, w)
live-covering w none h = refl
live-covering w (some p) h = let (m, e, r) = h p refl in rw (e, live)

-- The search finds the map that contains the address, if there is one, and changes nothing.
pub maps_find-covering :
    (w : World) (ms : Ptr) (maps : Maps) (ip : ℕ)
    → IsMaps w ms maps
    → maps_find ms ip w ≡ ok (covering w ip (to_list maps.entries), w)
unfolding maps_find
maps_find-covering w ms maps ip h =
    let ps = to_list maps.entries in
    rw (load_maps-ok w ms maps h.holds, ◌>>=◌)
      (rw
        (descend-eq-find (find_turn w ip) maps.entries (find-IsCut w ip ps h.ranges)
          ∙ find-eq-covering w ip ps h.ranges)
        (live-covering w (covering w ip ps) (λ p e. covering-live w ip ps p h.ranges e)))

-- Two memories with the same map objects, but for their counts.
abbrev pub SameRanges : World → World → Type 0
SameRanges w w' =
    (q : Ptr)
    → (start_of w' q ≡ start_of w q) × (end_of w' q ≡ end_of w q) × (IsRange w q → IsRange w' q)

pub IsRanges-frame :
    (w w' : World) (ps : List Ptr) → SameRanges w w' → IsRanges w ps → IsRanges w' ps
IsRanges-frame w w' [] f r = tt
IsRanges-frame w w' (p ∷ ps) f (r, above, rs) = (
  (f p).2 r,
  All-imp (λ q. end_of w p ≤ start_of w q) (λ q. end_of w' p ≤ start_of w' q) ps
      (λ q h. omega (arith, (f p).1, (f q).0)) above,
  IsRanges-frame w w' ps f rs,
)

pub covering-frame :
    (w w' : World) (ip : ℕ) (ps : List Ptr) → SameRanges w w' → covering w' ip ps ≡ covering w ip ps
covering-frame w w' ip [] f = refl
covering-frame w w' ip (p ∷ ps) f =
    rw ((f p).0, (f p).1)
      (ap (λ r. if covers w ip p then some p else r) (covering-frame w w' ip ps f))

-- What maps__insert leaves.
abbrev pub inserted : Balance Ptr → World → Ptr → Ptr → Maps → Map → Maps
inserted balance w ms p maps m =
    let place = slot (insert_turn w m.start) maps.entries in
    record maps {
      entries = balance.rb_insert_color place (rb_link_node p place maps.entries);
      head = maps.head ++ (p ∷ []);
    }

abbrev pub after_insert : Balance Ptr → World → Ptr → Ptr → Maps → Map → World
after_insert balance w ms p maps m = record w {
  maps = update w.maps ms (some (inserted balance w ms p maps m));
  map = update w.map p (some (record m { refcnt = refcount_inc m.refcnt }));
}

after_insert-same :
    (balance : Balance Ptr) (w : World) (ms p : Ptr) (maps : Maps) (m : Map)
    → w.map p ≡ some m
    → SameRanges w (after_insert balance w ms p maps m)
after_insert-same balance w ms p maps m h q =
    let w' = after_insert balance w ms p maps m in
    elim (Bool-cases (p == q)) [
      | inl same ↦
          let here : w.map q ≡ some m = ap w.map (sym ((==_iff p q).0 same)) ∙ h in
          (
            ground (arith, here, same),
            ground (arith, here, same),
            λ r. (
              record m { refcnt = refcount_inc m.refcnt },
              ground (arith, same),
              ground (arith, here, same, r.2),
            ),
          )
      | inr other ↦ (
        ground (arith, other),
        ground (arith, other),
        λ r. (r.0, ground (arith, other, r.1), ground (arith, other, r.2)),
      )
    ]

maps_insert-runs :
    (balance : Balance Ptr) (w : World) (ms p : Ptr) (maps : Maps) (m : Map)
    → w.maps ms ≡ some maps
    → w.map p ≡ some m
    → descend (insert_turn w m.start) maps.entries ≡ none
    → maps_insert balance ms p w ≡ ok (tt, after_insert balance w ms p maps m)
unfolding maps_insert map_get store_maps store_map
maps_insert-runs balance w ms p maps m h k e =
    rw (load_maps-ok w ms maps h, ◌>>=◌)
      (rw (load_map-ok w p m k, ◌>>=◌)
        (rw (e, ◌>>=◌)
          (rw (
            load_map-ok
                (record w { maps = update w.maps ms (some (inserted balance w ms p maps m)) }) p m
                k,
            ◌>>=◌,
          ))))

inserted-IsMaps :
    (balance : Balance Ptr) (w : World) (ms p : Ptr) (maps : Maps) (m : Map)
    → IsMaps w ms maps
    → w.map p ≡ some m
    → IsRange w p
    → Apart w (start_of w p) (end_of w p) (to_list maps.entries)
    → IsMaps (after_insert balance w ms p maps m) ms (inserted balance w ms p maps m)
      × (descend (insert_turn w m.start) maps.entries ≡ none)
      × (to_list (inserted balance w ms p maps m).entries
          ≡ place (insert_turn w (start_of w p)) p (to_list maps.entries))
inserted-IsMaps balance w ms p maps m h k new apart =
    let ps = to_list maps.entries in
    let start : start_of w p ≡ m.start = ground (arith, k) in
    let (cut, fresh) = insert-IsCut w p new ps h.ranges apart in
    let cut' : IsCut (insert_turn w m.start) ps =
      subst (λ s. IsCut (insert_turn w s) ps) start cut in
    let fresh' : find (insert_turn w m.start) ps ≡ none =
      subst (λ s. find (insert_turn w s) ps ≡ none) start fresh in
    let order : to_list (inserted balance w ms p maps m).entries
        ≡ place (insert_turn w (start_of w p)) p ps =
      balance.insert_keeps_order (slot (insert_turn w m.start) maps.entries)
        (rb_link_node p (slot (insert_turn w m.start) maps.entries) maps.entries)
      ∙ to_list-link (insert_turn w m.start) p maps.entries cut' fresh'
      ∙ ap (λ s. place (insert_turn w s) p ps) (sym start) in
    (
      record {
        holds = ground arith;
        ranges = rw order (
            IsRanges-frame w (after_insert balance w ms p maps m)
              (place (insert_turn w (start_of w p)) p ps)
              (after_insert-same balance w ms p maps m k)
              (place-IsRanges w p new ps h.ranges apart));
      },
      descend-eq-find (insert_turn w m.start) maps.entries cut' ∙ fresh',
      order,
    )

-- The insertion, with what it leaves.
pub maps_insert-run :
    (balance : Balance Ptr) (w : World) (ms p : Ptr) (maps : Maps) (m : Map)
    → IsMaps w ms maps
    → w.map p ≡ some m
    → m.start < m.end
    → Apart w m.start m.end (to_list maps.entries)
    → let w' = after_insert balance w ms p maps m in
      let maps' = inserted balance w ms p maps m in
      (maps_insert balance ms p w ≡ ok (tt, w'))
      × IsMaps w' ms maps'
      × ((ip : ℕ)
          → covering w' ip (to_list maps'.entries) ≡ (
              if leb m.start ip && ltb ip m.end
              then some p
              else covering w ip (to_list maps.entries)))
maps_insert-run balance w ms p maps m h k lt apart =
    let w' = after_insert balance w ms p maps m in
    let ps = to_list maps.entries in
    let new : IsRange w p = (m, k, rw (k, start_of, end_of) lt) in
    let apart' : Apart w (start_of w p) (end_of w p) ps = rw (k, start_of, end_of) apart in
    let (valid, fresh, order) = inserted-IsMaps balance w ms p maps m h k new apart' in
    (
      maps_insert-runs balance w ms p maps m h.holds k fresh,
      valid,
      λ ip.
          ap (covering w' ip) order
          ∙ covering-frame w w' ip (place (insert_turn w (start_of w p)) p ps)
              (after_insert-same balance w ms p maps m k)
          ∙ covering-place w p new ip ps h.ranges apart'
          ∙ rw (k, covers, start_of, end_of),
    )

-- Inserting a live map whose range is apart from the others runs without a fault; the maps stay
-- sorted and apart, the new one is the last of the list and is held by one more reference, and the
-- threads stay; and from then on an address is found in the new map, or where it was found before.
pub maps_insert_lem :
    (balance : Balance Ptr) (w : World) (ms p : Ptr) (maps : Maps) (m : Map)
    → IsMaps w ms maps
    → w.map p ≡ some m
    → m.start < m.end
    → Apart w m.start m.end (to_list maps.entries)
    → (w' : World) × (maps' : Maps) × (maps_insert balance ms p w ≡ ok (tt, w'))
      × IsMaps w' ms maps'
      × (maps'.head ≡ maps.head ++ (p ∷ []))
      × (w'.map p ≡ some (record m { refcnt = refcount_inc m.refcnt }))
      × (w'.thread ≡ w.thread)
      × ((ip : ℕ)
          → maps_find ms ip w'
            ≡ ok (
              if leb m.start ip && ltb ip m.end
                  then some p
                  else covering w ip (to_list maps.entries),
              w',
            ))
maps_insert_lem balance w ms p maps m h k lt apart =
    let w' = after_insert balance w ms p maps m in
    let maps' = inserted balance w ms p maps m in
    let (runs, valid, finds) = maps_insert-run balance w ms p maps m h k lt apart in
    (
      w',
      maps',
      runs,
      valid,
      refl,
      ground arith,
      refl,
      λ ip. maps_find-covering w' ms maps' ip valid ∙ ap (λ o. ok (o, w')) (finds ip),
    )

-- An address of the process that is taken to the file comes back, also where the sums wrap around.
pub unmap_ip-map_ip :
    (m : Map) (ip : ℕ)
    → ip < 2 ^ 64
    → m.start < 2 ^ 64
    → m.pgoff < 2 ^ 64
    → unmap_ip m (map_ip m ip) ≡ ip
unfolding map_ip unmap_ip
unmap_ip-map_ip m ip h s g = omega arith
