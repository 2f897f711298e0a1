-- ===== src/Maps.antt =====
-- src/map.h and src/map.c: the maps of a process by address.
pub mod Ranges
pub mod Laws
pub mod Objects
pub mod New
pub mod Lifetime
mod Release
mod Tests
use libdw_bcc.Prelude.{
  ℕ, ◌+◌, add64, sub64, ltb, leb, ◌==◌, Option, none, some, List, [], ◌∷◌, ◌++◌, Bool, true, false,
  if◌then◌else◌,
}
use libdw_bcc.Outcome.{ok, fault}
use libdw_bcc.Refcount.{refcount_inc}
use libdw_bcc.Rbtree.{Tree, Balance, rb_link_node, to_list}
use libdw_bcc.Rbtree.Search.{Turn, go_left, go_right, stop, descend, slot}
use libdw_bcc.Store.{
  Ptr, Map, Maps, World, Cmd, pure, ◌>>=◌, ◌>>◌, load_map, load_maps, store_map, store_maps,
}

-- map_ip and unmap_ip: between an address of the process and an offset into the file.
unfoldable pub map_ip : Map → ℕ → ℕ
map_ip map ip = add64 (sub64 ip map.start) map.pgoff

unfoldable pub unmap_ip : Map → ℕ → ℕ
unmap_ip map ip = sub64 (add64 ip map.start) map.pgoff

-- map__get, on a pointer that is not NULL.
unfoldable pub map_get : Ptr → Cmd Ptr
map_get p = do
  map ← load_map p
  store_map p (record map { refcnt = refcount_inc map.refcnt })
  pure p

-- The comparison of maps__find. The loop stops at a dangling pointer, where it faults.
unfoldable pub find_turn : World → ℕ → Ptr → Turn
find_turn w ip p = elim (w.map p) [
  | none ↦ stop
  | some m ↦ if ltb ip m.start then go_left else if leb m.end ip then go_right else stop
]

abbrev pub live : World → Option Ptr → Cmd (Option Ptr)
live w none = pure none
live w (some p) = elim (w.map p) [ none ↦ (λ _. fault) | some m ↦ pure (some p) ]

-- maps__find
unfoldable pub maps_find : Ptr → ℕ → Cmd (Option Ptr)
maps_find ms ip = do maps ← load_maps ms; λ w. live w (descend (find_turn w ip) maps.entries) w

-- The comparison of __maps__insert: there is no match, and equal starts go right.
unfoldable pub insert_turn : World → ℕ → Ptr → Turn
insert_turn w ip p = elim (w.map p) [
  | none ↦ stop
  | some m ↦ if ltb ip m.start then go_left else go_right
]

-- The walk of __maps__insert met no dangling pointer.
abbrev walk_ends : World → Option Ptr → Cmd (Unit {0})
walk_ends w none = pure tt
walk_ends w (some p) = λ _. fault

module _ (balance : Balance Ptr) where
  -- maps__insert
  unfoldable pub maps_insert : Ptr → Ptr → Cmd (Unit {0})
  maps_insert ms p = do
    maps ← load_maps ms
    map ← load_map p
    λ w.
        (do
          walk_ends w (descend (insert_turn w map.start) maps.entries)
          let place = slot (insert_turn w map.start) maps.entries
          store_maps ms (record maps {
            entries = balance.rb_insert_color place (rb_link_node p place maps.entries);
            head = maps.head ++ (p ∷ []);
          })
          p' ← map_get p
          pure tt)
          w

-- The pointer behind another one, in a list without repetitions.
abbrev pub next_in : Ptr → List Ptr → Option Ptr
next_in p [] = none
next_in p (q ∷ []) = none
next_in p (q ∷ r ∷ qs) = let rest = next_in p (r ∷ qs) in if p == q then some r else rest

-- map__next: rb_next goes to the next node in the order of the tree that the map is in.
abbrev pub map_next : Tree Ptr → Ptr → Option Ptr
map_next entries p = next_in p (to_list entries)
