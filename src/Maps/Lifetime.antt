-- ===== src/Maps/Lifetime.antt =====
-- src/map.c: the references to maps, and what goes with the last one.
use libdw_bcc.Prelude.{
  ◌+◌, Bool, true, false, not, Option, none, some, List, [], ◌∷◌, if◌then◌else◌,
}
use libdw_bcc.Outcome.{ok, assert}
use libdw_bcc.Refcount.{refcount_inc, refcount_dec_and_test}
use libdw_bcc.Rbtree.{leaf, rb_first, remove, Erase, to_list}
use libdw_bcc.Dsos.{dso_put}
use libdw_bcc.Store.{
  Ptr, Maps, Cmd, pure, ◌>>=◌, ◌>>◌, lift, load_map, store_map, load_maps, store_maps, update,
  free_map, free_maps,
}

-- maps__new and maps__init
unfoldable pub maps_new : Cmd Ptr
maps_new w =
    let maps : Maps = record { entries = leaf; head = []; refcnt = 1 } in
    ok (w.next, record w { maps = update w.maps w.next (some maps); next = w.next + 1 })

-- maps__get, on a pointer that is not NULL.
unfoldable pub maps_get : Ptr → Cmd Ptr
maps_get p = do
  maps ← load_maps p
  store_maps p (record maps { refcnt = refcount_inc maps.refcnt })
  pure p

-- maps__first
unfoldable pub maps_first : Ptr → Cmd (Option Ptr)
maps_first p = do maps ← load_maps p; pure (rb_first maps.entries)

-- maps__empty
unfoldable pub maps_empty : Ptr → Cmd Bool
maps_empty p = do first ← maps_first p; pure (elim first [ none ↦ true | some m ↦ false ])

-- dso__zput
abbrev pub zput : Option Ptr → Cmd (Unit {0})
zput none = pure tt
zput (some d) = dso_put d

-- list_del_init(&map->node), in whichever list the map is.
abbrev pub unlink_map : Ptr → Cmd (Unit {0})
unlink_map p w = ok (
  tt,
  record w {
    maps = λ q. elim (w.maps q) [
      | none ↦ none
      | some maps ↦ some (record maps { head = remove p maps.head })
    ];
  },
)

-- map__exit; `in_tree` says whether the map's node is in a tree.
abbrev pub map_exit : Bool → Option Ptr → Cmd (Unit {0})
map_exit in_tree dso = do lift (assert (not in_tree)); zput dso

-- map__delete
unfoldable pub map_delete : Bool → Ptr → Option Ptr → Cmd (Unit {0})
map_delete in_tree p dso = do map_exit in_tree dso; free_map p

-- map__put, on a pointer that is not NULL.
unfoldable pub map_put : Bool → Ptr → Cmd (Unit {0})
map_put in_tree p = do
  map ← load_map p
  let counted = refcount_dec_and_test map.refcnt
  store_map p (record map { refcnt = counted.0 })
  if counted.1 then (do unlink_map p; map_delete in_tree p map.dso) else pure tt

module _ (erase : Erase) where
  -- The loop of __maps__purge: `ps` are the maps from `next` on, in the order of rb_next. The node
  -- after the erased one is read first, so that erasing does not disturb the walk.
  unfoldable pub purge_from : Ptr → List Ptr → Cmd (Unit {0})
  purge_from ms [] = pure tt
  purge_from ms (p ∷ ps) = load_maps ms >>= λ maps.
      (store_maps ms (record maps { entries = erase.rb_erase p maps.entries }) >> map_put false p)
      >> purge_from ms ps

  -- __maps__purge
  unfoldable pub maps_purge : Ptr → Cmd (Unit {0})
  maps_purge ms = do maps ← load_maps ms; purge_from ms (to_list maps.entries)

  -- maps__exit
  abbrev pub maps_exit : Ptr → Cmd (Unit {0})
  maps_exit ms = maps_purge ms

  -- maps__delete
  unfoldable pub maps_delete : Ptr → Cmd (Unit {0})
  maps_delete ms = do maps_exit ms; free_maps ms

  -- maps__put, on a pointer that is not NULL.
  unfoldable pub maps_put : Ptr → Cmd (Unit {0})
  maps_put ms = do
    maps ← load_maps ms
    let counted = refcount_dec_and_test maps.refcnt
    store_maps ms (record maps { refcnt = counted.0 })
    if counted.1 then (maps_delete ms) else pure tt
