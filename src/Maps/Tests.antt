-- ===== src/Maps/Tests.antt =====
-- Two maps in a process, and the theorems at them.
use libdw_bcc.Prelude.{
  ℕ, ◌++◌, ◌==◌, ◌&&◌, ltb, leb, ◌≡◌, refl, some, none, [], ◌∷◌, if◌then◌else◌, arith, inl,
}
use libdw_bcc.Outcome.{ok}
use libdw_bcc.Refcount.{refcount_inc}
use libdw_bcc.Rbtree.Concrete.{root_black, rebuilt}
use libdw_bcc.Dso.{Dso, unknown}
use libdw_bcc.Maps.Lifetime.{maps_put}
use libdw_bcc.Maps.Release.{maps_put-frees}
use libdw_bcc.Prelude.{All, negsuc}
use libdw_bcc.Rbtree.{leaf, node, black}
use libdw_bcc.Store.{Ptr, Map, Maps, World}
use libdw_bcc.Maps.{map_ip, unmap_ip, maps_find, maps_insert}
use libdw_bcc.Maps.Ranges.{covering}
use libdw_bcc.Maps.Laws.{IsMaps, maps_find-covering, maps_insert_lem, unmap_ip-map_ip}

abbrev a_map : ℕ → ℕ → Map
a_map start end = record {
  start = start;
  end = end;
  prot = 5;
  flags = 2;
  pgoff = 0x1000;
  reloc = 0;
  maj = 8;
  min = 1;
  ino = 77;
  ino_generation = 0;
  dso = some 9;
  refcnt = 1;
}

abbrev one_map : Maps
one_map = record { entries = node black leaf 2 leaf; head = 2 ∷ []; refcnt = 1 }

-- maps object 1 holds map object 2; map object 3 is new.
abbrev memory : World
memory = record {
  thread = λ p. none;
  maps = λ p. if p == 1 then some one_map else none;
  map = λ p.
      if p == 2
      then some (a_map 0x4000 0x6000)
      else if p == 3
      then some (a_map 0x6000 0x7000)
      else none;
  dso = λ p. none;
  next = 10;
  threads = λ i. record { entries = leaf; nr = 0; dead = []; last_match = none };
  dsos = record { head = []; root = leaf };
}

memory-IsMaps : IsMaps memory 1 one_map
memory-IsMaps = record { holds = refl; ranges = ((a_map 0x4000 0x6000, refl, omega arith), tt, tt) }

maps_find-covering_example : maps_find 1 0x5000 memory ≡ ok (some 2, memory)
maps_find-covering_example = maps_find-covering memory 1 one_map 0x5000 memory-IsMaps

maps_insert_lem_example :
    (w' : World) × (maps' : Maps) × (maps_insert root_black 1 3 memory ≡ ok (tt, w'))
    × IsMaps w' 1 maps'
    × (maps'.head ≡ (2 ∷ []) ++ (3 ∷ []))
    × (w'.map 3 ≡ some (record (a_map 0x6000 0x7000) { refcnt = refcount_inc 1 }))
    × (w'.thread ≡ memory.thread)
    × ((ip : ℕ)
        → maps_find 1 ip w'
          ≡ ok (if leb 0x6000 ip && ltb ip 0x7000 then some 3 else covering memory ip (2 ∷ []), w'))
maps_insert_lem_example =
    maps_insert_lem root_black memory 1 3 one_map (a_map 0x6000 0x7000) memory-IsMaps refl
      (omega arith) (inl (omega arith), tt)

unmap_ip-map_ip_example :
    unmap_ip (a_map 0x4000 0x6000) (map_ip (a_map 0x4000 0x6000) 0x4abc) ≡ 0x4abc
unmap_ip-map_ip_example =
    unmap_ip-map_ip (a_map 0x4000 0x6000) 0x4abc (omega arith) (omega arith) (omega arith)

-- The file of the maps.
abbrev a_dso : Dso
a_dso = record {
  content = record {
    cache = leaf;
    fd = negsuc 0;
    status = unknown;
    file_size = 0;
    eh_frame_hdr_offset = 0;
  };
  short_name = 0x62 ∷ [];
  long_name = 0x2f ∷ 0x62 ∷ [];
  refcnt = 2;
}

abbrev with_file : World
with_file = record memory { dso = λ d. if d == 9 then some a_dso else none }

with_file-IsMaps : IsMaps with_file 1 one_map
with_file-IsMaps = record {
  holds = refl;
  ranges = ((a_map 0x4000 0x6000, refl, omega arith), tt, tt);
}

maps_put-frees_example :
    (w' : World) × (maps_put rebuilt 1 with_file ≡ ok (tt, w'))
    × (w'.maps 1 ≡ none)
    × All (λ q. w'.map q ≡ none) (2 ∷ [])
    × ((q : Ptr) → All (λ p. ¬ (p ≡ q)) (2 ∷ []) → w'.map q ≡ with_file.map q)
maps_put-frees_example = maps_put-frees rebuilt with_file 1 one_map with_file-IsMaps refl (
  record {
    map = a_map 0x4000 0x6000;
    file = 9;
    dso = a_dso;
    live = refl;
    last = refl;
    of_file = refl;
    known = refl;
  },
  tt,
)
