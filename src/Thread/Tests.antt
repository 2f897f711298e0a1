-- ===== src/Thread/Tests.antt =====
-- A map that is added to a thread, and a thread that is to be given another name.
use libdw_bcc.Prelude.{
  ℕ, List, ◌==◌, ◌&&◌, ltb, leb, ◌≡◌, refl, pos, false, some, none, [], ◌∷◌, if◌then◌else◌, arith,
  inl,
}
use libdw_bcc.Outcome.{ok}
use libdw_bcc.Refcount.{refcount_inc}
use libdw_bcc.Rbtree.Concrete.{root_black}
use libdw_bcc.Rbtree.{leaf, node, black}
use libdw_bcc.Store.{Map, Maps, Thread, World}
use libdw_bcc.Maps.{maps_find}
use libdw_bcc.Maps.Ranges.{covering}
use libdw_bcc.Maps.Laws.{IsMaps}
use libdw_bcc.Unwind.Access.{AddrSpaces}
use libdw_bcc.Unwind.Access.Prepared.{IsCreating}
use libdw_bcc.Thread.{c_string, zeros, insert_map, set_comm}
use libdw_bcc.Thread.Laws.{insert_map-found, set_comm-keeps_name}

abbrev a_map : ℕ → ℕ → Map
a_map start end = record {
  start = start;
  end = end;
  prot = 5;
  flags = 2;
  pgoff = 0x1000;
  reloc = 0;
  maj = 8;
  min = 1;
  ino = 77;
  ino_generation = 0;
  dso = some 9;
  refcnt = 1;
}

abbrev one_map : Maps
one_map = record { entries = node black leaf 2 leaf; head = 2 ∷ []; refcnt = 1 }

-- The name is "a".
abbrev main_thread : Thread
main_thread = record {
  maps = some 1;
  tgid = 40;
  tid = 40;
  name = 0x61 ∷ zeros 15;
  addr_space = none;
  ulops = false;
  refcnt = 1;
}

abbrev quiet_spaces : AddrSpaces
quiet_spaces = record {
  create = λ w. ok (some 5, w);
  flush_cache = λ o w. ok (tt, w);
  destroy = λ o w. ok (tt, w);
}

quiet_spaces-IsCreating : IsCreating quiet_spaces
quiet_spaces-IsCreating = record { space = 5; creates = λ w. refl; flushes = λ o w. refl }

-- The thread is object 0; maps object 1 holds map object 2; map object 3 is new.
abbrev memory : World
memory = record {
  thread = λ p. if p == 0 then some main_thread else none;
  maps = λ p. if p == 1 then some one_map else none;
  map = λ p.
      if p == 2
      then some (a_map 0x4000 0x6000)
      else if p == 3
      then some (a_map 0x6000 0x7000)
      else none;
  dso = λ p. none;
  next = 10;
  threads = λ i. record { entries = leaf; nr = 0; dead = []; last_match = none };
  dsos = record { head = []; root = leaf };
}

memory-IsMaps : IsMaps memory 1 one_map
memory-IsMaps = record { holds = refl; ranges = ((a_map 0x4000 0x6000, refl, omega arith), tt, tt) }

set_comm-keeps_name_example :
    (w' : World) × (name : List ℕ) × (set_comm root_black quiet_spaces 0 (0x62 ∷ []) memory
      ≡ ok (tt, w'))
    × (w'.thread 0 ≡ some (record main_thread { name = name }))
    × (c_string name ≡ c_string main_thread.name)
    × (w'.maps ≡ memory.maps)
set_comm-keeps_name_example =
    set_comm-keeps_name root_black quiet_spaces quiet_spaces-IsCreating memory 0 main_thread
      (0x62 ∷ []) refl refl

insert_map-found_example :
    (w' : World) × (maps' : Maps) × (insert_map root_black quiet_spaces 0 3 memory ≡ ok (pos 0, w'))
    × IsMaps w' 1 maps'
    × (w'.map 3 ≡ some (record (a_map 0x6000 0x7000) { refcnt = refcount_inc 1 }))
    × ((t' : Thread) × (w'.thread 0 ≡ some t') × (t'.maps ≡ some 1) × (t'.refcnt ≡ 1))
    × ((ip : ℕ)
        → maps_find 1 ip w'
          ≡ ok (if leb 0x6000 ip && ltb ip 0x7000 then some 3 else covering memory ip (2 ∷ []), w'))
insert_map-found_example =
    insert_map-found root_black quiet_spaces quiet_spaces-IsCreating memory 0 1 3 main_thread
      one_map (a_map 0x6000 0x7000) refl refl memory-IsMaps refl (omega arith)
      (inl (omega arith), tt)
