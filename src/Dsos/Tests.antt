-- ===== src/Dsos/Tests.antt =====
-- Two shared objects, and the search for one of them.
use libdw_bcc.Prelude.{ℕ, ◌==◌, ◌≡◌, refl, negsuc, false, some, none, List, [], ◌∷◌, if◌then◌else◌}
use libdw_bcc.Outcome.{ok}
use libdw_bcc.Rbtree.Concrete.{root_black}
use libdw_bcc.Rbtree.{leaf, node, black, red}
use libdw_bcc.Dso.{unknown, Dso}
use libdw_bcc.Store.{World}
use libdw_bcc.Dsos.{dsos_find, dsos_findnew}
use libdw_bcc.Dsos.Added.{dsos_findnew-new}
use libdw_bcc.Dsos.Place.{first}
use libdw_bcc.Rbtree.{to_list}
use libdw_bcc.Dsos.Names.{named, IsSorted, dsos_find-named}

abbrev same_name : List ℕ → List ℕ
same_name name = name

abbrev dso_of : List ℕ → Dso
dso_of name = record {
  content = record {
    cache = leaf;
    fd = negsuc 0;
    status = unknown;
    file_size = 0;
    eh_frame_hdr_offset = 0;
  };
  short_name = name;
  long_name = name;
  refcnt = 1;
}

-- Object 1 is "/a", object 2 is "/b".
abbrev memory : World
memory = record {
  thread = λ p. none;
  maps = λ p. none;
  map = λ p. none;
  dso = λ p.
      if p == 1
      then some (dso_of (0x2f ∷ 0x61 ∷ []))
      else if p == 2
      then some (dso_of (0x2f ∷ 0x62 ∷ []))
      else none;
  next = 3;
  threads = λ i. record { entries = leaf; nr = 0; dead = []; last_match = none };
  dsos = record { head = 2 ∷ 1 ∷ []; root = node black (node red leaf 1 leaf) 2 leaf };
}

memory-IsSorted : IsSorted memory (1 ∷ 2 ∷ [])
memory-IsSorted =
    ((dso_of (0x2f ∷ 0x61 ∷ []), refl), (refl, tt), ((dso_of (0x2f ∷ 0x62 ∷ []), refl), tt, tt))

dsos_find-named_example :
    dsos_find root_black same_name (0x2f ∷ 0x61 ∷ []) false memory ≡ ok (some 1, memory)
dsos_find-named_example =
    dsos_find-named root_black same_name memory (0x2f ∷ 0x61 ∷ []) memory-IsSorted

memory-fresh : memory.dso memory.next ≡ none
memory-fresh = refl

-- The name "/c" is new.
dsos_findnew-new_example :
    (w' : World) × (dso : Dso) × (dsos_findnew root_black same_name (0x2f ∷ 0x63 ∷ []) memory
      ≡ ok (3, w'))
    × IsSorted w' (to_list w'.dsos.root)
    × ((n : List ℕ)
        → named w' n (to_list w'.dsos.root)
          ≡ first (0x2f ∷ 0x63 ∷ []) 3 (named memory n (1 ∷ 2 ∷ [])) n)
    × (w'.dso 3 ≡ some dso)
    × (dso.long_name ≡ 0x2f ∷ 0x63 ∷ [])
    × (dso.short_name ≡ 0x2f ∷ 0x63 ∷ [])
    × (dso.refcnt ≡ 2)
dsos_findnew-new_example =
    dsos_findnew-new root_black same_name memory (0x2f ∷ 0x63 ∷ []) memory-fresh memory-IsSorted
      refl
