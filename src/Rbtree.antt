-- ===== src/Rbtree.antt =====
-- src/rbtree.h as its users see it. The balancing code (src/rbtree.c, src/rbtree_augmented.h) is
-- the Linux kernel's, so `rb_insert_color` and `rb_erase` are a parameter, with the law that their
-- callers rely on: they rearrange the tree, and keep the order of its nodes.
pub mod Search
pub mod Concrete
use libdw_bcc.Prelude.{ℕ, ◌==◌, if◌then◌else◌, ◌≡◌, List, [], ◌∷◌, ◌++◌, Option, none, some}

-- RB_RED, RB_BLACK: the low bit of `__rb_parent_color`.
pub data Color : Type 0 where
  red black : Color

-- The nodes below an `rb_root`, each with the object that its `rb_node` is embedded in. The
-- parent pointer is the place in the tree.
pub data Tree (A : Type 0) : Type 0 where
  leaf : Tree A
  node : Color → Tree A → A → Tree A → Tree A

pub data Dir : Type 0 where
  rb_left rb_right : Dir

-- A `struct rb_node **` into the tree: the turns that lead to it from the root.
abbrev pub Slot : Type 0
Slot = List Dir

-- The objects in sort order, as `rb_first` and `rb_next` visit them.
abbrev pub to_list : {A : Type 0} → Tree A → List A
to_list leaf = []
to_list (node c l a r) = to_list l ++ a ∷ to_list r

-- rb_link_node(node, parent, p): a red node with no children, at an empty slot.
unfoldable pub rb_link_node : {A : Type 0} → A → Slot → Tree A → Tree A
rb_link_node a p leaf = node red leaf a leaf
rb_link_node a [] (node c l b r) = node c l b r
rb_link_node a (rb_left ∷ p) (node c l b r) = node c (rb_link_node a p l) b r
rb_link_node a (rb_right ∷ p) (node c l b r) = node c l b (rb_link_node a p r)

-- rb_first: the first object in the order of the tree.
abbrev pub rb_first : {A : Type 0} → Tree A → Option A
rb_first leaf = none
rb_first (node c l a r) = elim (rb_first l) [ none ↦ some a | some b ↦ some b ]

-- A list without the first occurrence of a pointer.
abbrev pub remove : ℕ → List ℕ → List ℕ
remove p [] = []
remove p (q ∷ ps) = let rest = q ∷ remove p ps in if p == q then ps else rest

-- rb_erase, on a tree of pointers: the node is taken out, and the order of the others stays.
pub record Erase : Type 0 where
  pub rb_erase : ℕ → Tree ℕ → Tree ℕ
  pub erase_removes : (p : ℕ) (t : Tree ℕ) → to_list (rb_erase p t) ≡ remove p (to_list t)

-- What a user of the tree relies on: the node at the slot is recoloured and the tree rotated, in
-- which the order of the nodes stays.
pub record Balance (A : Type 0) : Type 0 where
  pub rb_insert_color : Slot → Tree A → Tree A
  pub insert_keeps_order : (p : Slot) (t : Tree A) → to_list (rb_insert_color p t) ≡ to_list t
