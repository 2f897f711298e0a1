-- ===== src/Rbtree/Concrete.antt =====
-- Concrete functions for src/rbtree.c, for runs of the library: the root is blackened, and a tree
-- without a node is built anew, as a path to the right.
use libdw_bcc.Prelude.{ℕ, ◌≡◌, refl, ap, List, [], ◌∷◌}
use libdw_bcc.Rbtree.{Tree, leaf, node, black, Balance, Erase, remove, to_list}

abbrev pub blacken : {A : Type 0} → Tree A → Tree A
blacken leaf = leaf
blacken (node c l a r) = node black l a r

pub blacken-order : {A : Type 0} (t : Tree A) → to_list (blacken t) ≡ to_list t
blacken-order leaf = refl
blacken-order (node c l a r) = refl

abbrev pub root_black : {A : Type 0} → Balance A
root_black = record {
  rb_insert_color = λ p t. blacken t;
  insert_keeps_order = λ p t. blacken-order t;
}

abbrev pub spine : List ℕ → Tree ℕ
spine [] = leaf
spine (a ∷ as_) = node black leaf a (spine as_)

pub spine-order : (l : List ℕ) → to_list (spine l) ≡ l
spine-order [] = refl
spine-order (a ∷ as_) = ap (a ∷◌) (spine-order as_)

abbrev pub rebuilt : Erase
rebuilt = record {
  rb_erase = λ p t. spine (remove p (to_list t));
  erase_removes = λ p t. spine-order (remove p (to_list t));
}
