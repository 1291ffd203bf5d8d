-- ===== src/BinaryTree.antt =====
-- src/bt.rs: the append-only binary tree. A path (`bitvec`'s `BitSlice`) is the list of its bits.
pub mod Insert
pub mod Nodes
pub mod Wire
mod Examples
use mastic.Prelude.{
  List, [], ◌∷◌, Bool, true, false, Option, none, some, Result, ok, err, if◌then◌else◌,
}

pub data BinaryTreeError {ℓ} (V : Type ℓ) : Type ℓ where
  insert_non_empty_node : V → BinaryTreeError V
  unreachable_node : V → BinaryTreeError V

-- `SubTree<V>` is `Option<Box<Node<V>>>`: `none` is `empty` and `some` is `boxed`.
mutual
  pub data Node {ℓ} (V : Type ℓ) : Type ℓ where
    node : V → SubTree V → SubTree V → Node V

  pub data SubTree {ℓ} (V : Type ℓ) : Type ℓ where
    empty : SubTree V
    boxed : Node V → SubTree V

pub record BinaryTree {ℓ} (V : Type ℓ) : Type ℓ where
  pub root : SubTree V

abbrev pub BitPath : Type 0
BitPath = List Bool

module _ {ℓ} {V : Type ℓ} where
  abbrev pub new_node : V → Node V
  new_node value = node value empty empty

  abbrev pub value_of : Node V → V
  value_of (node value left right) = value

  -- `if !bit { &n.left } else { &n.right }`
  abbrev pub child : Bool → Node V → SubTree V
  child false (node value left right) = left
  child true (node value left right) = right

  abbrev pub set_child : Bool → Node V → SubTree V → Node V
  set_child false (node value left right) sub = node value sub right
  set_child true (node value left right) sub = node value left sub

  -- The walk of `Node::insert` from `Ref::Other(slot)`, and the write at its end: the slot
  -- afterwards, and the result.
  unfoldable pub insert_other :
      SubTree V → BitPath → V → SubTree V × Result (BinaryTreeError V) (Unit {0})
  insert_other empty [] value = (boxed (new_node value), ok tt)
  insert_other (boxed n) [] value = (boxed n, err (insert_non_empty_node value))
  insert_other empty (bit ∷ path) value = (empty, err (unreachable_node value))
  insert_other (boxed n) (bit ∷ path) value =
      let (sub, result) = insert_other (child bit n) path value in
      (boxed (set_child bit n sub), result)

  -- `Node::insert` starts from `Ref::This(self)`.
  unfoldable pub node_insert : Node V → BitPath → V → Node V × Result (BinaryTreeError V) (Unit {0})
  node_insert n [] value = (n, err (insert_non_empty_node value))
  node_insert n (bit ∷ path) value =
      let (sub, result) = insert_other (child bit n) path value in (set_child bit n sub, result)

  -- `Node::get_node`: the node that the returned reference points to.
  unfoldable pub node_get_node : Node V → BitPath → Option (Node V)
  node_get_node n [] = some n
  node_get_node n (bit ∷ path) = elim (child bit n) [
    | empty ↦ none
    | boxed next ↦ node_get_node next path
  ]

  unfoldable pub node_get : Node V → BitPath → Option V
  node_get n [] = some (value_of n)
  node_get n (bit ∷ path) = elim (child bit n) [ empty ↦ none | boxed next ↦ node_get next path ]

  abbrev pub default : BinaryTree V
  default = record { root = empty }

  unfoldable pub insert_empty : BitPath → V → SubTree V × Result (BinaryTreeError V) (Unit {0})
  insert_empty [] value = (boxed (new_node value), ok tt)
  insert_empty (bit ∷ path) value = (empty, err (unreachable_node value))

  unfoldable pub insert_root :
      SubTree V → BitPath → V → SubTree V × Result (BinaryTreeError V) (Unit {0})
  unfolding insert_empty
  insert_root (boxed n) path value =
      let (n', result) = node_insert n path value in (boxed n', result)
  insert_root empty path value = insert_empty path value

  unfoldable pub insert :
      BinaryTree V → BitPath → V → BinaryTree V × Result (BinaryTreeError V) (Unit {0})
  insert tree path value =
      let (root, result) = insert_root tree.root path value in (record { root = root }, result)

  unfoldable pub get : BinaryTree V → BitPath → Option V
  get tree path = elim tree.root [ empty ↦ none | boxed n ↦ node_get n path ]

  unfoldable pub get_node : BinaryTree V → BitPath → Option (Node V)
  get_node tree path = elim tree.root [ empty ↦ none | boxed n ↦ node_get_node n path ]
