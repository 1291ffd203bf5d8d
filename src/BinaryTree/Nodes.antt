-- ===== src/BinaryTree/Nodes.antt =====
-- src/bt.rs: the nodes that `get_node` reaches, and the values below them.
use mastic.Prelude.{◌≡◌, refl, [], ◌∷◌, ◌++◌, true, false, some, append-nil, ap}
use mathlib.Core.Option.{some-injective}
use mastic.BinaryTree.{
  Node, node, SubTree, empty, boxed, BinaryTree, BitPath, node_get_node, node_get, get, get_node,
  value_of,
}

module _ {ℓ} {V : Type ℓ} where
  node_get_node-append :
      (p q : BitPath) (n m : Node V)
      → node_get_node n p ≡ some m
      → node_get n (p ++ q) ≡ node_get m q
  unfolding node_get_node node_get
  node_get_node-append [] q n m h = ap (λ (k : Node V). node_get k q) (some-injective _ _ h)
  node_get_node-append (false ∷ p) q (node w empty r) m h = cc
  node_get_node-append (false ∷ p) q (node w (boxed n) r) m h = node_get_node-append p q n m h
  node_get_node-append (true ∷ p) q (node w l empty) m h = cc
  node_get_node-append (true ∷ p) q (node w l (boxed n)) m h = node_get_node-append p q n m h

  -- `get_node` reaches the node whose subtree holds the values of the paths below it.
  pub get_node-append :
      (t : BinaryTree V) (p q : BitPath) (n : Node V)
      → get_node t p ≡ some n
      → get t (p ++ q) ≡ node_get n q
  unfolding get get_node
  get_node-append t p q n h = reached t.root h
    where
      reached :
          (s : SubTree V)
          → get_node (record { root = s }) p ≡ some n
          → get (record { root = s }) (p ++ q) ≡ node_get n q
      reached empty e = cc
      reached (boxed m) e = node_get_node-append p q m n e

  node_get_node-node_get :
      (p q : BitPath) (n : Node V) (w : V)
      → node_get n (p ++ q) ≡ some w
      → (m : Node V) × (node_get_node n p ≡ some m)
  unfolding node_get_node node_get
  node_get_node-node_get [] q n w h = (n, refl)
  node_get_node-node_get (false ∷ p) q (node v empty r) w h = cc
  node_get_node-node_get (false ∷ p) q (node v (boxed n) r) w h = node_get_node-node_get p q n w h
  node_get_node-node_get (true ∷ p) q (node v l empty) w h = cc
  node_get_node-node_get (true ∷ p) q (node v l (boxed n)) w h = node_get_node-node_get p q n w h

  -- The paths with a value are closed under prefixes: above a value each path reaches a node.
  pub get_node-prefix :
      (t : BinaryTree V) (p q : BitPath) (w : V)
      → get t (p ++ q) ≡ some w
      → (n : Node V) × (get_node t p ≡ some n) × (get t p ≡ some (value_of n))
  unfolding get get_node node_get
  get_node-prefix t p q w h = above t.root h
    where
      above :
          (s : SubTree V)
          → get (record { root = s }) (p ++ q) ≡ some w
          → (n : Node V) × (get_node (record { root = s }) p ≡ some n)
            × (get (record { root = s }) p ≡ some (value_of n))
      above empty e = cc
      above (boxed m) e =
          let (n, reached) = node_get_node-node_get p q m w e in
          (n, reached, rw append-nil at (node_get_node-append p [] m n reached))
