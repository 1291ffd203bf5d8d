-- ===== src/BinaryTree/Wire/Slots.antt =====
-- src/bt.rs: the slots of the output tree that the decoder fills.
use mastic.Prelude.{◌≡◌, refl, [], ◌∷◌, ◌++◌, true, false, Bool}
use mastic.BinaryTree.{Node, node, SubTree, empty, boxed, BitPath, child, set_child}
use mastic.BinaryTree.Wire.{set_sub, set_slot}

module _ {ℓ} {V : Type ℓ} where
  pub child-set_child : (b : Bool) (n : Node V) (s : SubTree V) → child b (set_child b n s) ≡ s
  child-set_child false (node w l r) s = refl
  child-set_child true (node w l r) s = refl

  pub set_child-set_child :
      (b : Bool) (n : Node V) (s t : SubTree V) → set_child b (set_child b n s) t ≡ set_child b n t
  set_child-set_child false (node w l r) s t = refl
  set_child-set_child true (node w l r) s t = refl

  -- A second write to a slot, and a write to a child of the node that was written.
  set_sub-set_sub : (p : BitPath) (s y x : SubTree V) → set_sub (set_sub s p y) p x ≡ set_sub s p x
  set_sub-set_sub [] s y x = refl
  set_sub-set_sub (b ∷ p) empty y x = refl
  set_sub-set_sub (b ∷ p) (boxed n) y x = rw (
    child-set_child b n (set_sub (child b n) p y),
    set_child-set_child b n (set_sub (child b n) p y),
    set_sub-set_sub p (child b n) y x,
  )

  set_sub-append :
      (p : BitPath) (b : Bool) (s : SubTree V) (n : Node V) (x : SubTree V)
      → set_sub (set_sub s p (boxed n)) (p ++ (b ∷ [])) x ≡ set_sub s p (boxed (set_child b n x))
  set_sub-append [] b s n x = refl
  set_sub-append (a ∷ p) b empty n x = refl
  set_sub-append (a ∷ p) b (boxed m) n x = rw (
    child-set_child a m (set_sub (child a m) p (boxed n)),
    set_child-set_child a m (set_sub (child a m) p (boxed n)),
    set_sub-append p b (child a m) n x,
  )

  pub set_slot-set_slot :
      (a : Bool) (p : BitPath) (out : Node V) (y x : SubTree V)
      → set_slot (set_slot out (a ∷ p) y) (a ∷ p) x ≡ set_slot out (a ∷ p) x
  set_slot-set_slot a p out y x = rw (
    child-set_child a out (set_sub (child a out) p y),
    set_child-set_child a out (set_sub (child a out) p y),
    set_sub-set_sub p (child a out) y x,
  )

  pub set_slot-append :
      (a : Bool) (p : BitPath) (b : Bool) (out n : Node V) (x : SubTree V)
      → set_slot (set_slot out (a ∷ p) (boxed n)) (a ∷ (p ++ (b ∷ []))) x
        ≡ set_slot out (a ∷ p) (boxed (set_child b n x))
  set_slot-append a p b out n x = rw (
    child-set_child a out (set_sub (child a out) p (boxed n)),
    set_child-set_child a out (set_sub (child a out) p (boxed n)),
    set_sub-append p b (child a out) n x,
  )
