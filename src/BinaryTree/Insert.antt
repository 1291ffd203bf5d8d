-- ===== src/BinaryTree/Insert.antt =====
-- src/bt.rs: what an insertion changes, and when it is refused, by the values at the paths.
use mastic.Prelude.{
  ◌≡◌, refl, [], ◌∷◌, Bool, true, false, not, ◌&&◌, ◌||◌, Option, none, some, Result, ok, err,
  if◌then◌else◌, arith, sym, ◌∙◌, ◌⊎◌,
}
use mathlib.Core.Path.{fun_ext}
use mastic.BinaryTree.{
  BinaryTreeError, insert_non_empty_node, unreachable_node, Node, node, SubTree, empty, boxed,
  BinaryTree, BitPath, child, set_child, new_node, insert_other, node_insert, insert_root, insert,
  node_get, get, value_of,
}

abbrev is_some {ℓ} : {A : Type ℓ} → Option A → Bool
is_some none = false
is_some (some a) = true

abbrev bit_eq : Bool → Bool → Bool
bit_eq true b = b
bit_eq false b = not b

abbrev pub path_eq : BitPath → BitPath → Bool
path_eq [] [] = true
path_eq [] (b ∷ q) = false
path_eq (a ∷ p) [] = false
path_eq (a ∷ p) (b ∷ q) = bit_eq a b && path_eq p q

pub path_eq_sound : (p q : BitPath) → path_eq p q ≡ true → p ≡ q
path_eq_sound [] [] h = refl
path_eq_sound [] (b ∷ q) h = cc
path_eq_sound (a ∷ p) [] h = cc
path_eq_sound (a ∷ p) (b ∷ q) h = ground (arith, path_eq_sound p q)

-- The path to the parent of a node that is not the root.
abbrev pub parent : BitPath → BitPath
parent [] = []
parent (a ∷ []) = []
parent (a ∷ b ∷ p) = a ∷ parent (b ∷ p)

abbrev is_root : BitPath → Bool
is_root [] = true
is_root (a ∷ p) = false

module _ {ℓ} {V : Type ℓ} where
  -- `get` from a slot.
  unfoldable pub sub_get : SubTree V → BitPath → Option V
  sub_get empty p = none
  sub_get (boxed n) p = node_get n p

  -- The path is free, and it is the root's or its parent has a value.
  abbrev pub is_free : (BitPath → Option V) → BitPath → Bool
  is_free values p = not (is_some (values p)) && (is_root p || is_some (values (parent p)))

  -- The result that the values before the insertion determine.
  abbrev pub insert_result :
      (BitPath → Option V) → BitPath → V → Result (BinaryTreeError V) (Unit {0})
  insert_result values p v =
      if is_free values p
      then ok tt
      else if is_some (values p)
      then err (insert_non_empty_node v)
      else err (unreachable_node v)

  sub_get-child :
      (n : Node V) (b : Bool) (p : BitPath) → sub_get (boxed n) (b ∷ p) ≡ sub_get (child b n) p
  unfolding sub_get node_get
  sub_get-child (node w empty r) false p = refl
  sub_get-child (node w (boxed n) r) false p = refl
  sub_get-child (node w l empty) true p = refl
  sub_get-child (node w l (boxed n)) true p = refl

  sub_get-root : (n : Node V) → sub_get (boxed n) [] ≡ some (value_of n)
  unfolding sub_get node_get
  sub_get-root n = refl

  sub_get-set_child_root :
      (n : Node V) (b : Bool) (s : SubTree V)
      → sub_get (boxed (set_child b n s)) [] ≡ sub_get (boxed n) []
  unfolding sub_get node_get
  sub_get-set_child_root (node w l r) false s = refl
  sub_get-set_child_root (node w l r) true s = refl

  child-set_child :
      (n : Node V) (a b : Bool) (s : SubTree V)
      → child b (set_child a n s) ≡ (if bit_eq a b then s else child b n)
  child-set_child (node w l r) false false s = refl
  child-set_child (node w l r) false true s = refl
  child-set_child (node w l r) true false s = refl
  child-set_child (node w l r) true true s = refl

  sub_get-new_node :
      (q : BitPath) (v : V)
      → sub_get (boxed (new_node v)) q ≡ (if path_eq [] q then some v else none)
  unfolding sub_get node_get
  sub_get-new_node [] v = refl
  sub_get-new_node (false ∷ q) v = refl
  sub_get-new_node (true ∷ q) v = refl

  is_free-child :
      (n : Node V) (b : Bool) (p : BitPath)
      → is_free (sub_get (boxed n)) (b ∷ p) ≡ is_free (sub_get (child b n)) p
  is_free-child n b [] = rw (sub_get-child n b [], sub_get-root n)
  is_free-child n b (c ∷ p) = rw (sub_get-child n b (c ∷ p), sub_get-child n b (parent (c ∷ p)))

  is_free-empty :
      (v : V) (p : BitPath) (a : Bool)
      → let slot : SubTree V = empty in is_free (sub_get slot) (a ∷ p) ≡ false
  unfolding sub_get
  is_free-empty v p a = refl

  is_free-root : (n : Node V) → is_free (sub_get (boxed n)) [] ≡ false
  is_free-root n = rw (sub_get-root n)

  -- The walk goes on in the child that the first bit names, and the other child is left alone.
  slot_eq :
      (n : Node V) (a b : Bool) (p q : BitPath) (v : V)
      → sub_get (insert_other (child a n) p v).0 q
        ≡ (if is_free (sub_get (child a n)) p && path_eq p q then some v else sub_get (child a n) q)
      → sub_get (if bit_eq a b then (insert_other (child a n) p v).0 else child b n) q ≡ (
          if is_free (sub_get (child a n)) p && (bit_eq a b && path_eq p q)
          then some v
          else sub_get (child b n) q)
  slot_eq n true true p q v h = h
  slot_eq n true false p q v h = ground arith
  slot_eq n false true p q v h = ground arith
  slot_eq n false false p q v h = h

  get-insert_other :
      (s : SubTree V) (p q : BitPath) (v : V)
      → sub_get (insert_other s p v).0 q
        ≡ (if is_free (sub_get s) p && path_eq p q then some v else sub_get s q)
  unfolding insert_other
  get-insert_other empty [] q v = rw (sub_get-new_node q v) (unfold sub_get in refl)
  get-insert_other (boxed n) [] q v = rw (is_free-root n)
  get-insert_other empty (a ∷ p) q v = rw (is_free-empty v p a)
  get-insert_other (boxed n) (a ∷ p) [] v =
      rw (sub_get-set_child_root n a (insert_other (child a n) p v).0) (ground arith)
  get-insert_other (boxed n) (a ∷ p) (b ∷ q) v =
      rw
        (
          sub_get-child (set_child a n (insert_other (child a n) p v).0) b q,
          child-set_child n a b (insert_other (child a n) p v).0,
          is_free-child n a p,
          sub_get-child n b q,
        )
        (slot_eq n a b p q v (get-insert_other (child a n) p q v))

  insert_other-insert_result :
      (s : SubTree V) (p : BitPath) (v : V) → (insert_other s p v).1 ≡ insert_result (sub_get s) p v
  unfolding insert_other
  insert_other-insert_result empty [] v = unfold sub_get in refl
  insert_other-insert_result (boxed n) [] v = rw (sub_get-root n)
  insert_other-insert_result empty (a ∷ p) v = unfold sub_get in refl
  insert_other-insert_result (boxed n) (a ∷ p) v =
      rw (is_free-child n a p, sub_get-child n a p) (insert_other-insert_result (child a n) p v)

  set_child_self : (n : Node V) (a : Bool) → set_child a n (child a n) ≡ n
  set_child_self (node w l r) false = refl
  set_child_self (node w l r) true = refl

  insert_other_err :
      (s : SubTree V) (p : BitPath) (v : V) (e : BinaryTreeError V)
      → (insert_other s p v).1 ≡ err e
      → (insert_other s p v).0 ≡ s
  unfolding insert_other
  insert_other_err empty [] v e h = cc
  insert_other_err (boxed n) [] v e h = refl
  insert_other_err empty (a ∷ p) v e h = refl
  insert_other_err (boxed n) (a ∷ p) v e h =
      rw (insert_other_err (child a n) p v e h, set_child_self n a)

  -- The root is a slot as any other.
  insert_root-insert_other :
      (s : SubTree V) (p : BitPath) (v : V) → insert_root s p v ≡ insert_other s p v
  unfolding insert_root node_insert insert_other
  insert_root-insert_other (boxed n) [] v = refl
  insert_root-insert_other (boxed n) (a ∷ p) v = refl
  insert_root-insert_other empty [] v = refl
  insert_root-insert_other empty (a ∷ p) v = refl

  get-sub_get : (t : BinaryTree V) → get t ≡ sub_get t.root
  unfolding get sub_get
  get-sub_get t = fun_ext λ p. slot t.root p
    where
      slot : (s : SubTree V) (p : BitPath) → get (record { root = s }) p ≡ sub_get s p
      slot empty p = refl
      slot (boxed n) p = refl

  -- An insertion at `p` gives the value to `p`, if the path is free (it has no value and is the
  -- root's path or its parent has one), and changes no other path; else it changes nothing.
  pub get-insert :
      (t : BinaryTree V) (p q : BitPath) (v : V)
      → get (insert t p v).0 q ≡ (if is_free (get t) p && path_eq p q then some v else get t q)
  unfolding insert
  get-insert t p q v =
      rw
        (
          get-sub_get t,
          insert_root-insert_other t.root p v,
          get-sub_get (record { root = (insert_other t.root p v).0 }),
        )
        (get-insert_other t.root p q v)

  -- An insertion succeeds exactly at a free path; it answers `InsertNonEmptyNode` where there is a
  -- value, and `UnreachableNode` elsewhere, with the value that was not inserted.
  pub insert-insert_result :
      (t : BinaryTree V) (p : BitPath) (v : V) → (insert t p v).1 ≡ insert_result (get t) p v
  unfolding insert
  insert-insert_result t p v =
      rw (get-sub_get t, insert_root-insert_other t.root p v)
        (insert_other-insert_result t.root p v)

  insert_result_err :
      (values : BitPath → Option V) (p : BitPath) (v : V) (e : BinaryTreeError V)
      → insert_result values p v ≡ err e
      → (e ≡ insert_non_empty_node v) ⊎ (e ≡ unreachable_node v)
  insert_result_err values p v e h = ground arith

  -- An insertion that is refused leaves the tree as it is, and hands the value back.
  pub insert_err :
      (t : BinaryTree V) (p : BitPath) (v : V) (e : BinaryTreeError V)
      → (insert t p v).1 ≡ err e
      → ((insert t p v).0 ≡ t) × ((e ≡ insert_non_empty_node v) ⊎ (e ≡ unreachable_node v))
  unfolding insert
  insert_err t p v e h =
      let slot = insert_root-insert_other t.root p v in
      let kept = insert_other_err t.root p v e (rw slot at h) in
      (
        rw slot (λ i. record { root = kept i }),
        insert_result_err (get t) p v e (sym (insert-insert_result t p v) ∙ h),
      )
