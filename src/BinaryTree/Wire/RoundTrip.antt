-- ===== src/BinaryTree/Wire/RoundTrip.antt =====
-- src/bt.rs: the stack loops write and read the pre-order of the tree.
use mastic.Prelude.{
  ℕ, suc, ◌+◌, ◌-◌, ◌^◌, ok-injective, ◌<◌, ◌≤◌, ◌≡◌, refl, sym, ap, ◌∙◌, List, [], ◌∷◌, ◌++◌,
  append_assoc, length, length-append, ok, arith, true, false, Bool,
}
use Prim.Native.Nat.add
use native.Mathlib.Nat.{add_assoc}
use mastic.Codec.Cursor.{Cursor, remaining, advance, IsValid, remaining-advance, advance-IsValid}
use mastic.Codec.Traits.{
  Encode, ParameterizedDecode, Writes, Reads, Reads-bind, Reads-map, get_decoded_with_param,
  get_decoded-Reads,
}
use mastic.Codec.Ints.{u8_encode}
use mastic.Codec.Ints.RoundTrip.{u8_decode-Reads}
use mastic.BinaryTree.{Node, node, SubTree, empty, boxed, BinaryTree, BitPath, new_node}
use mastic.BinaryTree.Wire.Slots.{set_slot-set_slot, set_slot-append}
use mastic.BinaryTree.Wire.{
  CodecMarker, leaf, inner, marker_encode, marker_decode, slots, encode_loop, node_encode,
  tree_encode, set_slot, decode_loop, node_decode, tree_decode,
}

module _ {ℓ} {V : Type ℓ} where
  -- The markers and values of a subtree in pre-order.
  abbrev pub preorder : (V → List ℕ) → SubTree V → List ℕ
  preorder enc empty = 0 ∷ []
  preorder enc (boxed (node value left right)) =
      1 ∷ (enc value ++ (preorder enc left ++ preorder enc right))

  abbrev pub AllValues {κ} : (V → Type κ) → SubTree V → Type κ
  AllValues P empty = Unit
  AllValues P (boxed (node value left right)) = P value × AllValues P left × AllValues P right

  encode_loop-preorder :
      (e : Encode V) (enc : V → List ℕ) (s : SubTree V) (stack : List (SubTree V)) (bytes : List ℕ)
      (fuel : ℕ)
      → AllValues (λ v. Writes e.encode v (enc v)) s
      → encode_loop e (slots s + fuel) (s ∷ stack) bytes
        ≡ encode_loop e fuel stack (bytes ++ preorder enc s)
  unfolding encode_loop marker_encode u8_encode
  encode_loop-preorder e enc empty stack bytes fuel h = rw (add.suc, add.zero)
  encode_loop-preorder e enc (boxed (node v l r)) stack bytes fuel (hv, hl, hr) =
      rw
        (
          add.suc,
          hv (bytes ++ (1 ∷ [])),
          add_assoc (slots l) (slots r) fuel,
          encode_loop-preorder e enc l (r ∷ stack) ((bytes ++ (1 ∷ [])) ++ enc v) (slots r + fuel)
              hl,
          encode_loop-preorder e enc r stack (((bytes ++ (1 ∷ [])) ++ enc v) ++ preorder enc l) fuel
              hr,
        )
        (ap (λ (t : List ℕ). encode_loop e fuel stack t) (simp append_assoc))

abbrev marker_byte : CodecMarker → ℕ
marker_byte leaf = 0
marker_byte inner = 1

pub marker_decode-Reads : (m : CodecMarker) → Reads marker_decode (marker_byte m ∷ []) m
unfolding marker_decode
marker_decode-Reads leaf c rest v h = rw (u8_decode-Reads 0 c rest v h)
marker_decode-Reads inner c rest v h = rw (u8_decode-Reads 1 c rest v h)

module _ {ℓ κ} {V : Type ℓ} {P : Type κ} (d : ParameterizedDecode P V) (param : P)
    (enc : V → List ℕ) where
  abbrev ReadsValue : V → Type ℓ
  ReadsValue v = Reads (d.decode_with_param param) (enc v) v

  -- The two kinds of round.
  step_leaf :
      (fuel : ℕ) (elem : BitPath) (stack : List BitPath) (out : Node V) (c c' : Cursor)
      → marker_decode c ≡ ok (leaf, c')
      → decode_loop d param (suc fuel) (elem ∷ stack) out c ≡ decode_loop d param fuel stack out c'
  unfolding decode_loop
  step_leaf fuel elem stack out c c' h = rw h

  step_inner :
      (fuel : ℕ) (elem : BitPath) (stack : List BitPath) (out : Node V) (c c' c'' : Cursor) (w : V)
      → marker_decode c ≡ ok (inner, c')
      → d.decode_with_param param c' ≡ ok (w, c'')
      → decode_loop d param (suc fuel) (elem ∷ stack) out c
        ≡ decode_loop d param fuel
            ((elem ++ (false ∷ [])) ∷ (elem ++ (true ∷ [])) ∷ stack)
            (set_slot out elem (boxed (new_node w)))
            c''
  unfolding decode_loop
  step_inner fuel elem stack out c c' c'' w h k = rw (h, k)

  decode_loop-preorder :
      (s : SubTree V) (a : Bool) (p : BitPath) (stack : List BitPath) (out : Node V) (c : Cursor)
      (rest : List ℕ) (fuel : ℕ)
      → AllValues ReadsValue s
      → IsValid c
      → remaining c ≡ preorder enc s ++ rest
      → decode_loop d param (slots s + fuel) ((a ∷ p) ∷ stack) (set_slot out (a ∷ p) empty) c
        ≡ decode_loop d param fuel stack
            (set_slot out (a ∷ p) s)
            (advance c (length (preorder enc s)))
  decode_loop-preorder empty a p stack out c rest fuel h v r =
      rw (add.suc, add.zero)
        (step_leaf fuel (a ∷ p) stack (set_slot out (a ∷ p) empty) c (advance c 1)
          (marker_decode-Reads leaf c rest v r))
  decode_loop-preorder (boxed (node w l r)) a p stack out c rest fuel (hw, hl, hr) v e =
      let c₁ = advance c 1 in
      let c₂ = advance c₁ (length (enc w)) in
      let c₃ = advance c₂ (length (preorder enc l)) in
      let tail_r = preorder enc r ++ rest in
      let tail_l = preorder enc l ++ tail_r in
      let e₁ : remaining c ≡ 1 ∷ (enc w ++ tail_l) = e ∙ simp append_assoc in
      let r₁ = remaining-advance c (1 ∷ []) (enc w ++ tail_l) e₁ in
      let v₁ = advance-IsValid c (1 ∷ []) (enc w ++ tail_l) e₁ v in
      let r₂ = remaining-advance c₁ (enc w) tail_l r₁ in
      let v₂ = advance-IsValid c₁ (enc w) tail_l r₁ v₁ in
      let r₃ = remaining-advance c₂ (preorder enc l) tail_r r₂ in
      let v₃ = advance-IsValid c₂ (preorder enc l) tail_r r₂ v₂ in
      let out₁ = set_slot out (a ∷ p) (boxed (new_node w)) in
      let out₂ = set_slot out (a ∷ p) (boxed (node w l empty)) in
      let left = a ∷ (p ++ (false ∷ [])) in
      let right = a ∷ (p ++ (true ∷ [])) in
      let start =
        step_inner (slots l + (slots r + fuel)) (a ∷ p) stack (set_slot out (a ∷ p) empty) c c₁ c₂ w
          (marker_decode-Reads inner c (enc w ++ tail_l) v e₁) (hw c₁ tail_l v₁ r₁) in
      let go_left =
        decode_loop-preorder l a (p ++ (false ∷ [])) (right ∷ stack) out₁ c₂ tail_r (slots r + fuel)
          hl v₂ r₂ in
      let go_right = decode_loop-preorder r a (p ++ (true ∷ [])) stack out₂ c₃ rest fuel hr v₃ r₃ in
      let rounds : suc (slots l + slots r) + fuel ≡ suc (slots l + (slots r + fuel)) =
        omega arith in
      let moved : c₃.position + length (preorder enc r)
          ≡ c.position + suc (length (enc w ++ (preorder enc l ++ preorder enc r))) =
        omega (
          arith,
          length-append (enc w) (preorder enc l ++ preorder enc r),
          length-append (preorder enc l) (preorder enc r),
        ) in
      rw (rounds, start, set_slot-set_slot a p out empty (boxed (new_node w)))
        (ap
            (λ (o : Node V).
              decode_loop d param (slots l + (slots r + fuel)) (left ∷ right ∷ stack) o c₂)
            (sym (set_slot-append a p false out (new_node w) empty))
          ∙ go_left
          ∙ ap (λ (o : Node V). decode_loop d param (slots r + fuel) (right ∷ stack) o c₃)
              (set_slot-append a p false out (new_node w) l
                ∙ sym (set_slot-append a p true out (node w l empty) empty))
          ∙ go_right
          ∙ ap
              (λ (o : Node V).
                decode_loop d param fuel stack o (advance c₃ (length (preorder enc r))))
              (set_slot-append a p true out (node w l empty) r)
          ∙ ap
              (λ (n : ℕ).
                decode_loop d param fuel stack (set_slot out (a ∷ p) (boxed (node w l r)))
                  (record c { position = n }))
              moved)

  slots-le-length : (s : SubTree V) → slots s ≤ length (preorder enc s)
  slots-le-length empty = omega arith
  slots-le-length (boxed (node w l r)) = omega (
    arith,
    slots-le-length l,
    slots-le-length r,
    length-append (enc w) (preorder enc l ++ preorder enc r),
    length-append (preorder enc l) (preorder enc r),
  )

  loop_ends :
      (k : ℕ) (out : Node V) (c : Cursor) → decode_loop d param (suc k) [] out c ≡ ok (out, c)
  unfolding decode_loop
  loop_ends k out c = refl

  -- The two slots of a root node.
  node_slots-Reads :
      (w : V) (l r : SubTree V)
      → AllValues ReadsValue l
      → AllValues ReadsValue r
      → Reads
          (λ c.
            decode_loop d param
              (suc (length (remaining c)))
              ((false ∷ []) ∷ (true ∷ []) ∷ [])
              (new_node w)
              c)
          (preorder enc l ++ preorder enc r)
          (node w l r)
  node_slots-Reads w l r hl hr c rest v e =
      let tail_r = preorder enc r ++ rest in
      let e' : remaining c ≡ preorder enc l ++ tail_r =
        e ∙ append_assoc (preorder enc l) (preorder enc r) rest in
      let c' = advance c (length (preorder enc l)) in
      let v' = advance-IsValid c (preorder enc l) tail_r e' v in
      let r' = remaining-advance c (preorder enc l) tail_r e' in
      let both = length-append (preorder enc l) (preorder enc r) in
      let whole = length-append (preorder enc l ++ preorder enc r) rest in
      let bytes = ap (λ (t : List ℕ). length t) e in
      let small_l = slots-le-length l in
      let small_r = slots-le-length r in
      let spare = length (remaining c) - (slots l + slots r) in
      let rounds : suc (length (remaining c)) ≡ slots l + (slots r + suc spare) = omega arith in
      rw rounds (
        decode_loop-preorder l false [] ((true ∷ []) ∷ []) (new_node w) c tail_r
          (slots r + suc spare) hl v e'
        ∙ decode_loop-preorder r true [] [] (node w l empty) c' rest (suc spare) hr v' r'
        ∙ loop_ends spare (node w l r) (advance c' (length (preorder enc r)))
        ∙ ap (λ (n : ℕ). ok (node w l r, record c { position = n })) (omega arith))

  pub node_decode-Reads :
      (w : V) (l r : SubTree V)
      → AllValues ReadsValue (boxed (node w l r))
      → Reads (node_decode d param) (enc w ++ (preorder enc l ++ preorder enc r)) (node w l r)
  unfolding node_decode
  node_decode-Reads w l r (hw, hl, hr) =
      Reads-bind (d.decode_with_param param) _ (enc w) (preorder enc l ++ preorder enc r) w
        (node w l r) hw (node_slots-Reads w l r hl hr)

  -- A tree is read back from the pre-order of its root, whatever bytes follow.
  pub tree_decode-Reads :
      (s : SubTree V)
      → AllValues ReadsValue s
      → Reads (tree_decode d param) (preorder enc s) (record { root = s })
  unfolding tree_decode
  tree_decode-Reads empty h c rest v e = rw (marker_decode-Reads leaf c rest v e)
  tree_decode-Reads (boxed (node w l r)) h c rest v e =
      Reads-bind marker_decode _ (1 ∷ []) (enc w ++ (preorder enc l ++ preorder enc r)) inner
        (record { root = boxed (node w l r) }) (marker_decode-Reads inner)
        (Reads-map (node_decode d param) (λ n. record { root = boxed n })
          (enc w ++ (preorder enc l ++ preorder enc r)) (node w l r) (node_decode-Reads w l r h))
        c rest v e

module _ {ℓ} {V : Type ℓ} (e : Encode V) (enc : V → List ℕ) where
  -- A tree is written as the pre-order of its root, behind what the buffer holds.
  pub tree_encode-preorder :
      (s : SubTree V) (bytes : List ℕ)
      → AllValues (λ v. Writes e.encode v (enc v)) s
      → tree_encode e (record { root = s }) bytes ≡ ok (bytes ++ preorder enc s)
  unfolding tree_encode node_encode marker_encode u8_encode
  tree_encode-preorder empty bytes h = refl
  tree_encode-preorder (boxed (node w l r)) bytes (hw, hl, hr) =
      let start = (bytes ++ (1 ∷ [])) ++ enc w in
      let rounds : suc (slots l + slots r) ≡ slots l + (slots r + 1) = omega arith in
      rw (hw (bytes ++ (1 ∷ [])), rounds)
        (encode_loop-preorder e enc l (r ∷ []) start (slots r + 1) hl
          ∙ encode_loop-preorder e enc r [] (start ++ preorder enc l) 1 hr
          ∙ unfold encode_loop in ap (λ (t : List ℕ). ok t) (simp append_assoc))

module _ {ℓ κ} {V : Type ℓ} {P : Type κ} (e : Encode V) (d : ParameterizedDecode P V) (param : P)
    (enc : V → List ℕ) where
  -- Encoding a tree and decoding the bytes gives the tree, and the whole input is used, if that
  -- holds of each value in it.
  pub get_decoded-tree_encode :
      (t : BinaryTree V) (bytes : List ℕ)
      → AllValues (λ v. Writes e.encode v (enc v)) t.root
      → AllValues (λ v. Reads (d.decode_with_param param) (enc v) v) t.root
      → tree_encode e t [] ≡ ok bytes
      → length bytes < 2 ^ 63
      → get_decoded_with_param (record { decode_with_param = tree_decode d }) param bytes ≡ ok t
  get_decoded-tree_encode t bytes hw hr h fits =
      let written : bytes ≡ preorder enc t.root =
        ok-injective (sym h ∙ tree_encode-preorder e enc t.root [] hw) in
      rw written (
        get_decoded-Reads (record { decode_with_param = tree_decode d }) param (preorder enc t.root)
          t (rw written at fits) (tree_decode-Reads d param enc t.root hr))
