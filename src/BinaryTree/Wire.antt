-- ===== src/BinaryTree/Wire.antt =====
-- src/bt.rs: a tree to and from bytes, node by node in pre-order, with an explicit stack.
pub mod Slots
pub mod RoundTrip
pub mod Total
use mastic.Prelude.{
  ℕ, zero, suc, ◌+◌, List, [], ◌∷◌, ◌++◌, Bool, true, false, length, ◌==◌, if◌then◌else◌, Result,
  ok, err, stuck, ◌>>=◌,
}
use mastic.Codec.Cursor.{CodecError, unexpected_value, Cursor, remaining}
use mastic.Codec.Traits.{Encoder, Decoder, Encode, ParameterizedDecode}
use mastic.Codec.Ints.{u8_encode, u8_decode}
use mastic.BinaryTree.{
  Node, node, SubTree, empty, boxed, BinaryTree, default, BitPath, child, set_child, new_node,
}

pub data CodecMarker : Type 0 where
  leaf inner : CodecMarker

unfoldable pub marker_encode : Encoder CodecMarker
marker_encode leaf bytes = u8_encode 0 bytes
marker_encode inner bytes = u8_encode 1 bytes

marker_of : ℕ → Cursor → Result CodecError (CodecMarker × Cursor)
marker_of value c =
    if value == 0 then ok (leaf, c) else if value == 1 then ok (inner, c) else err unexpected_value

unfoldable pub marker_decode : Decoder CodecMarker
unfolding marker_of
marker_decode c = do (value, c') ← u8_decode c; marker_of value c'

module _ {ℓ} {V : Type ℓ} where
  -- The slots of a subtree, each of which is popped once.
  abbrev pub slots : SubTree V → ℕ
  slots empty = 1
  slots (boxed (node value left right)) = suc (slots left + slots right)

  -- The top of the stack is the head of the list.
  unfoldable pub encode_loop : Encode V → ℕ → List (SubTree V) → List ℕ → Result CodecError (List ℕ)
  encode_loop e zero stack bytes = stuck
  encode_loop e (suc fuel) [] bytes = ok bytes
  encode_loop e (suc fuel) (empty ∷ stack) bytes = do
    bytes' ← marker_encode leaf bytes
    encode_loop e fuel stack bytes'
  encode_loop e (suc fuel) (boxed (node value left right) ∷ stack) bytes = do
    marked ← marker_encode inner bytes
    bytes' ← e.encode value marked
    encode_loop e fuel (left ∷ right ∷ stack) bytes'

  unfoldable pub node_encode : Encode V → Encoder (Node V)
  node_encode e (node value left right) bytes = do
    bytes' ← e.encode value bytes
    encode_loop e (suc (slots left + slots right)) (left ∷ right ∷ []) bytes'

  root_encode : Encode V → SubTree V → List ℕ → Result CodecError (List ℕ)
  root_encode e empty bytes = marker_encode leaf bytes
  root_encode e (boxed n) bytes = do bytes' ← marker_encode inner bytes; node_encode e n bytes'

  unfoldable pub tree_encode : Encode V → Encoder (BinaryTree V)
  unfolding root_encode
  tree_encode e tree bytes = root_encode e tree.root bytes

  -- `&mut node.left` and `&mut node.right` on the decoder's stack are the paths of the slots from
  -- the root node. A write through a path that reaches no slot changes nothing; there is none.
  abbrev pub set_sub : SubTree V → BitPath → SubTree V → SubTree V
  set_sub slot [] sub = sub
  set_sub empty (bit ∷ path) sub = empty
  set_sub (boxed n) (bit ∷ path) sub = boxed (set_child bit n (set_sub (child bit n) path sub))

  abbrev pub set_slot : Node V → BitPath → SubTree V → Node V
  set_slot n [] sub = n
  set_slot n (bit ∷ path) sub = set_child bit n (set_sub (child bit n) path sub)

  module _ {κ} {P : Type κ} (d : ParameterizedDecode P V) (param : P) where
    unfoldable pub decode_loop :
        ℕ → List BitPath → Node V → Cursor → Result CodecError (Node V × Cursor)
    decode_loop zero stack out c = stuck
    decode_loop (suc fuel) [] out c = ok (out, c)
    decode_loop (suc fuel) (elem ∷ stack) out c =
        let on_leaf = λ (c' : Cursor). decode_loop fuel stack out c' in
        let on_inner = λ (c' : Cursor). do
          (value, c'') ← d.decode_with_param param c'
          decode_loop fuel ((elem ++ (false ∷ [])) ∷ (elem ++ (true ∷ [])) ∷ stack)
              (set_slot out elem (boxed (new_node value))) c''
        in marker_decode c >>= λ (marker, c'). elim marker [
          | leaf ↦ on_leaf c'
          | inner ↦ on_inner c'
        ]

    -- Each slot takes a byte, so the bytes that remain bound the rounds.
    unfoldable pub node_decode : Decoder (Node V)
    node_decode c = do
      (value, c') ← d.decode_with_param param c
      decode_loop (suc (length (remaining c'))) ((false ∷ []) ∷ (true ∷ []) ∷ []) (new_node value)
          c'

    unfoldable pub tree_decode : Decoder (BinaryTree V)
    tree_decode c = marker_decode c >>= λ (marker, c'). elim marker [
      | leaf ↦ ok (default, c')
      | inner ↦ node_decode c' >>= λ (n, c''). ok (record { root = boxed n }, c'')
    ]
