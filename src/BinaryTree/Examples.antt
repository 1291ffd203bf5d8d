-- ===== src/BinaryTree/Examples.antt =====
-- src/bt.rs: runs, and the theorems at concrete inputs.
use mastic.Prelude.{ℕ, ◌≡◌, ◌≢◌, refl, [], ◌∷◌, true, false, some, ok, err, stuck, arith}
use mastic.Codec.Cursor.{new_cursor}
use mastic.Codec.Traits.{ParameterizedDecode, param_decode, get_decoded_with_param, Consumes}
use mastic.Codec.Ints.{u8_encode, u8_decode, u8_codec}
use mastic.Codec.Ints.RoundTrip.{u8_decode-Reads, u8_encode-Writes}
use mastic.Codec.Ints.Total.{u8_decode-Consumes, u8_decode-ne-stuck}
use mastic.BinaryTree.{
  BinaryTreeError, insert_non_empty_node, unreachable_node, Node, node, empty, boxed, BinaryTree,
  default, insert_other, insert_root, node_insert, insert, get, get_node, node_get, value_of,
  new_node,
}
use mastic.BinaryTree.Insert.{get-insert, insert-insert_result}
use mastic.BinaryTree.Nodes.{get_node-prefix}
use mastic.BinaryTree.Wire.{marker_encode, encode_loop, node_encode, tree_encode, tree_decode}
use mastic.BinaryTree.Wire.RoundTrip.{get_decoded-tree_encode}
use mastic.BinaryTree.Wire.Total.{tree_decode-ne-stuck}

-- The root 10 with a right child 20, which has a left child 30.
abbrev chain : BinaryTree ℕ
chain = record { root = boxed (node 10 empty (boxed (node 20 (boxed (new_node 30)) empty))) }

chain_built :
    (insert (insert (insert default [] 10).0 (true ∷ []) 20).0 (true ∷ false ∷ []) 30).0 ≡ chain
unfolding insert insert_root node_insert insert_other
chain_built = refl

get-insert_example : get (insert chain (false ∷ []) 40).0 (false ∷ []) ≡ some 40
unfolding get node_get
get-insert_example = get-insert chain (false ∷ []) (false ∷ []) 40

insert-insert_result_example : (insert chain (true ∷ []) 40).1 ≡ err (insert_non_empty_node 40)
unfolding get node_get
insert-insert_result_example = insert-insert_result chain (true ∷ []) 40

no_parent : (insert chain (false ∷ true ∷ []) 40).1 ≡ err (unreachable_node 40)
unfolding get node_get
no_parent = insert-insert_result chain (false ∷ true ∷ []) 40

abbrev refused : BinaryTreeError ℕ
refused = unreachable_node 40

abbrev lower : Node ℕ
lower = node 20 (boxed (new_node 30)) empty

get_node-prefix_example :
    (n : Node ℕ) × (get_node chain (true ∷ []) ≡ some n)
    × (get chain (true ∷ []) ≡ some (value_of n))
unfolding get node_get
get_node-prefix_example = get_node-prefix chain (true ∷ []) (false ∷ []) 30 refl

abbrev byte : ParameterizedDecode (Unit {0}) ℕ
byte = param_decode (record { decode = u8_decode })

chain_bytes : tree_encode u8_codec chain [] ≡ ok (1 ∷ 10 ∷ 0 ∷ 1 ∷ 20 ∷ 1 ∷ 30 ∷ 0 ∷ 0 ∷ 0 ∷ [])
unfolding tree_encode node_encode encode_loop marker_encode u8_encode
chain_bytes = refl

get_decoded-tree_encode_example :
    get_decoded_with_param
      (record { decode_with_param = tree_decode byte })
      tt
      (1 ∷ 10 ∷ 0 ∷ 1 ∷ 20 ∷ 1 ∷ 30 ∷ 0 ∷ 0 ∷ 0 ∷ [])
    ≡ ok chain
get_decoded-tree_encode_example =
    get_decoded-tree_encode u8_codec byte tt (λ v. v ∷ []) chain
      (1 ∷ 10 ∷ 0 ∷ 1 ∷ 20 ∷ 1 ∷ 30 ∷ 0 ∷ 0 ∷ 0 ∷ [])
      (u8_encode-Writes 10, tt, (u8_encode-Writes 20, (u8_encode-Writes 30, tt, tt), tt))
      (u8_decode-Reads 10, tt, (u8_decode-Reads 20, (u8_decode-Reads 30, tt, tt), tt)) chain_bytes
      (omega arith)

byte_Consumes : Consumes 0 u8_decode
byte_Consumes c v c' h =
    let m = u8_decode-Consumes c v c' h in
    record { same = m.same; forward = omega (arith, m.forward); within = m.within }

tree_decode-ne-stuck_example : tree_decode byte tt (new_cursor (1 ∷ 10 ∷ 1 ∷ [])) ≢ stuck
tree_decode-ne-stuck_example =
    tree_decode-ne-stuck byte tt byte_Consumes u8_decode-ne-stuck (new_cursor (1 ∷ 10 ∷ 1 ∷ []))
