-- ===== src/BinaryTree/Wire/Total.antt =====
-- src/bt.rs: the decoder ends on every input.
use mastic.Prelude.{
  ℕ, zero, suc, ◌+◌, ◌<◌, ◌≤◌, ◌≡◌, ◌≢◌, sym, ap, List, [], ◌∷◌, ◌++◌, length, length-drop, Result,
  ok, stuck, ◌>>=◌, >>=-ne-stuck, >>=-eq-ok, subst, arith, true, false,
}
use mastic.Codec.Cursor.{CodecError, Cursor, remaining}
use mastic.Codec.Traits.{ParameterizedDecode, Consumes, Moves}
use mastic.Codec.Ints.{u8_decode}
use mastic.Codec.Ints.Total.{u8_decode-Consumes, u8_decode-ne-stuck}
use mastic.BinaryTree.{Node, boxed, BitPath, new_node, default}
use mastic.BinaryTree.Wire.{
  CodecMarker, leaf, inner, marker_of, marker_decode, set_slot, decode_loop, node_decode,
  tree_decode,
}

marker_of-eq-ok :
    (value : ℕ) (c : Cursor) (m : CodecMarker) (c' : Cursor)
    → marker_of value c ≡ ok (m, c')
    → c' ≡ c
unfolding marker_of
marker_of-eq-ok value c m c' h = ground arith

pub marker_decode-Consumes : Consumes 1 marker_decode
unfolding marker_decode
marker_decode-Consumes c m c' h =
    let ((value, c₁), e, ends) = >>=-eq-ok (u8_decode c) _ h in
    subst (λ (x : Cursor). Moves 1 c x) (sym (marker_of-eq-ok value c₁ m c' ends))
      (u8_decode-Consumes c value c₁ e)

pub marker_decode-ne-stuck : (c : Cursor) → marker_decode c ≢ stuck
unfolding marker_decode
marker_decode-ne-stuck c =
    >>=-ne-stuck (u8_decode c) _ (u8_decode-ne-stuck c) λ (value, c') e. ground arith

-- What remains grows shorter by what is taken.
remaining-Moves :
    (n : ℕ) (c c' : Cursor) → Moves n c c' → length (remaining c') + n ≤ length (remaining c)
remaining-Moves n c c' m = omega (
  arith,
  length-drop c.position c.inner,
  length-drop c'.position c'.inner,
  ap (λ (t : List ℕ). length t) m.same,
)

marker_cases {ℓ} :
    {A : Type ℓ} (m : CodecMarker) (x y : Result CodecError A)
    → x ≢ stuck
    → y ≢ stuck
    → (elim m [ leaf ↦ x | inner ↦ y ]) ≢ stuck
marker_cases leaf x y hx hy = hx
marker_cases inner x y hx hy = hy

module _ {ℓ κ} {V : Type ℓ} {P : Type κ} (d : ParameterizedDecode P V) (param : P)
    (moves : Consumes 0 (d.decode_with_param param))
    (total : (c : Cursor) → d.decode_with_param param c ≢ stuck) where
  abbrev inner_round :
      ℕ → BitPath → List BitPath → Node V → Cursor → Result CodecError (Node V × Cursor)
  inner_round fuel elem stack out c' = do
    (w, c'') ← d.decode_with_param param c'
    decode_loop d param fuel ((elem ++ (false ∷ [])) ∷ (elem ++ (true ∷ [])) ∷ stack)
        (set_slot out elem (boxed (new_node w))) c''

  decode_loop-ne-stuck :
      (fuel : ℕ) (stack : List BitPath) (out : Node V) (c : Cursor)
      → length (remaining c) < fuel
      → decode_loop d param fuel stack out c ≢ stuck
  unfolding decode_loop
  decode_loop-ne-stuck zero stack out c h = elim h [ ]
  decode_loop-ne-stuck (suc fuel) [] out c h = λ p. cc
  decode_loop-ne-stuck (suc fuel) (elem ∷ stack) out c h =
      >>=-ne-stuck (marker_decode c) _ (marker_decode-ne-stuck c) λ (m, c') e.
        let shorter = remaining-Moves 1 c c' (marker_decode-Consumes c m c' e) in
        marker_cases m (decode_loop d param fuel stack out c') (inner_round fuel elem stack out c')
          (decode_loop-ne-stuck fuel stack out c' (omega arith))
          (>>=-ne-stuck (d.decode_with_param param c') _ (total c') λ (w, c'') e'.
            decode_loop-ne-stuck fuel ((elem ++ (false ∷ [])) ∷ (elem ++ (true ∷ [])) ∷ stack)
              (set_slot out elem (boxed (new_node w))) c''
              (omega (arith, remaining-Moves 0 c' c'' (moves c' w c'' e'))))

  -- Decoding a tree ends on every input, whatever the bytes are, if decoding a value does.
  pub tree_decode-ne-stuck : (c : Cursor) → tree_decode d param c ≢ stuck
  unfolding tree_decode node_decode
  tree_decode-ne-stuck c = >>=-ne-stuck (marker_decode c) _ (marker_decode-ne-stuck c) λ (m, c') e.
      marker_cases m (ok (default, c'))
        (node_decode d param c' >>= λ (n, c''). ok (record { root = boxed n }, c'')) (λ p. cc)
        (>>=-ne-stuck (node_decode d param c') _
          (>>=-ne-stuck (d.decode_with_param param c') _ (total c') λ (w, c'') e'.
            decode_loop-ne-stuck (suc (length (remaining c''))) ((false ∷ []) ∷ (true ∷ []) ∷ [])
              (new_node w) c'' (omega arith))
          λ (n, c'') e' p. cc)
