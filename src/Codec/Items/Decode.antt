-- ===== src/Codec/Items/Decode.antt =====
-- src/codec.rs: vectors are read back from their encoding, and reading a vector always ends.
use mastic.Prelude.{
  ℕ, zero, suc, ◌+◌, ◌-◌, ◌%◌, ◌^◌, ◌<◌, ◌≤◌, ◌≡◌, ◌≢◌, refl, ap, ◌∙◌, List, [], ◌∷◌, ◌++◌, All,
  ltb, leb, length, false, take, ok, stuck, arith, append-nil, append_assoc, length-append, lt→ltb,
  le→ltb_false, lt→leb_false, ◌||◌, length-take, >>=-ne-stuck, >>=-eq-ok, inl, inr, Bool-cases,
  ltb→lt, take-append_left, length-drop,
}
use native.Mathlib.Nat.{add_assoc, zero-add}
use mastic.Codec.Cursor.{
  Cursor, IsValid, new_cursor, remaining, advance, remaining-advance, advance-IsValid,
}
use mastic.Codec.Traits.{ParameterizedDecode, Reads, Consumes}
use mastic.Codec.Items.{decode_loop, decode_items}
use mastic.Codec.Items.Encode.{encodings}

module _ {ℓ κ} {P : Type ℓ} {A : Type κ} (d : ParameterizedDecode P A) (param : P) where
  -- With a decoder that takes a byte at least, the loop never runs out of fuel.
  pub decode_loop-ne-stuck :
      Consumes 1 (d.decode_with_param param)
      → ((c : Cursor) → d.decode_with_param param c ≢ stuck)
      → (len fuel : ℕ) (decoded : List A) (sub : Cursor) → len - sub.position < fuel
      → decode_loop d param len fuel decoded sub ≢ stuck
  unfolding decode_loop
  decode_loop-ne-stuck moves total len zero decoded sub h = elim h [ ]
  decode_loop-ne-stuck moves total len (suc fuel) decoded sub h =
      elim (Bool-cases (ltb sub.position len)) [
        | inl more ↦ rw more (
            >>=-ne-stuck (d.decode_with_param param sub) _ (total sub) λ (a, sub') e.
              decode_loop-ne-stuck moves total len fuel (decoded ++ (a ∷ [])) sub'
                (omega (arith, moves sub a sub' e, ltb→lt _ _ more)))
        | inr done ↦ rw done (λ p. cc)
      ]

  decode_loop_ends :
      Consumes 1 (d.decode_with_param param)
      → (len fuel : ℕ) (decoded : List A) (sub : Cursor) (items : List A) (sub' : Cursor)
      → length sub.inner ≡ len
      → sub.position ≤ len
      → decode_loop d param len fuel decoded sub ≡ ok (items, sub')
      → sub'.position ≡ len
  unfolding decode_loop
  decode_loop_ends moves len zero decoded sub items sub' hl hp h = cc
  decode_loop_ends moves len (suc fuel) decoded sub items sub' hl hp h =
      elim (Bool-cases (ltb sub.position len)) [
        | inl more ↦
            let ((a, sub₁), e, rest) = >>=-eq-ok (d.decode_with_param param sub) _ (rw more at h) in
            let m = moves sub a sub₁ e in
            decode_loop_ends moves len fuel (decoded ++ (a ∷ [])) sub₁ items sub'
              (ap (λ (t : List ℕ). length t) m.same ∙ hl) (omega arith) rest
        | inr done ↦ ground arith
      ]

module _ {ℓ κ} {P : Type ℓ} {A : Type κ} (d : ParameterizedDecode P A) (param : P)
    (enc : A → List ℕ) where
  -- The item is read back from an encoding of a byte at least.
  abbrev pub ReadsItem : A → Type κ
  ReadsItem a = Reads (d.decode_with_param param) (enc a) a × (0 < length (enc a))

  decode_loop-encodings :
      (items decoded : List A) (len fuel : ℕ) (sub : Cursor)
      → All ReadsItem items
      → IsValid sub
      → remaining sub ≡ encodings enc items
      → len ≡ sub.position + length (encodings enc items)
      → length (encodings enc items) < fuel
      → decode_loop d param len fuel decoded sub
        ≡ ok (decoded ++ items, advance sub (length (encodings enc items)))
  unfolding decode_loop
  decode_loop-encodings items decoded len zero sub h v r e f = elim f [ ]
  decode_loop-encodings [] decoded len (suc fuel) sub h v r e f =
      rw (le→ltb_false sub.position len (omega arith), append-nil decoded) (ground arith)
  decode_loop-encodings (a ∷ items) decoded len (suc fuel) sub ((ha, pos), h) v r e f =
      let n = length-append (enc a) (encodings enc items) in
      let ih =
        decode_loop-encodings items (decoded ++ (a ∷ [])) len fuel (advance sub (length (enc a))) h
          (advance-IsValid sub (enc a) (encodings enc items) r v)
          (remaining-advance sub (enc a) (encodings enc items) r) (omega (arith, n))
          (omega (arith, n)) in
      rw (
        lt→ltb sub.position len (omega (arith, n)),
        ha sub (encodings enc items) v r,
        ih,
        append_assoc decoded (a ∷ []) items,
        n,
        add_assoc sub.position (length (enc a)) (length (encodings enc items)),
      )

  -- The slice of `length body` bytes holds the body alone.
  pub decode_items-Reads :
      (items : List A)
      → All ReadsItem items
      → length (encodings enc items) < 2 ^ 63
      → Reads (decode_items d (length (encodings enc items)) param) (encodings enc items) items
  unfolding decode_items
  decode_items-Reads items h fits c rest v r =
      let body = encodings enc items in
      let n = length-append body rest in
      let whole = ap (λ (t : List ℕ). length t) r in
      let end : (c.position + length body) % 2 ^ 64 ≡ c.position + length body =
        omega (arith, v.in_slice, v.fits) in
      let size : c.position + length body - c.position ≡ length body = omega arith in
      let slice : take ((c.position + length body) % 2 ^ 64 - c.position) (remaining c) ≡ body =
        rw (end, size, r) (take-append_left body rest) in
      let loop =
        decode_loop-encodings items [] (length body) (suc (length body)) (new_cursor body) h
          (omega arith) refl (omega arith) (omega arith) in
      let long : leb (2 ^ 64) (c.position + length body) ≡ false =
        lt→leb_false _ _ (omega (arith, v.in_slice, v.fits)) in
      let short : ltb (length c.inner) (c.position + length body) ≡ false =
        le→ltb_false _ _ (omega (arith, length-drop c.position c.inner)) in
      rw (long, slice, end, short, loop, zero-add (length body))

module _ {ℓ κ} {P : Type ℓ} {A : Type κ} (d : ParameterizedDecode P A) (param : P) where
  -- Whatever the bytes are, a vector is read to its end: the loop has fuel enough.
  pub decode_items-ne-stuck :
      Consumes 1 (d.decode_with_param param)
      → ((c : Cursor) → d.decode_with_param param c ≢ stuck)
      → (len : ℕ) (c : Cursor) → decode_items d len param c ≢ stuck
  unfolding decode_items
  decode_items-ne-stuck moves total len c =
      let end = (c.position + len) % 2 ^ 64 in
      let items = take (end - c.position) (remaining c) in
      elim (Bool-cases (leb (2 ^ 64) (c.position + len) || ltb (length c.inner) end)) [
        | inl bad ↦ rw bad (λ p. cc)
        | inr good ↦ rw good (
            >>=-ne-stuck (decode_loop d param len (suc len) [] (new_cursor items)) _
              (decode_loop-ne-stuck d param moves total len (suc len) [] (new_cursor items)
                (omega arith))
              λ r e p. cc)
      ]

  -- A vector that is read takes exactly the bytes that its length announces, and all lie in the slice.
  pub decode_items_exact :
      Consumes 1 (d.decode_with_param param)
      → (len : ℕ) (c : Cursor) (items : List A) (c' : Cursor)
      → decode_items d len param c ≡ ok (items, c')
      → (c'.inner ≡ c.inner)
        × (c'.position ≡ c.position + len)
        × (c.position + len ≤ length c.inner)
  unfolding decode_items
  decode_items_exact moves len c items c' h =
      let end = (c.position + len) % 2 ^ 64 in
      let slice = take (end - c.position) (remaining c) in
      elim (Bool-cases (leb (2 ^ 64) (c.position + len) || ltb (length c.inner) end)) [
        | inl bad ↦ cc (rw bad at h)
        | inr good ↦
            let ((read, sub), e, rest) =
              >>=-eq-ok (decode_loop d param len (suc len) [] (new_cursor slice)) _
                (rw good at h) in
            let size : end ≡ c.position + len = ground arith in
            let inside : c.position + len ≤ length c.inner = ground arith in
            let full : length slice ≡ len =
              length-take (end - c.position) (remaining c)
                (omega (arith, length-drop c.position c.inner, size, inside))
              ∙ omega (arith, size) in
            let ends =
              decode_loop_ends d param moves len (suc len) [] (new_cursor slice) read sub full
                (omega arith) e in
            (cc, ground (arith, ends), inside)
      ]
