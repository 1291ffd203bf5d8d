-- ===== src/Codec/Ints/Total.antt =====
-- src/codec.rs: the integer decoders on any input: they end, and take their bytes when they succeed.
use mastic.Prelude.{
  ℕ, ◌<◌, zero, suc, [], ◌∷◌, subst, map_err-eq-ok, map_err-ne-stuck, >>=-ne-stuck, ◌≡◌, ◌≢◌, ap,
  List, length-drop, ok, stuck, >>=-eq-ok, map_err, arith,
}
use mastic.Codec.Cursor.{CodecError, io, Cursor, read_exact, read_exact_moves, index}
use mastic.Codec.Traits.{Consumes, Moves}
use mastic.Codec.Ints.{ReadBytesExt, read_big_endian, u8_decode, u16_decode, u24_decode, u32_decode}

read_exact-Moves :
    (n : ℕ) (c c' : Cursor) (bytes : List ℕ)
    → 0 < n
    → read_exact n c ≡ ok (bytes, c')
    → Moves n c c'
read_exact-Moves n c c' bytes pos h =
    let (moved, _, room) = read_exact_moves n c c' bytes h in
    let ends = ap (λ (x : Cursor). x.position) moved in
    record {
      same = ap (λ (x : Cursor). x.inner) moved;
      forward = omega (arith, ends);
      within = omega (arith, ends, room, length-drop c.position c.inner);
    }

read_exact-ne-stuck : (n : ℕ) (c : Cursor) → read_exact n c ≢ stuck
unfolding read_exact
read_exact-ne-stuck n c = ground arith

index-ne-stuck : (value : List ℕ) (i : ℕ) → index {E = CodecError} value i ≢ stuck
index-ne-stuck [] i = λ p. cc
index-ne-stuck (x ∷ xs) zero = λ p. cc
index-ne-stuck (x ∷ xs) (suc i) = index-ne-stuck xs i

pub u8_decode-Consumes : Consumes 1 u8_decode
unfolding u8_decode
u8_decode-Consumes c v c' h =
    let ((value, c₁), e₁, rest) = >>=-eq-ok (map_err io (read_exact 1 c)) _ h in
    let (first, e₂, ends) = >>=-eq-ok (index value 0) _ rest in
    subst (λ (x : Cursor). Moves 1 c x) (cc)
      (read_exact-Moves 1 c c₁ value (omega arith) (map_err-eq-ok io (read_exact 1 c) e₁))

pub u8_decode-ne-stuck : (c : Cursor) → u8_decode c ≢ stuck
unfolding u8_decode
u8_decode-ne-stuck c =
    >>=-ne-stuck (map_err io (read_exact 1 c)) _
      (map_err-ne-stuck io (read_exact 1 c) (read_exact-ne-stuck 1 c))
      λ (value, c') e. >>=-ne-stuck (index value 0) _ (index-ne-stuck value 0) λ v e' p. cc

read_big_endian-ne-stuck : (w : ℕ) (c : Cursor) → read_big_endian w c ≢ stuck
read_big_endian-ne-stuck w c = >>=-ne-stuck (read_exact w c) _ (read_exact-ne-stuck w c) λ r e p. cc

module _ ⦃byteorder : ReadBytesExt⦄ where
  pub u32_decode-ne-stuck : (c : Cursor) → u32_decode c ≢ stuck
  unfolding u32_decode
  u32_decode-ne-stuck c =
      map_err-ne-stuck io (byteorder.read_u32 c)
        (rw (byteorder.read_u32_lem c) (read_big_endian-ne-stuck 4 c))

  pub u16_decode-ne-stuck : (c : Cursor) → u16_decode c ≢ stuck
  unfolding u16_decode
  u16_decode-ne-stuck c =
      map_err-ne-stuck io (byteorder.read_u16 c)
        (rw (byteorder.read_u16_lem c) (read_big_endian-ne-stuck 2 c))

  pub u24_decode-ne-stuck : (c : Cursor) → u24_decode c ≢ stuck
  unfolding u24_decode
  u24_decode-ne-stuck c =
      map_err-ne-stuck io (byteorder.read_u24 c)
        (rw (byteorder.read_u24_lem c) (read_big_endian-ne-stuck 3 c))
