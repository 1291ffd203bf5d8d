-- ===== src/Vidpf/Weight/Laws.antt =====
-- src/vidpf.rs: the weights of one length are a group, where the elements are one.
use mastic.Prelude.{
  ℕ, zero, suc, ◌≡◌, refl, ap, ◌∙◌, sym, Bool, true, false, List, [], ◌∷◌, length, ok, ==_iff,
  if◌then◌else◌,
}
use mastic.Idpf.Seeds.{zip_with}
use mastic.Idpf.Value.{IdpfValue, IsGroup}
use mastic.Vidpf.Weight.{
  generate_weight, weight_zero, weight_conditional_negate, weight_add, weight_sub,
  weight_conditional_select, weight_value,
}

-- A vector of `n` elements in range.
pub data IsWeight {F : Type 0} (InRange : F → Type 0) : ℕ → List F → Type 0 where
  none : IsWeight InRange zero []
  more :
      {n : ℕ} {e : F} {w : List F}
      → InRange e
      → IsWeight InRange n w
      → IsWeight InRange (suc n) (e ∷ w)

module _ {F S : Type 0} {f : IdpfValue F (Unit {0}) S} {InRange : F → Type 0}
    (law : IsGroup f tt InRange) where
  abbrev Fits : ℕ → List F → Type 0
  Fits n w = IsWeight InRange n w

  generate-Fits : (n : ℕ) (s : S) → Fits n (generate_weight f s n).0
  unfolding generate_weight
  generate-Fits zero s = none
  generate-Fits (suc n) s = more (law.generate-InRange s) (generate-Fits n (f.generate s tt).1)

  zero-Fits : (n : ℕ) → Fits n (weight_zero f n)
  unfolding weight_zero
  zero-Fits zero = none
  zero-Fits (suc n) = more law.zero-InRange (zero-Fits n)

  zip-Fits :
      (op : F → F → F)
      → ((a b : F) → InRange a → InRange b → InRange (op a b))
      → {n : ℕ} {a b : List F} → Fits n a
      → Fits n b
      → Fits n (zip_with op a b)
  zip-Fits op h none none = none
  zip-Fits op h (more x p) (more y q) = more (h _ _ x y) (zip-Fits op h p q)

  negate-Fits : {n : ℕ} {a : List F} → Fits n a → Fits n (weight_conditional_negate f a true)
  unfolding weight_conditional_negate
  negate-Fits none = none
  negate-Fits (more x p) = more (law.negate-InRange _ x) (negate-Fits p)

  zip_comm : {n : ℕ} {a b : List F} → Fits n a → Fits n b → zip_with f.add a b ≡ zip_with f.add b a
  zip_comm none none = refl
  zip_comm (more {e = a} x p) (more {e = b} y q) = rw (law.add_comm a b x y, zip_comm p q)

  zip_assoc :
      {n : ℕ} {a b c : List F}
      → Fits n a
      → Fits n b
      → Fits n c
      → zip_with f.add (zip_with f.add a b) c ≡ zip_with f.add a (zip_with f.add b c)
  zip_assoc none none none = refl
  zip_assoc (more {e = a} x p) (more {e = b} y q) (more {e = c} z r) =
      rw (law.add_assoc a b c x y z, zip_assoc p q r)

  zip-zero : {n : ℕ} {a : List F} → Fits n a → zip_with f.add a (weight_zero f n) ≡ a
  unfolding weight_zero
  zip-zero none = refl
  zip-zero (more {e = a} x p) = rw (law.add-zero a x, zip-zero p)

  zip_sub-add :
      {n : ℕ} {a b : List F} → Fits n a → Fits n b → zip_with f.add (zip_with f.sub a b) b ≡ a
  zip_sub-add none none = refl
  zip_sub-add (more {e = a} x p) (more {e = b} y q) = rw (law.sub-add a b x y, zip_sub-add p q)

  zip-negate :
      {n : ℕ} {a : List F}
      → Fits n a
      → zip_with f.add a (weight_conditional_negate f a true) ≡ weight_zero f n
  unfolding weight_zero weight_conditional_negate
  zip-negate none = refl
  zip-negate (more {e = a} x p) = rw (law.add-negate a x, zip-negate p)

  map-keep : (a : List F) → weight_conditional_negate f a false ≡ a
  unfolding weight_conditional_negate
  map-keep [] = refl
  map-keep (a ∷ w) = rw (law.keep a, map-keep w)

  zip-select :
      {n : ℕ} {a b : List F} (c : Bool)
      → Fits n a
      → Fits n b
      → zip_with (λ (x y : F). f.conditional_select x y c) a b ≡ (if c then b else a)
  zip-select true none none = refl
  zip-select false none none = refl
  zip-select true (more {e = a} x p) (more {e = b} y q) =
      rw (law.select a b true x y, zip-select true p q)
  zip-select false (more {e = a} x p) (more {e = b} y q) =
      rw (law.select a b false x y, zip-select false p q)

  -- Where the elements in range are an Abelian group under the operations of IdpfValue, so are the
  -- weights of one length.
  pub weight-IsGroup : (n : ℕ) → IsGroup (weight_value f) n (IsWeight InRange n)
  weight-IsGroup n = record {
    generate-InRange = λ s. generate-Fits n s;
    zero-InRange = zero-Fits n;
    add-InRange = λ a b p q. zip-Fits f.add law.add-InRange p q;
    sub-InRange = λ a b p q. zip-Fits f.sub law.sub-InRange p q;
    negate-InRange = λ a p. negate-Fits p;
    add_comm = λ a b p q. zip_comm p q;
    add_assoc = λ a b c p q r. zip_assoc p q r;
    add-zero = λ a p. zip-zero p;
    sub-add = λ a b p q. zip_sub-add p q;
    add-negate = λ a p. zip-negate p;
    keep = map-keep;
    select = λ a b c p q. zip-select c p q;
  }

  length-Fits : {n : ℕ} {a : List F} → Fits n a → length a ≡ n
  length-Fits none = refl
  length-Fits (more x p) = ap suc (length-Fits p)

  -- On weights of one length no assertion fails.
  pub checked-eq-ok :
      (n : ℕ) (a b : List F) (c : Bool)
      → IsWeight InRange n a
      → IsWeight InRange n b
      → (weight_add f a b ≡ ok ((weight_value f).add a b))
        × (weight_sub f a b ≡ ok ((weight_value f).sub a b))
        × (weight_conditional_select f a b c ≡ ok ((weight_value f).conditional_select a b c))
  unfolding weight_add weight_sub weight_conditional_select
  checked-eq-ok n a b c p q =
      let same = (==_iff (length a) (length b)).1 (length-Fits p ∙ sym (length-Fits q)) in
      (rw same refl, rw same refl, rw same refl)
