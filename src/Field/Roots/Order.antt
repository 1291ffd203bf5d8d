-- ===== src/Field/Roots/Order.antt =====
-- src/field.rs: roots of unity in the Montgomery domain, each the square of the next.
use native.Mathlib.Nat.{pow-suc, pow-zero, mod-eq_of_lt}
use mastic.Prelude.{
  ℕ, zero, suc, ◌+◌, ◌-◌, ◌*◌, ◌/◌, ◌%◌, ◌^◌, ◌<◌, ◌≡◌, refl, ap, ◌∙◌, sym, subst, ◌⊎◌, inl, inr,
  arith, Bool, true, ◌&&◌, ◌==◌, ==_iff, ltb, ltb→lt, List, [], ◌∷◌, some,
}
use mastic.Field.Congruence.{Cong, multiples, Cong-refl, Cong-sym, Cong-trans, Cong-mul, Cong→mod}
use mastic.Field.Montgomery.{Represents, IsMontgomery, mul-Represents_lem, cancel}
use mastic.Field.Roots.{get_elem?}

-- The element stands for an integer whose power with the exponent `order` is 1, and with half of it
-- -1, modulo `p`. A power of 2 is then the order in the multiplicative group.
pub record HasOrder (w p order e : ℕ) : Type 0 where
  pub number : ℕ
  pub represents : Represents w p e number
  pub whole : number ^ order % p ≡ 1
  pub half : (order ≡ 1) ⊎ (number ^ (order / 2) % p ≡ p - 1)

-- Each element is the square of the one after it, which is below `p`.
abbrev pub are_roots : (ℕ → ℕ → ℕ) → ℕ → List ℕ → Bool
are_roots mul p [] = true
are_roots mul p (root ∷ []) = true
are_roots mul p (root ∷ (next ∷ roots)) =
    (mul next next == root) && (ltb next p && are_roots mul p (next ∷ roots))

and-true : (a b : Bool) → (a && b) ≡ true → (a ≡ true) × (b ≡ true)
and-true a b h = ground arith

Cong-pow : {p a b : ℕ} (n : ℕ) → Cong p a b → Cong p (a ^ n) (b ^ n)
Cong-pow {a = a} {b = b} zero h = rw (pow-zero a, pow-zero b) (Cong-refl 1)
Cong-pow {a = a} {b = b} (suc n) h = rw (pow-suc a n, pow-suc b n) (Cong-mul (Cong-pow n h) h)

pow-square : (a n : ℕ) → (a * a) ^ n ≡ a ^ (n + n)
pow-square a zero = omega (arith, pow-zero (a * a), pow-zero a)
pow-square a (suc n) =
    pow-suc (a * a) n
    ∙ ap (λ (t : ℕ). t * (a * a)) (pow-square a n)
    ∙ twice (a ^ (n + n)) a
    ∙ ap (λ (t : ℕ). t * a) (sym (pow-suc a (n + n)))
    ∙ sym (pow-suc a (suc (n + n)))
    ∙ ap (λ (t : ℕ). a ^ t) (omega arith)
  where
    twice : (t a : ℕ) → t * (a * a) ≡ t * a * a
    twice t a = omega arith

pow-double : (a n : ℕ) → a ^ (n + n) ≡ a ^ n * a ^ n
pow-double a n = sym (pow-square a n) ∙ mul-pow a n
  where
    shuffle : (x a : ℕ) → x * x * (a * a) ≡ x * a * (x * a)
    shuffle x a = omega arith

    mul-pow : (a n : ℕ) → (a * a) ^ n ≡ a ^ n * a ^ n
    mul-pow a zero = rw (pow-zero (a * a), pow-zero a) (omega arith)
    mul-pow a (suc n) = rw (pow-suc (a * a) n, pow-suc a n, mul-pow a n) (shuffle (a ^ n) a)

double : (n : ℕ) → 2 ^ n + 2 ^ n ≡ 2 ^ suc n
double n = omega (arith, pow-suc 2 n)

first_power : (a : ℕ) → a ≡ a ^ 2 ^ 0
first_power a = sym (pow-suc a 0 ∙ ap (λ (t : ℕ). t * a) (pow-zero a) ∙ once a)
  where
    once : (a : ℕ) → 1 * a ≡ a
    once a = omega arith

-- The square of -1.
minus_one_squared : (p : ℕ) → 1 < p → Cong p ((p - 1) * (p - 1)) 1
minus_one_squared p h =
    subst (λ (q : ℕ). Cong q ((q - 1) * (q - 1)) 1) (omega (arith, h)) (above (p - 2))
  where
    less : (q : ℕ) → q + 2 - 1 ≡ q + 1
    less q = omega arith

    above : (q : ℕ) → Cong (q + 2) ((q + 2 - 1) * (q + 2 - 1)) 1
    above q = rw (less q) (multiples 0 q (omega arith))

module _ {w p : ℕ} {mul : ℕ → ℕ → ℕ} (law : IsMontgomery w p mul) where
  pub represented : (e : ℕ) → e < p → (a : ℕ) × Represents w p e a
  represented e h =
      let (c, m, inverse) = law.inverse in
      (
        e * c,
        record {
          reduced = h;
          congruent = multiples 0 (e * m) (omega (arith, ap (λ (t : ℕ). e * t) inverse));
        },
      )

  pub Represents-Cong : {e a b : ℕ} → Represents w p e a → Represents w p e b → Cong p a b
  Represents-Cong {a = a} {b = b} x y =
      cancel law a b (Cong-trans x.congruent (Cong-sym y.congruent))

  -- The power with exponent `2 ^ n` is -1.
  pub record Halves (n e : ℕ) : Type 0 where
    pub below : e < p
    pub power : (a : ℕ) → Represents w p e a → Cong p (a ^ 2 ^ n) (p - 1)

  root-Halves : (n e next : ℕ) → next < p → mul next next ≡ e → Halves n e → Halves (suc n) next
  root-Halves n e next h square x = record {
    below = h;
    power = λ a r.
        subst (λ (t : ℕ). Cong p t (p - 1))
          (pow-square a (2 ^ n) ∙ ap (λ (t : ℕ). a ^ t) (double n))
          (x.power (a * a)
            (subst (λ (t : ℕ). Represents w p t (a * a)) square (mul-Represents_lem law r r)));
  }

  next-Halves :
      (roots : List ℕ) (n e next : ℕ)
      → Halves n e
      → are_roots mul p (e ∷ (next ∷ roots)) ≡ true
      → Halves (suc n) next × (are_roots mul p (next ∷ roots) ≡ true)
  next-Halves roots n e next x h =
      let (square, h') =
        and-true (mul next next == e) (ltb next p && are_roots mul p (next ∷ roots)) h in
      let (small, others) = and-true (ltb next p) (are_roots mul p (next ∷ roots)) h' in
      (root-Halves n e next (ltb→lt next p small) ((==_iff (mul next next) e).0 square) x, others)

  pub get-Halves :
      (roots : List ℕ) (n e l r : ℕ)
      → Halves n e
      → are_roots mul p (e ∷ roots) ≡ true
      → get_elem? roots l ≡ some r
      → Halves (suc n + l) r
  get-Halves [] n e l r x h f = cc
  get-Halves (next ∷ roots) n e zero r x h f =
      subst (λ (t : ℕ). Halves (suc n + 0) t) (cc)
        (subst (λ (k : ℕ). Halves k next) (omega arith) (next-Halves roots n e next x h).0)
  get-Halves (next ∷ roots) n e (suc l) r x h f =
      let (y, others) = next-Halves roots n e next x h in
      subst (λ (k : ℕ). Halves k r) (omega arith) (get-Halves roots (suc n) next l r y others f)

  pub Halves-HasOrder : (n e : ℕ) → Halves n e → HasOrder w p (2 ^ suc n) e
  Halves-HasOrder n e x =
      let (a, r) = represented e x.below in
      let half = x.power a r in
      record {
        number = a;
        represents = r;
        whole =
            ap (λ (t : ℕ). a ^ t % p) (sym (double n))
            ∙ ap (λ (t : ℕ). t % p) (pow-double a (2 ^ n))
            ∙ Cong→mod (Cong-trans (Cong-mul half half) (minus_one_squared p law.one_lt))
            ∙ mod-eq_of_lt law.one_lt;
        half = inr (
            ap (λ (t : ℕ). a ^ t % p) (halved n)
            ∙ Cong→mod half
            ∙ mod-eq_of_lt (omega (arith, law.one_lt)));
      }
    where
      halved : (n : ℕ) → 2 ^ suc n / 2 ≡ 2 ^ n
      halved n = omega (arith, pow-suc 2 n)

  -- The roots from 1 and -1 on.
  pub record HasRoots (roots : List ℕ) : Type 0 where
    pub first : ℕ
    pub second : ℕ
    pub rest : List ℕ
    pub shape : roots ≡ first ∷ (second ∷ rest)
    pub one : Represents w p first 1
    pub minus_one : Represents w p second (p - 1)
    pub squares : are_roots mul p (second ∷ rest) ≡ true

  first-HasOrder : (e : ℕ) → Represents w p e 1 → HasOrder w p 1 e
  first-HasOrder e x = record {
    number = 1;
    represents = x;
    whole = mod-eq_of_lt law.one_lt;
    half = inl refl;
  }

  second-Halves : (e : ℕ) → Represents w p e (p - 1) → Halves 0 e
  second-Halves e x = record {
    below = x.reduced;
    power = λ a r. subst (λ (t : ℕ). Cong p t (p - 1)) (first_power a) (Represents-Cong r x);
  }

  get-HasOrder :
      (first second : ℕ) (rest : List ℕ) (l r : ℕ)
      → Represents w p first 1
      → Represents w p second (p - 1)
      → are_roots mul p (second ∷ rest) ≡ true
      → get_elem? (first ∷ (second ∷ rest)) l ≡ some r
      → HasOrder w p (2 ^ l) r
  get-HasOrder first second rest zero r x y h f =
      subst (λ (t : ℕ). HasOrder w p (2 ^ 0) t) (cc) (first-HasOrder first x)
  get-HasOrder first second rest (suc zero) r x y h f =
      subst (λ (t : ℕ). HasOrder w p (2 ^ suc 0) t) (cc)
        (Halves-HasOrder 0 second (second-Halves second y))
  get-HasOrder first second rest (suc (suc l)) r x y h f = Halves-HasOrder (suc l) r (
      subst (λ (k : ℕ). Halves k r) (omega arith)
        (get-Halves rest 0 second l r (second-Halves second y) h f))

  -- A root in the list has the order that its place says.
  pub HasRoots-HasOrder :
      (roots : List ℕ) (l r : ℕ)
      → HasRoots roots
      → get_elem? roots l ≡ some r
      → HasOrder w p (2 ^ l) r
  HasRoots-HasOrder roots l r x f =
      get-HasOrder x.first x.second x.rest l r x.one x.minus_one x.squares
        (ap (λ (t : List ℕ). get_elem? t l) (sym x.shape) ∙ f)
