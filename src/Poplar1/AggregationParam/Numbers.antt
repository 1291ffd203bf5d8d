-- ===== src/Poplar1/AggregationParam/Numbers.antt =====
-- src/vdaf/poplar1.rs: the order of prefixes of one length is that of the numbers they spell.
use mastic.Prelude.{ℕ, suc, ◌+◌, ◌*◌, ◌^◌, ◌<◌, ◌≡◌, refl, ap, true, false, [], ◌∷◌, length, arith}
use mastic.Field.Words.{as_int}
use mastic.Idpf.Tree.{IdpfInput}
use mastic.Poplar1.AggregationParam.{Order, less, same, greater, partial_cmp}

-- The number that the bits spell, the first bit being the most significant.
unfoldable pub number : IdpfInput → ℕ
number [] = 0
number (bit ∷ bits) = as_int bit * 2 ^ length bits + number bits

pow-suc : (n : ℕ) → 2 ^ suc n ≡ 2 * 2 ^ n
pow-suc n = omega arith

number-lt : (p : IdpfInput) → number p < 2 ^ length p
unfolding number
number-lt [] = omega arith
number-lt (true ∷ p) = omega (arith, number-lt p, pow-suc (length p))
number-lt (false ∷ p) = omega (arith, number-lt p, pow-suc (length p))

-- How two numbers compare.
abbrev pub Compares : Order → ℕ → ℕ → Type 0
Compares less m n = m < n
Compares same m n = m ≡ n
Compares greater m n = n < m

length-tail : {m n : ℕ} → suc m ≡ suc n → m ≡ n
length-tail h = omega (arith, h)

shift : (o : Order) (c d m n : ℕ) → c ≡ d → Compares o m n → Compares o (c + m) (d + n)
shift less c d m n e h = omega (arith, e, h)
shift same c d m n e h = omega (arith, e, h)
shift greater c d m n e h = omega (arith, e, h)

pub compares :
    (p q : IdpfInput) → length p ≡ length q → Compares (partial_cmp p q) (number p) (number q)
unfolding number partial_cmp
compares [] [] h = refl
compares [] (b ∷ q) h = absurd (omega (arith, h))
compares (a ∷ p) [] h = absurd (omega (arith, h))
compares (false ∷ p) (true ∷ q) h =
    omega (arith, number-lt p, ap (λ (n : ℕ). 2 ^ n) (length-tail h))
compares (true ∷ p) (false ∷ q) h =
    omega (arith, number-lt q, ap (λ (n : ℕ). 2 ^ n) (length-tail h))
compares (false ∷ p) (false ∷ q) h =
    shift (partial_cmp p q) (0 * 2 ^ length p) (0 * 2 ^ length q) (number p) (number q)
      (omega arith) (compares p q (length-tail h))
compares (true ∷ p) (true ∷ q) h =
    shift (partial_cmp p q) (1 * 2 ^ length p) (1 * 2 ^ length q) (number p) (number q)
      (ap (λ (n : ℕ). 1 * 2 ^ n) (length-tail h)) (compares p q (length-tail h))
