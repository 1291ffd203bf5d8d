-- ===== src/Prelude/Outcome.antt =====
-- Outcomes of fallible code: `Result<A, E>`, a panic, and a loop of the model without fuel.
use mathlib.Core.Path.{◌≡◌, refl}
use mathlib.Core.Logic.{◌≢◌}

-- `panic` is a Rust panic. `stuck` is no Rust outcome: a loop of the model ran out of fuel.
pub data Result {ℓ κ} (E : Type ℓ) (A : Type κ) : Type (ℓ ⊔ κ) where
  ok : A → Result E A
  err : E → Result E A
  panic stuck : Result E A

-- The `?` operator: what is no success ends the function.
infixl 5 ◌>>=◌
abbrev pub ◌>>=◌ {ℓ κ μ} :
    {E : Type ℓ} {X : Type κ} {Y : Type μ} → Result E X → (X → Result E Y) → Result E Y
ok x >>= rest = rest x
err failure >>= rest = err failure
panic >>= rest = panic
stuck >>= rest = stuck

infixl 5 ◌>>◌
abbrev pub ◌>>◌ {ℓ κ} : {E : Type ℓ} {Y : Type κ} → Result E (Unit {0}) → Result E Y → Result E Y
first >> rest = first >>= λ nothing. rest

abbrev pub map_err {ℓ κ μ} :
    {D : Type ℓ} {E : Type κ} {A : Type μ} → (D → E) → Result D A → Result E A
map_err f (ok a) = ok a
map_err f (err e) = err (f e)
map_err f panic = panic
map_err f stuck = stuck

-- A chain that succeeds has succeeded at its first step, and then from its value on.
pub >>=-eq-ok {ℓ κ μ} :
    {E : Type ℓ} {X : Type κ} {Y : Type μ} (first : Result E X) (rest : X → Result E Y) {y : Y}
    → (first >>= rest) ≡ ok y
    → (x : X) × (first ≡ ok x) × (rest x ≡ ok y)
>>=-eq-ok (ok x) rest e = (x, refl, e)
>>=-eq-ok (err failure) rest e = cc
>>=-eq-ok panic rest e = cc
>>=-eq-ok stuck rest e = cc

-- A chain gets stuck only where one of its steps does.
pub >>=-ne-stuck {ℓ κ μ} :
    {E : Type ℓ} {A : Type κ} {B : Type μ} (m : Result E A) (f : A → Result E B)
    → m ≢ stuck
    → ((a : A) → m ≡ ok a → f a ≢ stuck)
    → (m >>= f) ≢ stuck
>>=-ne-stuck (ok a) f h k = k a refl
>>=-ne-stuck (err e) f h k = λ p. cc
>>=-ne-stuck panic f h k = λ p. cc
>>=-ne-stuck stuck f h k = absurd (h refl)

-- Mapping the error changes neither a success nor whether the run is stuck.
pub map_err-eq-ok {ℓ κ μ} :
    {D : Type ℓ} {E : Type κ} {A : Type μ} (f : D → E) (m : Result D A) {a : A}
    → map_err f m ≡ ok a
    → m ≡ ok a
map_err-eq-ok f (ok b) h = cc
map_err-eq-ok f (err e) h = cc
map_err-eq-ok f panic h = cc
map_err-eq-ok f stuck h = cc

pub map_err-ne-stuck {ℓ κ μ} :
    {D : Type ℓ} {E : Type κ} {A : Type μ} (f : D → E) (m : Result D A)
    → m ≢ stuck
    → map_err f m ≢ stuck
map_err-ne-stuck f (ok b) h = λ p. cc
map_err-ne-stuck f (err e) h = λ p. cc
map_err-ne-stuck f panic h = λ p. cc
map_err-ne-stuck f stuck h = absurd (h refl)

pub ok-injective {ℓ κ} :
    {E : Type ℓ} {A : Type κ} {a b : A} → ◌≡◌ {A = Result E A} (ok a) (ok b) → a ≡ b
ok-injective h = cc
