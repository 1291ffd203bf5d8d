-- ===== src/Polynomial/Eval.antt =====
-- src/polynomial.rs: `poly_eval` computes the value of the polynomial.
use native.Mathlib.Nat.{pow-zero, pow-suc}
use mathlib.Core.List.{reverse-cons, reverse-reverse}
use mastic.Prelude.{
  ℕ, ◌+◌, ◌*◌, ◌^◌, ◌≡◌, refl, ap, ◌∙◌, subst, arith, List, [], ◌∷◌, ◌++◌, reverse, length,
  length-append,
}
use mastic.Field.Element.{FieldElement}
use mastic.Field.Element.Laws.{IsField}
use mastic.Field.Element.Bitvector.{StandAll, none, more}
use mastic.Polynomial.{eval_loop, eval_from_highest, poly_eval}

-- The value at `x` of the polynomial with the given coefficients.
abbrev pub value_at : ℕ → List ℕ → ℕ
value_at x [] = 0
value_at x (a ∷ coefficients) = a + x * value_at x coefficients

value_at-append :
    (x a : ℕ) (ns : List ℕ) → value_at x (ns ++ (a ∷ [])) ≡ value_at x ns + x ^ length ns * a
value_at-append x a [] = omega (arith, ap (λ (t : ℕ). t * a) (pow-zero x))
value_at-append x a (n ∷ ns) = omega (
  arith,
  ap (λ (t : ℕ). x * t) (value_at-append x a ns),
  ap (λ (t : ℕ). t * a) (pow-suc x (length ns)),
)

length-reverse : (ns : List ℕ) → length (reverse ns) ≡ length ns
length-reverse [] = refl
length-reverse (n ∷ ns) =
    rw (reverse-cons n ns, length-append (reverse ns) (n ∷ [])) (omega (arith, length-reverse ns))

abbrev horner : ℕ → ℕ → List ℕ → ℕ
horner x result [] = result
horner x result (n ∷ ns) = horner x (result * x + n) ns

horner-value_at :
    (x result : ℕ) (ns : List ℕ)
    → horner x result ns ≡ result * x ^ length ns + value_at x (reverse ns)
horner-value_at x result [] = omega (arith, ap (λ (t : ℕ). result * t) (pow-zero x))
horner-value_at x result (n ∷ ns) = rw (reverse-cons n ns) (
    omega (
      arith,
      horner-value_at x (result * x + n) ns,
      value_at-append x n (reverse ns),
      ap (λ (t : ℕ). x ^ t * n) (length-reverse ns),
      ap (λ (t : ℕ). result * t) (pow-suc x (length ns)),
    ))

module _ {F : Type 0} {f : FieldElement F} {Stands : F → ℕ → Type 0} (law : IsField f Stands) where
  StandAll-append :
      {es es' : List F} {ns ms : List ℕ}
      → StandAll Stands es ns
      → StandAll Stands es' ms
      → StandAll Stands (es ++ es') (ns ++ ms)
  StandAll-append none ys = ys
  StandAll-append (more x xs) ys = more x (StandAll-append xs ys)

  StandAll-reverse :
      {es : List F} {ns : List ℕ}
      → StandAll Stands es ns
      → StandAll Stands (reverse es) (reverse ns)
  StandAll-reverse none = none
  StandAll-reverse (more {e = e} {es = es} {a = a} {ns = ns} x xs) =
      rw (reverse-cons e es, reverse-cons a ns)
        (StandAll-append (StandAll-reverse xs) (more x none))

  eval_loop-horner :
      {es : List F} {ns : List ℕ} (x result : F) (a b : ℕ)
      → Stands x a
      → Stands result b
      → StandAll Stands es ns
      → Stands (eval_loop f x result es) (horner a b ns)
  unfolding eval_loop
  eval_loop-horner x result a b hx hr none = hr
  eval_loop-horner x result a b hx hr (more {e = e} {a = n} y ys) =
      eval_loop-horner x (f.add (f.mul result x) e) a (b * a + n) hx
        (law.add_lem (law.mul_lem hr hx) y) ys

  eval_from_highest_lem :
      {es : List F} {ns : List ℕ} (x : F) (a : ℕ)
      → Stands x a
      → StandAll Stands es ns
      → Stands (eval_from_highest f x es) (value_at a (reverse ns))
  unfolding eval_from_highest
  eval_from_highest_lem x a hx none = law.zero_lem
  eval_from_highest_lem x a hx (more {e = e} {es = es} {a = n} {ns = ns} y ys) =
      subst (Stands (eval_loop f x e es))
        (horner-value_at a n ns
          ∙ rw (reverse-cons n ns) (
              omega (
                arith,
                value_at-append a n (reverse ns),
                ap (λ (t : ℕ). a ^ t * n) (length-reverse ns),
              )))
        (eval_loop-horner x e a n hx y ys)

  -- The value of a polynomial stands for the value that the integers of the coefficients and of
  -- the argument give.
  pub poly_eval-value_at :
      {es : List F} {ns : List ℕ} {x : F} {a : ℕ}
      → StandAll Stands es ns
      → Stands x a
      → Stands (poly_eval f es x) (value_at a ns)
  unfolding poly_eval
  poly_eval-value_at {es = es} {ns = ns} {x = x} {a = a} xs hx =
      subst (λ (ms : List ℕ). Stands (eval_from_highest f x (reverse es)) (value_at a ms))
        (reverse-reverse ns) (eval_from_highest_lem x a hx (StandAll-reverse xs))
