-- ===== src/Prelude/Matching.antt =====
-- Counting along a key: elements with distinct keys that all have a partner are no more than the
-- partners.
use Prim.Native.Nat.{ℕ, suc, ◌+◌, ◌≤◌}
use mathlib.Core.Path.{◌≡◌, refl}
use mathlib.Core.Logic.{inl, inr}
use mathlib.Core.Bool.{Bool, true, false, not, ◌&&◌, ◌||◌}
use mathlib.Core.List.{List, [], ◌∷◌}
use native.Mathlib.Omega.{arith}
use study_agent_service.Prelude.Tests.{◌==◌, Bool-cases}
use study_agent_service.Prelude.Lists.{length, any, all, count_if}

module _ {ℓ} {A : Type ℓ} where
  abbrev pub distinct_by : (A → ℕ) → List A → Bool
  distinct_by key [] = true
  distinct_by key (x ∷ xs) = not (any (λ y. key y == key x) xs) && distinct_by key xs

  pub count_if-weaken :
      (p q : A → Bool) (xs : List A)
      → ((x : A) → p x ≡ true → q x ≡ true)
      → count_if p xs ≤ count_if q xs
  count_if-weaken p q [] h = omega arith
  count_if-weaken p q (x ∷ xs) h = ground (arith, h x, count_if-weaken p q xs h)

  pub count_if-or :
      (p q : A → Bool) (xs : List A)
      → any p xs ≡ true
      → ((x : A) → p x ≡ true → q x ≡ false)
      → suc (count_if q xs) ≤ count_if (λ x. p x || q x) xs
  count_if-or p q [] h off = absurd (ground arith)
  count_if-or p q (x ∷ xs) h off = elim (Bool-cases (p x)) [
    | inl hit ↦ ground (arith, off x, count_if-weaken q (λ x. p x || q x) xs (λ z h. ground arith))
    | inr miss ↦ ground (arith, count_if-or p q xs)
  ]

  pub count_if-disjoint :
      (p q : A → Bool) (xs : List A)
      → all (λ x. not (p x && q x)) xs ≡ true
      → count_if p xs + count_if q xs ≤ length xs
  count_if-disjoint p q [] h = omega arith
  count_if-disjoint p q (x ∷ xs) h = ground (arith, count_if-disjoint p q xs)

module _ {ℓ κ} {A : Type ℓ} {B : Type κ} (key_a : A → ℕ) (key_b : B → ℕ) (p : A → Bool) where
  -- The partners of the elements that pass.
  abbrev pub is_partner : List A → B → Bool
  is_partner xs y = any (λ x. key_a x == key_b y && p x) xs

  partner_none :
      (x : A) (y : B) (xs : List A)
      → (key_b y == key_a x) ≡ true
      → any (λ z. key_a z == key_a x) xs ≡ false
      → is_partner xs y ≡ false
  partner_none x y [] e off = refl
  partner_none x y (z ∷ xs) e off = ground (arith, partner_none x y xs)

  partner_cons :
      (x : A) (xs : List A) (ys : List B)
      → p x ≡ true
      → any (λ y. key_b y == key_a x) ys ≡ true
      → any (λ z. key_a z == key_a x) xs ≡ false
      → suc (count_if (is_partner xs) ys) ≤ count_if (is_partner (x ∷ xs)) ys
  partner_cons x xs ys px h off =
      let this = λ (y : B). key_b y == key_a x in
      omega (
        arith,
        count_if-or this (is_partner xs) ys h (λ y e. partner_none x y xs e off),
        count_if-weaken (λ y. this y || is_partner xs y) (is_partner (x ∷ xs)) ys
            (λ y e. ground arith),
      )

  pub count_if-partner :
      (xs : List A) (ys : List B)
      → distinct_by key_a xs ≡ true
      → all (λ x. not (p x) || any (λ y. key_b y == key_a x) ys) xs ≡ true
      → count_if p xs ≤ count_if (is_partner xs) ys
  count_if-partner [] ys d h = omega arith
  count_if-partner (x ∷ xs) ys d h = elim (Bool-cases (p x)) [
    | inl passes ↦ ground (arith, partner_cons x xs ys, count_if-partner xs ys)
    | inr fails ↦ ground (
      arith,
      count_if-partner xs ys,
      count_if-weaken (is_partner xs) (is_partner (x ∷ xs)) ys (λ y e. ground arith),
    )
  ]
