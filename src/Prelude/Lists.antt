-- ===== src/Prelude/Lists.antt =====
-- Python's list operations: `len`, `in`, `any`, `all`, comprehensions with a test, and a stable sort.
use Prim.Native.Nat.{ℕ, zero, suc, ◌+◌, ◌≤◌, ◌<◌}
use mathlib.Core.Path.{◌≡◌, refl}
use mathlib.Core.Logic.{inl, inr}
use mathlib.Core.Bool.{Bool, true, false, not, ◌&&◌, ◌||◌}
use mathlib.Core.Option.{Option, none, some}
use mathlib.Core.List.{List, [], ◌∷◌, ◌++◌}
use native.Mathlib.Omega.{arith}
use study_agent_service.Prelude.Tests.{◌==◌, leb, if◌then◌else◌, Bool-cases, is_some}

module _ {ℓ} {A : Type ℓ} where
  abbrev pub length : List A → ℕ
  length [] = 0
  length (_ ∷ xs) = suc (length xs)

  abbrev pub get_elem? : List A → ℕ → Option A
  get_elem? [] _ = none
  get_elem? (x ∷ _) zero = some x
  get_elem? (_ ∷ xs) (suc i) = get_elem? xs i

  -- `any(p(x) for x in xs)`
  abbrev pub any : (A → Bool) → List A → Bool
  any p [] = false
  any p (x ∷ xs) = p x || any p xs

  -- `all(p(x) for x in xs)`
  abbrev pub all : (A → Bool) → List A → Bool
  all p [] = true
  all p (x ∷ xs) = p x && all p xs

  -- `[x for x in xs if p(x)]`
  abbrev pub keep : (A → Bool) → List A → List A
  keep p [] = []
  keep p (x ∷ xs) = let rest = keep p xs in if p x then x ∷ rest else rest

  -- `sum(1 for x in xs if p(x))`
  abbrev pub count_if : (A → Bool) → List A → ℕ
  count_if p [] = 0
  count_if p (x ∷ xs) = let rest = count_if p xs in if p x then suc rest else rest

  -- The first element that passes, as of a loop with an early return.
  abbrev pub find_first : (A → Bool) → List A → Option A
  find_first p [] = none
  find_first p (x ∷ xs) = let rest = find_first p xs in if p x then some x else rest

  -- `ORDER BY key ASC`, and ties as they stand.
  abbrev pub insert_by : (A → ℕ) → A → List A → List A
  insert_by key a [] = a ∷ []
  insert_by key a (x ∷ xs) =
      let rest = insert_by key a xs in if leb (key a) (key x) then a ∷ x ∷ xs else x ∷ rest

  abbrev pub order_by : (A → ℕ) → List A → List A
  order_by key [] = []
  order_by key (x ∷ xs) = insert_by key x (order_by key xs)

  count_if-insert_by :
      (p : A → Bool) (key : A → ℕ) (a : A) (xs : List A)
      → count_if p (insert_by key a xs) ≡ count_if p (a ∷ xs)
  count_if-insert_by p key a [] = refl
  count_if-insert_by p key a (x ∷ xs) = ground (arith, count_if-insert_by p key a xs)

  pub count_if-order_by :
      (p : A → Bool) (key : A → ℕ) (xs : List A) → count_if p (order_by key xs) ≡ count_if p xs
  count_if-order_by p key [] = refl
  count_if-order_by p key (x ∷ xs) =
      ground (arith, count_if-insert_by p key x (order_by key xs), count_if-order_by p key xs)

  all-insert_by :
      (p : A → Bool) (key : A → ℕ) (a : A) (xs : List A)
      → all p (insert_by key a xs) ≡ all p (a ∷ xs)
  all-insert_by p key a [] = refl
  all-insert_by p key a (x ∷ xs) = ground (arith, all-insert_by p key a xs)

  pub all-order_by : (p : A → Bool) (key : A → ℕ) (xs : List A) → all p (order_by key xs) ≡ all p xs
  all-order_by p key [] = refl
  all-order_by p key (x ∷ xs) =
      ground (arith, all-insert_by p key x (order_by key xs), all-order_by p key xs)

  -- What is found passes the test, and every test that all elements pass.
  pub find_first-holds :
      (p : A → Bool) (xs : List A) {x : A} → find_first p xs ≡ some x → p x ≡ true
  find_first-holds p [] h = absurd (ground arith)
  find_first-holds p (y ∷ xs) {x} h = elim (Bool-cases (p y)) [
    | inl yes_y ↦ ground arith
    | inr no_y ↦ ground (arith, find_first-holds p xs {x = x})
  ]

  pub find_first-all :
      (p good : A → Bool) (xs : List A) {x : A}
      → find_first p xs ≡ some x
      → all good xs ≡ true
      → good x ≡ true
  find_first-all p good [] h g = absurd (ground arith)
  find_first-all p good (y ∷ xs) {x} h g = elim (Bool-cases (p y)) [
    | inl yes_y ↦ ground arith
    | inr no_y ↦ ground (arith, find_first-all p good xs {x = x})
  ]

  pub find_first-is_some : (p : A → Bool) (xs : List A) → is_some (find_first p xs) ≡ any p xs
  find_first-is_some p [] = refl
  find_first-is_some p (x ∷ xs) = ground (arith, find_first-is_some p xs)

  pub none_length : (xs : List A) → (length xs == 0) ≡ true → xs ≡ []
  none_length [] h = refl
  none_length (x ∷ xs) h = absurd (ground arith)

  pub count_if-keep :
      (p q : A → Bool) (xs : List A) → count_if q (keep p xs) ≡ count_if (λ x. p x && q x) xs
  count_if-keep p q [] = refl
  count_if-keep p q (x ∷ xs) = ground (arith, count_if-keep p q xs)

  pub all_intro : (p : A → Bool) (xs : List A) → ((x : A) → p x ≡ true) → all p xs ≡ true
  all_intro p [] h = refl
  all_intro p (x ∷ xs) h = ground (arith, h x, all_intro p xs h)

  pub all-append : (p : A → Bool) (xs ys : List A) → all p (xs ++ ys) ≡ (all p xs && all p ys)
  all-append p [] ys = refl
  all-append p (x ∷ xs) ys = ground (arith, all-append p xs ys)

  pub keep-all :
      (p good : A → Bool) (xs : List A)
      → all (λ x. not (p x) || good x) xs ≡ true
      → all good (keep p xs) ≡ true
  keep-all p good [] h = refl
  keep-all p good (x ∷ xs) h = ground (arith, keep-all p good xs)

  pub all-weaken :
      (p q : A → Bool) (xs : List A)
      → ((x : A) → p x ≡ true → q x ≡ true)
      → all p xs ≡ true
      → all q xs ≡ true
  all-weaken p q [] imp h = refl
  all-weaken p q (x ∷ xs) imp h = ground (arith, imp x, all-weaken p q xs)

  pub length-append : (xs ys : List A) → length (xs ++ ys) ≡ length xs + length ys
  length-append [] ys = omega arith
  length-append (x ∷ xs) ys = omega (arith, length-append xs ys)

  pub any-append : (p : A → Bool) (xs ys : List A) → any p (xs ++ ys) ≡ (any p xs || any p ys)
  any-append p [] ys = refl
  any-append p (x ∷ xs) ys = ground (arith, any-append p xs ys)

  pub count_if-le-length : (p : A → Bool) (xs : List A) → count_if p xs ≤ length xs
  count_if-le-length p [] = omega arith
  count_if-le-length p (x ∷ xs) = ground (arith, count_if-le-length p xs)

  pub count_if-append :
      (p : A → Bool) (xs ys : List A) → count_if p (xs ++ ys) ≡ count_if p xs + count_if p ys
  count_if-append p [] ys = omega arith
  count_if-append p (x ∷ xs) ys = ground (arith, count_if-append p xs ys)

  pub count_if-pos : (p : A → Bool) (xs : List A) → any p xs ≡ true → 0 < count_if p xs
  count_if-pos p [] h = absurd (ground arith)
  count_if-pos p (x ∷ xs) h = ground (arith, count_if-pos p xs)

  pub count_if-zero : (p : A → Bool) (xs : List A) → any p xs ≡ false → count_if p xs ≡ 0
  count_if-zero p [] h = refl
  count_if-zero p (x ∷ xs) h = ground (arith, count_if-zero p xs)

  pub any-keep : (p q : A → Bool) (xs : List A) → any q (keep p xs) ≡ any (λ x. p x && q x) xs
  any-keep p q [] = refl
  any-keep p q (x ∷ xs) = ground (arith, any-keep p q xs)

  pub all-keep : (p : A → Bool) (xs : List A) → all p (keep p xs) ≡ true
  all-keep p [] = refl
  all-keep p (x ∷ xs) = ground (arith, all-keep p xs)

-- `x in xs`
abbrev pub contains : ℕ → List ℕ → Bool
contains a [] = false
contains a (x ∷ xs) = a == x || contains a xs

pub contains-append :
    (a : ℕ) (xs ys : List ℕ) → contains a (xs ++ ys) ≡ (contains a xs || contains a ys)
contains-append a [] ys = refl
contains-append a (x ∷ xs) ys = ground (arith, contains-append a xs ys)

pub contains-keep :
    (a : ℕ) (p : ℕ → Bool) (xs : List ℕ) → contains a (keep p xs) ≡ (contains a xs && p a)
contains-keep a p [] = refl
contains-keep a p (x ∷ xs) = ground (arith, contains-keep a p xs)
