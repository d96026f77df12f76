-- ===== src/Prelude/Result.antt =====
-- A computation that raises: the left side holds the exception, the right side the result.
use mathlib.Core.Path.{◌≡◌, refl, ap}
use mathlib.Core.Logic.{◌⊎◌, inl, inr}
use mathlib.Core.Bool.{Bool, true, false}
use mathlib.Core.Option.{Option, none, some}
use native.Mathlib.Omega.{arith}

infixl 5 ◌>>=◌
abbrev pub ◌>>=◌ {ℓ κ μ} : {E : Type ℓ} {A : Type κ} {B : Type μ} → E ⊎ A → (A → E ⊎ B) → E ⊎ B
inl e >>= f = inl e
inr a >>= f = f a

-- The result of a statement that returns nothing.
pub data Done : Type 0 where
  done : Done

-- `if not passes: raise e`
abbrev pub guard {ℓ} : {E : Type ℓ} → Bool → E → E ⊎ Done
guard true e = inr done
guard false e = inl e

-- `if x is None: raise e`
abbrev pub present {ℓ κ} : {E : Type ℓ} {A : Type κ} → Option A → E → E ⊎ A
present none e = inl e
present (some a) e = inr a

pub Result-cases {ℓ κ} :
    {E : Type ℓ} {A : Type κ} (r : E ⊎ A) → ((e : E) × (r ≡ inl e)) ⊎ ((a : A) × (r ≡ inr a))
Result-cases (inl e) = inl (e, refl)
Result-cases (inr a) = inr (a, refl)

-- A call whose result is not used.
abbrev pub forget {ℓ κ} : {E : Type ℓ} {A : Type κ} → E ⊎ A → E ⊎ Done
forget (inl e) = inl e
forget (inr a) = inr done

pub bind-ok {ℓ κ μ} :
    {E : Type ℓ} {A : Type κ} {B : Type μ} (r : E ⊎ A) (f : A → E ⊎ B) {b : B}
    → (r >>= f) ≡ inr b
    → (a : A) × (r ≡ inr a) × (f a ≡ inr b)
bind-ok (inl e) f h = absurd (ground arith)
bind-ok (inr a) f h = (a, refl, h)

pub guard-ok {ℓ} : {E : Type ℓ} (b : Bool) (e : E) {d : Done} → guard b e ≡ inr d → b ≡ true
guard-ok true e h = refl
guard-ok false e h = absurd (ground arith)

pub present-ok {ℓ κ} :
    {E : Type ℓ} {A : Type κ} (o : Option A) (e : E) {a : A} → present o e ≡ inr a → o ≡ some a
present-ok none e h = absurd (ground arith)
present-ok (some a) e h = ground arith

result_or {ℓ κ} : {E : Type ℓ} {A : Type κ} → A → E ⊎ A → A
result_or d (inl e) = d
result_or d (inr a) = a

pub ok-injective {ℓ κ} : {E : Type ℓ} {A : Type κ} {a b : A} → Path (E ⊎ A) (inr a) (inr b) → a ≡ b
unfolding result_or
ok-injective {E} {A} {a} {b} h = ap (result_or a) h
