-- ===== src/Prelude/Results.antt =====
-- Chains of fallible steps: `if err != nil { return …, err }` after each call.
use mathlib.Core.Bool.{Bool, true, false, not}
use mathlib.Core.Logic.{◌⊎◌, inl, inr}
use mathlib.Core.Path.{◌≡◌, refl, subst}
use go_dashboard.Prelude.Outcome.{Error, Result, ok, err}

module _ {ℓ κ} {A : Type ℓ} {B : Type κ} where
  abbrev pub on_ok : (A → Result B) → Result A → Result B
  on_ok next (err problem) = err problem
  on_ok next (ok value) = next value

  infixl 5 ◌>>=◌
  abbrev pub ◌>>=◌ : Result A → (A → Result B) → Result B
  first >>= next = on_ok next first

  -- Where a chain gives a value, both of its parts did.
  pub >>=-eq-ok :
      (first : Result A) (next : A → Result B) {out : B}
      → on_ok next first ≡ ok out
      → (value : A) × (first ≡ ok value) × (next value ≡ ok out)
  >>=-eq-ok (err problem) next h = cc
  >>=-eq-ok (ok value) next h = (value, refl, h)

module _ {ℓ} {B : Type ℓ} where
  infixl 5 ◌>>◌
  abbrev pub ◌>>◌ : Result (Unit {0}) → Result B → Result B
  check >> rest = on_ok (λ _. rest) check

  pub Result-cases :
      (r : Result B) → ((value : B) × (r ≡ ok value)) ⊎ ((problem : Error) × (r ≡ err problem))
  Result-cases (err problem) = inr (problem, refl)
  Result-cases (ok value) = inl (value, refl)

-- `if b { return err }`
abbrev pub refuse_if : Bool → Error → Result (Unit {0})
refuse_if true e = err e
refuse_if false e = ok tt

-- A check that passes.
pub refuse_if-passed : (b : Bool) (e : Error) {u : Unit {0}} → refuse_if b e ≡ ok u → b ≡ false
refuse_if-passed true e h = absurd cc
refuse_if-passed false e h = refl

-- What holds of the value of a chain, where it gives one.
unfoldable pub Provides : {A : Type 0} → (A → Type 0) → Result A → Type 0
Provides Q (ok a) = Q a
Provides Q (err e) = Unit

pub Provides-bind :
    {A B : Type 0} (Q : B → Type 0) (first : Result A) (next : A → Result B)
    → ((a : A) → first ≡ ok a → Provides Q (next a))
    → Provides Q (on_ok next first)
unfolding Provides
Provides-bind Q (ok a) next h = h a refl
Provides-bind Q (err e) next h = tt

pub Provides-ok :
    {A : Type 0} (Q : A → Type 0) (r : Result A) (a : A) → Provides Q r → r ≡ ok a → Q a
unfolding Provides
Provides-ok Q (ok b) a h e = let same : b ≡ a = cc in subst Q same h
Provides-ok Q (err x) a h e = absurd cc

pub Provides-value : {A : Type 0} (Q : A → Type 0) (a : A) → Q a → Provides Q (ok a)
unfolding Provides
Provides-value Q a h = h

pub Provides-map :
    {A : Type 0} {Q R : A → Type 0} (r : Result A)
    → Provides Q r
    → ((a : A) → Q a → R a)
    → Provides R r
unfolding Provides
Provides-map (ok a) h f = f a h
Provides-map (err e) h f = tt

pub Provides-error : {A : Type 0} (Q : A → Type 0) (e : Error) → Provides Q (err e)
unfolding Provides
Provides-error Q e = tt

pub not-false : (b : Bool) → not b ≡ false → b ≡ true
not-false true h = refl
not-false false h = absurd cc
