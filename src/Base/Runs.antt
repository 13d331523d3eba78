-- ===== src/Base/Runs.antt =====
-- What a run of C code does: it returns, it has undefined behaviour, or the model's fuel ends.
use mathlib.Core.Path.{◌≡◌, refl, sym, ap, subst, ◌∙◌}

pub data Outcome {ℓ} (A : Type ℓ) : Type ℓ where
  done : A → Outcome A
  fault : Outcome A
  out_of_fuel : Outcome A

infixl 5 ◌>>=◌
abbrev pub ◌>>=◌ {ℓ κ} : {A : Type ℓ} {B : Type κ} → Outcome A → (A → Outcome B) → Outcome B
done a >>= k = k a
fault >>= k = fault
out_of_fuel >>= k = out_of_fuel

-- Total correctness: the run returns, and its result satisfies `P`.
pub data Returns {ℓ κ} {A : Type ℓ} (P : A → Type κ) : Outcome A → Type (ℓ ⊔ κ) where
  returns : {a : A} → P a → Returns P (done a)

module _ {ℓ κ} {A : Type ℓ} {P : A → Type κ} where
  pub Returns-bind {μ ν} :
      {B : Type μ} {Q : B → Type ν} {m : Outcome A} {k : A → Outcome B}
      → Returns P m
      → ((a : A) → P a → Returns Q (k a))
      → Returns Q (m >>= k)
  Returns-bind (returns p) next = next _ p

  pub Returns-mono {ν} :
      {Q : A → Type ν} {m : Outcome A} → Returns P m → ((a : A) → P a → Q a) → Returns Q m
  Returns-mono (returns p) weaken = returns (weaken _ p)

  -- The result of a run that returns.
  pub Returns-result : {m : Outcome A} → Returns P m → (a : A) × (m ≡ done a) × P a
  Returns-result (returns {a} p) = (a, refl, p)

abbrev or_result {ℓ} : {A : Type ℓ} → A → Outcome A → A
or_result a (done b) = b
or_result a fault = a
or_result a out_of_fuel = a

-- What is shown of every result holds of the one that the run has.
pub Returns-done {ℓ κ} :
    {A : Type ℓ} {P : A → Type κ} {m : Outcome A} {a : A} → Returns P m → m ≡ done a → P a
Returns-done {P = P} {a = a} r e =
    let (b, eq, p) = Returns-result r in subst P (ap (or_result a) (sym eq ∙ e)) p
