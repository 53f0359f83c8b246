-- ===== src/Prelude/Results.antt =====
-- Go's `(value, error)`: a value, or an error of the type that the component needs.
use mathlib.Core.Path.{◌≡◌, refl, ap}
use mathlib.Core.Logic.{◌⊎◌, inl, inr}
use mathlib.Core.Bool.{Bool, true, false}
use mathlib.Core.Option.{Option, none, some}

pub data Result {ε α} (Err : Type ε) (Val : Type α) : Type (ε ⊔ α) where
  err : Err → Result Err Val
  ok : Val → Result Err Val

-- `if !test { return problem }`
abbrev pub guard {ε} : {Err : Type ε} → Bool → Err → Result Err (Unit {0})
guard false problem = err problem
guard true problem = ok tt

-- A missing value as an error.
abbrev pub or_fail {ε α} : {Err : Type ε} {Val : Type α} → Err → Option Val → Result Err Val
or_fail problem none = err problem
or_fail problem (some x) = ok x

module _ {ε α} {Err : Type ε} {Val : Type α} where
  pub ok_injective : {x y : Val} → ◌≡◌ {A = Result Err Val} (ok x) (ok y) → x ≡ y
  ok_injective same = cc

  pub Result-cases :
      (r : Result Err Val) → ((x : Val) × (r ≡ ok x)) ⊎ ((problem : Err) × (r ≡ err problem))
  Result-cases (err problem) = inr (problem, refl)
  Result-cases (ok x) = inl (x, refl)

  infixl 5 ◌>>=◌
  abbrev pub ◌>>=◌ {β} : {Out : Type β} → Result Err Val → (Val → Result Err Out) → Result Err Out
  err problem >>= next = err problem
  ok x >>= next = next x

  -- What the first step of a chain gave, if the chain gave a value.
  pub >>=-ok {β} :
      {Out : Type β} (first : Result Err Val) (next : Val → Result Err Out) {out : Out}
      → (first >>= next) ≡ ok out
      → (x : Val) × (first ≡ ok x) × (next x ≡ ok out)
  >>=-ok (err problem) next gave = cc
  >>=-ok (ok x) next gave = (x, refl, gave)

infixl 5 ◌>>◌
abbrev pub ◌>>◌ {ε β} :
    {Err : Type ε} {Out : Type β} → Result Err (Unit {0}) → Result Err Out → Result Err Out
check >> next = check >>= λ _. next

pub guard-ok {ε} :
    {Err : Type ε} (test : Bool) (problem : Err) (u : Unit {0})
    → guard test problem ≡ ok u
    → test ≡ true
guard-ok true problem u h = refl
guard-ok false problem u h = cc

pub or_fail-ok {ε α} :
    {Err : Type ε} {Val : Type α} (problem : Err) (o : Option Val) (x : Val)
    → or_fail problem o ≡ ok x
    → o ≡ some x
or_fail-ok problem none x h = cc
or_fail-ok problem (some y) x h = ap some (ok_injective h)
