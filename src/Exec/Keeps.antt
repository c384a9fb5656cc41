-- ===== src/Exec/Keeps.antt =====
-- Invariants of methods, one rule for each way to build a method.
use long_term_memory_agent.Base.{Bool, true, false, List, [], ◌∷◌, if◌then◌else◌}
use long_term_memory_agent.Exec.{
  Error, Result, ok, raise_with, Exec, pure, raise, lift, gets, continue, ◌>>=◌, for_each,
}

-- `m` keeps `P`, whether it returns or raises.
pub record Keeps {ℓ} {St A : Type ℓ} (P : St → Type ℓ) (act : Exec St A) : Type ℓ where
  pub at : (w : St) → P w → P (act w).1

module _ {ℓ} {St A : Type ℓ} {P : St → Type ℓ} where
  pub Keeps-pure : (a : A) → Keeps P (pure a)
  unfolding pure
  Keeps-pure a = record { at = λ w inv. inv }

  pub Keeps-raise : (x : Error) → Keeps P (raise {A = A} x)
  unfolding raise
  Keeps-raise x = record { at = λ w inv. inv }

  pub Keeps-lift : (res : Result A) → Keeps P (lift res)
  unfolding lift
  Keeps-lift res = record { at = λ w inv. inv }

  pub Keeps-gets : (rest : St → A) → Keeps P (gets rest)
  unfolding gets
  Keeps-gets rest = record { at = λ w inv. inv }

  pub Keeps-if :
      (b : Bool) (act other : Exec St A)
      → Keeps P act
      → Keeps P other
      → Keeps P (if b then act else other)
  Keeps-if true act other kept spared = kept
  Keeps-if false act other kept spared = spared

module _ {ℓ} {St A B : Type ℓ} {P : St → Type ℓ} where
  Keeps-continue :
      (res : Result A) (rest : A → Exec St B) (w : St)
      → ((a : A) → Keeps P (rest a))
      → P w
      → P (continue res rest w).1
  Keeps-continue (ok a) rest w later inv = (later a).at w inv
  Keeps-continue (raise_with x) rest w later inv = inv

  pub Keeps-bind :
      (act : Exec St A) (rest : A → Exec St B)
      → Keeps P act
      → ((a : A) → Keeps P (rest a))
      → Keeps P (act >>= rest)
  unfolding ◌>>=◌
  Keeps-bind act rest kept later = record {
    at = λ w inv. let (res, v) = act w in Keeps-continue res rest v later (kept.at w inv);
  }

module _ {ℓ} {St A B : Type ℓ} {P : St → Type ℓ} where
  pub Keeps-for_each :
      (body : A → Exec St B) (xs : List A)
      → ((a : A) → Keeps P (body a))
      → Keeps P (for_each body xs)
  unfolding for_each
  Keeps-for_each body [] steps = Keeps-pure []
  Keeps-for_each body (x ∷ xs) steps =
      Keeps-bind (body x) _ (steps x) λ y.
        Keeps-bind (for_each body xs) _ (Keeps-for_each body xs steps) λ ys. Keeps-pure (y ∷ ys)

pub ruleset keeps_rules = (Keeps-pure, Keeps-raise, Keeps-lift, Keeps-gets, Keeps-if, Keeps-bind)
