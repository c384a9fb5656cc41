-- ===== src/Exec/Runs.antt =====
-- Methods that return: from a state with the invariant they raise nothing, keep it, and return a
-- result with a property. A rule for each way to build a method.
use long_term_memory_agent.Base.{◌≡◌, refl, ◌∙◌}
use long_term_memory_agent.Exec.{Result, ok, Exec, pure, lift, ◌>>=◌, bind-ok}

module _ {ℓ} {S A : Type ℓ} where
  -- The outcome of a run that returned.
  pub record HasReturned (P : S → Type ℓ) (Q : A → Type ℓ) (r : Result A × S) : Type ℓ where
    pub result : A
    pub state : S
    pub returned : r ≡ (ok result, state)
    pub kept : P state
    pub holds : Q result

  pub record Runs (P : S → Type ℓ) (m : Exec S A) (Q : A → Type ℓ) : Type ℓ where
    pub at : (s : S) → P s → HasReturned P Q (m s)

  pub Runs-pure : {P : S → Type ℓ} (a : A) (Q : A → Type ℓ) → Q a → Runs P (pure a) Q
  unfolding pure
  Runs-pure a Q q = record {
    at = λ s h. record { result = a; state = s; returned = refl; kept = h; holds = q };
  }

  -- A computation that succeeds.
  pub Runs-lift :
      {P : S → Type ℓ} (r : Result A) (a : A) (Q : A → Type ℓ) → r ≡ ok a → Q a → Runs P (lift r) Q
  unfolding lift
  Runs-lift r a Q e q = record {
    at = λ s h. record { result = a; state = s; returned = λ i. (e i, s); kept = h; holds = q };
  }

module _ {ℓ} {S A B : Type ℓ} {P : S → Type ℓ} where
  pub Runs-bind :
      (m : Exec S A) (f : A → Exec S B) (Q : A → Type ℓ) (R : B → Type ℓ)
      → Runs P m Q
      → ((a : A) → Q a → Runs P (f a) R)
      → Runs P (m >>= f) R
  Runs-bind m f Q R run next = record {
    at = λ s h.
        let first = run.at s h in
        let last = (next first.result first.holds).at first.state first.kept in
        record {
          result = last.result;
          state = last.state;
          returned = bind-ok m f s first.state first.result first.returned ∙ last.returned;
          kept = last.kept;
          holds = last.holds;
        };
  }
