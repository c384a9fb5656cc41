-- ===== src/Exec/Yields.antt =====
-- Methods that keep an invariant and return only results with a property: a rule for each way to
-- build a method.
use long_term_memory_agent.Base.{◌≡◌, refl, Bool, true, false, List, [], ◌∷◌, All, if◌then◌else◌}
use long_term_memory_agent.Exec.{
  Error, Result, ok, raise_with, Exec, pure, raise, lift, continue, ◌>>=◌, for_each,
}
use long_term_memory_agent.Exec.Keeps.{Keeps}

-- What a result is required to be.
abbrev pub Returns {ℓ} : {A : Type ℓ} → (A → Type ℓ) → Result A → Type ℓ
Returns Q (ok a) = Q a
Returns Q (raise_with e) = Unit

pub record Yields {ℓ} {S A : Type ℓ} (P : S → Type ℓ) (m : Exec S A) (Q : A → Type ℓ) : Type ℓ where
  pub at : (s : S) → P s → P (m s).1 × Returns Q (m s).0

module _ {ℓ} {S A : Type ℓ} {P : S → Type ℓ} where
  pub Yields-pure : (a : A) (Q : A → Type ℓ) → Q a → Yields P (pure a) Q
  unfolding pure
  Yields-pure a Q q = record { at = λ s h. (h, q) }

  pub Yields-raise : (e : Error) (Q : A → Type ℓ) → Yields P (raise e) Q
  unfolding raise
  Yields-raise e Q = record { at = λ s h. (h, tt) }

  pub Yields-lift : (r : Result A) (Q : A → Type ℓ) → Returns Q r → Yields P (lift r) Q
  unfolding lift
  Yields-lift r Q q = record { at = λ s h. (h, q) }

  -- A method that keeps the invariant returns something.
  pub Yields-any : (m : Exec S A) → Keeps P m → Yields P m (λ _. Unit)
  Yields-any m k = record { at = λ s h. (k.at s h, any_result (m s).0) }
    where
      any_result : (r : Result A) → Returns (λ _. Unit) r
      any_result (ok a) = tt
      any_result (raise_with e) = tt

  pub Keeps-of_Yields : {Q : A → Type ℓ} (m : Exec S A) → Yields P m Q → Keeps P m
  Keeps-of_Yields m y = record { at = λ s h. (y.at s h).0 }

  pub Yields-if :
      (b : Bool) (m n : Exec S A) (Q : A → Type ℓ)
      → (b ≡ true → Yields P m Q)
      → (b ≡ false → Yields P n Q)
      → Yields P (if b then m else n) Q
  Yields-if true m n Q ym yn = ym refl
  Yields-if false m n Q ym yn = yn refl

module _ {ℓ} {S A B : Type ℓ} {P : S → Type ℓ} where
  Yields-continue :
      (r : Result A) (f : A → Exec S B) (s : S) (Q : A → Type ℓ) (R : B → Type ℓ)
      → ((a : A) → Q a → Yields P (f a) R)
      → P s
      → Returns Q r
      → P (continue r f s).1 × Returns R (continue r f s).0
  Yields-continue (ok a) f s Q R yf h q = (yf a q).at s h
  Yields-continue (raise_with e) f s Q R yf h q = (h, tt)

  pub Yields-bind :
      (m : Exec S A) (f : A → Exec S B) (Q : A → Type ℓ) (R : B → Type ℓ)
      → Yields P m Q
      → ((a : A) → Q a → Yields P (f a) R)
      → Yields P (m >>= f) R
  unfolding ◌>>=◌
  Yields-bind m f Q R ym yf = record {
    at = λ s h.
        let (r, s') = m s in let (kept, q) = ym.at s h in Yields-continue r f s' Q R yf kept q;
  }

  -- The part before a statement whose result is not looked at.
  pub Yields-then :
      (m : Exec S A) (f : A → Exec S B) (R : B → Type ℓ)
      → Keeps P m
      → ((a : A) → Yields P (f a) R)
      → Yields P (m >>= f) R
  Yields-then m f R km yf = Yields-bind m f (λ _. Unit) R (Yields-any m km) (λ a _. yf a)

module _ {ℓ} {S A B : Type ℓ} {P : S → Type ℓ} where
  pub Yields-for_each :
      (body : A → Exec S B) (xs : List A) (Q : A → Type ℓ) (R : B → Type ℓ)
      → All Q xs
      → ((a : A) → Q a → Yields P (body a) R)
      → Yields P (for_each body xs) (All R)
  unfolding for_each
  Yields-for_each body [] Q R qs yb = Yields-pure [] (All R) tt
  Yields-for_each body (x ∷ xs) Q R qs yb = Yields-bind (body x) _ R (All R) (yb x qs.0) λ y r.
      Yields-bind (for_each body xs) _ (All R) (All R) (Yields-for_each body xs Q R qs.1 yb)
        λ ys rs. Yields-pure (y ∷ ys) (All R) (r, rs)
