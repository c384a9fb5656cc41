-- ===== src/Exec.antt =====
-- Methods that change shared state and may raise. What was written before a raise stays written,
-- so the state comes back beside the error too.
pub mod Keeps
pub mod Yields
pub mod Runs
use mathlib.Core.Path.{◌≡◌, refl}
use long_term_memory_agent.Base.{ap, ◌≡◌, ℕ, List, [], ◌∷◌}

-- The exceptions that the program raises or lets through.
pub data Error : Type 0 where
  out_of_fuel validation_error overflow_error value_error legacy_thread_error import_error
        attribute_error :
      Error
  invalid_token jwk_connection_error jwk_client_error : Error
  http_error : ℕ → Error

pub data Result {ℓ} (A : Type ℓ) : Type ℓ where
  ok : A → Result A
  raise_with : Error → Result A

abbrev pub Exec {ℓ} : Type ℓ → Type ℓ → Type ℓ
Exec St A = St → Result A × St

module _ {ℓ} {St A : Type ℓ} where
  unfoldable pub pure : A → Exec St A
  pure a w = (ok a, w)

  unfoldable pub raise : Error → Exec St A
  raise e w = (raise_with e, w)

  -- A computation that touches no state.
  unfoldable pub lift : Result A → Exec St A
  lift res w = (res, w)

  unfoldable pub gets : (St → A) → Exec St A
  gets rest w = (ok (rest w), w)

module _ {ℓ} {St A B : Type ℓ} where
  abbrev pub continue : Result A → (A → Exec St B) → Exec St B
  continue (ok a) rest w = rest a w
  continue (raise_with e) rest w = (raise_with e, w)

  infixl 10 ◌>>=◌ ◌>>◌
  unfoldable pub ◌>>=◌ : Exec St A → (A → Exec St B) → Exec St B
  unfolding pure raise lift gets
  ◌>>=◌ act rest w = let (res, v) = act w in continue res rest v

  abbrev pub ◌>>◌ : Exec St A → Exec St B → Exec St B
  act >> other = act >>= λ _. other

module _ {ℓ} {St A B : Type ℓ} where
  -- What is known of the first part of a method is put into the rest.
  pub bind-ok :
      (act : Exec St A) (rest : A → Exec St B) (w v : St) (a : A)
      → act w ≡ (ok a, v)
      → (act >>= rest) w ≡ rest a v
  unfolding ◌>>=◌
  bind-ok act rest w v a e = ap (λ (res : Result A × St). continue res.0 rest res.1) e

  pub bind-raise :
      (act : Exec St A) (rest : A → Exec St B) (w v : St) (x : Error)
      → act w ≡ (raise_with x, v)
      → (act >>= rest) w ≡ (raise_with x, v)
  unfolding ◌>>=◌
  bind-raise act rest w v x e = ap (λ (res : Result A × St). continue res.0 rest res.1) e

-- `for x in xs: body(x)`
module _ {ℓ} {St A B : Type ℓ} where
  unfoldable pub for_each : (A → Exec St B) → List A → Exec St (List B)
  for_each body [] = pure []
  for_each body (x ∷ xs) = do y ← body x; ys ← for_each body xs; pure (y ∷ ys)

module _ {ℓ} {St A : Type ℓ} where
  -- The same, for a body that returns nothing.
  unfoldable pub run_each : (A → Exec St (Unit {ℓ})) → List A → Exec St (Unit {ℓ})
  run_each body [] = pure tt
  run_each body (x ∷ xs) = body x >> run_each body xs
