-- ===== src/Forget/Single.antt =====
-- `forget_memory`: one memory, and nothing else.
use long_term_memory_agent.Base.{
  String, ◌≡◌, refl, sym, ◌∙◌, Bool, true, false, Option, none, some, if◌then◌else◌, Bool-cases,
  inl, inr, ap₂,
}
use long_term_memory_agent.Base.Dicts.{Dict, Namespace, same_place, same_place-eq}
use long_term_memory_agent.Env.{Env}
use long_term_memory_agent.Exec.{ok, pure, ◌>>=◌}
use long_term_memory_agent.Forget.{forget_memory, delete_found}
use long_term_memory_agent.Schemas.{memory_namespace}
use long_term_memory_agent.World.{World, store_get, store_delete}

abbrev pub is_some : {A : Type 0} → Option A → Bool
is_some none = false
is_some (some a) = true

-- `forget_memory` says whether the user has a memory of this id; afterwards it is gone, and the rest
-- of the store is as it was.
pub forget_memory_lem :
    ⦃env : Env⦄ (user_id memory_id : String) (w : World) (a : Namespace) (k : String)
    → ((forget_memory user_id memory_id w).0
        ≡ ok (is_some (env.get w.store (memory_namespace, user_id) memory_id)))
      × (env.get (forget_memory user_id memory_id w).1.store a k ≡ (
          if same_place (memory_namespace, user_id) memory_id a k
          then none
          else env.get w.store a k))
unfolding forget_memory delete_found store_get store_delete pure ◌>>=◌
forget_memory_lem ⦃env⦄ user_id memory_id w a k =
    by (env.get w.store (memory_namespace, user_id) memory_id) refl
  where
    unchanged :
        env.get w.store (memory_namespace, user_id) memory_id ≡ none
        → env.get w.store a k ≡ (
            if same_place (memory_namespace, user_id) memory_id a k
            then none
            else env.get w.store a k)
    unchanged e = elim (Bool-cases (same_place (memory_namespace, user_id) memory_id a k)) [
      | inl here ↦
          let (place, id) = same_place-eq (memory_namespace, user_id) a memory_id k here in
          rw here (ap₂ (λ (b : Namespace) j. env.get w.store b j) (sym place) (sym id) ∙ e)
      | inr there ↦ rw there refl
    ]

    by :
        (o : Option (Dict env.Float))
        → env.get w.store (memory_namespace, user_id) memory_id ≡ o
        → ((delete_found (memory_namespace, user_id) memory_id o w).0 ≡ ok (is_some o))
          × (env.get (delete_found (memory_namespace, user_id) memory_id o w).1.store a k ≡ (
              if same_place (memory_namespace, user_id) memory_id a k
              then none
              else env.get w.store a k))
    by none e = (refl, unchanged e)
    by (some v) e = (refl, env.get_delete w.store (memory_namespace, user_id) memory_id a k)
