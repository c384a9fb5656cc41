-- ===== src/Forget/Learned.antt =====
-- The loop of `forget_thread` over the user's memories.
use long_term_memory_agent.Base.{
  ℕ, zero, suc, ◌+◌, String, ◌≡◌, refl, sym, ap, ◌∙◌, Bool, true, false, Option, none, some, List,
  [], ◌∷◌, All, length, arith, subst, str_eq, eq_iff, if◌then◌else◌, Bool-cases, inl, inr,
}
use long_term_memory_agent.Base.Dicts.{Dict, lookup, Distinct}
use long_term_memory_agent.Env.{Env}
use long_term_memory_agent.Exec.{ok, raise_with, validation_error, pure, lift, ◌>>=◌, ◌>>◌, bind-ok}
use long_term_memory_agent.Forget.{delete_learned, learned_in}
use long_term_memory_agent.Forget.Erase.{among, delete_all}
use long_term_memory_agent.Schemas.{Memory, memory_namespace}
use long_term_memory_agent.Schemas.Values.{from_value}
use long_term_memory_agent.World.{World, store_delete}

module _ ⦃env : Env⦄ where
  -- The value is that of a memory of the conversation.
  abbrev value_learned : String → Dict env.Float → Bool
  value_learned thread_id v = elim (env.validate v) [
    | none ↦ false
    | some m ↦ learned_in thread_id m
  ]

  -- What the store holds is a memory of the conversation.
  abbrev pub is_learned : String → Option (Dict env.Float) → Bool
  is_learned thread_id none = false
  is_learned thread_id (some v) = value_learned thread_id v

  -- The keys of the memories of the conversation.
  pub learned_keys : String → List (String × Dict env.Float) → List String
  learned_keys thread_id [] = []
  learned_keys thread_id ((k, v) ∷ es) =
      let rest = learned_keys thread_id es in if value_learned thread_id v then k ∷ rest else rest

  abbrev pub Decodes : String × Dict env.Float → Type 0
  Decodes e = (m : Memory env.Float) × (env.validate e.1 ≡ some m)

  absent-learned :
      (thread_id k : String) (es : List (String × Dict env.Float))
      → lookup k es ≡ none
      → among k (learned_keys thread_id es) ≡ false
  unfolding learned_keys
  absent-learned thread_id k [] h = refl
  absent-learned thread_id k ((j, v) ∷ es) h =
      pick (value_learned thread_id v) (absent-learned thread_id k es (ground arith)) (ground arith)
    where
      pick :
          (b : Bool)
          → among k (learned_keys thread_id es) ≡ false
          → str_eq j k ≡ false
          → among k (if b then j ∷ learned_keys thread_id es else learned_keys thread_id es) ≡ false
      pick true ih e = ground arith
      pick false ih e = ih

  -- In a dictionary, a key is one of those exactly when its value is.
  pub among-learned :
      (thread_id k : String) (es : List (String × Dict env.Float))
      → Distinct es
      → among k (learned_keys thread_id es) ≡ is_learned thread_id (lookup k es)
  unfolding learned_keys
  among-learned thread_id k [] h = refl
  among-learned thread_id k ((j, v) ∷ es) h =
      pick (value_learned thread_id v) refl (among-learned thread_id k es h.1)
    where
      gone : str_eq j k ≡ true → among k (learned_keys thread_id es) ≡ false
      gone here =
          absent-learned thread_id k es (subst (λ x. lookup x es ≡ none) ((eq_iff j k).0 here) h.0)

      pick :
          (b : Bool)
          → value_learned thread_id v ≡ b
          → among k (learned_keys thread_id es) ≡ is_learned thread_id (lookup k es)
          → among k (if b then j ∷ learned_keys thread_id es else learned_keys thread_id es)
            ≡ is_learned thread_id (if str_eq j k then some v else lookup k es)
      pick true e ih = elim (Bool-cases (str_eq j k)) [
        | inl here ↦ rw here (sym e)
        | inr there ↦ rw there ih
      ]
      pick false e ih = elim (Bool-cases (str_eq j k)) [
        | inl here ↦ rw here (gone here ∙ sym e)
        | inr there ↦ rw there ih
      ]

  pub delete_learned_run :
      (user_id thread_id : String) (es : List (String × Dict env.Float)) (n : ℕ) (w : World)
      → All Decodes es
      → delete_learned user_id thread_id es n w ≡ (
        ok (n + length (learned_keys thread_id es)),
        record w {
          store = delete_all w.store (memory_namespace, user_id) (learned_keys thread_id es);
        },
      )
  unfolding delete_learned learned_keys delete_all pure from_value lift store_delete ◌>>=◌
  delete_learned_run user_id thread_id [] n w h = ap (λ k. (ok k, w)) (plus_zero n)
    where
      plus_zero : (n : ℕ) → n ≡ n + zero
      plus_zero n = omega arith
  delete_learned_run user_id thread_id ((k, v) ∷ es) n w h =
      bind-ok (lift (from_value v)) _ w w h.0.0
        (ap (λ o. (elim o [ none ↦ raise_with validation_error | some m ↦ ok m ], w)) h.0.1)
      ∙ at_head (learned_in thread_id h.0.0) (value_learned thread_id v)
          (ap (λ o. elim o [ none ↦ false | some m ↦ learned_in thread_id m ]) h.0.1)
          (λ n w. delete_learned_run user_id thread_id es n w h.1)
    where
      behind : World
      behind = record w {
        store =
            delete_all (env.delete w.store (memory_namespace, user_id) k)
              (memory_namespace, user_id) (learned_keys thread_id es);
      }

      move : (n k : ℕ) → n + 1 + k ≡ n + suc k
      move n k = omega arith

      at_head :
          (b q : Bool)
          → q ≡ b
          → ((n : ℕ) (w : World)
              → delete_learned user_id thread_id es n w ≡ (
                ok (n + length (learned_keys thread_id es)),
                record w {
                  store =
                      delete_all w.store (memory_namespace, user_id) (learned_keys thread_id es);
                },
              ))
          → ((if b then store_delete (memory_namespace, user_id) k else pure tt)
                >> delete_learned user_id thread_id es (if b then n + 1 else n))
              w
            ≡ (
              ok (
                  n
                  + length
                      (if q then k ∷ learned_keys thread_id es else learned_keys thread_id es)),
              record w {
                store =
                    delete_all w.store
                      (memory_namespace, user_id)
                      (if q then k ∷ learned_keys thread_id es else learned_keys thread_id es);
              },
            )
      at_head true true e ih =
          ih (n + 1) (record w { store = env.delete w.store (memory_namespace, user_id) k })
          ∙ ap (λ x. (ok x, behind)) (move n (length (learned_keys thread_id es)))
      at_head false false e ih = ih n w
      at_head true false e ih = absurd cc
      at_head false true e ih = absurd cc
