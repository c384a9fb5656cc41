-- ===== src/Manager/Owned.antt =====
-- The invariant of the store's memories: each stands in the namespace of its user, under its id.
use long_term_memory_agent.Base.{
  ◌∙◌, ap, Bool-cases, inl, inr, String, ◌≡◌, Bool, true, false, some, arith, str_eq,
}
use long_term_memory_agent.Base.Dicts.{same_place-eq, same_place, Dict, Namespace}
use long_term_memory_agent.Env.{Env}
use long_term_memory_agent.Manager.Effects.{bump}
use long_term_memory_agent.Schemas.{namespace, Memory, memory_namespace, slot_text}
use long_term_memory_agent.Schemas.Values.{IsStorable, to_value}

module _ ⦃env : Env⦄ where
  pub record IsOwned (s : env.State) : Type 0 where
    pub at :
        (user_id key : String) (v : Dict env.Float) (m : Memory env.Float)
        → env.get s (memory_namespace, user_id) key ≡ some v
        → env.validate v ≡ some m
        → (m.user_id ≡ user_id) × (m.id ≡ key)

  -- A memory of this user that can be stored.
  pub record IsOf (user_id : String) (m : Memory env.Float) : Type 0 where
    pub owner : m.user_id ≡ user_id
    pub storable : IsStorable m

  -- Rehydrating what was stored gives the memory back.
  pub validate-to_value : (m : Memory env.Float) → IsStorable m → env.validate (to_value m) ≡ some m
  unfolding to_value
  validate-to_value m h = ground (
    arith,
    env.validate_dump m h.text h.low h.high,
    env.validate_dump_slot m (slot_text m) h.text h.low h.high,
  )

  -- What is rehydrated can be stored again.
  pub IsStorable-validate :
      (v : Dict env.Float) (m : Memory env.Float) → env.validate v ≡ some m → IsStorable m
  IsStorable-validate v m e = record {
    text = env.validate_text v m e;
    low = env.validate_low v m e;
    high = env.validate_high v m e;
  }

  -- For an importance between 0 and 1, `min(1.0, x + 0.1)` lies between `x` and 1.
  pub bump_bounds :
      (x : env.Float)
      → env.le env.zero x ≡ true
      → env.le x env.one ≡ true
      → (env.le x (bump x) ≡ true) × (env.le (bump x) env.one ≡ true)
  unfolding bump
  bump_bounds x low high =
      ground (arith, env.le_add_tenth x low, env.le_one, env.le_of_lt (env.add x env.tenth) env.one)

  -- A write outside the memories keeps the invariant.
  pub put_elsewhere-IsOwned :
      (s : env.State) (a : Namespace) (j : String) (v : Dict env.Float) (index : Bool)
      → str_eq a.0 memory_namespace ≡ false
      → IsOwned s
      → IsOwned (env.put s a j v index)
  put_elsewhere-IsOwned s a j v index e h = record {
    at = λ user_id key w m got.
        let outside : same_place a j (memory_namespace, user_id) key ≡ false = rw e in
        h.at user_id key w m (rw (env.get_put, outside) at got);
  }

  same_memory :
      (m n : Memory env.Float) (w : Dict env.Float)
      → IsStorable m
      → some (to_value m) ≡ some w
      → env.validate w ≡ some n
      → n ≡ m
  same_memory m n w h e valid = cc (validate-to_value m h)

  -- So does the write of a memory that can be stored, under its own name.
  pub put_own-IsOwned :
      (s : env.State) (m : Memory env.Float) (index : Bool)
      → IsStorable m
      → IsOwned s
      → IsOwned (env.put s (namespace m) m.id (to_value m) index)
  put_own-IsOwned s m index storable h = record {
    at = λ user_id key w n got valid.
        elim (Bool-cases (same_place (namespace m) m.id (memory_namespace, user_id) key)) [
          | inl here ↦
              let e = same_memory m n w storable (rw (env.get_put, here) at got) valid in
              let (place, id) =
                same_place-eq (namespace m) (memory_namespace, user_id) m.id key here in
              (
                ap (λ (x : Memory env.Float). x.user_id) e ∙ ap (λ (x : Namespace). x.1) place,
                ap (λ (x : Memory env.Float). x.id) e ∙ id,
              )
          | inr there ↦ h.at user_id key w n (rw (env.get_put, there) at got) valid
        ];
  }
