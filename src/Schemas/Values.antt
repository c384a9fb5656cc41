-- ===== src/Schemas/Values.antt =====
-- `Memory(…)`, `to_value` and `from_value` of engram/schemas.py: the record against the store's
-- dictionaries.
use long_term_memory_agent.Base.{◌≡◌, ◌≢◌, true, not, none, some, arith, str_eq, if◌then◌else◌}
use long_term_memory_agent.Base.Dicts.{Dict, str, insert}
use long_term_memory_agent.Exec.{Result, ok, raise_with, validation_error}
use long_term_memory_agent.Env.{Env}
use long_term_memory_agent.Schemas.{Memory, slot_text}

module _ ⦃env : Env⦄ where
  -- The constraints of the fields: `min_length=1`, `ge=0.0`, `le=1.0`.
  pub record IsStorable (m : Memory env.Float) : Type 0 where
    pub text : m.text ≢ ""
    pub low : env.le env.zero m.importance ≡ true
    pub high : env.le m.importance env.one ≡ true

  unfoldable pub to_value : Memory env.Float → Dict env.Float
  to_value m =
      let slot = slot_text m in
      let value = env.dump m in
      if not (str_eq slot "") then insert "slot_text" (str slot) value else value

  unfoldable pub from_value : Dict env.Float → Result (Memory env.Float)
  from_value value = elim (env.validate value) [
    | none ↦ raise_with validation_error
    | some m ↦ ok m
  ]

  pub from_value-to_value : (m : Memory env.Float) → IsStorable m → from_value (to_value m) ≡ ok m
  unfolding to_value from_value
  from_value-to_value m h = ground (
    arith,
    env.validate_dump m h.text h.low h.high,
    env.validate_dump_slot m (slot_text m) h.text h.low h.high,
  )
