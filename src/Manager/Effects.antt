-- ===== src/Manager/Effects.antt =====
-- The helpers of engram/memory/manager.py that build, reinforce and retire a memory.
use long_term_memory_agent.Base.{
  ℕ, ◌*◌, ◌+◌, String, not, Option, none, some, List, [], ◌∷◌, filter, ltb, str_eq, if◌then◌else◌,
}
use long_term_memory_agent.Base.Texts.{join, split}
use long_term_memory_agent.Env.{Env}
use long_term_memory_agent.Exec.{Result, pure, raise, overflow_error, ◌>>=◌, ◌>>◌}
use long_term_memory_agent.Extract.{CandidateFact}
use long_term_memory_agent.Gate.{InjectionGate}
use long_term_memory_agent.Schemas.{Memory, Provenance, Datetime}
use long_term_memory_agent.World.{Method, utcnow}
use long_term_memory_agent.Write.{create, save}

-- `datetime.max`, and the microseconds of a day
abbrev pub max_datetime : ℕ
max_datetime = 315537897599999999

abbrev pub day : ℕ
day = 86400000000

module _ ⦃env : Env⦄ where
  pub record Manager : Type 0 where
    pub extract : String → Result (List (CandidateFact env.Float))
    pub gate : InjectionGate
    pub dedupe_similarity : env.Float

  -- `_norm`
  unfoldable pub norm : String → String
  norm value = join " " (split (env.lower value))

  -- `utcnow() + timedelta(days=ttl)`, which raises past the last representable day.
  unfoldable pub expiry : Option ℕ → Method (Option Datetime)
  expiry none = pure none
  expiry (some days) = do
    now ← utcnow
    let at = now + days * day
    if ltb max_datetime at then raise overflow_error else pure (some at)

  -- `_build`
  unfoldable pub build :
      CandidateFact env.Float → String → Option String → Provenance → Method (Memory env.Float)
  build c user_id thread_id source = do
    expires_at ← expiry c.ttl_days
    create (record {
      user_id = user_id;
      text = c.text;
      kind = c.kind;
      source = source;
      importance = c.importance;
      expires_at = expires_at;
      attribute = c.attribute;
      value = c.value;
      scope = c.scope;
      thread_id = thread_id;
      evidence = some c.text;
    })

  -- `_replace`: the first memory with the same id
  unfoldable pub replace_memory :
      List (Memory env.Float) → Memory env.Float → List (Memory env.Float)
  replace_memory [] updated = []
  replace_memory (m ∷ ms) updated =
      if str_eq m.id updated.id then updated ∷ ms else m ∷ replace_memory ms updated

  -- `min(1.0, importance + 0.1)`
  unfoldable pub bump : env.Float → env.Float
  bump x = let raised = env.add x env.tenth in if env.lt raised env.one then raised else env.one

  abbrev pub reinforced : Memory env.Float → Datetime → Memory env.Float
  reinforced m now = record m { importance = bump m.importance; updated_at = now }

  -- `_reinforce`; returns `existing` as it is afterwards
  unfoldable pub reinforce :
      Memory env.Float → List (Memory env.Float) → Method (List (Memory env.Float))
  reinforce m existing = do
    now ← utcnow
    save (reinforced m now)
    pure (replace_memory existing (reinforced m now))

  abbrev pub retired : Memory env.Float → String → Datetime → Memory env.Float
  retired m replacement_id now = record m {
    superseded_by = some replacement_id;
    superseded_at = some now;
  }

  -- `[m for m in existing if m.id != stale.id]`
  unfoldable pub without : Memory env.Float → List (Memory env.Float) → List (Memory env.Float)
  without stale existing = filter (λ m. not (str_eq m.id stale.id)) existing

  -- `_supersede`
  unfoldable pub retire :
      Memory env.Float → String → List (Memory env.Float) → Method (List (Memory env.Float))
  retire stale replacement_id existing = do
    now ← utcnow
    save (retired stale replacement_id now)
    pure (without stale existing)

  -- `for stale in same_slot: self._supersede(stale, memory.id, existing)`
  unfoldable pub retire_all :
      List (Memory env.Float) → String → List (Memory env.Float) → Method (List (Memory env.Float))
  retire_all [] replacement_id existing = pure existing
  retire_all (stale ∷ more) replacement_id existing = do
    existing' ← retire stale replacement_id existing
    retire_all more replacement_id existing'
