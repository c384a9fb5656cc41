-- ===== src/Gate/Isolation.antt =====
-- The gate against the store: quarantined text never reaches a memory.
use long_term_memory_agent.Base.{String, ◌≡◌, ◌↔◌, true, false, Option, [], arith, str_eq}
use long_term_memory_agent.Base.Dicts.{Dict, Namespace}
use long_term_memory_agent.Env.{Env}
use long_term_memory_agent.Exec.Keeps.{Keeps, keeps_rules}
use long_term_memory_agent.Gate.{
  InjectionGate, GateVerdict, inspect, allowed, quarantine, quarantine_namespace, scan,
}
use long_term_memory_agent.Schemas.{Provenance, is_trusted}
use long_term_memory_agent.World.Laws.{Holds, utcnow-Holds, put-Holds, outside_root}

module _ ⦃env : Env⦄ where
  -- Text is allowed exactly when its source is trusted and no marker that is looked for is found.
  pub allowed_iff :
      (gate : InjectionGate) (text : String) (source : Provenance)
      → (allowed (inspect gate text source) ≡ true)
        ↔ (is_trusted source ≡ true) × (scan gate text ≡ [])
  unfolding allowed inspect
  allowed_iff gate text source = ground arith

  -- The entry is written outside every other namespace.
  pub quarantine-Holds :
      (a : Namespace) (k : String) (o : Option (Dict env.Float)) (user_id text : String)
      (verdict : GateVerdict) (thread_id : Option String)
      → str_eq quarantine_namespace a.0 ≡ false
      → Keeps (Holds a k o) (quarantine user_id text verdict thread_id)
  unfolding quarantine
  quarantine-Holds a k o user_id text verdict thread_id e =
      search (keeps_rules, utcnow-Holds a k o, put-Holds a k o, outside_root)
