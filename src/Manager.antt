-- ===== src/Manager.antt =====
-- engram/memory/manager.py: the write path. `MemoryManager` is a record of its collaborators and its
-- threshold; the list `existing`, which the methods change in place, is passed on and returned.
pub mod Plan
pub mod SlotMap
pub mod Marked
pub mod Confirm
pub mod Refine
pub mod Nearest
pub mod Effects
pub mod Owned
pub mod Build
pub mod Retired
pub mod Supersede
pub mod Dedupe
pub mod Slots
pub mod Unique
pub mod Steps
pub mod Found
pub mod Outcome
pub mod Candidates
pub mod Turn
pub mod Safety
pub mod Resolve
use long_term_memory_agent.Base.{
  ℕ, ◌*◌, ◌+◌, String, Bool, true, false, not, ◌&&◌, Option, none, some, List, [], ◌∷◌, ◌++◌, any,
  filter, find?, map, is_empty, ltb, str_eq, if◌then◌else◌,
}
use long_term_memory_agent.Base.Texts.{strip}
use long_term_memory_agent.Env.{Env, Item}
use long_term_memory_agent.Exec.{pure, lift, for_each, ◌>>=◌, ◌>>◌}
use long_term_memory_agent.Extract.{CandidateFact}
use long_term_memory_agent.Extract.Patterns.{has_temporal_marker}
use long_term_memory_agent.Gate.{InjectionGate, GateVerdict, inspect, allowed}
use long_term_memory_agent.Gate
use long_term_memory_agent.Schemas.{Memory, Provenance, memory_namespace}
use long_term_memory_agent.Schemas.Values.{from_value}
use long_term_memory_agent.World.{Method, store_search, filter_each}
use long_term_memory_agent.Schemas.Active.{active_now}
use long_term_memory_agent.Write.{MemoryOp, MemoryDecision, WriteReport, empty_report, quarantine}
use Effects.{Manager, norm}
use Resolve.{resolve}

abbrev pub max_existing : ℕ
max_existing = 500

-- `_NON_VALUES`
abbrev pub non_values : List String
non_values = "" ∷ "unknown" ∷ "unspecified" ∷ "none" ∷ "n/a" ∷ "na" ∷ "null" ∷ "?" ∷ []

module _ ⦃env : Env⦄ where
  -- `_is_usable`
  unfoldable pub is_usable : CandidateFact env.Float → Bool
  is_usable c = if str_eq c.attribute "" then true else not (any (str_eq (norm c.value)) non_values)

  -- `_verify_ttl`
  unfoldable pub verify_ttl : CandidateFact env.Float → String → CandidateFact env.Float
  verify_ttl c turn = elim c.ttl_days [
    | none ↦ c
    | some days ↦ if has_temporal_marker turn then c else record c { ttl_days = none }
  ]

  -- The candidates that are resolved, in order.
  unfoldable pub usable_candidates :
      List (CandidateFact env.Float) → String → List (CandidateFact env.Float)
  unfolding is_usable verify_ttl
  usable_candidates cs turn = filter is_usable (map (λ c. verify_ttl c turn) cs)

  -- `_active_memories`
  unfoldable pub active_memories : String → Method (List (Memory env.Float))
  active_memories user_id = do
    items ← store_search (memory_namespace, user_id) none max_existing 0
    memories ← for_each (λ (i : Item env.Float). lift (from_value i.value)) items
    filter_each active_now memories

  abbrev pub append_memory :
      List (Memory env.Float) → Option (Memory env.Float) → List (Memory env.Float)
  append_memory ms none = ms
  append_memory ms (some m) = ms ++ m ∷ []

  -- The loop of `apply` over the candidates, with the report read so far.
  unfoldable pub resolve_all :
      Manager
      → List (CandidateFact env.Float)
      → List (Memory env.Float)
      → String
      → Option String
      → Provenance
      → WriteReport env.Float
      → Method (WriteReport env.Float)
  resolve_all mg [] existing user_id thread_id source report = pure report
  resolve_all mg (c ∷ cs) existing user_id thread_id source report = do
    (decision, memory, existing') ← resolve mg c existing user_id thread_id source
    resolve_all mg cs (append_memory existing' memory) user_id thread_id source (record {
      written = append_memory report.written memory;
      decisions = report.decisions ++ decision ∷ [];
    })

  -- The store is read only where there is a candidate.
  unfoldable pub resolve_some :
      Manager
      → List (CandidateFact env.Float)
      → String
      → Option String
      → Provenance
      → Method (WriteReport env.Float)
  resolve_some mg [] user_id thread_id source = pure empty_report
  resolve_some mg (c ∷ cs) user_id thread_id source = do
    existing ← active_memories user_id
    resolve_all mg (c ∷ cs) existing user_id thread_id source empty_report

  -- What `apply` does behind the gate.
  unfoldable pub remember :
      Manager → String → String → Option String → Provenance → Method (WriteReport env.Float)
  unfolding resolve_some
  remember mg user_id text thread_id source = do
    candidates ← lift (mg.extract text)
    resolve_some mg (usable_candidates candidates text) user_id thread_id source

  unfoldable pub refuse :
      String → String → Option String → GateVerdict → Method (WriteReport env.Float)
  refuse user_id text thread_id verdict = do
    Gate.quarantine user_id text verdict thread_id
    pure (record {
      written = [];
      decisions =
          record {
            op = quarantine;
            candidate = text;
            memory_id = none;
            superseded_ids = [];
            reason = verdict.reason;
          }
          ∷ [];
    })

  -- `MemoryManager.apply`
  unfoldable pub apply :
      Manager → String → String → Option String → Provenance → Method (WriteReport env.Float)
  unfolding remember refuse
  apply mg user_id said thread_id source =
      let text = strip said in
      if str_eq text ""
      then pure empty_report
      else let verdict = inspect mg.gate text source in
        if allowed verdict
        then remember mg user_id text thread_id source
        else refuse user_id text thread_id verdict
