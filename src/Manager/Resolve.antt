-- ===== src/Manager/Resolve.antt =====
-- `_resolve` of engram/memory/manager.py: the fate of one candidate against what is known.
use long_term_memory_agent.Base.{
  String, Bool, not, ◌&&◌, Option, none, some, List, [], ◌∷◌, filter, find?, map, str_eq,
  if◌then◌else◌,
}
use long_term_memory_agent.Base.Texts.{◌+++◌, join}
use long_term_memory_agent.Env.{Env}
use long_term_memory_agent.Exec.{pure, ◌>>=◌, ◌>>◌}
use long_term_memory_agent.Extract.{CandidateFact}
use long_term_memory_agent.Manager.Nearest.{nearest}
use long_term_memory_agent.Schemas.{Memory, Provenance}
use long_term_memory_agent.World.{Method}
use long_term_memory_agent.Write.{MemoryDecision, write, dedupe, supersede, save}
use long_term_memory_agent.Manager.Effects.{Manager, norm, build, reinforce, retire_all}

module _ ⦃env : Env⦄ where
  -- `m.attribute == candidate.attribute and m.scope == candidate.scope`
  abbrev pub fills : CandidateFact env.Float → Memory env.Float → Bool
  fills c m = str_eq m.attribute c.attribute && str_eq m.scope c.scope

  abbrev pub states : CandidateFact env.Float → Memory env.Float → Bool
  states c m = str_eq (norm m.value) (norm c.value)

  abbrev pub Outcome : Type 0
  Outcome = MemoryDecision × Option (Memory env.Float) × List (Memory env.Float)

  unfoldable pub confirm :
      CandidateFact env.Float → String → Memory env.Float → List (Memory env.Float) → Method Outcome
  confirm c reason known existing = do
    existing' ← reinforce known existing
    pure (
      record {
        op = dedupe;
        candidate = c.text;
        memory_id = some known.id;
        superseded_ids = [];
        reason = reason;
      },
      none,
      existing',
    )

  unfoldable pub contradict :
      CandidateFact env.Float
      → List (Memory env.Float)
      → List (Memory env.Float)
      → String
      → Option String
      → Provenance
      → Method Outcome
  contradict c same_slot existing user_id thread_id source = do
    memory ← build c user_id thread_id source
    save memory
    existing' ← retire_all same_slot memory.id existing
    pure (
      record {
        op = supersede;
        candidate = c.text;
        memory_id = some memory.id;
        superseded_ids = map (λ (m : Memory env.Float). m.id) same_slot;
        reason =
            c.attribute
            +++ ": "
            +++ join ", " (map (λ (m : Memory env.Float). m.value) same_slot)
            +++ " -> "
            +++ c.value;
      },
      some memory,
      existing',
    )

  unfoldable pub add :
      CandidateFact env.Float
      → List (Memory env.Float)
      → String
      → Option String
      → Provenance
      → Method Outcome
  add c existing user_id thread_id source = do
    memory ← build c user_id thread_id source
    save memory
    pure (
      record {
        op = write;
        candidate = c.text;
        memory_id = some memory.id;
        superseded_ids = [];
        reason = "";
      },
      some memory,
      existing,
    )

  -- `_resolve` of a slotted candidate: what is known of its slot is `same_slot`, and `duplicate`
  -- states the same value.
  unfoldable pub resolve_slotted :
      CandidateFact env.Float
      → Option (Memory env.Float)
      → List (Memory env.Float)
      → List (Memory env.Float)
      → String
      → Option String
      → Provenance
      → Method Outcome
  resolve_slotted c (some known) same_slot existing user_id thread_id source =
      confirm c ("already knew " +++ c.attribute +++ "=" +++ c.value) known existing
  resolve_slotted c none [] existing user_id thread_id source =
      add c existing user_id thread_id source
  resolve_slotted c none (m ∷ ms) existing user_id thread_id source =
      contradict c (m ∷ ms) existing user_id thread_id source

  unfoldable pub resolve_unslotted :
      CandidateFact env.Float
      → Option (Memory env.Float)
      → List (Memory env.Float)
      → String
      → Option String
      → Provenance
      → Method Outcome
  resolve_unslotted c (some near) existing user_id thread_id source =
      confirm c "near-duplicate of an existing memory" near existing
  resolve_unslotted c none existing user_id thread_id source =
      add c existing user_id thread_id source

  -- `_resolve`; returns the decision, the memory written if any, and `existing` afterwards
  unfoldable pub resolve :
      Manager
      → CandidateFact env.Float
      → List (Memory env.Float)
      → String
      → Option String
      → Provenance
      → Method Outcome
  resolve mg c existing user_id thread_id source =
      let same_slot = filter (fills c) existing in
      if not (str_eq c.attribute "")
      then resolve_slotted c (find? (states c) same_slot) same_slot existing user_id thread_id
          source
      else do
        near ← nearest mg.dedupe_similarity c.text existing
        resolve_unslotted c near existing user_id thread_id source
