-- ===== src/Write.antt =====
-- engram/memory/write.py: the decisions of the write path, and the naive baseline.
pub mod Naive
use long_term_memory_agent.Base.{
  ℕ, String, Bool, true, false, ◌&&◌, Option, none, some, List, [], ◌∷◌, not, str_eq, if◌then◌else◌,
}
use long_term_memory_agent.Base.Texts.{strip}
use long_term_memory_agent.Env.{Env}
use long_term_memory_agent.Exec.{Result, ok, raise_with, validation_error, pure, lift, ◌>>=◌, ◌>>◌}
use long_term_memory_agent.Schemas.{Memory, MemoryKind, Provenance, Datetime, semantic, namespace}
use long_term_memory_agent.Schemas.Values.{to_value}
use long_term_memory_agent.World.{Method, utcnow, uuid4, store_put}

pub data MemoryOp : Type 0 where
  write dedupe supersede quarantine : MemoryOp

pub record MemoryDecision : Type 0 where
  pub op : MemoryOp
  pub candidate : String
  pub memory_id : Option String
  pub superseded_ids : List String
  pub reason : String

pub record WriteReport (Float : Type 0) : Type 0 where
  pub written : List (Memory Float)
  pub decisions : List MemoryDecision

abbrev pub empty_report : {Float : Type 0} → WriteReport Float
empty_report = record { written = []; decisions = [] }

module _ ⦃env : Env⦄ where
  -- The arguments that a caller of `Memory(…)` gives; the rest are defaults.
  pub record NewMemory : Type 0 where
    pub user_id : String
    pub text : String
    pub kind : MemoryKind
    pub source : Provenance
    pub importance : env.Float
    pub expires_at : Option Datetime
    pub attribute : String
    pub value : String
    pub scope : String
    pub thread_id : Option String
    pub evidence : Option String

  -- The constraints that pydantic checks in `Memory(…)`.
  unfoldable pub checked : Memory env.Float → Result (Memory env.Float)
  checked m =
      if not (str_eq m.text "") && env.le env.zero m.importance && env.le m.importance env.one
      then ok m
      else raise_with validation_error

  -- The memory with its defaults filled in.
  abbrev pub made : NewMemory → String → Datetime → Datetime → Memory env.Float
  made new id created updated = record {
    id = id;
    user_id = new.user_id;
    text = new.text;
    kind = new.kind;
    source = new.source;
    importance = new.importance;
    created_at = created;
    updated_at = updated;
    expires_at = new.expires_at;
    superseded_by = none;
    superseded_at = none;
    attribute = new.attribute;
    value = new.value;
    scope = new.scope;
    thread_id = new.thread_id;
    evidence = new.evidence;
  }

  -- `Memory(…)`: the defaults are made in the order of the fields, then the constraints checked.
  unfoldable pub create : NewMemory → Method (Memory env.Float)
  create new = do
    id ← uuid4
    created ← utcnow
    updated ← utcnow
    lift (checked (made new id created updated))

  -- `self._store.put(memory.namespace(), memory.id, memory.to_value())`
  unfoldable pub save : Memory env.Float → Method (Unit {0})
  save m = store_put (namespace m) m.id (to_value m) true

  -- What the baseline makes of a turn.
  abbrev pub new_turn : String → String → Option String → Provenance → NewMemory
  new_turn user_id text thread_id source = record {
    user_id = user_id;
    text = text;
    kind = semantic;
    source = source;
    importance = env.half;
    expires_at = none;
    attribute = "";
    value = "";
    scope = "";
    thread_id = thread_id;
    evidence = some text;
  }

  unfoldable store_turn :
      String → String → Option String → Provenance → Method (WriteReport env.Float)
  store_turn user_id text thread_id source = do
    memory ← create (new_turn user_id text thread_id source)
    save memory
    pure (record {
      written = memory ∷ [];
      decisions =
          record {
            op = write;
            candidate = text;
            memory_id = some memory.id;
            superseded_ids = [];
            reason = "";
          }
          ∷ [];
    })

  -- `NaiveMemoryWriter.apply`
  unfoldable pub naive_apply :
      String → String → Option String → Provenance → Method (WriteReport env.Float)
  unfolding store_turn
  naive_apply user_id said thread_id source =
      let text = strip said in
      if str_eq text "" then pure empty_report else store_turn user_id text thread_id source
