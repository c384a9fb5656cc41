-- ===== src/Api/Routes.antt =====
-- engram/api/routes.py: the endpoints.
pub mod Guards
use long_term_memory_agent.Base.{
  ℕ, String, Bool, true, false, Option, none, some, List, [], ◌∷◌, map, length, if◌then◌else◌,
}
use long_term_memory_agent.Base.Dicts.{Dict}
use long_term_memory_agent.Api.Auth.{require_owner}
use long_term_memory_agent.Env.{Env}
use long_term_memory_agent.Exec.{pure, raise, lift, for_each, http_error, ◌>>=◌, ◌>>◌}
use long_term_memory_agent.Forget.{ForgetReport, forget_user, forget_thread, forget_memory}
use long_term_memory_agent.Graph.{Agent, TurnTrace, chat, observe, agent_quarantined, history}
use long_term_memory_agent.Read.{all_memories}
use long_term_memory_agent.Schemas.{
  Memory, MemoryKind, Provenance, user, agent, tool, document, kind_name, source_name, Recall,
}
use long_term_memory_agent.Schemas.Active.{active_now}
use long_term_memory_agent.World.{Method, filter_each}
use long_term_memory_agent.Write.{MemoryOp, MemoryDecision, write, dedupe, supersede, quarantine}

pub record DecisionOut : Type 0 where
  pub op : String
  pub candidate : String
  pub reason : String

abbrev pub op_name : MemoryOp → String
op_name write = "write"
op_name dedupe = "dedupe"
op_name supersede = "supersede"
op_name quarantine = "quarantine"

abbrev decision_out : MemoryDecision → DecisionOut
decision_out d = record { op = op_name d.op; candidate = d.candidate; reason = d.reason }

abbrev observable : Provenance → Bool
observable tool = true
observable document = true
observable _ = false

module _ ⦃env : Env⦄ where
  pub record MemoryOut : Type 0 where
    pub id : String
    pub text : String
    pub kind : String
    pub source : String
    pub attribute : String
    pub value : String
    pub importance : env.Float
    pub active : Bool
    pub created_at : String
    pub expires_at : Option String
    pub superseded_by : Option String

  abbrev date_or : Option ℕ → Option String
  date_or none = none
  date_or (some t) = some (env.isoformat t)

  -- `MemoryOut.of`
  unfoldable pub memory_out : Memory env.Float → Method MemoryOut
  memory_out m = do
    active ← active_now m
    pure (record {
      id = m.id;
      text = m.text;
      kind = kind_name m.kind;
      source = source_name m.source;
      attribute = m.attribute;
      value = m.value;
      importance = m.importance;
      active = active;
      created_at = env.isoformat m.created_at;
      expires_at = date_or m.expires_at;
      superseded_by = m.superseded_by;
    })

  pub data Request : Type 0 where
    -- user, thread, message
    post_chat : String → String → String → Request
    -- user, text, thread, source
    post_observe : String → String → Option String → Provenance → Request
    -- user, include_retired
    get_memories : String → Bool → Request
    -- user, thread
    get_history : String → String → Request
    get_quarantine : String → Request
    delete_user : String → Request
    -- user, thread
    delete_thread : String → String → Request
    -- user, memory
    delete_memory : String → String → Request

  pub data Response : Type 0 where
    chat_response : String → List MemoryOut → List MemoryOut → List DecisionOut → Response
    observe_response : List MemoryOut → List DecisionOut → Response
    -- total, active, memories
    memories_response : ℕ → ℕ → List MemoryOut → Response
    history_response : List String → Response
    quarantine_response : List (Dict env.Float) → Response
    forget_response : ForgetReport → Response
    deleted_response : String → Response

  listed : Bool → List (Memory env.Float) → Method (List (Memory env.Float))
  listed true memories = pure memories
  listed false memories = filter_each active_now memories

  observe_allowed : Bool → Agent → String → String → Option String → Provenance → Method Response
  observe_allowed false a user_id text thread_id source = raise (http_error 422)
  observe_allowed true a user_id text thread_id source = do
    report ← observe a user_id text thread_id source
    written ← for_each memory_out report.written
    pure (observe_response written (map decision_out report.decisions))

  deleted_or_not : String → Bool → Method Response
  deleted_or_not memory_id true = pure (deleted_response memory_id)
  deleted_or_not memory_id false = raise (http_error 404)

  -- The endpoints: `subject` is who asks, as `current_user` tells, and the fuel is for deletions.
  unfoldable pub chat_endpoint : Agent → Option String → String → String → String → Method Response
  chat_endpoint a subject user_id thread_id message = do
    lift (require_owner subject user_id)
    trace ← chat a user_id thread_id message
    recalled ← for_each (λ (r : Recall env.Float). memory_out r.memory) trace.recalled
    written ← for_each memory_out trace.written
    pure (chat_response trace.reply recalled written (map decision_out trace.decisions))

  unfoldable pub observe_endpoint :
      Agent → Option String → String → String → Option String → Provenance → Method Response
  unfolding observe_allowed
  observe_endpoint a subject user_id text thread_id source = do
    lift (require_owner subject user_id)
    observe_allowed (observable source) a user_id text thread_id source

  unfoldable pub list_memories : Option String → String → Bool → Method Response
  unfolding listed
  list_memories subject user_id include_retired = do
    lift (require_owner subject user_id)
    memories ← all_memories user_id 1000
    shown ← listed include_retired memories
    live ← filter_each active_now memories
    out ← for_each memory_out shown
    pure (memories_response (length memories) (length live) out)

  unfoldable pub thread_history : Option String → String → String → Method Response
  thread_history subject user_id thread_id = do
    lift (require_owner subject user_id)
    lines ← history user_id thread_id
    pure (history_response lines)

  unfoldable pub quarantine_endpoint : Option String → String → Method Response
  quarantine_endpoint subject user_id = do
    lift (require_owner subject user_id)
    held ← agent_quarantined user_id
    pure (quarantine_response held)

  unfoldable pub forget_user_endpoint : ℕ → Option String → String → Method Response
  forget_user_endpoint fuel subject user_id = do
    lift (require_owner subject user_id)
    report ← forget_user fuel user_id
    pure (forget_response report)

  unfoldable pub forget_thread_endpoint : ℕ → Option String → String → String → Method Response
  forget_thread_endpoint fuel subject user_id thread_id = do
    lift (require_owner subject user_id)
    report ← forget_thread fuel user_id thread_id
    pure (forget_response report)

  unfoldable pub forget_memory_endpoint : Option String → String → String → Method Response
  unfolding deleted_or_not
  forget_memory_endpoint subject user_id memory_id = do
    lift (require_owner subject user_id)
    found ← forget_memory user_id memory_id
    deleted_or_not memory_id found

  -- The router.
  unfoldable pub handle : ℕ → Agent → Option String → Request → Method Response
  handle fuel a subject (post_chat user_id thread_id message) =
      chat_endpoint a subject user_id thread_id message
  handle fuel a subject (post_observe user_id text thread_id source) =
      observe_endpoint a subject user_id text thread_id source
  handle fuel a subject (get_memories user_id include_retired) =
      list_memories subject user_id include_retired
  handle fuel a subject (get_history user_id thread_id) = thread_history subject user_id thread_id
  handle fuel a subject (get_quarantine user_id) = quarantine_endpoint subject user_id
  handle fuel a subject (delete_user user_id) = forget_user_endpoint fuel subject user_id
  handle fuel a subject (delete_thread user_id thread_id) =
      forget_thread_endpoint fuel subject user_id thread_id
  handle fuel a subject (delete_memory user_id memory_id) =
      forget_memory_endpoint subject user_id memory_id
