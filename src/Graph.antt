-- ===== src/Graph.antt =====
-- engram/graph.py: one turn of the agent, and what the API calls of it. The graph's nodes run in
-- order; the checkpointer keeps the messages after each. A node's state goes through JSON, which
-- gives recalls and decisions back, and memories as `from_value` reads them.
pub mod Build
pub mod Outage
pub mod Control
pub mod Isolation
use long_term_memory_agent.Base.{
  ℕ, String, Bool, true, false, ◌&&◌, Option, none, some, List, [], ◌∷◌, map, str_eq, if◌then◌else◌,
}
use long_term_memory_agent.Base.Dicts.{Dict}
use long_term_memory_agent.Base.Texts.{◌+++◌}
use long_term_memory_agent.Env.{Env, Message}
use long_term_memory_agent.Exec.{Result, ok, pure, lift, gets, for_each, ◌>>=◌, ◌>>◌}
use long_term_memory_agent.Forget.{ForgetReport, record_thread, forget_user, forget_thread}
use long_term_memory_agent.Gate.{quarantined}
use long_term_memory_agent.Manager.{apply}
use long_term_memory_agent.Manager.Effects.{Manager}
use long_term_memory_agent.Prompts.{build_system_prompt}
use long_term_memory_agent.Read.{recall}
use long_term_memory_agent.Schemas.{Memory, Recall, Provenance, user}
use long_term_memory_agent.Schemas.Values.{to_value, from_value}
use long_term_memory_agent.Threads.{checkpoint_thread_id}
use long_term_memory_agent.World.{World, Method, append_transcript}
use long_term_memory_agent.Write.{WriteReport, MemoryDecision, naive_apply}

abbrev human : String → Message
human text = record { type = "human"; content = some text }

abbrev ai : Option String → Message
ai content = record { type = "ai"; content = content }

-- The newest message of the user, or the text that was found before.
last_from : String → List Message → String
last_from found [] = found
last_from found (m ∷ ms) =
    last_from
      (elim m.content [ none ↦ found | some text ↦ if str_eq m.type "human" then text else found ])
      ms

-- `_last_human_text`
unfoldable pub last_human_text : List Message → String
unfolding last_from
last_human_text = last_from ""

abbrev text_or : Option String → String
text_or none = ""
text_or (some s) = s

module _ ⦃env : Env⦄ where
  -- The configured write path.
  pub data Writer : Type 0 where
    naive : Writer
    managed : Manager → Writer

  -- `Agent`: its model answers a system message and the messages of the thread, by a content that
  -- may not be a text.
  pub record Agent : Type 0 where
    pub model : String → List Message → Result (Option String)
    pub memory_enabled : Bool
    pub top_k : ℕ
    pub writer : Writer

  pub record TurnTrace : Type 0 where
    pub reply : String
    pub recalled : List (Recall env.Float)
    pub written : List (Memory env.Float)
    pub decisions : List MemoryDecision

  unfoldable pub write_turn :
      Writer → String → String → Option String → Provenance → Method (WriteReport env.Float)
  write_turn naive user_id text thread_id source = naive_apply user_id text thread_id source
  write_turn (managed mg) user_id text thread_id source = apply mg user_id text thread_id source

  unfoldable pub messages_of : String → Method (List Message)
  messages_of id = gets (λ w. env.messages w.transcripts id)

  -- `recall_node`, which the control arm has not.
  unfoldable pub recall_node : Bool → ℕ → String → String → Method (List (Recall env.Float))
  recall_node true top_k user_id text = recall top_k user_id text none none
  recall_node false top_k user_id text = pure []

  -- `respond_node`
  unfoldable pub respond_node : Agent → String → List (Recall env.Float) → Method (Option String)
  respond_node agent id recalled = do
    messages ← messages_of id
    content ← lift (agent.model (build_system_prompt recalled) messages)
    append_transcript id (ai content ∷ [])
    pure content

  -- `remember_node`, which the control arm has not; its memories as the trace reads them.
  unfoldable pub remember_node :
      Bool
      → Writer
      → String
      → String
      → String
      → Method (List (Memory env.Float) × List MemoryDecision)
  remember_node true writer user_id thread_id text = do
    report ← write_turn writer user_id text (some thread_id) user
    written ← for_each (λ m. lift (from_value (to_value m))) report.written
    pure (written, report.decisions)
  remember_node false writer user_id thread_id text = pure ([], [])

  -- `Agent.chat`
  unfoldable pub chat : Agent → String → String → String → Method TurnTrace
  unfolding recall_node respond_node remember_node
  chat agent user_id thread_id message = do
    id ← checkpoint_thread_id user_id thread_id
    record_thread user_id thread_id
    append_transcript id (human message ∷ [])
    asked ← messages_of id
    recalled ← recall_node agent.memory_enabled agent.top_k user_id (last_human_text asked)
    content ← respond_node agent id recalled
    answered ← messages_of id
    (written, decisions) ←
        remember_node agent.memory_enabled agent.writer user_id thread_id (last_human_text answered)
    pure (record {
      reply = text_or content;
      recalled = recalled;
      written = written;
      decisions = decisions;
    })

  -- `Agent.observe`
  unfoldable pub observe :
      Agent → String → String → Option String → Provenance → Method (WriteReport env.Float)
  observe agent user_id text thread_id source =
      write_turn agent.writer user_id text thread_id source

  -- `Agent.quarantined`: whichever gate is asked, the store is the same.
  unfoldable pub agent_quarantined : String → Method (List (Dict env.Float))
  agent_quarantined user_id = quarantined user_id 100

  -- `f"{m.type}: {m.content}"` of the messages whose content is a text.
  render_messages : List Message → List String
  render_messages [] = []
  render_messages (m ∷ ms) =
      let rest = render_messages ms in
      elim m.content [ none ↦ rest | some text ↦ (m.type +++ ": " +++ text) ∷ rest ]

  -- `Agent.history`
  unfoldable pub history : String → String → Method (List String)
  unfolding render_messages
  history user_id thread_id = do
    id ← checkpoint_thread_id user_id thread_id
    messages ← messages_of id
    pure (render_messages messages)
