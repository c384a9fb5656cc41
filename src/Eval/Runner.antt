-- ===== src/Eval/Runner.antt =====
-- engram/eval/runner.py: a case under an arm, the arms, and the sampling.
pub mod Isolation
pub mod Sampling
use long_term_memory_agent.Base.{
  ℕ, ◌+◌, ◌<◌, String, Bool, true, false, not, ◌&&◌, Option, none, some, List, [], ◌∷◌, ◌++◌, map,
  length, any, filter, str_eq, ltb, if◌then◌else◌,
}
use long_term_memory_agent.Base.Texts.{◌+++◌}
use long_term_memory_agent.Env.{Env}
use long_term_memory_agent.Eval.Cases.{
  CaseKind, EvalCase, Session, Turn, spoken_by_user, user_key, same_kind,
}
use long_term_memory_agent.Eval.Metrics.{score_answer, score_store, score_injection, count}
use long_term_memory_agent.Eval.Report.{CaseResult, ArmReport}
use long_term_memory_agent.Exec.{pure, ◌>>=◌, ◌>>◌, run_each, for_each}
use long_term_memory_agent.Graph.{Agent, chat, observe}
use long_term_memory_agent.Read.{all_memories}
use long_term_memory_agent.Schemas.Active.{active_now}
use long_term_memory_agent.Schemas.{Memory, Recall}
use long_term_memory_agent.World.{Method, filter_each}

pub record Arm : Type 0 where
  pub label : String
  pub memory : Bool
  pub writer : String

unfoldable pub arms : List Arm
arms =
    record { label = "stateless"; memory = false; writer = "naive" }
    ∷ record { label = "naive"; memory = true; writer = "naive" }
    ∷ record { label = "manager"; memory = true; writer = "manager" }
    ∷ record { label = "mem0"; memory = true; writer = "mem0" }
    ∷ []

unfoldable pub default_arms : List String
default_arms = map (λ (a : Arm). a.label) (filter (λ a. not (str_eq a.writer "mem0")) arms)

-- `[a for a in ARMS if a.label in selected]`
unfoldable pub selected_arms : Option (List String) → List Arm
selected_arms none = filter (λ a. any (str_eq a.label) default_arms) arms
selected_arms (some labels) = filter (λ a. any (str_eq a.label) labels) arms

-- The loop of `_sample_per_kind`, with the cases taken so far: `seen` counts those of each kind.
unfoldable pub sample : ℕ → List EvalCase → List EvalCase → List EvalCase
sample limit out [] = out
sample limit out (c ∷ cs) =
    let taken = count (λ (d : EvalCase). same_kind d.kind c.kind) out in
    sample limit (if ltb taken limit then out ++ c ∷ [] else out) cs

-- `_sample_per_kind`
unfoldable pub sample_per_kind : List EvalCase → ℕ → List EvalCase
sample_per_kind cases limit = sample limit [] cases

module _ ⦃env : Env⦄ where
  -- A turn of the history, by its provenance.
  unfoldable pub replay_turn : Agent → String → String → Turn → Method (Unit {0})
  replay_turn agent user thread turn =
      if spoken_by_user turn
      then chat agent user thread turn.text >> pure tt
      else observe agent user turn.text (some thread) turn.source >> pure tt

  unfoldable pub replay_session : Agent → EvalCase → Session → Method (Unit {0})
  replay_session agent case session =
      run_each (replay_turn agent (user_key case) (case.id +++ ":" +++ session.thread_id))
        session.turns

  -- `[m for m in agent.reader.all_memories(user) if m.is_active()] if memory else []`
  unfoldable pub live_stored : Bool → String → Method (List (Memory env.Float))
  live_stored true user = do memories ← all_memories user 1000; filter_each active_now memories
  live_stored false user = pure []

  -- `run_case`
  unfoldable pub run_case : Agent → EvalCase → Bool → Method CaseResult
  run_case agent case memory = do
    run_each (replay_session agent case) case.sessions
    trace ← chat agent (user_key case) (case.id +++ ":" +++ case.probe_thread_id) case.probe
    stored ← live_stored memory (user_key case)
    pure (
        let (passed, reason) = score_answer trace.reply case.expect_any case.reject_any in
        let (gold_covered, gold_total, useful, total) = score_store stored case.gold_facts in
        let (poison_blocked, poison_total) = score_injection stored case.poison_markers in
        record {
          case_id = case.id;
          kind = case.kind;
          passed = passed;
          reason = reason;
          reply = trace.reply;
          recalled = map (λ (r : Recall env.Float). r.memory.text) trace.recalled;
          stored = length stored;
          gold_covered = gold_covered;
          gold_total = gold_total;
          useful_memories = useful;
          total_memories = total;
          poison_blocked = poison_blocked;
          poison_total = poison_total;
        })

  -- `run_arm` of an arm with an agent, in a store of its own
  unfoldable pub run_arm : Agent → List EvalCase → Arm → Method ArmReport
  run_arm agent cases arm = do
    results ← for_each (λ case. run_case agent case arm.memory) cases
    pure (record { arm = arm.label; results = results })
