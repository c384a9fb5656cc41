-- ===== src/Eval/Locomo/Benchmark.antt =====
-- engram/eval/locomo.py: how an agent is run on a LoCoMo conversation, and its answers judged.
use long_term_memory_agent.Schemas.Active.{active_now}
use long_term_memory_agent.Read.{all_memories}
use long_term_memory_agent.Eval.Locomo.{
  rendered, LocomoTurn, is_adversarial, LocomoConversation, LocomoQuestion, LocomoSession,
}
use long_term_memory_agent.Base.{
  ◌++◌, ℕ, zero, suc, ◌+◌, String, Bool, true, false, not, ◌&&◌, Option, none, some, List, [], ◌∷◌,
  filter, length, take, str_eq, ◌==◌, is_empty, if◌then◌else◌,
}
use long_term_memory_agent.Base.Texts.{◌+++◌, contains}
use long_term_memory_agent.Env.{Env}
use long_term_memory_agent.Eval.Judge.{Judge, Verdict}
use long_term_memory_agent.Eval.Metrics.{count}
use long_term_memory_agent.Exec.{Result, ok, pure, lift, ◌>>=◌, ◌>>◌}
use long_term_memory_agent.Gate.Markers.{edge}
use long_term_memory_agent.Graph.{Agent, chat, observe}
use long_term_memory_agent.Regex.Build.{text, texts, seqs, one_of, optional}
use long_term_memory_agent.Regex.{Regex, is_found}
use long_term_memory_agent.Schemas.{user}
use long_term_memory_agent.World.{filter_each, Method}

pub record LocomoResult : Type 0 where
  pub sample_id : String
  pub question : String
  pub category : ℕ
  pub gold : String
  pub answer : String
  pub correct : Bool
  pub reason : String

pub record LocomoReport : Type 0 where
  pub arm : String
  pub results : List LocomoResult
  pub turns_ingested : ℕ
  pub memories_stored : ℕ

abbrev of_category : Option ℕ → LocomoResult → Bool
of_category none r = true
of_category (some n) r = r.category == n

-- `LocomoReport.count`
unfoldable pub locomo_count : LocomoReport → Option ℕ → ℕ
locomo_count report category = length (filter (of_category category) report.results)

module _ ⦃env : Env⦄ where
  -- `LocomoReport.accuracy`
  unfoldable pub accuracy : LocomoReport → Option ℕ → env.Float
  accuracy report category =
      let subset = filter (of_category category) report.results in
      if is_empty subset
      then env.zero
      else env.div (env.of_nat (count (λ (r : LocomoResult). r.correct) subset))
          (env.of_nat (length subset))

  -- `_REFUSAL`
  unfoldable pub refusal : Regex
  unfolding seqs texts text one_of
  refusal = seqs (
      edge
      ∷ one_of (
          texts ("no information available" ∷ "not mentioned" ∷ "no information" ∷ [])
          ∷ seqs (text "don" ∷ optional (text "'") ∷ text "t know" ∷ [])
          ∷ text "do not know"
          ∷ seqs (text "isn" ∷ optional (text "'") ∷ text "t mentioned" ∷ [])
          ∷ texts ("was not mentioned" ∷ "no record" ∷ "nothing about" ∷ [])
          ∷ seqs (text "cannot " ∷ texts ("tell" ∷ "say" ∷ "determine" ∷ []) ∷ [])
          ∷ seqs (
              text "can"
              ∷ optional (text "'")
              ∷ text "t "
              ∷ texts ("tell" ∷ "say" ∷ "determine" ∷ [])
              ∷ [])
          ∷ seqs (
              text "not "
              ∷ texts ("stated" ∷ "specified" ∷ "available" ∷ "provided" ∷ "something i" ∷ [])
              ∷ [])
          ∷ seqs (text "nothing " ∷ texts ("stored" ∷ "in my memory" ∷ []) ∷ [])
          ∷ texts ("no memory of" ∷ "never mentioned" ∷ [])
          ∷ [])
      ∷ edge
      ∷ [])

  -- `declines_to_answer`
  unfoldable pub declines_to_answer : String → Bool
  declines_to_answer answer = is_found refusal answer

  unfoldable pub fell_for_it : LocomoQuestion → String → Bool
  fell_for_it q answer =
      not (str_eq q.distractor "") && contains (env.lower q.distractor) (env.lower answer)

  -- The verdict on an answer to an adversarial question.
  unfoldable pub refused : LocomoQuestion → String → Verdict
  unfolding fell_for_it
  refused q answer =
      if declines_to_answer answer
      then record { correct = true; reason = "declined a question with a false premise" }
      else record {
        correct = false;
        reason = if fell_for_it q answer then "repeated the trap answer" else "answered anyway";
      }

  -- `score_locomo_answer`
  unfoldable pub score_locomo_answer : LocomoQuestion → String → Judge → Result Verdict
  unfolding refused
  score_locomo_answer q answer judge =
      if is_adversarial q then ok (refused q answer) else judge q.question q.answer answer

  -- The turns of one session, and of all sessions: how many were observed.
  unfoldable pub ingest_turns : Agent → String → LocomoSession → List LocomoTurn → Method ℕ
  ingest_turns agent id session [] = pure 0
  ingest_turns agent id session (t ∷ ts) = do
    observe agent id (rendered t session.date_time) (some session.key) user
    more ← ingest_turns agent id session ts
    pure (1 + more)

  unfoldable pub ingest : Agent → String → List LocomoSession → Method ℕ
  ingest agent id [] = pure 0
  ingest agent id (s ∷ ss) = do
    here ← ingest_turns agent id s s.turns
    more ← ingest agent id ss
    pure (here + more)

  -- The questions from the `i`-th on, each in a thread of its own; `show` writes a number.
  unfoldable pub ask :
      Agent → Judge → (ℕ → String) → String → ℕ → List LocomoQuestion → Method (List LocomoResult)
  ask agent judge show id i [] = pure []
  ask agent judge show id i (q ∷ qs) = do
    trace ← chat agent id (id +++ ":q" +++ show i) q.question
    verdict ← lift (score_locomo_answer q trace.reply judge)
    rest ← ask agent judge show id (1 + i) qs
    pure (
        record {
          sample_id = id;
          question = q.question;
          category = q.category;
          gold = q.answer;
          answer = trace.reply;
          correct = verdict.correct;
          reason = verdict.reason;
        }
        ∷ rest)

  -- `conversation.questions[:max_questions] if max_questions else conversation.questions`
  unfoldable pub asked : Option ℕ → List LocomoQuestion → List LocomoQuestion
  asked none qs = qs
  asked (some zero) qs = qs
  asked (some (suc n)) qs = take (suc n) qs

  -- `run_conversation`
  unfoldable pub run_conversation :
      Agent → LocomoConversation → Judge → (ℕ → String) → Option ℕ → Method (List LocomoResult × ℕ)
  run_conversation agent conversation judge show max_questions = do
    ingested ← ingest agent conversation.sample_id conversation.sessions
    results ←
        ask agent judge show conversation.sample_id 0 (asked max_questions conversation.questions)
    pure (results, ingested)

  -- The loop of `run_locomo`: the results, the turns observed and the memories that are live after
  -- each conversation.
  unfoldable pub run_conversations :
      Agent
      → Judge
      → (ℕ → String)
      → Option ℕ
      → List LocomoConversation
      → Method (List LocomoResult × ℕ × ℕ)
  run_conversations agent judge show max_questions [] = pure ([], 0, 0)
  run_conversations agent judge show max_questions (c ∷ cs) = do
    (results, ingested) ← run_conversation agent c judge show max_questions
    memories ← all_memories c.sample_id 1000
    live ← filter_each active_now memories
    (more_results, more_ingested, more_stored) ← run_conversations agent judge show max_questions cs
    pure (results ++ more_results, ingested + more_ingested, length live + more_stored)

  -- `run_locomo`, for the agent with the writer `arm` over the backend that was opened for it
  unfoldable pub run_locomo :
      Agent
      → List LocomoConversation
      → Judge
      → (ℕ → String)
      → String
      → Option ℕ
      → Method LocomoReport
  run_locomo agent conversations judge show arm max_questions = do
    (results, ingested, stored) ← run_conversations agent judge show max_questions conversations
    pure (record {
      arm = arm;
      results = results;
      turns_ingested = ingested;
      memories_stored = stored;
    })
