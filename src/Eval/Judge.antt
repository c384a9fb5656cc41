-- ===== src/Eval/Judge.antt =====
-- engram/eval/judge.py: the grading of an answer.
use long_term_memory_agent.Base.{
  String, Bool, false, Option, none, some, List, [], ◌∷◌, str_eq, if◌then◌else◌,
}
use long_term_memory_agent.Base.Texts.{◌+++◌, strip, contains}
use long_term_memory_agent.Config.{Settings}
use long_term_memory_agent.Env.{Env, Message}
use long_term_memory_agent.Exec.{
  Result, Error, ok, raise_with, validation_error, value_error, overflow_error, import_error,
  legacy_thread_error, attribute_error,
}

pub record Verdict : Type 0 where
  pub correct : Bool
  pub reason : String

unfoldable pub judge_system : String
judge_system =
    "You grade an assistant's answer against a known-correct answer.\n" +++ "\n"
    +++ "Mark it correct when the answer conveys the same fact, however it is worded. P"
    +++ "araphrase, extra detail, a different date format, or a fuller sentence are all"
    +++ " fine — you are grading the information, not the phrasing.\n" +++ "\n"
    +++ "Mark it incorrect when the answer states something that contradicts the gold a"
    +++ "nswer, omits the fact entirely, hedges without committing to it, or says it do"
    +++ "es not know. An answer that lists the right fact among several guesses is inco"
    +++ "rrect: guessing broadly enough to include the truth is not remembering it.\n" +++ "\n"
    +++ "Give one short sentence of justification.\n"

-- What `invoke` returns: a verdict, or something else, which may or may not validate as one.
pub data Graded : Type 0 where
  verdict : Verdict → Graded
  other : Option Verdict → Graded

-- `type(exc).__name__`
unfoldable pub error_name : Error → String
error_name validation_error = "ValidationError"
error_name value_error = "ValueError"
error_name overflow_error = "OverflowError"
error_name attribute_error = "AttributeError"
error_name import_error = "ImportError"
error_name legacy_thread_error = "LegacyThreadError"
error_name e = "Exception"

-- The end of `LLMJudge.score`, from what the call of the model came to.
unfoldable pub graded : Result Graded → Result Verdict
graded (raise_with e) = ok (record { correct = false; reason = "judge error: " +++ error_name e })
graded (ok (verdict v)) = ok v
graded (ok (other (some v))) = ok v
graded (ok (other none)) = raise_with validation_error

unfoldable pub judge_prompt : String → String → String → List Message
judge_prompt question gold answer =
    record { type = "system"; content = some judge_system }
    ∷ record {
      type = "human";
      content = some (
          "Question: " +++ question +++ "\nKnown-correct answer: " +++ gold
          +++ "\nAssistant's answer: " +++ answer);
    }
    ∷ []

-- `score` of a judge: the question, the gold answer and the answer.
abbrev pub Judge : Type 0
Judge = String → String → String → Result Verdict

unfoldable pub llm_judge : (List Message → Result Graded) → Judge
llm_judge invoke question gold answer = graded (invoke (judge_prompt question gold answer))

module _ ⦃env : Env⦄ where
  unfoldable pub substring_judge : Judge
  substring_judge question gold answer =
      let hit = contains (env.lower (strip gold)) (env.lower answer) in
      ok (record {
        correct = hit;
        reason = if hit then "gold answer present verbatim" else "gold answer not found";
      })

  -- `build_judge`, with the model that is given and the one that Bedrock would serve
  unfoldable pub build_judge :
      Settings env.Float
      → Option (List Message → Result Graded)
      → (String → List Message → Result Graded)
      → Judge
  build_judge s model bedrock =
      if str_eq s.chat_provider "stub" then substring_judge else elim model [
        | some invoke ↦ llm_judge invoke
        | none ↦ llm_judge (bedrock s.bedrock_reasoning_model_id)
      ]
