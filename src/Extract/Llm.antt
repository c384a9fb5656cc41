-- ===== src/Extract/Llm.antt =====
-- engram/memory/extract.py: `LLMFactExtractor`, over the answer of the chat model.
use long_term_memory_agent.Base.{◌≡◌, refl, ◌↔◌, String, Option, none, some, List, [], ◌∷◌}
use long_term_memory_agent.Base.Texts.{◌+++◌}
use long_term_memory_agent.Env.{Env, Message}
use long_term_memory_agent.Exec.{Error, Result, ok, raise_with, validation_error}
use long_term_memory_agent.Extract.{CandidateFact}

unfoldable pub extraction_system : String
extraction_system =
    "You extract durable facts about a user from one conversational turn, so an ass"
    +++ "istant can remember them in later sessions.\n" +++ "\n"
    +++ "Return facts ONLY when the turn states something about the user that would sti"
    +++ "ll be useful weeks from now: preferences, tools they use, where they live, the"
    +++ "ir role or team, constraints, dietary needs, and standing instructions about h"
    +++ "ow they want things done.\n" +++ "\n"
    +++ "Most turns contain nothing. Small talk, status updates, complaints about the o"
    +++ "ffice, questions, and requests are NOT facts about the user:\n"
    +++ "  \"Morning! The coffee machine is broken again.\"  -> no facts\n"
    +++ "  \"Did you see the standup notes?\"                -> no facts\n"
    +++ "  \"Scaffold me a test for the refund endpoint.\"   -> no facts\n"
    +++ "  \"We finally shipped the dashboard on Friday.\"   -> no facts\n" +++ "\n"
    +++ "A QUESTION IS NEVER A FACT. When the user asks about something, they are telli"
    +++ "ng you they do not know it — that is the opposite of stating it. Never turn th"
    +++ "e subject of a question into a slot:\n"
    +++ "  \"Which team am I on again?\"        -> no facts (NOT team=\"\")\n"
    +++ "  \"What access do I have?\"           -> no facts (NOT access=\"unknown\")\n"
    +++ "  \"Where did I say I lived?\"         -> no facts\n"
    +++ "  \"Who should review my change?\"     -> no facts\n" +++ "\n"
    +++ "Never emit a fact whose `value` is empty, \"unknown\", or \"unspecified\". If you "
    +++ "do not know the value, there is no fact — return nothing.\n" +++ "\n"
    +++ "Returning an empty list is the common, correct answer. Inventing facts to seem"
    +++ " useful is the main failure mode.\n" +++ "\n" +++ "For each fact:\n"
    +++ "- `text` — a self-contained sentence in the third person, understandable with "
    +++ "no other context. Write \"Prefers pytest for testing\", not \"yeah I like it\".\n" +++ "\n"
    +++ "  If the turn begins with a date in brackets, that is when it was said. RESOLV"
    +++ "E relative time against it and write the resolved date into the fact. A memory"
    +++ " that still says \"yesterday\" is anchored to nothing and can never answer a que"
    +++ "stion about when something happened:\n"
    +++ "    \"[7 May 2023] Caroline: I went to the support group yesterday\"\n"
    +++ "      -> \"Caroline went to the LGBTQ support group on 6 May 2023\"\n"
    +++ "    \"[25 May 2023] Melanie: I ran a charity race last Sunday\"\n"
    +++ "      -> \"Melanie ran a charity race on Sunday 21 May 2023\"\n"
    +++ "    \"[3 June 2023] Sam: I'm moving to Berlin next month\"\n"
    +++ "      -> \"Sam is moving to Berlin in July 2023\"\n"
    +++ "  Never carry \"yesterday\", \"last week\", \"next month\" or \"recently\" into a fact"
    +++ " unresolved. Do not put the bracketed date in the fact verbatim — resolve it.\n"
    +++ "- `attribute` — a short snake_case slot key. Two facts that cannot both be tru"
    +++ "e at once MUST share an attribute, and the same fact restated later MUST get t"
    +++ "he same key, so prefer one of these wherever it fits:\n"
    +++ "  team, role, employer, location, timezone, working_hours, language,   testing"
    +++ "_framework, web_framework, database, editor, deploy_tool, cloud, os,   diet, a"
    +++ "llergy, accessibility, pet_name, communication_preference\n"
    +++ "  Invent a new snake_case key only when none of them fits, and keep it generic"
    +++ " (`editor`, not `preferred_code_editor`). Leave it empty for standing instruct"
    +++ "ions that do not name a property of the user.\n"
    +++ "- `value` — the value filling the slot, normalised and short: \"platform\", \"Ber"
    +++ "lin\", \"pytest\".\n"
    +++ "- `scope` — set only when two values of the same attribute can genuinely both "
    +++ "be true (a work address and a home address). Otherwise leave it empty.\n"
    +++ "- `kind` — `semantic` for durable facts, `episodic` for things that happened, "
    +++ "`procedural` for standing instructions about how to do things.\n"
    +++ "- `importance` — 0 to 1. Standing preferences and constraints score high.\n"
    +++ "- `ttl_days` — null for almost everything. Set a number ONLY when the user's o"
    +++ "wn words mark the state as temporary. Do not invent an expiry for something th"
    +++ "at simply feels like it might change one day.\n"
    +++ "  \"I'm debugging a flaky test today\"   -> ttl_days: 1\n"
    +++ "  \"I'm on call this week\"              -> ttl_days: 7\n"
    +++ "  \"I prefer pytest\"                    -> ttl_days: null\n"
    +++ "  \"I've relocated to Berlin\"           -> ttl_days: null\n"
    +++ "  \"I'm on the payments team\"           -> ttl_days: null\n"
    +++ "  Never use 0. A 0 means \"expired already\" and throws the fact away.\n"

-- `ExtractionResult`
pub record ExtractionResult (Float : Type 0) : Type 0 where
  pub facts : List (CandidateFact Float)

-- What `invoke` returns: the record, or something else, which may or may not validate as one.
pub data Output (Float : Type 0) : Type 0 where
  parsed : ExtractionResult Float → Output Float
  other : Option (ExtractionResult Float) → Output Float

module _ ⦃env : Env⦄ where
  facts_of : Output env.Float → Result (List (CandidateFact env.Float))
  facts_of (parsed r) = ok r.facts
  facts_of (other (some r)) = ok r.facts
  facts_of (other none) = raise_with validation_error

  -- `extract`: an exception of the model is caught, one of `model_validate` is not.
  caught : Result (Output env.Float) → Result (List (CandidateFact env.Float))
  unfolding facts_of
  caught (raise_with e) = ok []
  caught (ok output) = facts_of output

  abbrev pub prompt : String → List Message
  prompt turn =
      record { type = "system"; content = some extraction_system }
      ∷ record { type = "human"; content = some turn }
      ∷ []

  -- `LLMFactExtractor.extract`, for a model given by what `invoke` returns.
  unfoldable pub llm_extract :
      (List Message → Result (Output env.Float)) → String → Result (List (CandidateFact env.Float))
  unfolding caught
  llm_extract invoke turn = caught (invoke (prompt turn))

  caught_iff :
      (r : Result (Output env.Float))
      → (caught r ≡ raise_with validation_error) ↔ (r ≡ ok (other none))
  unfolding caught
  caught_iff (raise_with e) = (λ h. absurd cc, λ h. absurd cc)
  caught_iff (ok (parsed r)) = (λ h. absurd cc, λ h. absurd cc)
  caught_iff (ok (other (some r))) = (λ h. absurd cc, λ h. absurd cc)
  caught_iff (ok (other none)) = (λ h. refl, λ h. refl)

  -- Extraction with the model raises exactly where the model's answer is neither the structured
  -- record nor something that validates as one; where the call of the model itself raises, the
  -- turn has no facts.
  pub llm_extract_raises :
      (invoke : List Message → Result (Output env.Float)) (turn : String)
      → ((llm_extract invoke turn ≡ raise_with validation_error)
          ↔ (invoke (prompt turn) ≡ ok (other none)))
        × ((e : Error) → invoke (prompt turn) ≡ raise_with e → llm_extract invoke turn ≡ ok [])
  unfolding llm_extract
  llm_extract_raises invoke turn = (caught_iff (invoke (prompt turn)), λ e h. rw h)
