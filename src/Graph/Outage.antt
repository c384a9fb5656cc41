-- ===== src/Graph/Outage.antt =====
-- What a failure of the model does to the write path of an agent that was made from the settings.
use long_term_memory_agent.Extract.{CandidateFact}
use long_term_memory_agent.Manager.{apply, usable_candidates, resolve_some, remember}
use long_term_memory_agent.Graph.{write_turn}
use long_term_memory_agent.Write.{empty_report, WriteReport}
use long_term_memory_agent.Manager.Effects.{Manager}
use long_term_memory_agent.Gate.{inspect, allowed}
use long_term_memory_agent.Base.Texts.{strip}
use long_term_memory_agent.World.{World}
use long_term_memory_agent.Schemas.{Provenance}
use long_term_memory_agent.Exec.{
  bind-raise, bind-ok, validation_error, ok, raise_with, Error, pure, lift, Result,
}
use long_term_memory_agent.Base.{
  [], ◌∙◌, ap, ◌≡◌, refl, String, true, false, Option, none, List, str_eq,
}
use long_term_memory_agent.Env.{Env, Message}
use long_term_memory_agent.Config.{Settings}
use long_term_memory_agent.Graph.Build.{build_writer, build_extractor}
use long_term_memory_agent.Extract.Llm.{llm_extract_raises, llm_extract, prompt, Output, other}

module _ ⦃env : Env⦄ (s : Settings env.Float)
    (structured : List Message → Result (Output env.Float)) (user_id said : String)
    (thread_id : Option String) (source : Provenance) (w : World)
    (served : str_eq s.chat_provider "stub" ≡ false)
    (managing : str_eq s.memory_writer "naive" ≡ false) (something : str_eq (strip said) "" ≡ false)
    (let_in : allowed (inspect (record { scan_trusted_content = true }) (strip said) source)
      ≡ true) where
  abbrev mg : Manager
  mg = record {
    extract = build_extractor s structured;
    gate = record { scan_trusted_content = true };
    dedupe_similarity = s.dedupe_similarity;
  }

  abbrev turn : Result (WriteReport env.Float) × World
  turn = write_turn (build_writer s structured) user_id said thread_id source w

  heard : turn ≡ remember mg user_id (strip said) thread_id source w
  unfolding build_writer write_turn apply
  heard = rw (managing, something, let_in) refl

  extracts :
      (r : Result (List (CandidateFact env.Float)))
      → llm_extract structured (strip said) ≡ r
      → lift (build_extractor s structured (strip said)) w ≡ (r, w)
  unfolding build_extractor lift
  extracts r e = rw served (ap (λ x. (x, w)) e)

  -- For the writer that is made from settings with a hosted model and the memory manager, and a turn
  -- that is not blank and that the gate lets through: where the call of the model raises, the turn
  -- has an empty report; where the model answers with nothing that validates, writing the turn raises
  -- the validation error. In both cases the state is as it was.
  pub write_turn_fails :
      ((e : Error) → structured (prompt (strip said)) ≡ raise_with e → turn ≡ (ok empty_report, w))
      × (structured (prompt (strip said)) ≡ ok (other none)
          → turn ≡ (raise_with validation_error, w))
  unfolding remember resolve_some usable_candidates pure
  write_turn_fails = (
    λ e h.
        heard
        ∙ bind-ok (lift (mg.extract (strip said))) _ w w []
            (extracts (ok []) ((llm_extract_raises structured (strip said)).1 e h)),
    λ h.
        heard
        ∙ bind-raise (lift (mg.extract (strip said))) _ w w validation_error (
            extracts (raise_with validation_error)
              ((llm_extract_raises structured (strip said)).0.1 h)),
  )
