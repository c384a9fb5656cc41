-- ===== src/Graph/Build.antt =====
-- How an agent is made from the settings: `Agent.__init__`, `build_writer` and `build_extractor`. The
-- chat model is given by what it answers, as a text and in the shape that extraction asks for.
use long_term_memory_agent.Extract.Rules.{rule_extract}
use long_term_memory_agent.Graph.{managed, Agent, naive, Writer}
use long_term_memory_agent.Extract.{CandidateFact}
use long_term_memory_agent.Extract.Llm.{llm_extract, Output}
use long_term_memory_agent.Exec.{ok, Result}
use long_term_memory_agent.Base.{
  String, Bool, true, Option, none, some, List, str_eq, if◌then◌else◌,
}
use long_term_memory_agent.Env.{Env, Message}
use long_term_memory_agent.Config.{Settings}

module _ ⦃env : Env⦄ (s : Settings env.Float)
    (structured : List Message → Result (Output env.Float)) where
  -- `build_extractor` of memory/extract.py
  unfoldable pub build_extractor : String → Result (List (CandidateFact env.Float))
  build_extractor turn =
      if str_eq s.chat_provider "stub" then ok (rule_extract turn) else llm_extract structured turn

  -- `build_writer`, which leaves the gate to the default of `MemoryManager`
  unfoldable pub build_writer : Writer
  build_writer =
      if str_eq s.memory_writer "naive"
      then naive
      else managed (record {
        extract = build_extractor;
        gate = record { scan_trusted_content = true };
        dedupe_similarity = s.dedupe_similarity;
      })

  -- `Agent.__init__`, with the writer that is given if any
  unfoldable pub build_agent :
      (String → List Message → Result (Option String)) → Bool → Option Writer → Agent
  build_agent model memory none = record {
    model = model;
    memory_enabled = memory;
    top_k = s.recall_top_k;
    writer = build_writer;
  }
  build_agent model memory (some writer) = record {
    model = model;
    memory_enabled = memory;
    top_k = s.recall_top_k;
    writer = writer;
  }
