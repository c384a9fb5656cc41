-- ===== src/Lib.antt =====
-- A model of engram, an agent with long-term memory (src/engram), and what holds of it.
--
-- A turn of a conversation goes to the write path (memory/manager.py): the gate (memory/gate.py)
-- refuses what is not the user's word, an extractor proposes candidate facts (memory/extract.py),
-- and each candidate is added, taken for a repetition, or put in the place of what it contradicts.
-- Recall (memory/read.py) searches one user's memories and drops those that are retired or expired.
-- Deletion (memory/forget.py) removes a memory, a conversation or a user. All of them share
-- LangGraph's store, with one namespace for each kind of entry and user, and the checkpointer, which
-- keeps transcripts under keys made by threads.py. The agent (graph.py) runs recall, the model and
-- the write path for each message, and the HTTP API (api) serves the agent to authenticated users.
--
-- Files, and the code that they model:
--   * Base: texts, lists, dictionaries and Boolean tests under Python's or the library's names.
--   * Exec: methods as functions of the state that return a value or raise. What was written before
--     a raise stays written. Exec/Keeps, Exec/Yields and Exec/Runs have the rules for invariants,
--     for invariants with a property of what is returned, and for methods that always return.
--   * Regex: the patterns of `re` that the program uses, matched with backtracking.
--   * Env: what the program calls and does not implement, as a record of operations and laws: floats,
--     Unicode tables, clock, uuid4, hashes, pydantic, the store, the checkpointer, the embedding
--     model. Every other file takes it as an instance. Demo is an instance in which all laws hold.
--   * World: the state that the methods share, and the calls that read or change it.
--   * Schemas: src/engram/schemas.py (Memory, to_value, from_value, is_active).
--   * Threads: src/engram/threads.py (checkpoint_thread_id). Threads/Decode reads the JSON that it
--     writes back, for the proof that two threads do not share a key.
--   * Gate: src/engram/memory/gate.py (InjectionGate, find_injection_markers).
--   * Write: src/engram/memory/write.py (decisions, reports, NaiveMemoryWriter).
--   * Extract: src/engram/memory/extract.py (CandidateFact, turn_date, has_temporal_marker). Lexicon
--     and Rules are its RuleFactExtractor; Llm is LLMFactExtractor, with the model's structured
--     output as a parameter.
--   * Manager: src/engram/memory/manager.py (MemoryManager). Nearest, Effects and Resolve hold its
--     helpers; SlotMap is a map from slots to values, and Refine and Plan relate the
--     manager to it; the other files below it hold proofs. The list `existing`, which the code
--     changes in place, is passed on and returned.
--   * Read: src/engram/memory/read.py (MemoryReader).
--   * Forget: src/engram/memory/forget.py.
--   * Prompts: src/engram/prompts.py (build_system_prompt).
--   * Models: src/engram/models.py (StubChatModel, and what it reads out of the prompt).
--   * Embeddings: src/engram/embeddings.py (HashingEmbeddings and the choice of an embedder).
--   * Config: src/engram/config.py (the settings, their checks, and the database address).
--   * Graph: src/engram/graph.py (Agent, the nodes of its graph in their order). Graph/Build makes an
--     agent from the settings, and Graph/Outage is about the failures of its model.
--   * Api: src/engram/api (auth.py, with PyJWT as a parameter, and routes.py, with a function for each
--     endpoint and the router as a function of a request).
--   * Eval: src/engram/eval. Metrics is metrics.py; Cases is cases.py; Report is the rest of
--     metrics.py and the gates of runner.py on it; Runner plays a case to an agent (runner.py); Judge
--     is judge.py; Locomo is locomo.py, with Locomo/Benchmark for how an agent is run and graded.
--   * Examples: runs at concrete inputs.
--
-- Bounds and fuel: times are microseconds since the first representable instant, and `expiry` raises
-- past the last one. The loop of `_all_keys` takes fuel for each page; fuel for each entry of the
-- namespace is enough, since a page that is not empty has at least one. A `star` of a pattern is
-- tried at most once for each character left, which is enough, since every pattern under one reads a
-- character.
--
-- Not modelled: the command lines and the printed tables of the evaluation, the arm that runs mem0,
-- which adapts another product; LangGraph's scheduling, what FastAPI checks of a request and the
-- start of the application; the opening of stores, logging, tracing, the scripts and the CDK stack,
-- which are I/O and glue; log calls and spans inside the methods that are modelled. The clients of
-- Bedrock and fastembed are parameters, and each of their calls may raise. A write to the store
-- always succeeds: LangGraph refuses a namespace with an empty part or a period in one, so what is
-- said of methods that return holds of users that it accepts. Texts are sequences of Unicode
-- characters, so Python's lone surrogates are left out, and an entry of the store is written and
-- read as one step.
mod Base
pub mod Exec
pub mod Regex
pub mod Schemas
pub mod Env
pub mod World
pub mod Threads
pub mod Gate
pub mod Write
pub mod Extract
pub mod Manager
pub mod Read
pub mod Forget
pub mod Prompts
pub mod Config
pub mod Models
pub mod Embeddings
pub mod Graph
pub mod Api
pub mod Eval
pub mod Demo
mod Examples
