-- ===== src/Read.antt =====
-- engram/memory/read.py: recall over one user's memories.
pub mod Best
pub mod Lapse
use long_term_memory_agent.Base.{
  ℕ, ◌*◌, String, ◌&&◌, Option, none, some, List, [], ◌∷◌, ◌++◌, ◌==◌, length, str_eq,
  if◌then◌else◌,
}
use long_term_memory_agent.Base.Texts.{strip}
use long_term_memory_agent.Env.{Env, Item}
use long_term_memory_agent.Exec.{pure, lift, for_each, ◌>>=◌}
use long_term_memory_agent.Schemas.{Memory, Recall, Datetime, memory_namespace}
use long_term_memory_agent.Schemas.Active.{is_active}
use long_term_memory_agent.Schemas.Values.{from_value}
use long_term_memory_agent.World.{Method, store_search}

abbrev pub overfetch : ℕ
overfetch = 3

-- `limit or self._top_k`
abbrev pub limit_or : Option ℕ → ℕ → ℕ
limit_or none top_k = top_k
limit_or (some n) top_k = if n == 0 then top_k else n

module _ ⦃env : Env⦄ where
  -- `item.score or 0.0`
  abbrev pub score_or : Option env.Float → env.Float
  score_or none = env.zero
  score_or (some x) = x

  -- The loop of `recall`, with the recalls made so far.
  unfoldable pub collect :
      ℕ
      → Option Datetime
      → List (Item env.Float)
      → List (Recall env.Float)
      → Method (List (Recall env.Float))
  collect k now [] recalls = pure recalls
  collect k now (i ∷ items) recalls = do
    memory ← lift (from_value i.value)
    active ← is_active now memory
    let recalls' = recalls ++ record { memory = memory; score = score_or i.score } ∷ []
    let next = if active then recalls' else recalls
    let rest = collect k now items next
    if active && length recalls' == k then pure recalls' else rest

  -- `MemoryReader.recall`
  unfoldable pub recall :
      ℕ → String → String → Option ℕ → Option Datetime → Method (List (Recall env.Float))
  unfolding collect
  recall top_k user_id query limit now =
      let k = limit_or limit top_k in
      if str_eq (strip query) "" then pure [] else do
        items ← store_search (memory_namespace, user_id) (some query) (k * overfetch) 0
        collect k now items []

  -- `MemoryReader.all_memories`
  unfoldable pub all_memories : String → ℕ → Method (List (Memory env.Float))
  all_memories user_id limit = do
    items ← store_search (memory_namespace, user_id) none limit 0
    for_each (λ (i : Item env.Float). lift (from_value i.value)) items
