-- ===== src/Extract.antt =====
-- engram/memory/extract.py: candidate facts.
pub mod Patterns
pub mod Lexicon
pub mod Rules
pub mod Facts
pub mod Llm
use long_term_memory_agent.Base.{ℕ, zero, suc, String, Option, none, some}
use long_term_memory_agent.Schemas.{MemoryKind}

-- Python's integers; `negsuc n` is -(n + 1).
pub data ℤ : Type 0 where
  pos : ℕ → ℤ
  negsuc : ℕ → ℤ

pub record CandidateFact (Float : Type 0) : Type 0 where
  pub text : String
  pub attribute : String
  pub value : String
  pub scope : String
  pub kind : MemoryKind
  pub importance : Float
  -- positive, by the validator
  pub ttl_days : Option ℕ

-- `_zero_means_durable`
unfoldable pub zero_means_durable : Option ℤ → Option ℕ
zero_means_durable none = none
zero_means_durable (some (pos zero)) = none
zero_means_durable (some (pos (suc n))) = some (suc n)
zero_means_durable (some (negsuc n)) = none
