-- ===== src/Schemas.antt =====
-- engram/schemas.py: the memory record and the vocabulary around it.
pub mod Values
pub mod Active
use long_term_memory_agent.Base.{
  ℕ, String, Bool, true, false, Option, none, some, List, [], ◌∷◌, str_eq, ltb, any, if◌then◌else◌,
}
use long_term_memory_agent.Base.Texts.{◌+++◌, replace, strip}
use long_term_memory_agent.Base.Dicts.{Namespace}

abbrev pub memory_namespace : String
memory_namespace = "memories"

pub data MemoryKind : Type 0 where
  semantic episodic procedural : MemoryKind

pub data Provenance : Type 0 where
  user agent tool document : Provenance

-- The values of the two enumerations.
abbrev pub kind_name : MemoryKind → String
kind_name semantic = "semantic"
kind_name episodic = "episodic"
kind_name procedural = "procedural"

abbrev pub source_name : Provenance → String
source_name user = "user"
source_name agent = "agent"
source_name tool = "tool"
source_name document = "document"

abbrev pub same_source : Provenance → Provenance → Bool
same_source a b = str_eq (source_name a) (source_name b)

abbrev pub trusted_sources : List Provenance
trusted_sources = user ∷ agent ∷ []

unfoldable pub is_trusted : Provenance → Bool
is_trusted source = any (same_source source) trusted_sources

-- Times are microseconds since the first representable instant.
abbrev pub Datetime : Type 0
Datetime = ℕ

pub record Memory (Float : Type 0) : Type 0 where
  pub id : String
  pub user_id : String
  pub text : String
  pub kind : MemoryKind
  pub source : Provenance
  pub importance : Float
  pub created_at : Datetime
  pub updated_at : Datetime
  pub expires_at : Option Datetime
  pub superseded_by : Option String
  pub superseded_at : Option Datetime
  pub attribute : String
  pub value : String
  pub scope : String
  pub thread_id : Option String
  pub evidence : Option String

pub record Recall (Float : Type 0) : Type 0 where
  pub memory : Memory Float
  pub score : Float

module _ {Float : Type 0} where
  abbrev pub slot : Memory Float → String × String
  slot m = (m.attribute, m.scope)

  abbrev pub namespace : Memory Float → Namespace
  namespace m = (memory_namespace, m.user_id)

  unfoldable pub slot_text : Memory Float → String
  unfolding strip
  slot_text m =
      if str_eq m.attribute "" then "" else strip (replace "_" " " m.attribute +++ " " +++ m.value)
