-- ===== src/Embeddings/Build.antt =====
-- engram/embeddings.py: `build_embedder`.
pub mod Fits
use long_term_memory_agent.Base.{
  false≢true, ◌≡◌, refl, ◌⊎◌, inl, inr, ℕ, zero, suc, ◌≤◌, String, true, Option, none, some, List,
  [], ◌∷◌, length, str_eq, eq_iff, if◌then◌else◌, arith, Bool-cases,
}
use long_term_memory_agent.Base.Dicts.{lookup}
use long_term_memory_agent.Config.{Settings, settings_valid, is_literal, embedder_names}
use long_term_memory_agent.Embeddings.Lengths.{length-hash_embed}
use long_term_memory_agent.Embeddings.{Vector, hashing_embeddings}
use long_term_memory_agent.Env.{Env}
use long_term_memory_agent.Exec.{Result, ok, raise_with, value_error, import_error}

unfoldable pub known_dims : List (String × ℕ)
known_dims = ("amazon.titan-embed-text-v2:0", 1024) ∷ ("amazon.titan-embed-text-v1", 1536) ∷ []

abbrev pub probe : String
probe = "engram dimension probe"

module _ ⦃env : Env⦄ where
  -- An embedder may raise, as a hosted one does where the service cannot be reached.
  abbrev pub Embedder : Type 0
  Embedder = String → Result Vector

  pub record EmbedderSpec : Type 0 where
    pub embeddings : Embedder
    pub dims : ℕ

  -- The third-party models: fastembed's by its name, if the package is installed, and Bedrock's by
  -- its identifier and region. Making one may raise, and so may embedding a text.
  pub record Vendors : Type 0 where
    pub fastembed : Option (String → Result Embedder)
    pub bedrock : String → String → Result Embedder

  -- `EmbedderSpec(embeddings, len(embeddings.embed_query(_PROBE)))`
  unfoldable pub measured : Embedder → Result Vector → Result EmbedderSpec
  measured embed (raise_with e) = raise_with e
  measured embed (ok vector) = ok (record { embeddings = embed; dims = length vector })

  unfoldable pub probed : Embedder → Result EmbedderSpec
  probed embed = measured embed (embed probe)

  -- `dims or len(embeddings.embed_query(_PROBE))`
  unfoldable pub sized : Option ℕ → Embedder → Result EmbedderSpec
  sized none embed = probed embed
  sized (some zero) embed = probed embed
  sized (some (suc k)) embed = ok (record { embeddings = embed; dims = suc k })

  -- What is done with an embedder that could be made.
  unfoldable pub once_made :
      Result Embedder → (Embedder → Result EmbedderSpec) → Result EmbedderSpec
  once_made (raise_with e) next = raise_with e
  once_made (ok embed) next = next embed

  unfoldable pub hashing_spec : ℕ → Result (String → Vector) → Result EmbedderSpec
  hashing_spec dims (ok embed) = ok (record { embeddings = λ text. ok (embed text); dims = dims })
  hashing_spec dims (raise_with e) = raise_with e

  -- `FastEmbedEmbeddings`, which imports the package and loads the model.
  unfoldable pub fastembed_spec : Option (String → Result Embedder) → String → Result EmbedderSpec
  fastembed_spec none model = raise_with import_error
  fastembed_spec (some fast) model = once_made (fast model) probed

  unfoldable pub bedrock_spec : Vendors → Settings env.Float → Result EmbedderSpec
  bedrock_spec v s =
      once_made (v.bedrock s.bedrock_embed_model_id s.aws_region)
        (sized (lookup s.bedrock_embed_model_id known_dims))

  unfoldable pub build_embedder : Vendors → Settings env.Float → Result EmbedderSpec
  build_embedder v s =
      if str_eq s.embedder "hashing"
      then hashing_spec s.hashing_embed_dims (hashing_embeddings s.hashing_embed_dims)
      else if str_eq s.embedder "fastembed"
      then fastembed_spec v.fastembed s.fastembed_model
      else if str_eq s.embedder "bedrock"
      then bedrock_spec v s
      else raise_with value_error
