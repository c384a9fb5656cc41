-- ===== src/Examples/Configured.antt =====
-- Settings, and what is built from them.
use long_term_memory_agent.Exec.{raise_with}
use long_term_memory_agent.Embeddings.Lengths.{length-zeros}
use long_term_memory_agent.Base.Dicts.{lookup}
use long_term_memory_agent.Base.{
  inr, subst, inl, Bool-cases, length, str_eq, List, String, if◌then◌else◌, ap, ◌∙◌, some, ◌≢◌,
  Option, [], All, ◌∷◌, none, ◌≡◌, refl, ℕ,
}
use long_term_memory_agent.Config.Dsn.{read_dsn, read_dsn-resolved}
use long_term_memory_agent.Config.{
  cognito_valid, log_formats, otel_exporters, writer_names, store_backends, is_unreserved,
  embedder_names, utf8, hex_from, chat_providers, auth_modes, percent, percents, in_range,
  is_literal, quote_char, checks, auth_part, Settings, default_settings, settings_valid,
  resolved_dsn, quote_plus,
}
use long_term_memory_agent.Demo.{demo}
use long_term_memory_agent.Embeddings.Build.{known_dims, Vendors, Embedder, build_embedder}
use long_term_memory_agent.Embeddings.Build.Fits.{
  Documented, HasLength, Outcome, build_embedder_fits,
}
use long_term_memory_agent.Exec.{Result, ok, value_error}
use long_term_memory_agent.Embeddings.Words.{IsWord, words-IsWord}
use long_term_memory_agent.Embeddings.{is_stopword, tokens, zeros, words}

abbrev local : Settings demo.Float
local = default_settings 300 9

abbrev deployed : Settings demo.Float
deployed = record local { postgres_host = "db"; postgres_password = "p@ss:w/é" }

deployed_dsn : resolved_dsn deployed ≡ "postgresql://engram:p%40ss%3Aw%2F%C3%A9@db:5432/engram"
unfolding resolved_dsn auth_part quote_plus quote_char percents percent hex_from utf8 is_unreserved
deployed_dsn = refl

read_dsn-resolved_example :
    read_dsn (resolved_dsn deployed)
    ≡ (quote_plus deployed.postgres_user, quote_plus deployed.postgres_password, "db:5432/engram")
read_dsn-resolved_example = read_dsn-resolved deployed refl

said_words : words "I prefer the Rust-based tools" ≡ "prefer" ∷ "rust" ∷ "based" ∷ "tools" ∷ []
unfolding words tokens is_stopword
said_words = refl

words-IsWord_example : All IsWord (words "I prefer the Rust-based tools")
words-IsWord_example = words-IsWord "I prefer the Rust-based tools"

abbrev listed_length : Option ℕ → ℕ
listed_length none = 3
listed_length (some n) = n

-- No fastembed, and Bedrock's models with vectors of the listed lengths, in one region only.
abbrev vendors : Vendors
vendors = record {
  fastembed = none;
  bedrock = λ model region.
      if str_eq region "us-east-1"
      then ok (λ text. ok (zeros (listed_length (lookup model known_dims))))
      else raise_with value_error;
}

vendors-Documented : Documented vendors
vendors-Documented = record {
  fastembed = λ fast model t embed a e. absurd (missing e);
  bedrock = steady;
  known = fits;
}
  where
    missing : {A : Type 0} {a : A} → none ≢ some a
    missing e = cc

    Returns-embed : ℕ → Result Embedder → Type 0
    Returns-embed n (ok embed) = HasLength embed n
    Returns-embed n (raise_with e) = Unit

    steady :
        (model region t : String) (embed : Embedder) (a : List ℕ)
        → vendors.bedrock model region ≡ ok embed
        → embed t ≡ ok a
        → HasLength embed (length a)
    steady model region t embed a e f = elim (Bool-cases (str_eq region "us-east-1")) [
      | inl k ↦
          let same : ok (λ (text : String). ok (zeros (listed_length (lookup model known_dims))))
              ≡ ok embed =
            rw k at e in
          subst (λ g. g t ≡ ok a → HasLength g (length a)) (opened same)
            (λ h text. ap length (kept h)) f
      | inr k ↦ let no : raise_with value_error ≡ ok embed = rw k at e in absurd cc
    ]
      where
        opened : {A : Type 0} {x y : A} → ok x ≡ ok y → x ≡ y
        opened h = cc

        kept : {x y : List ℕ} → ok x ≡ ok y → x ≡ y
        kept h = cc

    fits :
        (model region : String) (embed : Embedder) (n : ℕ)
        → vendors.bedrock model region ≡ ok embed
        → lookup model known_dims ≡ some n
        → HasLength embed n
    fits model region embed n e f = elim (Bool-cases (str_eq region "us-east-1")) [
      | inl k ↦
          let same : ok (λ (text : String). ok (zeros (listed_length (lookup model known_dims))))
              ≡ ok embed =
            rw k at e in
          subst (Returns-embed n) same (λ text. length-zeros _ ∙ ap listed_length f)
      | inr k ↦ let no : raise_with value_error ≡ ok embed = rw k at e in absurd cc
    ]

-- Bedrock's listed model.
abbrev hosted : Settings demo.Float
hosted = record local { embedder = "bedrock" }

build_embedder_fits_example : Outcome vendors hosted (build_embedder vendors hosted)
unfolding settings_valid checks is_literal in_range auth_modes chat_providers embedder_names
    store_backends writer_names otel_exporters log_formats cognito_valid
build_embedder_fits_example = build_embedder_fits vendors hosted vendors-Documented refl
