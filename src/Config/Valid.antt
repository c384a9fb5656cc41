-- ===== src/Config/Valid.antt =====
-- What `Settings` of engram/config.py guarantee once they are made.
use long_term_memory_agent.Base.{All-true, arith, ◌&&◌, leb, ℕ, ◌≡◌, true, ◌≤◌}
use long_term_memory_agent.Config.{
  checks, Settings, settings_valid, is_literal, embedder_names, in_range,
}
use long_term_memory_agent.Env.{Env}

module _ ⦃env : Env⦄ where
  -- What valid settings say of the embedder.
  pub embedder_valid :
      (s : Settings env.Float)
      → settings_valid s ≡ true
      → (is_literal embedder_names s.embedder ≡ true) × (32 ≤ s.hashing_embed_dims)
  unfolding settings_valid checks in_range
  embedder_valid s h =
      let all = All-true (checks s) h in
      (all.1.1.1.1.0, at_least s.hashing_embed_dims all.1.1.1.1.1.0)
    where
      at_least : (n : ℕ) → (leb 32 n && leb n 4096) ≡ true → 32 ≤ n
      at_least n h = ground arith
