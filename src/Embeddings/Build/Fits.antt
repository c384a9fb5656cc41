-- ===== src/Embeddings/Build/Fits.antt =====
-- What `build_embedder` returns, and when it raises.
use long_term_memory_agent.Exec.{Error, Result}
use long_term_memory_agent.Embeddings.Build.{
  probe, sized, EmbedderSpec, once_made, build_embedder, probed, measured, hashing_spec, known_dims,
  Embedder, Vendors, bedrock_spec, fastembed_spec,
}
use long_term_memory_agent.Config.Valid.{embedder_valid}
use long_term_memory_agent.Config.{Settings, settings_valid, is_literal, embedder_names}
use long_term_memory_agent.Base.Dicts.{lookup}
use long_term_memory_agent.Embeddings.Lengths.{length-hash_embed}
use long_term_memory_agent.Embeddings.{Vector, hashing_embeddings}
use long_term_memory_agent.Exec.{ok, raise_with, import_error}
use long_term_memory_agent.Base.{
  sym, subst, false≢true, eq_iff, ap, arith, Bool-cases, ◌≡◌, refl, ◌⊎◌, inl, inr, ℕ, zero, suc,
  ◌≤◌, String, true, Option, none, some, str_eq, length,
}
use long_term_memory_agent.Env.{Env}
use long_term_memory_agent.Exec.Yields.{Returns}

module _ ⦃env : Env⦄ where
  -- Every vector of the embedder has this length.
  abbrev pub HasLength : Embedder → ℕ → Type 0
  HasLength embed n = (text : String) → Returns (λ (v : Vector). length v ≡ n) (embed text)

  -- What the vendors document: a model's vectors have one length, and the listed one where it is.
  pub record Documented (v : Vendors) : Type 0 where
    pub fastembed :
        (fast : String → Result Embedder) (model t : String) (embed : Embedder) (a : Vector)
        → v.fastembed ≡ some fast
        → fast model ≡ ok embed
        → embed t ≡ ok a
        → HasLength embed (length a)
    pub bedrock :
        (model region t : String) (embed : Embedder) (a : Vector)
        → v.bedrock model region ≡ ok embed
        → embed t ≡ ok a
        → HasLength embed (length a)
    pub known :
        (model region : String) (embed : Embedder) (n : ℕ)
        → v.bedrock model region ≡ ok embed
        → lookup model known_dims ≡ some n
        → HasLength embed n

  abbrev pub Fitting : Result EmbedderSpec → Type 0
  Fitting r = (spec : EmbedderSpec) × (r ≡ ok spec) × HasLength spec.embeddings spec.dims

  -- Making the embedder raises, or its first embedding does.
  abbrev pub Fails : Result Embedder → Error → Type 0
  Fails made e =
      (made ≡ raise_with e)
      ⊎ ((embed : Embedder) × (made ≡ ok embed) × (embed probe ≡ raise_with e))

  -- Why it raises.
  abbrev pub Cause : Vendors → Settings env.Float → Error → Type 0
  Cause v s e =
      ((s.embedder ≡ "fastembed") × (v.fastembed ≡ none) × (e ≡ import_error))
      ⊎ ((s.embedder ≡ "fastembed")
          × ((fast : String → Result Embedder) × (v.fastembed ≡ some fast)
              × Fails (fast s.fastembed_model) e))
      ⊎ ((s.embedder ≡ "bedrock")
          × ((v.bedrock s.bedrock_embed_model_id s.aws_region ≡ raise_with e)
              ⊎ ((lookup s.bedrock_embed_model_id known_dims ≡ none)
                  × Fails (v.bedrock s.bedrock_embed_model_id s.aws_region) e)))

  abbrev pub Outcome : Vendors → Settings env.Float → Result EmbedderSpec → Type 0
  Outcome v s r = Fitting r ⊎ ((e : Error) × (r ≡ raise_with e) × Cause v s e)

  hashing-Fitting : (n : ℕ) → 1 ≤ n → Fitting (hashing_spec n (hashing_embeddings n))
  unfolding hashing_spec hashing_embeddings
  hashing-Fitting zero h = absurd (omega arith)
  hashing-Fitting (suc k) h = (_, refl, length-hash_embed k)

  -- The probe gives the length, or raises.
  probed-Fitting :
      (embed : Embedder)
      → ((a : Vector) → embed probe ≡ ok a → HasLength embed (length a))
      → Fitting (probed embed)
        ⊎ ((e : Error) × (probed embed ≡ raise_with e) × (embed probe ≡ raise_with e))
  unfolding probed measured
  probed-Fitting embed one = by (embed probe) refl
    where
      by :
          (r : Result Vector)
          → embed probe ≡ r
          → Fitting (probed embed)
            ⊎ ((e : Error) × (probed embed ≡ raise_with e) × (embed probe ≡ raise_with e))
      by (ok a) f = inl (_, ap (measured embed) f, one a f)
      by (raise_with e) f = inr (e, ap (measured embed) f, f)

  fastembed-Outcome :
      (v : Vendors) (s : Settings env.Float) (found : Option (String → Result Embedder))
      → Documented v
      → s.embedder ≡ "fastembed"
      → v.fastembed ≡ found
      → Outcome v s (fastembed_spec found s.fastembed_model)
  unfolding fastembed_spec once_made
  fastembed-Outcome v s none d chosen f = inr (import_error, refl, inl (chosen, f, refl))
  fastembed-Outcome v s (some fast) d chosen f = by (fast s.fastembed_model) refl
    where
      by :
          (r : Result Embedder)
          → fast s.fastembed_model ≡ r
          → Outcome v s (once_made (fast s.fastembed_model) probed)
      by (raise_with e) g = inr (e, rw g refl, inr (inl (chosen, (fast, f, inl g))))
      by (ok embed) g =
          elim (probed-Fitting embed
            (λ a p. d.fastembed fast s.fastembed_model probe embed a f g p)) [
              | inl (spec, p, fits) ↦ inl (spec, rw g p, fits)
              | inr (e, p, q) ↦ inr (e, rw g p, inr (inl (chosen, (fast, f, inr (embed, g, q)))))
            ]

  never_zero : (model : String) → lookup model known_dims ≡ some 0 → ⊥
  unfolding known_dims
  never_zero model e = elim (Bool-cases (str_eq "amazon.titan-embed-text-v2:0" model)) [
    | inl a ↦ apart (rw a at e)
    | inr a ↦ elim (Bool-cases (str_eq "amazon.titan-embed-text-v1" model)) [
      | inl b ↦ apart (rw (a, b) at e)
      | inr b ↦ missing (rw (a, b) at e)
    ]
  ]
    where
      apart : {n : ℕ} → some (suc n) ≡ some zero → ⊥
      apart f = cc

      missing : none ≡ some zero → ⊥
      missing f = cc

  bedrock-Outcome :
      (v : Vendors) (s : Settings env.Float)
      → Documented v
      → s.embedder ≡ "bedrock"
      → Outcome v s (bedrock_spec v s)
  unfolding bedrock_spec once_made sized
  bedrock-Outcome v s d chosen = by (v.bedrock s.bedrock_embed_model_id s.aws_region) refl
    where
      made : Result Embedder
      made = v.bedrock s.bedrock_embed_model_id s.aws_region

      listed :
          (embed : Embedder) (n : Option ℕ)
          → made ≡ ok embed
          → lookup s.bedrock_embed_model_id known_dims ≡ n
          → Outcome v s (sized n embed)
      listed embed none g h =
          elim (probed-Fitting embed
            (λ a p. d.bedrock s.bedrock_embed_model_id s.aws_region probe embed a g p)) [
              | inl fits ↦ inl fits
              | inr (e, p, q) ↦ inr (e, p, inr (inr (chosen, inr (h, inr (embed, g, q)))))
            ]
      listed embed (some zero) g h = absurd (never_zero s.bedrock_embed_model_id h)
      listed embed (some (suc k)) g h =
          inl (_, refl, d.known s.bedrock_embed_model_id s.aws_region embed (suc k) g h)

      by : (r : Result Embedder) → made ≡ r → Outcome v s (bedrock_spec v s)
      by (raise_with e) g = inr (e, rw g refl, inr (inr (chosen, inl g)))
      by (ok embed) g =
          subst
            (λ r. Outcome v s (once_made r (sized (lookup s.bedrock_embed_model_id known_dims))))
            (sym g) (listed embed _ g refl)

  chosen :
      (v : Vendors) (s : Settings env.Float)
      → Documented v
      → is_literal embedder_names s.embedder ≡ true
      → 1 ≤ s.hashing_embed_dims
      → Outcome v s (build_embedder v s)
  unfolding build_embedder is_literal embedder_names
  chosen v s d h k = elim (Bool-cases (str_eq s.embedder "hashing")) [
    | inl e ↦ rw e (inl (hashing-Fitting s.hashing_embed_dims k))
    | inr e ↦ elim (Bool-cases (str_eq s.embedder "fastembed")) [
      | inl f ↦
          rw (e, f) (fastembed-Outcome v s v.fastembed d ((eq_iff s.embedder "fastembed").0 f) refl)
      | inr f ↦ elim (Bool-cases (str_eq s.embedder "bedrock")) [
        | inl g ↦ rw (e, f, g) (bedrock-Outcome v s d ((eq_iff s.embedder "bedrock").0 g))
        | inr g ↦ absurd (false≢true (rw (e, f, g) at h))
      ]
    ]
  ]

  -- For valid settings, and third-party models whose vectors have one length for each model, which is
  -- the listed length where one is listed, `build_embedder` either returns an embedder with dimensions
  -- that are the length of every vector it gives, or raises, and then fastembed was chosen and is not
  -- installed, which is an `ImportError`, or making fastembed's model or its first embedding raised
  -- the same, or Bedrock was chosen and making its client raised the same, or, where the model is not
  -- listed, its first embedding did. With the hashing embedder it never raises.
  pub build_embedder_fits :
      (v : Vendors) (s : Settings env.Float)
      → Documented v
      → settings_valid s ≡ true
      → Outcome v s (build_embedder v s)
  build_embedder_fits v s d h =
      let (named, dims) = embedder_valid s h in chosen v s d named (omega (arith, dims))
