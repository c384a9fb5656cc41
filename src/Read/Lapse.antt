-- ===== src/Read/Lapse.antt =====
-- A fact with a lifetime, from `_build` of engram/memory/manager.py to `recall` of
-- engram/memory/read.py.
use long_term_memory_agent.Base.{
  subst, ltb, false≢true, ◌≡◌, ◌≢◌, refl, sym, ◌∙◌, ℕ, ◌+◌, ◌*◌, ◌≤◌, ◌<◌, String, true, false,
  Option, none, some, List, All, All-map, arith,
}
use long_term_memory_agent.Env.{Env}
use long_term_memory_agent.Exec.{ok}
use long_term_memory_agent.Extract.{CandidateFact}
use long_term_memory_agent.Manager.Build.{build_lem}
use long_term_memory_agent.Manager.Effects.{build, day}
use long_term_memory_agent.Read.Best.{recall_live, Decodes, matches}
use long_term_memory_agent.Read.{strip, recall, limit_or}
use long_term_memory_agent.Schemas.{Memory, Recall, Provenance, Datetime}
use long_term_memory_agent.Schemas.Active.{is_active-live_at, live_at, is_active}
use long_term_memory_agent.World.{World}

module _ ⦃env : Env⦄ (c : CandidateFact env.Float) (days : ℕ) (owner : String)
    (thread_id : Option String) (source : Provenance) (w built_in : World) (m : Memory env.Float)
    (long : c.ttl_days ≡ some days)
    (made : build c owner thread_id source w ≡ (ok m, built_in)) where
  abbrev until : ℕ
  until = env.now w.readings + days * day

  ends : (m.expires_at ≡ some until) × (m.superseded_by ≡ none)
  ends = build_lem c days owner thread_id source w built_in m long made

  live_at-until : (at : Datetime) → live_at at m ≡ ltb at until
  unfolding live_at
  live_at-until at = rw (ends.1, ends.0) refl

  -- What `_build` returns for a candidate with a lifetime of so many days is active at every instant
  -- before that many days after the clock was read, and lapses then: `recall` at a later instant, in
  -- whatever state, does not return it, for a query that is not blank and a positive limit, if the
  -- items found can all be read.
  pub recall_lapses :
      (early at : Datetime) (v : World) (top_k : ℕ) (user_id query : String) (limit : Option ℕ)
      (rs found : List (Recall env.Float))
      → early < until
      → until ≤ at
      → strip query ≢ ""
      → 0 < limit_or limit top_k
      → Decodes (matches v user_id query (limit_or limit top_k)) rs
      → (recall top_k user_id query limit (some at) v).0 ≡ ok found
      → (is_active (some early) m v ≡ (ok true, v)) × All (λ r. r.memory ≢ m) found
  recall_lapses early at v top_k user_id query limit rs found before late asked positive d e = (
    is_active-live_at early m v ∙ rw (live_at-until early) (rw (ltb_of early before) refl),
    All-map (λ r. live_at at r.memory ≡ true) _ found
        (λ r alive same. false≢true (
          sym (not_ltb at late)
          ∙ sym (live_at-until at)
          ∙ subst (λ x. live_at at x ≡ true) same alive))
        (recall_live top_k user_id query limit at v rs found asked positive d e).1,
  )
    where
      ltb_of : (at : ℕ) → at < until → ltb at until ≡ true
      ltb_of at h = ground arith

      not_ltb : (at : ℕ) → until ≤ at → ltb at until ≡ false
      not_ltb at h = ground arith
