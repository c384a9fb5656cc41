-- ===== src/Manager/Build.antt =====
-- A run of `_build`: the memory that it returns, or the overflow of its expiry.
use long_term_memory_agent.Base.{
  if◌then◌else◌, ap, inr, sym, ◌&&◌, not, inl, Bool, Bool-cases, ℕ, suc, ◌+◌, ◌*◌, ◌≤◌, ◌<◌, String,
  ◌≡◌, ◌≢◌, refl, ◌∙◌, true, false, Option, none, some, arith, ltb, str_eq, eq_iff,
}
use long_term_memory_agent.Env.{Env}
use long_term_memory_agent.Exec.{
  Result, validation_error, ok, raise_with, overflow_error, pure, raise, lift, ◌>>=◌, bind-ok,
  bind-raise,
}
use long_term_memory_agent.Extract.{CandidateFact}
use long_term_memory_agent.Manager.Effects.{build, expiry, day, max_datetime}
use long_term_memory_agent.Schemas.{Memory, Provenance, Datetime}
use long_term_memory_agent.World.{World, utcnow, uuid4}
use long_term_memory_agent.Write.{NewMemory, made, create, checked}

module _ ⦃env : Env⦄ where
  -- The constraints of the fields of a candidate.
  pub record IsValid (c : CandidateFact env.Float) : Type 0 where
    pub text : c.text ≢ ""
    pub low : env.le env.zero c.importance ≡ true
    pub high : env.le c.importance env.one ≡ true

  -- When a memory with this lifetime expires, and the state after the clock was read for it.
  abbrev pub expires : Option ℕ → World → Option Datetime
  expires none w = none
  expires (some days) w = some (env.now w.readings + days * day)

  abbrev pub clocked : Option ℕ → World → World
  clocked none w = w
  clocked (some days) w = record w { readings = suc w.readings }

  -- The expiry is a representable instant.
  abbrev pub InTime : Option ℕ → World → Type 0
  InTime none w = Unit
  InTime (some days) w = env.now w.readings + days * day ≤ max_datetime

  expiry_run :
      (ttl : Option ℕ) (w : World)
      → InTime ttl w
      → expiry ttl w ≡ (ok (expires ttl w), clocked ttl w)
  unfolding expiry pure utcnow ◌>>=◌
  expiry_run none w h = refl
  expiry_run (some days) w h = rw in_time refl
    where
      in_time : ltb max_datetime (env.now w.readings + days * day) ≡ false
      in_time = ground arith

  expiry_overflow :
      (days : ℕ) (w : World)
      → max_datetime < env.now w.readings + days * day
      → expiry (some days) w ≡ (raise_with overflow_error, record w { readings = suc w.readings })
  unfolding expiry raise utcnow ◌>>=◌
  expiry_overflow days w late = rw too_late refl
    where
      too_late : ltb max_datetime (env.now w.readings + days * day) ≡ true
      too_late = ground arith

  -- The arguments that `_build` gives, and the memory that it returns.
  abbrev facts : CandidateFact env.Float → String → Option String → Provenance → World → NewMemory
  facts c user_id thread_id source w = record {
    user_id = user_id;
    text = c.text;
    kind = c.kind;
    source = source;
    importance = c.importance;
    expires_at = expires c.ttl_days w;
    attribute = c.attribute;
    value = c.value;
    scope = c.scope;
    thread_id = thread_id;
    evidence = some c.text;
  }

  abbrev pub built :
      CandidateFact env.Float → String → Option String → Provenance → World → Memory env.Float
  built c user_id thread_id source w =
      let v = clocked c.ttl_days w in
      made (facts c user_id thread_id source w) (env.uuid v.drawn) (env.now v.readings)
        (env.now (suc v.readings))

  abbrev pub after_build : CandidateFact env.Float → World → World
  after_build c w =
      let v = clocked c.ttl_days w in
      record v { drawn = suc v.drawn; readings = suc (suc v.readings) }

  create_run :
      (new : NewMemory) (v : World)
      → new.text ≢ ""
      → env.le env.zero new.importance ≡ true
      → env.le new.importance env.one ≡ true
      → create new v ≡ (
        ok (made new (env.uuid v.drawn) (env.now v.readings) (env.now (suc v.readings))),
        record v { drawn = suc v.drawn; readings = suc (suc v.readings) },
      )
  unfolding create checked utcnow uuid4 lift ◌>>=◌
  create_run new v something low high = rw (worded, low, high) refl
    where
      worded : str_eq new.text "" ≡ false
      worded = ground (arith, eq_iff new.text "")

  build-create :
      (c : CandidateFact env.Float) (user_id : String) (thread_id : Option String)
      (source : Provenance) (w : World)
      → InTime c.ttl_days w
      → build c user_id thread_id source w
        ≡ create (facts c user_id thread_id source w) (clocked c.ttl_days w)
  unfolding build
  build-create c user_id thread_id source w in_time =
      bind-ok (expiry c.ttl_days) _ w _ _ (expiry_run c.ttl_days w in_time)

  -- A valid candidate whose expiry is representable is built.
  pub build_run :
      (c : CandidateFact env.Float) (user_id : String) (thread_id : Option String)
      (source : Provenance) (w : World)
      → IsValid c
      → InTime c.ttl_days w
      → build c user_id thread_id source w
        ≡ (ok (built c user_id thread_id source w), after_build c w)
  build_run c user_id thread_id source w valid in_time =
      build-create c user_id thread_id source w in_time
      ∙ create_run (facts c user_id thread_id source w) (clocked c.ttl_days w) valid.text valid.low
          valid.high

  -- A lifetime that ends past the last representable instant raises.
  pub build_overflow :
      (c : CandidateFact env.Float) (days : ℕ) (user_id : String) (thread_id : Option String)
      (source : Provenance) (w : World)
      → c.ttl_days ≡ some days
      → max_datetime < env.now w.readings + days * day
      → build c user_id thread_id source w
        ≡ (raise_with overflow_error, record w { readings = suc w.readings })
  unfolding build
  build_overflow c days user_id thread_id source w long late =
      bind-raise (expiry c.ttl_days) _ w _ overflow_error (rw long (expiry_overflow days w late))

  created :
      (new : NewMemory) (v v' : World) (m : Memory env.Float)
      → create new v ≡ (ok m, v')
      → (m.expires_at ≡ new.expires_at) × (m.superseded_by ≡ none)
  unfolding create checked utcnow uuid4 lift ◌>>=◌
  created new v v' m e = elim (Bool-cases good) [
    | inl h ↦ same (rw h at by_test)
    | inr h ↦ absurd (refused (rw h at by_test))
  ]
    where
      good : Bool
      good =
          not (str_eq new.text "")
          && env.le env.zero new.importance
          && env.le new.importance env.one

      fact : Memory env.Float
      fact = made new (env.uuid v.drawn) (env.now v.readings) (env.now (suc v.readings))

      by_test : (if good then ok fact else raise_with validation_error) ≡ ok m
      by_test = ap (λ (r : Result (Memory env.Float) × World). r.0) e

      same : ok fact ≡ ok m → (m.expires_at ≡ new.expires_at) × (m.superseded_by ≡ none)
      same f = (cc, cc)

      refused : raise_with validation_error ≡ ok m → ⊥
      refused f = cc

  -- What is built from a candidate with a lifetime ends that long after the clock was read.
  pub build_lem :
      (c : CandidateFact env.Float) (days : ℕ) (user_id : String) (thread_id : Option String)
      (source : Provenance) (w v : World) (m : Memory env.Float)
      → c.ttl_days ≡ some days
      → build c user_id thread_id source w ≡ (ok m, v)
      → (m.expires_at ≡ some (env.now w.readings + days * day)) × (m.superseded_by ≡ none)
  build_lem c days user_id thread_id source w v m long e =
      elim (Bool-cases (ltb max_datetime (env.now w.readings + days * day))) [
        | inl late ↦
            let run = build_overflow c days user_id thread_id source w long (ground arith) in
            absurd (raised (ap (λ (r : Result (Memory env.Float) × World). r.0) (sym run ∙ e)))
        | inr early ↦
            let in_time : InTime c.ttl_days w = rw long (ground arith) in
            let (f, g) =
              created (facts c user_id thread_id source w) (clocked c.ttl_days w) v m
                (sym (build-create c user_id thread_id source w in_time) ∙ e) in
            (f ∙ rw long refl, g)
      ]
    where
      raised : raise_with overflow_error ≡ ok m → ⊥
      raised f = cc
