-- ===== src/Extract/Facts.antt =====
-- engram/memory/extract.py: what `RuleFactExtractor` proposes.
use long_term_memory_agent.Base.{
  sym, false≢true, ◌≡◌, refl, String, Bool, true, false, not, ◌&&◌, none, some, List, [], ◌∷◌, All,
  All-append, str_eq, if◌then◌else◌, inl, inr, Bool-cases, eq_iff, arith,
}
use long_term_memory_agent.Env.{Env}
use long_term_memory_agent.Extract.{CandidateFact}
use long_term_memory_agent.Extract.Lexicon.{activity_pattern, directive_pattern, transient_pattern}
use long_term_memory_agent.Extract.Rules.{
  trimmed, rule_extract, sentence_facts, fact_of, is_fact, transient_ttl_days,
}
use long_term_memory_agent.Manager.Build.{IsValid}
use long_term_memory_agent.Regex.{is_found, flat_map}
use long_term_memory_agent.Schemas.{semantic, procedural}

module _ {ℓ κ μ} {A : Type ℓ} {B : Type κ} (P : B → Type μ) where
  All-flat_map : (f : A → List B) (xs : List A) → ((x : A) → All P (f x)) → All P (flat_map f xs)
  unfolding flat_map
  All-flat_map f [] h = tt
  All-flat_map f (x ∷ xs) h = All-append P (f x) (flat_map f xs) (h x) (All-flat_map f xs h)

module _ ⦃env : Env⦄ where
  -- What one candidate promises.
  pub record IsProposed (c : CandidateFact env.Float) : Type 0 where
    pub valid : IsValid c
    pub kind : c.kind ≡ (if is_found directive_pattern c.text then procedural else semantic)
    pub lapse :
        c.ttl_days ≡ (if is_found transient_pattern c.text then some transient_ttl_days else none)
    pub activity :
        is_found activity_pattern c.text ≡ true
        → c.kind ≡ semantic
        → c.ttl_days ≡ some transient_ttl_days

  fact_of-IsValid : (s : String) (d t : Bool) → str_eq s "" ≡ false → IsValid (fact_of s d t)
  unfolding fact_of
  fact_of-IsValid s d t h = ground (
    arith,
    eq_iff s "",
    env.le_zero_half,
    env.le_half_one,
    env.le_zero_eight_tenths,
    env.le_eight_tenths_one,
  )

  fact_of-activity :
      (s : String) (d t : Bool)
      → (not d && not (is_fact s t)) ≡ false
      → is_found activity_pattern s ≡ true
      → (fact_of s d t).kind ≡ semantic
      → (fact_of s d t).ttl_days ≡ some transient_ttl_days
  unfolding fact_of is_fact
  fact_of-activity s true t h a k = absurd cc
  fact_of-activity s false true h a k = refl
  fact_of-activity s false false h a k = absurd (false≢true (sym (rw a at h)))

  fact_of-IsProposed :
      (s : String)
      → str_eq s "" ≡ false
      → let d = is_found directive_pattern s in
        let t = is_found transient_pattern s in
        (not d && not (is_fact s t)) ≡ false → IsProposed (fact_of s d t)
  unfolding fact_of
  fact_of-IsProposed s e h = record {
    valid = fact_of-IsValid s _ _ e;
    kind = refl;
    lapse = refl;
    activity = fact_of-activity s _ _ h;
  }

  sentence_facts-IsProposed : (raw : String) → All IsProposed (sentence_facts raw)
  unfolding sentence_facts
  sentence_facts-IsProposed raw =
      let s = trimmed raw in
      let d = is_found directive_pattern s in
      let t = is_found transient_pattern s in
      elim (Bool-cases (str_eq s "")) [
        | inl e ↦ rw e tt
        | inr e ↦ elim (Bool-cases (not d && not (is_fact s t))) [
          | inl k ↦ rw (e, k) tt
          | inr k ↦ rw (e, k) (fact_of-IsProposed s e k, tt)
        ]
      ]

  -- Every fact that the offline extractor takes from a turn has a text and an importance between
  -- 0 and 1; it is procedural exactly when the text is a directive and has a time to live of 7 days
  -- exactly when the text has a transient marker; and one whose text has an ongoing activity and
  -- is no directive always has that time to live.
  pub rule_extract-IsProposed : (turn : String) → All IsProposed (rule_extract turn)
  unfolding rule_extract
  rule_extract-IsProposed turn = All-flat_map IsProposed sentence_facts _ sentence_facts-IsProposed
