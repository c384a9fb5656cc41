-- ===== src/Extract/Rules.antt =====
-- engram/memory/extract.py: `RuleFactExtractor`.
use long_term_memory_agent.Base.{
  ℕ, String, Char, Bool, not, ◌&&◌, ◌||◌, none, some, List, [], ◌∷◌, any, str_eq, if◌then◌else◌,
}
use long_term_memory_agent.Base.Texts.{strip, is_space, of_chars}
use long_term_memory_agent.Env.{Env}
use long_term_memory_agent.Extract.{CandidateFact}
use long_term_memory_agent.Extract.Lexicon.{
  fact_patterns, activity_pattern, directive_pattern, transient_pattern, slot_patterns,
}
use long_term_memory_agent.Extract.Patterns.{dated_turn}
use long_term_memory_agent.Regex.{Regex, is_found, search_text, matched, flat_map}
use long_term_memory_agent.Regex.Build.{is_one_of}
use long_term_memory_agent.Schemas.{semantic, procedural}

abbrev pub transient_ttl_days : ℕ
transient_ttl_days = 7

-- `s.rstrip(".!?")`
unfoldable pub rstrip_ends : String → String
unfolding is_one_of
rstrip_ends String.[] = ""
rstrip_ends (String.◌∷◌ c s) =
    let rest = rstrip_ends s in
    if is_one_of ".!?" c && str_eq rest "" then "" else String.◌∷◌ c rest

-- Where `_SENTENCE_SPLIT` stands: behind a terminator, in the space that it matches, or elsewhere.
pub data Spot : Type 0 where
  ended gap within : Spot

next_spot : Spot → Char → Spot
unfolding is_space is_one_of
next_spot ended c = if is_space c then gap else if is_one_of ".!?" c then ended else within
next_spot gap c = if is_space c then gap else if is_one_of ".!?" c then ended else within
next_spot within c = if is_one_of ".!?" c then ended else within

-- The sentence that goes on with a character, in front of the later ones.
put_char : Spot → Char → String × List String → String × List String
unfolding is_space
put_char ended c (piece, more) =
    if is_space c then ("", piece ∷ more) else (String.◌∷◌ c piece, more)
put_char gap c (piece, more) = if is_space c then (piece, more) else (String.◌∷◌ c piece, more)
put_char within c (piece, more) = (String.◌∷◌ c piece, more)

sentences_from : Spot → String → String × List String
unfolding next_spot put_char
sentences_from spot String.[] = ("", [])
sentences_from spot (String.◌∷◌ c s) = put_char spot c (sentences_from (next_spot spot c) s)

-- `_SENTENCE_SPLIT.split(body)`
unfoldable pub sentence_split : String → List String
unfolding sentences_from
sentence_split body = let (piece, more) = sentences_from within body in piece ∷ more

module _ ⦃env : Env⦄ where
  -- `_DATED_TURN.sub("", text)`: the pattern matches at the start only.
  unfoldable pub without_date : String → String
  without_date said = elim (search_text dated_turn said) [
    | none ↦ said
    | some m ↦ of_chars m.1.rest
  ]

  -- `_is_fact`
  unfoldable pub is_fact : String → Bool → Bool
  is_fact sentence transient =
      if is_found activity_pattern sentence
      then transient
      else any (λ p. is_found p sentence) fact_patterns

  unfoldable pub first_slot : String → List (String × Regex) → String × String
  first_slot sentence [] = ("", "")
  first_slot sentence ((attribute, pattern) ∷ patterns) =
      let rest = first_slot sentence patterns in
      elim (search_text pattern sentence) [
        | none ↦ rest
        | some m ↦ (attribute, env.lower (strip (matched m)))
      ]

  -- `_slot`
  unfoldable pub slot_of : String → String × String
  slot_of sentence = first_slot sentence slot_patterns

  unfoldable pub fact_of : String → Bool → Bool → CandidateFact env.Float
  fact_of sentence directive transient =
      let (attribute, value) = slot_of sentence in
      record {
        text = sentence;
        attribute = attribute;
        value = value;
        scope = "";
        kind = if directive then procedural else semantic;
        importance = if directive || not (str_eq attribute "") then env.eight_tenths else env.half;
        ttl_days = if transient then some transient_ttl_days else none;
      }

  -- What `extract` reads off one piece of the split.
  unfoldable pub trimmed : String → String
  trimmed raw = strip (rstrip_ends (strip raw))

  -- One sentence of the loop: at most one fact.
  unfoldable pub sentence_facts : String → List (CandidateFact env.Float)
  sentence_facts raw =
      let sentence = trimmed raw in
      let directive = is_found directive_pattern sentence in
      let transient = is_found transient_pattern sentence in
      if str_eq sentence ""
      then []
      else if not directive && not (is_fact sentence transient)
      then []
      else fact_of sentence directive transient ∷ []

  -- `RuleFactExtractor.extract`
  unfoldable pub rule_extract : String → List (CandidateFact env.Float)
  rule_extract turn = flat_map sentence_facts (sentence_split (without_date (strip turn)))
