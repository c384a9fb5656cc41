-- ===== src/Extract/Patterns.antt =====
-- The patterns of engram/memory/extract.py.
use long_term_memory_agent.Base.{String, Bool, not, [], ◌∷◌, none, some}
use long_term_memory_agent.Base.Texts.{strip}
use long_term_memory_agent.Env.{Env}
use long_term_memory_agent.Gate.Markers.{edge, is_word_char}
use long_term_memory_agent.Regex.{
  Regex, char, is_found, start, star, group, greedy, search_text, matched,
}
use long_term_memory_agent.Regex.Build.{text, texts, seqs, one_of, some_of, space, is_one_of}

module _ ⦃env : Env⦄ where
  -- `\w+`
  abbrev pub word : Regex
  word = some_of (char is_word_char)

  unfoldable pub temporal_marker_pattern : Regex
  unfolding texts seqs one_of text
  temporal_marker_pattern = seqs (
      edge
      ∷ one_of (
          texts (
            "today" ∷ "tonight" ∷ "tomorrow" ∷ "right now" ∷ "currently" ∷ "for now"
            ∷ "at the moment" ∷ [])
          ∷ seqs (
              text "this "
              ∷ texts (
                  "morning" ∷ "afternoon" ∷ "evening" ∷ "week" ∷ "month" ∷ "sprint" ∷ "quarter"
                  ∷ "year" ∷ [])
              ∷ [])
          ∷ seqs (text "next " ∷ texts ("week" ∷ "month" ∷ "quarter" ∷ []) ∷ [])
          ∷ seqs (text "until " ∷ word ∷ [])
          ∷ seqs (text "for the next " ∷ word ∷ [])
          ∷ text "temporarily"
          ∷ seqs (text "for a " ∷ texts ("while" ∷ "bit" ∷ []) ∷ [])
          ∷ texts ("these days" ∷ "on call" ∷ "this time" ∷ [])
          ∷ [])
      ∷ edge
      ∷ [])

  unfoldable pub has_temporal_marker : String → Bool
  unfolding temporal_marker_pattern is_found
  has_temporal_marker said = is_found temporal_marker_pattern said

  -- `_DATED_TURN`
  unfoldable pub dated_turn : Regex
  unfolding seqs text is_one_of
  dated_turn =
      let within = char (λ c. not (is_one_of "]" c)) in
      seqs (
        start
        ∷ star space
        ∷ text "["
        ∷ group (seqs (within ∷ within ∷ within ∷ greedy 37 within ∷ []))
        ∷ text "]"
        ∷ star space
        ∷ [])

  -- `turn_date`
  unfoldable pub turn_date : String → String
  unfolding dated_turn
  turn_date said = elim (search_text dated_turn said) [ none ↦ "" | some m ↦ strip (matched m) ]
