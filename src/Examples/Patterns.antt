-- ===== src/Examples/Patterns.antt =====
-- Patterns on concrete texts.
use long_term_memory_agent.Regex.Build.{is_latin, is_capital, is_latin_folded}
use long_term_memory_agent.Extract.Lexicon.{
  transient_pattern, directive_pattern, activity_pattern, fact_patterns, slot_patterns,
}
use long_term_memory_agent.Extract.Facts.{rule_extract-IsProposed, IsProposed}
use long_term_memory_agent.Extract.Rules.{
  first_slot, slot_of, fact_of, is_fact, rstrip_ends, trimmed, sentence_facts, without_date,
  sentence_split, rule_extract,
}
use long_term_memory_agent.Base.{[], ◌∷◌, map, String, All, ◌≡◌, refl}
use long_term_memory_agent.Base.Texts.{is_space, strip}
use long_term_memory_agent.Demo.{demo}
use long_term_memory_agent.Extract.Patterns.{dated_turn, turn_date}
use long_term_memory_agent.Regex.{flat_map, is_found, search_text, matched}

turn_date_test : turn_date " [7 May 2023] I went to the market" ≡ "7 May 2023"
unfolding turn_date search_text is_space strip matched
turn_date_test = refl

turn_date_none_test : turn_date "I went [home]" ≡ ""
unfolding turn_date search_text is_space
turn_date_none_test = refl

abbrev spoken : String
spoken = "I moved to Lisbon. I'm fixing a bug today! Use Vim? Never write to me."

rule_extract_test :
    map {B = String × String × String} (λ c. (c.text, c.attribute, c.value)) (rule_extract spoken)
    ≡ ("I moved to Lisbon", "location", "lisbon")
      ∷ ("I'm fixing a bug today", "", "")
      ∷ ("Never write to me", "", "")
      ∷ []
unfolding rule_extract sentence_split without_date sentence_facts trimmed rstrip_ends is_fact
    fact_of slot_of first_slot slot_patterns fact_patterns activity_pattern directive_pattern
    transient_pattern is_found search_text matched strip flat_map dated_turn is_latin_folded
    is_capital is_latin
rule_extract_test = refl

rule_extract-IsProposed_example : All IsProposed (rule_extract spoken)
rule_extract-IsProposed_example = rule_extract-IsProposed spoken
