-- ===== src/Extract/Lexicon.antt =====
-- engram/memory/extract.py: the patterns of the offline extractor.
use long_term_memory_agent.Base.{String, List, [], ◌∷◌}
use long_term_memory_agent.Env.{Env}
use long_term_memory_agent.Extract.Patterns.{word}
use long_term_memory_agent.Gate.Markers.{edge}
use long_term_memory_agent.Regex.{Regex, char, seq, alt, lazy, star, start, unless, group}
use long_term_memory_agent.Regex.Build.{
  text, texts, seqs, one_of, optional, some_of, space, is_one_of, is_latin_folded, is_capital,
  is_latin,
}

module _ ⦃env : Env⦄ where
  -- `\w+\s+`
  abbrev word_and_space : Regex
  word_and_space = seq word (some_of space)

  -- `_SUBJECT`
  abbrev subject : Regex
  unfolding seqs texts text
  subject = seqs (
      edge
      ∷ texts ("i" ∷ "we" ∷ [])
      ∷ optional (seq (text "'") (texts ("ve" ∷ "d" ∷ "ll" ∷ [])))
      ∷ [])

  -- `_STATIVE_VERBS`
  abbrev stative_verbs : List String
  stative_verbs =
      "prefer" ∷ "like" ∷ "love" ∷ "hate" ∷ "use" ∷ "run" ∷ "write" ∷ "deploy" ∷ "live" ∷ "living"
      ∷ "work" ∷ "working" ∷ "joined" ∷ "switched" ∷ "moved" ∷ "relocated" ∷ "migrated" ∷ "eat"
      ∷ "am" ∷ "are" ∷ []

  unfoldable pub fact_patterns : List Regex
  unfolding seqs texts text
  fact_patterns =
      seqs (subject ∷ some_of space ∷ lazy 2 word_and_space ∷ texts stative_verbs ∷ edge ∷ [])
      ∷ seqs (
          edge
          ∷ text "i"
          ∷ optional (text "'")
          ∷ text "m"
          ∷ some_of space
          ∷ optional (seqs (text "a" ∷ optional (text "n") ∷ some_of space ∷ []))
          ∷ unless (seqs (word ∷ text "ing" ∷ edge ∷ []))
          ∷ word
          ∷ [])
      ∷ seqs (
          edge
          ∷ text "my"
          ∷ some_of space
          ∷ word_and_space
          ∷ optional word_and_space
          ∷ texts ("is" ∷ "are" ∷ [])
          ∷ edge
          ∷ [])
      ∷ []

  unfoldable pub activity_pattern : Regex
  unfolding seqs text one_of
  activity_pattern = seqs (
      edge
      ∷ one_of (seqs (text "i" ∷ optional (text "'") ∷ text "m" ∷ []) ∷ text "is" ∷ text "are" ∷ [])
      ∷ some_of space
      ∷ word
      ∷ text "ing"
      ∷ edge
      ∷ [])

  unfoldable pub directive_pattern : Regex
  unfolding seqs text texts one_of
  directive_pattern = seqs (
      start
      ∷ star space
      ∷ one_of (
          texts ("always" ∷ "never" ∷ [])
          ∷ seqs (text "don" ∷ optional (text "'") ∷ text "t" ∷ [])
          ∷ text "do not"
          ∷ seqs (text "please" ∷ some_of space ∷ texts ("always" ∷ "never" ∷ []) ∷ [])
          ∷ [])
      ∷ edge
      ∷ [])

  unfoldable pub transient_pattern : Regex
  unfolding seqs text texts
  transient_pattern = seqs (
      edge
      ∷ alt (texts ("today" ∷ "tonight" ∷ "right now" ∷ []))
          (seq (text "this ") (texts ("morning" ∷ "afternoon" ∷ "week" ∷ "sprint" ∷ [])))
      ∷ edge
      ∷ [])

  -- `\b(a|b|c)\b`
  named : Regex → Regex
  unfolding seqs
  named r = seqs (edge ∷ group r ∷ edge ∷ [])

  -- `([A-Z][a-zA-Z]+)`
  abbrev capitalised : Regex
  capitalised = group (seq (char is_capital) (some_of (char is_latin)))

  unfoldable pub slot_patterns : List (String × Regex)
  unfolding named seqs text texts one_of is_one_of
  slot_patterns =
      (
        "team",
        seqs (
            edge
            ∷ optional (seq (text "the") (some_of space))
            ∷ group (some_of (char is_latin_folded))
            ∷ some_of space
            ∷ text "team"
            ∷ edge
            ∷ []),
      )
      ∷ (
        "location",
        seqs (
            edge
            ∷ one_of (
                texts ("live in" ∷ "living in" ∷ "based in" ∷ "relocated to" ∷ "moved to" ∷ [])
                ∷ seqs (text "i" ∷ optional (text "'") ∷ text "m in" ∷ [])
                ∷ [])
            ∷ some_of space
            ∷ capitalised
            ∷ []),
      )
      ∷ (
        "testing_framework",
        named (texts ("pytest" ∷ "unittest" ∷ "jest" ∷ "vitest" ∷ "junit" ∷ "rspec" ∷ [])),
      )
      ∷ ("web_framework", named (texts ("fastapi" ∷ "flask" ∷ "django" ∷ "express" ∷ "rails" ∷ [])))
      ∷ (
        "database",
        named
            (texts ("postgres" ∷ "postgresql" ∷ "mysql" ∷ "sqlite" ∷ "mongodb" ∷ "dynamodb" ∷ [])),
      )
      ∷ (
        "editor",
        named (
            one_of (
              texts ("neovim" ∷ "zed" ∷ "emacs" ∷ [])
              ∷ seqs (text "vs" ∷ optional (text " ") ∷ text "code" ∷ [])
              ∷ texts ("pycharm" ∷ "intellij" ∷ "sublime" ∷ [])
              ∷ [])),
      )
      ∷ (
        "language",
        named (texts ("typescript" ∷ "javascript" ∷ "rust" ∷ "kotlin" ∷ "golang" ∷ [])),
      )
      ∷ (
        "deploy_tool",
        named (texts ("terraform" ∷ "pulumi" ∷ "ansible" ∷ "cloudformation" ∷ "helm" ∷ [])),
      )
      ∷ ("diet", named (texts ("vegetarian" ∷ "vegan" ∷ "pescatarian" ∷ "halal" ∷ "kosher" ∷ [])))
      ∷ (
        "accessibility",
        named (
            one_of (
              seqs (text "colo" ∷ optional (text "u") ∷ text "rblind" ∷ [])
              ∷ seqs (
                  text "colo"
                  ∷ optional (text "u")
                  ∷ text "r"
                  ∷ char (is_one_of "- ")
                  ∷ text "blind"
                  ∷ [])
              ∷ text "dyslexic"
              ∷ [])),
      )
      ∷ (
        "pet_name",
        seqs (
            edge
            ∷ seq (text "my ") (texts ("dog" ∷ "cat" ∷ []))
            ∷ some_of space
            ∷ capitalised
            ∷ []),
      )
      ∷ []
