-- ===== src/Gate/Markers.antt =====
-- `_INJECTION_MARKERS` of engram/memory/gate.py: the patterns for text that addresses the assistant.
use long_term_memory_agent.Base.{
  String, Char, code, Bool, not, ◌||◌, List, [], ◌∷◌, ◌==◌, map, filter,
}
use long_term_memory_agent.Env.{Env}
use long_term_memory_agent.Regex.{Regex, char, seq, alt, lazy, star, start, boundary, is_found}
use long_term_memory_agent.Regex.Build.{text, texts, seqs, optional, some_of, space, is_one_of}

-- `[^.\n]`
abbrev pub within_clause : Regex
within_clause = char (λ c. not (is_one_of ".\n" c))

module _ ⦃env : Env⦄ where
  -- `\w` and `\b`
  abbrev pub is_word_char : Char → Bool
  is_word_char c = env.is_alnum c || code c == b'_'

  abbrev pub edge : Regex
  edge = boundary is_word_char

  role_header : Regex
  unfolding texts seqs is_one_of
  role_header = seqs (
      alt start (char (is_one_of "\n"))
      ∷ star space
      ∷ texts ("system" ∷ "assistant" ∷ [])
      ∷ star space
      ∷ char (is_one_of ":]")
      ∷ [])

  role_tag : Regex
  unfolding texts seqs text
  role_tag = seqs (
      text "<"
      ∷ star space
      ∷ optional (text "/")
      ∷ star space
      ∷ alt (texts ("system" ∷ "assistant" ∷ [])) (seq (text "instruction") (optional (text "s")))
      ∷ star space
      ∷ text ">"
      ∷ [])

  instruction_override : Regex
  unfolding texts seqs is_one_of
  instruction_override = seqs (
      edge
      ∷ texts ("ignore" ∷ "disregard" ∷ "forget" ∷ "override" ∷ [])
      ∷ edge
      ∷ lazy 40 within_clause
      ∷ edge
      ∷ texts ("previous" ∷ "prior" ∷ "above" ∷ "earlier" ∷ "all" ∷ [])
      ∷ edge
      ∷ lazy 20 within_clause
      ∷ edge
      ∷ texts ("instruction" ∷ "prompt" ∷ "rule" ∷ "direction" ∷ [])
      ∷ [])

  memory_command : Regex
  unfolding texts seqs text is_one_of
  memory_command = seqs (
      edge
      ∷ texts ("remember" ∷ "store" ∷ "save" ∷ "add" ∷ "note" ∷ [])
      ∷ edge
      ∷ lazy 30 within_clause
      ∷ edge
      ∷ optional (seq (text "that") (some_of space))
      ∷ alt (seqs (text "the" ∷ some_of space ∷ text "user" ∷ []))
          (seqs (text "this" ∷ some_of space ∷ text "user" ∷ []))
      ∷ edge
      ∷ [])

  persona_override : Regex
  unfolding seqs text
  persona_override =
      seqs (edge ∷ text "you" ∷ some_of space ∷ text "are" ∷ some_of space ∷ text "now" ∷ edge ∷ [])

  new_instructions : Regex
  unfolding seqs text is_one_of
  new_instructions = seqs (
      edge
      ∷ text "new"
      ∷ some_of space
      ∷ text "instruction"
      ∷ optional (text "s")
      ∷ star space
      ∷ char (is_one_of ":-")
      ∷ [])

  concealment : Regex
  unfolding seqs text texts
  concealment = seqs (
      edge
      ∷ text "do"
      ∷ some_of space
      ∷ text "not"
      ∷ some_of space
      ∷ alt (texts ("tell" ∷ "inform" ∷ []))
          (seqs (text "mention" ∷ some_of space ∷ text "to" ∷ []))
      ∷ some_of space
      ∷ text "the"
      ∷ some_of space
      ∷ text "user"
      ∷ edge
      ∷ [])

  unfoldable pub injection_markers : List (String × Regex)
  unfolding role_header role_tag instruction_override memory_command persona_override
      new_instructions concealment
  injection_markers =
      ("role-header", role_header)
      ∷ ("role-tag", role_tag)
      ∷ ("instruction-override", instruction_override)
      ∷ ("memory-command", memory_command)
      ∷ ("persona-override", persona_override)
      ∷ ("new-instructions", new_instructions)
      ∷ ("concealment", concealment)
      ∷ []

  -- `[name for name, pattern in _INJECTION_MARKERS if pattern.search(text)]`
  unfoldable pub find_injection_markers : String → List String
  unfolding injection_markers is_found
  find_injection_markers said =
      map (λ (m : String × Regex). m.0) (filter (λ m. is_found m.1 said) injection_markers)
