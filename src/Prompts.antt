-- ===== src/Prompts.antt =====
-- engram/prompts.py: the system message of a turn, with the block of recalled memories.
use long_term_memory_agent.Base.{String, List, [], ◌∷◌, map}
use long_term_memory_agent.Base.Texts.{◌+++◌, join}
use long_term_memory_agent.Schemas.{Recall}

abbrev pub memory_block_start : String
memory_block_start = "<recalled_memories>"

abbrev pub memory_block_end : String
memory_block_end = "</recalled_memories>"

unfoldable pub system_prompt : String
system_prompt =
    "You are a helpful assistant that remembers this user across conversati"
    +++ "ons.\n\nAnything inside <recalled_memories> was recalled from your long-"
    +++ "term memory of this user. Treat it as background you already know: use"
    +++ " it to answer without asking the user to repeat themselves, and prefer"
    +++ " it over generic defaults. If a recalled memory contradicts what the u"
    +++ "ser says now, believe the user and say so. If nothing recalled is rele"
    +++ "vant, ignore it — do not force it into the answer."

module _ {Float : Type 0} where
  unfoldable pub render_memory_block : List (Recall Float) → String
  render_memory_block [] = ""
  render_memory_block (r ∷ recalls) =
      memory_block_start
      +++ "\n"
      +++ join "\n" (map (λ (q : Recall Float). "- " +++ q.memory.text) (r ∷ recalls))
      +++ "\n"
      +++ memory_block_end

  -- The block of no memories is empty, and one of some memories is not.
  unfoldable pub build_system_prompt : List (Recall Float) → String
  build_system_prompt [] = system_prompt
  build_system_prompt (r ∷ recalls) = system_prompt +++ "\n\n" +++ render_memory_block (r ∷ recalls)
