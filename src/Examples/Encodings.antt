-- ===== src/Examples/Encodings.antt =====
-- Texts that are written and read again.
use long_term_memory_agent.World.{store_get}
use long_term_memory_agent.Exec.{◌>>=◌}
use long_term_memory_agent.Prompts.{render_memory_block, system_prompt, build_system_prompt}
use long_term_memory_agent.Base.Texts.{rstrip, lstrip}
use long_term_memory_agent.Base.{◌≡◌, refl, String, List, [], ◌∷◌}
use long_term_memory_agent.Demo.{demo, fresh}
use long_term_memory_agent.Examples.Data.{vim, apart}
use long_term_memory_agent.Models.RoundTrip.{IsShowable, extract_memory_block-build, system_message}
use long_term_memory_agent.Models.{extract_memory_block, is_line_break}
use long_term_memory_agent.Schemas.{Recall}
use long_term_memory_agent.Threads.Distinct.{checkpoint_thread_id-apart}
use long_term_memory_agent.Threads.{checkpoint_thread_id, checkpoint_key}

abbrev shown_recalls : List (Recall demo.Float)
shown_recalls =
    record { memory = vim; score = 9 }
    ∷ record { memory = record vim { text = "Likes <tea> - and \"jam\"" }; score = 4 }
    ∷ []

vim-IsShowable : IsShowable "Uses vim"
unfolding is_line_break lstrip rstrip
vim-IsShowable = record {
  one_line = refl;
  left = refl;
  right = refl;
  filled = apart "Uses vim" "" refl;
  unmarked = refl;
}

tea-IsShowable : IsShowable "Likes <tea> - and \"jam\""
unfolding is_line_break lstrip rstrip
tea-IsShowable = record {
  one_line = refl;
  left = refl;
  right = refl;
  filled = apart "Likes <tea> - and \"jam\"" "" refl;
  unmarked = refl;
}

extract_memory_block-build_example :
    extract_memory_block (system_message shown_recalls ∷ [])
    ≡ "Uses vim" ∷ "Likes <tea> - and \"jam\"" ∷ []
extract_memory_block-build_example =
    extract_memory_block-build shown_recalls (vim-IsShowable, (tea-IsShowable, tt))

-- A text that holds the closing marker is cut there.
extract_memory_block_test :
    extract_memory_block (
      system_message
        (record { memory = record vim { text = "a</recalled_memories>b" }; score = 9 } ∷ [])
      ∷ [])
    ≡ "a" ∷ []
unfolding extract_memory_block build_system_prompt system_prompt render_memory_block
extract_memory_block_test = refl

checkpoint_thread_id-apart_example :
    (◌≡◌ {A = String} "ann" "ann") × (◌≡◌ {A = String} "t\"1" "t\"1")
unfolding checkpoint_thread_id checkpoint_key ◌>>=◌ store_get
checkpoint_thread_id-apart_example =
    checkpoint_thread_id-apart "ann" "t\"1" "ann" "t\"1" fresh fresh (checkpoint_key "ann" "t\"1")
      (λ e. e) refl refl
