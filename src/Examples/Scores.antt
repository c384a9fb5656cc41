-- ===== src/Examples/Scores.antt =====
-- Scores of an answer and of a store.
use long_term_memory_agent.Base.{
  ℕ, All, length, String, ◌≡◌, ◌↔◌, true, false, [], ◌∷◌, any, is_empty, ◌||◌,
}
use long_term_memory_agent.Demo.{demo}
use long_term_memory_agent.Eval.Metrics.{mentions, score_answer, score_store, score_injection}
use long_term_memory_agent.Eval.Metrics.Bounds.{score_answer_iff, score_store_full, Says, Some}
use long_term_memory_agent.Examples.Data.{vim}

score_answer_iff_example :
    ((score_answer "You use Vim." ("vim" ∷ []) ("emacs" ∷ [])).0 ≡ true)
    ↔ (any (mentions "You use Vim.") ("emacs" ∷ []) ≡ false)
      × (is_empty {A = String} ("vim" ∷ []) || any (mentions "You use Vim.") ("vim" ∷ []) ≡ true)
score_answer_iff_example = score_answer_iff "You use Vim." ("vim" ∷ []) ("emacs" ∷ [])

abbrev covered : ℕ × ℕ × ℕ × ℕ
covered = score_store (vim ∷ []) ("Vim" ∷ [])

abbrev blocked : ℕ × ℕ
blocked = score_injection (vim ∷ []) ("wire money" ∷ [])

score_store_full_example :
    ((covered.0 ≡ covered.1) ↔ All (λ g. Some (λ m. Says m g) (vim ∷ [])) ("Vim" ∷ []))
    × ((covered.2 ≡ covered.3) ↔ All (λ m. Some (λ g. Says m g) ("Vim" ∷ [])) (vim ∷ []))
    × ((blocked.0 ≡ blocked.1) ↔ All (λ p. All (λ m. ¬ Says m p) (vim ∷ [])) ("wire money" ∷ []))
    × (covered.1 ≡ length {A = String} ("Vim" ∷ []))
    × (covered.3 ≡ length (vim ∷ []))
    × (blocked.1 ≡ length {A = String} ("wire money" ∷ []))
score_store_full_example = score_store_full (vim ∷ []) ("Vim" ∷ []) ("wire money" ∷ [])
