-- ===== src/Embeddings/Words.antt =====
-- The words that engram/embeddings.py takes from a text.
use long_term_memory_agent.Base.{
  false≢true, ◌≡◌, ◌≢◌, refl, String, Char, Bool, true, false, not, ◌&&◌, List, [], ◌∷◌, All,
  filter, str_eq, arith, Bool-cases, inl, inr, eq_iff,
}
use long_term_memory_agent.Env.{Env}
use long_term_memory_agent.Embeddings.{tokens, words, is_stopword, flush, append_char}

module _ ⦃env : Env⦄ where
  abbrev pub all_alnum : String → Bool
  all_alnum String.[] = true
  all_alnum (String.◌∷◌ c s) = env.is_alnum c && all_alnum s

  abbrev IsToken : String → Type 0
  IsToken w = (w ≢ "") × (all_alnum w ≡ true)

  all_alnum-append :
      (s : String) (c : Char)
      → all_alnum s ≡ true
      → env.is_alnum c ≡ true
      → all_alnum (append_char s c) ≡ true
  all_alnum-append String.[] c h k = rw k refl
  all_alnum-append (String.◌∷◌ d s) c h k = elim (Bool-cases (env.is_alnum d)) [
    | inl e ↦ rw e (all_alnum-append s c (rw e at h) k)
    | inr e ↦ absurd (false≢true (rw e at h))
  ]

  flush-IsToken :
      (current : String) (rest : List String)
      → all_alnum current ≡ true
      → All IsToken rest
      → All IsToken (flush current rest)
  flush-IsToken current rest h k = elim (Bool-cases (str_eq current "")) [
    | inl e ↦ rw e k
    | inr e ↦ rw e ((filled e, h), k)
  ]
    where
      filled : str_eq current "" ≡ false → current ≢ ""
      filled e = ground (arith, eq_iff current "")

  tokens-IsToken : (current s : String) → all_alnum current ≡ true → All IsToken (tokens current s)
  unfolding tokens
  tokens-IsToken current String.[] h = flush-IsToken current [] h tt
  tokens-IsToken current (String.◌∷◌ c s) h = elim (Bool-cases (env.is_alnum c)) [
    | inl e ↦ rw e (tokens-IsToken (append_char current c) s (all_alnum-append current c h e))
    | inr e ↦ rw e (flush-IsToken current _ h (tokens-IsToken "" s refl))
  ]

  -- A word for the embedder.
  pub record IsWord (w : String) : Type 0 where
    pub filled : w ≢ ""
    pub alnum : all_alnum w ≡ true
    pub telling : is_stopword w ≡ false

  filter-IsWord :
      (ws : List String) → All IsToken ws → All IsWord (filter (λ w. not (is_stopword w)) ws)
  filter-IsWord [] h = tt
  filter-IsWord (w ∷ ws) h = elim (Bool-cases (is_stopword w)) [
    | inl e ↦ rw e (filter-IsWord ws h.1)
    | inr e ↦ rw e (record { filled = h.0.0; alnum = h.0.1; telling = e }, filter-IsWord ws h.1)
  ]

  -- Every word that the hashing embedder takes from a text is not empty, has only alphanumeric
  -- characters, and is no stopword.
  pub words-IsWord : (text : String) → All IsWord (words text)
  unfolding words
  words-IsWord text = filter-IsWord _ (tokens-IsToken "" (env.lower text) refl)
