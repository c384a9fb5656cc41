-- ===== src/Threads/Distinct.antt =====
-- The encoded pair of engram/threads.py names one conversation of one user.
use text.Mathlib.TextEquality.{Char-path}
use long_term_memory_agent.Base.{
  ap₂, ◌≡◌, refl, sym, ap, ◌∙◌, ℕ, String, Char, code, Option, none, some, arith, Bool-cases, inl,
  inr,
}
use long_term_memory_agent.Base.Dicts.{Dict}
use long_term_memory_agent.Base.Texts.{◌+++◌, append_assoc}
use long_term_memory_agent.Env.{Env}
use long_term_memory_agent.Exec.{legacy_thread_error, raise_with, Result, ok, pure, raise, ◌>>=◌}
use long_term_memory_agent.Threads.{
  escape, escape_all, json_pair, checkpoint_key, checkpoint_thread_id, check_entry, names_key,
}
use long_term_memory_agent.Threads.Decode.{first, first-escape, below, end, skip2}
use long_term_memory_agent.World.{World, store_get}

first-cons :
    (c : Char) (s q : String)
    → first (escape_all (String.◌∷◌ c s) +++ q) ≡ (code c, escape_all s +++ q)
unfolding escape_all
first-cons c s q =
    rw (append_assoc (escape c) (escape_all s) q) (first-escape c (escape_all s +++ q))

-- A text cannot go on where another one ends.
ends_apart : (c : Char) (x y : String) → ◌≡◌ {A = ℕ × String} (end, x) (code c, y) → ⊥
ends_apart c x y e = omega (arith, below c, ap (λ (q : ℕ × String). q.0) e)

-- Two escaped texts, each closed by a quotation mark, are the same text with the same rest.
escaped-apart :
    (s t x y : String)
    → escape_all s +++ "\"" +++ x ≡ escape_all t +++ "\"" +++ y
    → (s ≡ t) × (x ≡ y)
unfolding escape_all
escaped-apart String.[] String.[] x y e = (refl, ap (λ q. (first q).1) e)
escaped-apart String.[] (String.◌∷◌ d t) x y e =
    absurd (ends_apart d x _ (ap first e ∙ first-cons d t ("\"" +++ y)))
escaped-apart (String.◌∷◌ c s) String.[] x y e =
    absurd (ends_apart c y _ (sym (ap first e) ∙ first-cons c s ("\"" +++ x)))
escaped-apart (String.◌∷◌ c s) (String.◌∷◌ d t) x y e =
    let heads = sym (first-cons c s ("\"" +++ x)) ∙ ap first e ∙ first-cons d t ("\"" +++ y) in
    let (same, rest) = escaped-apart s t x y (ap (λ (q : ℕ × String). q.1) heads) in
    (ap₂ String.◌∷◌ (Char-path c d (ap (λ (q : ℕ × String). q.0) heads)) same, rest)

-- The encoding of a pair determines both texts.
json_pair-apart : (a b c d : String) → json_pair a b ≡ json_pair c d → (a ≡ c) × (b ≡ d)
unfolding json_pair
json_pair-apart a b c d e =
    let (users, rest) = escaped-apart a c _ _ (ap skip2 e) in
    (users, (escaped-apart b d "]" "]" (ap skip2 rest)).0)

module _ ⦃env : Env⦄ where
  -- SHA-256 tells the two encodings apart, unless they are one.
  abbrev pub TellsApart : String → String → Type 0
  TellsApart x y = env.sha256 x ≡ env.sha256 y → x ≡ y

  abbrev digest : String → String
  digest s = skip2 (skip2 (skip2 (skip2 (skip2 s))))

  checkpoint_key-apart :
      (a b c d : String)
      → TellsApart (json_pair a b) (json_pair c d)
      → checkpoint_key a b ≡ checkpoint_key c d
      → (a ≡ c) × (b ≡ d)
  unfolding checkpoint_key
  checkpoint_key-apart a b c d h e = json_pair-apart a b c d (h (ap digest e))

  same_key :
      (key : String) (found : Option (Dict env.Float)) (w : World) (id : String)
      → (check_entry key found w).0 ≡ ok id
      → id ≡ key
  unfolding check_entry pure raise
  same_key key none w id e = cc
  same_key key (some value) w id e = elim (Bool-cases (names_key value key)) [
    | inl k ↦ kept (rw k at e)
    | inr k ↦ absurd (refused (rw k at e))
  ]
    where
      kept : ◌≡◌ {A = Result String} (ok key) (ok id) → id ≡ key
      kept e = cc

      refused : ◌≡◌ {A = Result String} (raise_with legacy_thread_error) (ok id) → ⊥
      refused e = cc

  -- What a resolved conversation is called.
  resolved_key :
      (a b : String) (w : World) (id : String)
      → (checkpoint_thread_id a b w).0 ≡ ok id
      → id ≡ checkpoint_key a b
  unfolding checkpoint_thread_id check_entry ◌>>=◌ store_get
  resolved_key a b w id e = same_key _ _ w id e

  -- Two conversations that resolve to the same checkpoint identifier, each in any state, are the
  -- same conversation of the same user, if SHA-256 gives their two encodings one digest only when
  -- these are equal.
  pub checkpoint_thread_id-apart :
      (a b c d : String) (v w : World) (id : String)
      → TellsApart (json_pair a b) (json_pair c d)
      → (checkpoint_thread_id a b v).0 ≡ ok id
      → (checkpoint_thread_id c d w).0 ≡ ok id
      → (a ≡ c) × (b ≡ d)
  checkpoint_thread_id-apart a b c d v w id h e k =
      checkpoint_key-apart a b c d h (sym (resolved_key a b v id e) ∙ resolved_key c d w id k)
