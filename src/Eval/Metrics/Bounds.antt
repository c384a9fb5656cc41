-- ===== src/Eval/Metrics/Bounds.antt =====
-- When an answer passes, and the bounds of the counts.
use long_term_memory_agent.Base.{
  ◌∙◌, sym, inr, ap, inl, Bool-cases, false≢true, All, ◌⊎◌, suc, ◌≤◌, String, ◌≡◌, refl, ◌↔◌, Bool,
  true, false, not, ◌||◌, List, [], ◌∷◌, any, filter, is_empty, length, arith, if◌then◌else◌,
}
use long_term_memory_agent.Env.{Env}
use long_term_memory_agent.Eval.Metrics.{
  contains, mentions, score_answer, score_store, score_injection,
}
use long_term_memory_agent.Schemas.{Memory}

module _ {A : Type 0} (p : A → Bool) where
  is_empty-filter : (xs : List A) → not (is_empty (filter p xs)) ≡ any p xs
  is_empty-filter [] = refl
  is_empty-filter (x ∷ xs) = first (p x) (is_empty-filter xs)
    where
      first :
          (b : Bool)
          → not (is_empty (filter p xs)) ≡ any p xs
          → not (is_empty (if b then x ∷ filter p xs else filter p xs)) ≡ (b || any p xs)
      first true ih = refl
      first false ih = ih

  length-filter : (xs : List A) → length (filter p xs) ≤ length xs
  length-filter [] = omega arith
  length-filter (x ∷ xs) = first (p x) (length-filter xs)
    where
      first :
          (b : Bool)
          → length (filter p xs) ≤ length xs
          → length (if b then x ∷ filter p xs else filter p xs) ≤ suc (length xs)
      first true ih = omega arith
      first false ih = omega arith

-- Some element of the list has the property.
abbrev pub Some : {A : Type 0} → (A → Type 0) → List A → Type 0
Some P [] = ⊥
Some P (x ∷ xs) = P x ⊎ Some P xs

module _ {A : Type 0} (p : A → Bool) where
  any_iff : (xs : List A) → (any p xs ≡ true) ↔ Some (λ x. p x ≡ true) xs
  any_iff [] = (λ e. absurd (false≢true e), λ h. absurd h)
  any_iff (x ∷ xs) = elim (Bool-cases (p x)) [
    | inl e ↦ (λ _. inl e, λ _. rw e refl)
    | inr e ↦ (
      λ h. inr ((any_iff xs).0 (rw e at h)),
      λ h.
          rw e (
            (any_iff xs).1
              (elim h [ inl f ↦ absurd (false≢true (sym e ∙ f)) | inr later ↦ later ])),
    )
  ]

  any_none : (xs : List A) → (not (any p xs) ≡ true) ↔ All (λ x. ¬ (p x ≡ true)) xs
  any_none [] = (λ _. tt, λ _. refl)
  any_none (x ∷ xs) = elim (Bool-cases (p x)) [
    | inl e ↦ (λ h. absurd (false≢true (rw e at h)), λ h. absurd (h.0 e))
    | inr e ↦ (
      λ h. (λ f. false≢true (sym e ∙ f), (any_none xs).0 (rw e at h)),
      λ h. rw e ((any_none xs).1 h.1),
    )
  ]

-- A count is full exactly when all have the property that is counted.
full_iff :
    {A : Type 0}
    → (p : A → Bool) (P : A → Type 0) (xs : List A) → ((x : A) → (p x ≡ true) ↔ P x)
    → (length (filter p xs) ≡ length xs) ↔ All P xs
full_iff p P [] h = (λ _. tt, λ _. refl)
full_iff p P (x ∷ xs) h = elim (Bool-cases (p x)) [
  | inl e ↦ (
    λ f. (
      (h x).0 e,
      (full_iff p P xs h).0
          (let g : suc (length (filter p xs)) ≡ suc (length xs) = rw e at f in omega arith),
    ),
    λ all. rw e (ap suc ((full_iff p P xs h).1 all.1)),
  )
  | inr e ↦ (
    λ f.
        let less = length-filter p xs in
        let g : length (filter p xs) ≡ suc (length xs) = rw e at f in absurd (omega arith),
    λ all. absurd (false≢true (sym e ∙ (h x).1 all.0)),
  )
]

module _ ⦃env : Env⦄ where
  -- An answer passes exactly when it mentions nothing that is forbidden, and something that is
  -- expected if anything is; upper and lower case do not matter.
  pub score_answer_iff :
      (reply : String) (expect_any reject_any : List String)
      → ((score_answer reply expect_any reject_any).0 ≡ true)
        ↔ (any (mentions reply) reject_any ≡ false)
          × (is_empty expect_any || any (mentions reply) expect_any ≡ true)
  unfolding score_answer
  score_answer_iff reply expect_any reject_any =
      ground (arith, is_empty-filter (mentions reply) reject_any)

  -- The text occurs in the memory's text, upper and lower case aside.
  abbrev pub Says : Memory env.Float → String → Type 0
  Says m part = contains (env.lower part) (env.lower m.text) ≡ true

  blocked_iff :
      (memories : List (Memory env.Float)) (markers : List String)
      → (length
            (filter (λ p. not (any (λ (m : Memory env.Float). mentions m.text p) memories)) markers)
          ≡ length markers)
        ↔ All (λ p. All (λ m. ¬ Says m p) memories) markers
  blocked_iff memories markers =
      full_iff (λ p. not (any (λ (m : Memory env.Float). mentions m.text p) memories))
        (λ p. All (λ m. ¬ Says m p) memories) markers
        (λ p. any_none (λ (m : Memory env.Float). mentions m.text p) memories)

  -- The scores of a store are full exactly when the store is as wanted: all facts are covered exactly
  -- when each of them occurs in some memory; all memories are useful exactly when in each of them some
  -- fact occurs; and all markers are blocked exactly when none of them occurs in any memory. The totals
  -- are the numbers of facts, memories and markers.
  pub score_store_full :
      (memories : List (Memory env.Float)) (gold_facts markers : List String)
      → (((score_store memories gold_facts).0 ≡ (score_store memories gold_facts).1)
          ↔ All (λ g. Some (λ m. Says m g) memories) gold_facts)
        × (((score_store memories gold_facts).2 ≡ (score_store memories gold_facts).3)
            ↔ All (λ m. Some (λ g. Says m g) gold_facts) memories)
        × (((score_injection memories markers).0 ≡ (score_injection memories markers).1)
            ↔ All (λ p. All (λ m. ¬ Says m p) memories) markers)
        × ((score_store memories gold_facts).1 ≡ length gold_facts)
        × ((score_store memories gold_facts).3 ≡ length memories)
        × ((score_injection memories markers).1 ≡ length markers)
  unfolding score_store score_injection
  score_store_full memories [] markers =
      ((λ _. tt, λ _. refl), none_useful memories, blocked_iff memories markers, refl, refl, refl)
    where
      none_useful :
          (ms : List (Memory env.Float)) → (0 ≡ length ms) ↔ All (λ m. Some (λ g. Says m g) []) ms
      none_useful [] = (λ _. tt, λ _. refl)
      none_useful (m ∷ ms) = (λ e. absurd (omega arith), λ h. absurd h.0)
  score_store_full memories (g ∷ gs) markers = (
    full_iff (λ gold. any (λ (m : Memory env.Float). mentions m.text gold) memories)
        (λ gold. Some (λ m. Says m gold) memories) (g ∷ gs)
        (λ gold. any_iff (λ (m : Memory env.Float). mentions m.text gold) memories),
    full_iff (λ (m : Memory env.Float). any (mentions m.text) (g ∷ gs))
        (λ m. Some (λ gold. Says m gold) (g ∷ gs)) memories
        (λ m. any_iff (mentions m.text) (g ∷ gs)),
    blocked_iff memories markers,
    refl,
    refl,
    refl,
  )
