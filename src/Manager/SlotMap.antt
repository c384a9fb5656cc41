-- ===== src/Manager/SlotMap.antt =====
-- What a list of live memories says of the slots: a map from slots to values.
use long_term_memory_agent.Base.{
  and_true, or_false, All-map, All-filter, false≢true, ◌≡◌, ◌≢◌, refl, sym, ap, ◌∙◌, String, Bool,
  true, false, not, ◌&&◌, Option, none, some, List, [], ◌∷◌, ◌++◌, All, filter, find?, str_eq,
  eq_iff, if◌then◌else◌, Bool-cases, inl, inr,
}
use long_term_memory_agent.Env.{Env}
use long_term_memory_agent.Extract.{CandidateFact}
use long_term_memory_agent.Manager.Effects.{norm, without}
use long_term_memory_agent.Manager.Resolve.{fills, states}
use long_term_memory_agent.Manager.Retired.{remove_all, one_of, filter-none}
use long_term_memory_agent.Manager.Slots.{OneEach, same, AreLike}
use long_term_memory_agent.Schemas.{Memory}

module _ ⦃env : Env⦄ where
  abbrev pub SlotMap : Type 0
  SlotMap = String → String → Option String

  -- What the user says of a slot replaces what was known of it, and of no other.
  unfoldable pub learn : CandidateFact env.Float → SlotMap → SlotMap
  learn c known a s =
      if str_eq c.attribute a && str_eq c.scope s then some (norm c.value) else known a s

  abbrev pub in_slot : String → String → Memory env.Float → Bool
  in_slot a s m = str_eq m.attribute a && str_eq m.scope s

  abbrev pub value_of : Option (Memory env.Float) → Option String
  value_of none = none
  value_of (some m) = some (norm m.value)

  unfoldable pub slot_map : List (Memory env.Float) → SlotMap
  slot_map ms a s = value_of (find? (in_slot a s) ms)

  -- A memory behind the others counts where they say nothing.
  pub find-append :
      (p : Memory env.Float → Bool) (ms : List (Memory env.Float)) (m : Memory env.Float)
      → p m ≡ false
      → find? p (ms ++ m ∷ []) ≡ find? p ms
  find-append p [] m h = rw h refl
  find-append p (x ∷ ms) m h = elim (Bool-cases (p x)) [
    | inl e ↦ rw e refl
    | inr e ↦ rw e (find-append p ms m h)
  ]

  pub find-last :
      (p : Memory env.Float → Bool) (ms : List (Memory env.Float)) (m : Memory env.Float)
      → filter p ms ≡ []
      → p m ≡ true
      → find? p (ms ++ m ∷ []) ≡ some m
  find-last p [] m e h = rw h refl
  find-last p (x ∷ ms) m e h = elim (Bool-cases (p x)) [
    | inl k ↦ absurd (filled (rw k at e))
    | inr k ↦ rw k (find-last p ms m (rw k at e) h)
  ]
    where
      filled : {y : Memory env.Float} {ys : List (Memory env.Float)} → y ∷ ys ≡ [] → ⊥
      filled f = cc

  find-filter :
      (p q : Memory env.Float → Bool) (ms : List (Memory env.Float))
      → All (λ m. p m ≡ true → q m ≡ true) ms
      → find? p (filter q ms) ≡ find? p ms
  find-filter p q [] h = refl
  find-filter p q (m ∷ ms) h = elim (Bool-cases (q m)) [
    | inl e ↦
        rw e (elim (Bool-cases (p m)) [ inl k ↦ rw k refl | inr k ↦ rw k (find-filter p q ms h.1) ])
    | inr e ↦ elim (Bool-cases (p m)) [
      | inl k ↦ absurd (false≢true (sym e ∙ h.0 k))
      | inr k ↦ rw (e, k) (find-filter p q ms h.1)
    ]
  ]

  -- What is not removed is found as before.
  pub find-remove_all :
      (p : Memory env.Float → Bool) (ss ms : List (Memory env.Float))
      → All (λ m. p m ≡ true → one_of ss m.id ≡ false) ms
      → find? p (remove_all ss ms) ≡ find? p ms
  unfolding remove_all without
  find-remove_all p [] ms h = refl
  find-remove_all p (s ∷ ss) ms h =
      find-remove_all p ss (without s ms) (
        All-filter _ (λ x. not (str_eq x.id s.id)) ms
          (All-map _ _ ms (λ m f k. (or_false (str_eq m.id s.id) _ (f k)).1) h))
      ∙ find-filter p (λ x. not (str_eq x.id s.id)) ms
          (All-map _ _ ms (λ m f k. ap not (or_false (str_eq m.id s.id) _ (f k)).0) h)

  -- Lists that are alike say the same.
  pub slot_map-AreLike :
      (ms ns : List (Memory env.Float)) (a s : String)
      → AreLike ms ns
      → slot_map ms a s ≡ slot_map ns a s
  unfolding slot_map
  slot_map-AreLike [] [] a s h = refl
  slot_map-AreLike [] (n ∷ ns) a s h = absurd h
  slot_map-AreLike (m ∷ ms) [] a s h = absurd h
  slot_map-AreLike (m ∷ ms) (n ∷ ns) a s h = elim (Bool-cases (in_slot a s m)) [
    | inl e ↦
        let f : in_slot a s n ≡ true = rw (← h.0.1, ← h.0.2) e in
        rw (e, f) (ap (λ v. some (norm v)) h.0.3)
    | inr e ↦
        let f : in_slot a s n ≡ false = rw (← h.0.1, ← h.0.2) e in
        rw (e, f) (slot_map-AreLike ms ns a s h.1)
  ]

  pub filling :
      (c : CandidateFact env.Float) (m : Memory env.Float)
      → fills c m ≡ true
      → (m.attribute ≡ c.attribute) × (m.scope ≡ c.scope)
  filling c m k =
      let (a, s) = and_true (str_eq m.attribute c.attribute) (str_eq m.scope c.scope) k in
      ((eq_iff m.attribute c.attribute).0 a, (eq_iff m.scope c.scope).0 s)

  others :
      (c : CandidateFact env.Float) (m : Memory env.Float) (ms : List (Memory env.Float))
      → fills c m ≡ true
      → All (λ n. same m n ≡ false) ms
      → All (λ n. fills c n ≡ false) ms
  others c m ms k h =
      let (a, s) = filling c m k in
      All-map (λ n. same m n ≡ false) (λ n. fills c n ≡ false) ms (λ n f. rw (← a, ← s) f) h

  stated :
      (c : CandidateFact env.Float) (m known : Memory env.Float)
      → (if states c m then some m else none) ≡ some known
      → norm m.value ≡ norm c.value
  stated c m known e = elim (Bool-cases (states c m)) [
    | inl k ↦ (eq_iff (norm m.value) (norm c.value)).0 k
    | inr k ↦ absurd (nothing (rw k at e))
  ]
    where
      nothing : none ≡ some known → ⊥
      nothing f = cc

  -- Where no two memories fill one slot, the one that states the value is what the slot says.
  pub slot_map-stated :
      (c : CandidateFact env.Float) (ms : List (Memory env.Float)) (known : Memory env.Float)
      → c.attribute ≢ ""
      → OneEach ms
      → find? (states c) (filter (fills c) ms) ≡ some known
      → slot_map ms c.attribute c.scope ≡ some (norm c.value)
  unfolding slot_map
  slot_map-stated c [] known slot h e = absurd cc
  slot_map-stated c (m ∷ ms) known slot h e = elim (Bool-cases (fills c m)) [
    | inl k ↦
        let alone =
          filter-none (fills c) ms
            (others c m ms k (h.0 (λ f. slot (sym (filling c m k).0 ∙ f)))) in
        rw k (ap some (stated c m known (rw (k, alone) at e)))
    | inr k ↦ rw k (slot_map-stated c ms known slot h.1 (rw k at e))
  ]
