-- ===== src/Manager/Slots.antt =====
-- One live memory for each slot, as a property of the list of live memories.
use long_term_memory_agent.Base.{
  subst, ◌≡◌, ◌≢◌, refl, sym, ap, ◌∙◌, Bool, true, false, ◌&&◌, List, [], ◌∷◌, ◌++◌, All,
  All-append, All-filter, filter, subst, str_eq, eq_iff, eq_refl, if◌then◌else◌, inl, inr,
}
use long_term_memory_agent.Env.{Env}
use long_term_memory_agent.Manager.Dedupe.{IsAmong}
use long_term_memory_agent.Manager.Effects.{without, replace_memory}
use long_term_memory_agent.Manager.Retired.{remove_all}
use long_term_memory_agent.Schemas.{Memory}

module _ ⦃env : Env⦄ where
  -- Two memories fill one slot.
  abbrev pub same : Memory env.Float → Memory env.Float → Bool
  same m n = str_eq n.attribute m.attribute && str_eq n.scope m.scope

  -- No two memories of the list fill one slot.
  abbrev pub OneEach : List (Memory env.Float) → Type 0
  OneEach [] = Unit
  OneEach (m ∷ ms) = (m.attribute ≢ "" → All (λ n. same m n ≡ false) ms) × OneEach ms

  -- No two memories of the list have one id.
  abbrev pub DistinctIds : List (Memory env.Float) → Type 0
  DistinctIds [] = Unit
  DistinctIds (m ∷ ms) = All (λ n. str_eq n.id m.id ≡ false) ms × DistinctIds ms

  -- Removing memories keeps both.
  filter-OneEach :
      (p : Memory env.Float → Bool) (ms : List (Memory env.Float))
      → OneEach ms
      → OneEach (filter p ms)
  filter-OneEach p [] h = tt
  filter-OneEach p (m ∷ ms) h = keep (p m) (filter-OneEach p ms h.1)
    where
      keep :
          (b : Bool) → OneEach (filter p ms) → OneEach (if b then m ∷ filter p ms else filter p ms)
      keep true ih = (λ slotted. All-filter _ p ms (h.0 slotted), ih)
      keep false ih = ih

  pub filter-DistinctIds :
      (p : Memory env.Float → Bool) (ms : List (Memory env.Float))
      → DistinctIds ms
      → DistinctIds (filter p ms)
  filter-DistinctIds p [] h = tt
  filter-DistinctIds p (m ∷ ms) h = keep (p m) (filter-DistinctIds p ms h.1)
    where
      keep :
          (b : Bool)
          → DistinctIds (filter p ms)
          → DistinctIds (if b then m ∷ filter p ms else filter p ms)
      keep true ih = (All-filter _ p ms h.0, ih)
      keep false ih = ih

  pub remove_all-OneEach :
      (ss ms : List (Memory env.Float)) → OneEach ms → OneEach (remove_all ss ms)
  unfolding remove_all without
  remove_all-OneEach [] ms h = h
  remove_all-OneEach (s ∷ ss) ms h = remove_all-OneEach ss _ (filter-OneEach _ ms h)

  pub remove_all-DistinctIds :
      (ss ms : List (Memory env.Float)) → DistinctIds ms → DistinctIds (remove_all ss ms)
  unfolding remove_all without
  remove_all-DistinctIds [] ms h = h
  remove_all-DistinctIds (s ∷ ss) ms h = remove_all-DistinctIds ss _ (filter-DistinctIds _ ms h)

  -- A memory can be added to a list in which nothing fills its slot.
  pub append-OneEach :
      (ms : List (Memory env.Float)) (new : Memory env.Float)
      → All (λ m. m.attribute ≢ "" → same m new ≡ false) ms
      → OneEach ms
      → OneEach (ms ++ new ∷ [])
  append-OneEach [] new clear h = (λ slotted. tt, tt)
  append-OneEach (m ∷ ms) new clear h = (
    λ slotted. All-append _ ms (new ∷ []) (h.0 slotted) (clear.0 slotted, tt),
    append-OneEach ms new clear.1 h.1,
  )

  -- Lists whose memories have, in order, the same ids, slots and values.
  abbrev pub IsLike : Memory env.Float → Memory env.Float → Type 0
  IsLike m n =
      (m.id ≡ n.id) × (m.attribute ≡ n.attribute) × (m.scope ≡ n.scope) × (m.value ≡ n.value)

  abbrev pub AreLike : List (Memory env.Float) → List (Memory env.Float) → Type 0
  AreLike [] [] = Unit
  AreLike (m ∷ ms) (n ∷ ns) = IsLike m n × AreLike ms ns
  AreLike _ _ = ⊥

  AreLike-refl : (ms : List (Memory env.Float)) → AreLike ms ms
  AreLike-refl [] = tt
  AreLike-refl (m ∷ ms) = ((refl, refl, refl, refl), AreLike-refl ms)

  pub replace-AreLike :
      (ms : List (Memory env.Float)) (u : Memory env.Float)
      → All (λ m. str_eq m.id u.id ≡ true → IsLike m u) ms
      → AreLike ms (replace_memory ms u)
  unfolding replace_memory
  replace-AreLike [] u h = tt
  replace-AreLike (m ∷ ms) u h = at_head (str_eq m.id u.id) refl (replace-AreLike ms u h.1)
    where
      at_head :
          (b : Bool)
          → str_eq m.id u.id ≡ b
          → AreLike ms (replace_memory ms u)
          → AreLike (m ∷ ms) (if b then u ∷ ms else m ∷ replace_memory ms u)
      at_head true e ih = (h.0 e, AreLike-refl ms)
      at_head false e ih = ((refl, refl, refl, refl), ih)

  pub All-AreLike :
      (P Q : Memory env.Float → Type 0) (ms ns : List (Memory env.Float))
      → ((m n : Memory env.Float) → IsLike m n → P m → Q n)
      → AreLike ms ns
      → All P ms
      → All Q ns
  All-AreLike P Q [] [] f a h = tt
  All-AreLike P Q [] (n ∷ ns) f a h = absurd a
  All-AreLike P Q (m ∷ ms) [] f a h = absurd a
  All-AreLike P Q (m ∷ ms) (n ∷ ns) f a h = (f m n a.0 h.0, All-AreLike P Q ms ns f a.1 h.1)

  OneEach-AreLike : (ms ns : List (Memory env.Float)) → AreLike ms ns → OneEach ms → OneEach ns
  OneEach-AreLike [] [] a h = tt
  OneEach-AreLike [] (n ∷ ns) a h = absurd a
  OneEach-AreLike (m ∷ ms) [] a h = absurd a
  OneEach-AreLike (m ∷ ms) (n ∷ ns) a h = (
    λ slotted.
        All-AreLike (λ x. same m x ≡ false) (λ y. same n y ≡ false) ms ns
          (λ x y l e. rw (← a.0.1, ← a.0.2, ← l.1, ← l.2) e) a.1
          (h.0 (λ e. slotted (sym a.0.1 ∙ e))),
    OneEach-AreLike ms ns a.1 h.1,
  )

  DistinctIds-AreLike :
      (ms ns : List (Memory env.Float)) → AreLike ms ns → DistinctIds ms → DistinctIds ns
  DistinctIds-AreLike [] [] a h = tt
  DistinctIds-AreLike [] (n ∷ ns) a h = absurd a
  DistinctIds-AreLike (m ∷ ms) [] a h = absurd a
  DistinctIds-AreLike (m ∷ ms) (n ∷ ns) a h = (
    All-AreLike (λ x. str_eq x.id m.id ≡ false) (λ y. str_eq y.id n.id ≡ false) ms ns
        (λ x y l e. rw (← a.0.0, ← l.0) e) a.1 h.0,
    DistinctIds-AreLike ms ns a.1 h.1,
  )

  pub at_among :
      (P : Memory env.Float → Type 0) (ms : List (Memory env.Float)) (k : Memory env.Float)
      → All P ms
      → IsAmong k ms
      → P k
  at_among P [] k h a = absurd a
  at_among P (m ∷ ms) k h (inl e) = subst P (sym e) h.0
  at_among P (m ∷ ms) k h (inr later) = at_among P ms k h.1 later

  -- In a list with distinct ids, only the memory itself has its id.
  pub only :
      (ms : List (Memory env.Float)) (k u : Memory env.Float)
      → DistinctIds ms
      → IsAmong k ms
      → IsLike k u
      → All (λ m. str_eq m.id u.id ≡ true → IsLike m u) ms
  only [] k u d a l = tt
  only (m ∷ ms) k u d (inl e) l = (λ _. subst (λ x. IsLike x u) e l, rest ms d.0)
    where
      rest :
          (xs : List (Memory env.Float))
          → All (λ n. str_eq n.id m.id ≡ false) xs
          → All (λ n. str_eq n.id u.id ≡ true → IsLike n u) xs
      rest [] h = tt
      rest (x ∷ xs) h = (
        λ t.
            let f : str_eq x.id m.id ≡ false = h.0 in
            let i : u.id ≡ m.id = sym l.0 ∙ ap (λ (q : Memory env.Float). q.id) e in absurd cc,
        rest xs h.1,
      )
  only (m ∷ ms) k u d (inr later) l = (
    λ t.
        let f : str_eq k.id m.id ≡ false =
          at_among (λ n. str_eq n.id m.id ≡ false) ms k d.0 later in
        let i : m.id ≡ k.id = (eq_iff m.id u.id).0 t ∙ sym l.0 in let r = eq_refl k.id in absurd cc,
    only ms k u d.1 later l,
  )

  pub replace-OneEach :
      (ms : List (Memory env.Float)) (k u : Memory env.Float)
      → DistinctIds ms
      → IsAmong k ms
      → IsLike k u
      → OneEach ms
      → OneEach (replace_memory ms u) × DistinctIds (replace_memory ms u)
  replace-OneEach ms k u d a l h =
      let alike = replace-AreLike ms u (only ms k u d a l) in
      (OneEach-AreLike ms _ alike h, DistinctIds-AreLike ms _ alike d)
