-- ===== src/Read/Best.antt =====
-- `recall` at a given instant: the first live memories of the search, and no more than asked for.
use mathlib.Core.List.{append-nil, append_assoc}
use long_term_memory_agent.Base.{
  All, ℕ, zero, suc, ◌+◌, ◌-◌, ◌*◌, ◌≤◌, ◌<◌, String, ◌≡◌, ◌≢◌, refl, sym, ap, ◌∙◌, Bool, true,
  false, ◌&&◌, Option, some, List, [], ◌∷◌, ◌++◌, length, length-append, length-take-le, take,
  filter, arith, str_eq, eq_iff, ◌==◌, if◌then◌else◌, Bool-cases, inl, inr,
}
use long_term_memory_agent.Base.Texts.{strip}
use long_term_memory_agent.Env.{Env, Item}
use long_term_memory_agent.Exec.{Result, ok, lift, pure, ◌>>=◌, bind-ok}
use long_term_memory_agent.Read.{collect, recall, limit_or, overfetch, score_or}
use long_term_memory_agent.Schemas.{Memory, Recall, Datetime, memory_namespace}
use long_term_memory_agent.Schemas.Active.{is_active, live_at, is_active-live_at}
use long_term_memory_agent.Schemas.Values.{from_value}
use long_term_memory_agent.World.{World, store_search}

module _ ⦃env : Env⦄ where
  -- The items hold these memories, with these scores.
  abbrev pub Decodes : List (Item env.Float) → List (Recall env.Float) → Type 0
  Decodes [] [] = Unit
  Decodes (i ∷ is) (r ∷ rs) =
      (env.validate i.value ≡ some r.memory) × (r.score ≡ score_or i.score) × Decodes is rs
  Decodes _ _ = ⊥

  -- The recalls whose memory is live at an instant.
  abbrev pub live : Datetime → List (Recall env.Float) → List (Recall env.Float)
  live at = filter (λ (r : Recall env.Float). live_at at r.memory)

  length-snoc :
      (rs : List (Recall env.Float)) (r : Recall env.Float) → length (rs ++ r ∷ []) ≡ length rs + 1
  length-snoc rs r = length-append rs (r ∷ []) ∙ ap (λ n. length rs + n) one_long
    where
      one_long : suc zero ≡ 1
      one_long = refl

  read_item :
      (i : Item env.Float) (m : Memory env.Float) (w : World)
      → env.validate i.value ≡ some m
      → lift (from_value i.value) w ≡ (ok m, w)
  unfolding from_value lift
  read_item i m w e = rw (e, from_value)

  module _ (at : Datetime) (k : ℕ) (w : World) where
    abbrev Collected :
        List (Item env.Float) → List (Recall env.Float) → List (Recall env.Float) → Type 0
    Collected items recalls rs =
        collect k (some at) items recalls w
        ≡ (ok (recalls ++ take (k - length recalls) (live at rs)), w)

    -- The loop's body behind its two reads, at each outcome of the tests.
    after_reads :
        (r : Recall env.Float) (is : List (Item env.Float)) (recalls qs : List (Recall env.Float))
        → length recalls < k
        → ((more : List (Recall env.Float)) → length more < k → Collected is more qs)
        → (b : Bool)
        → (if b && length (recalls ++ r ∷ []) == k
              then pure (recalls ++ r ∷ [])
              else collect k (some at) is (if b then recalls ++ r ∷ [] else recalls))
            w
          ≡ (
            ok (recalls ++ take (k - length recalls) (if b then r ∷ live at qs else live at qs)),
            w,
          )
    unfolding pure
    after_reads r is recalls qs room ih false = ih recalls room
    after_reads r is recalls qs room ih true = elim (Bool-cases (length (recalls ++ r ∷ []) == k)) [
      | inl full ↦
          let last : k - length recalls ≡ 1 = ground (arith, length-snoc recalls r) in
          rw (full, last)
      | inr more ↦
          let left : k - length recalls ≡ suc (k - length (recalls ++ r ∷ [])) =
            ground (arith, length-snoc recalls r) in
          rw (more, left)
            (ih (recalls ++ r ∷ []) (ground (arith, length-snoc recalls r))
              ∙ ap (λ xs. (ok xs, w)) (append_assoc recalls (r ∷ []) _))
    ]

    collect_lem :
        (is : List (Item env.Float)) (recalls rs : List (Recall env.Float))
        → Decodes is rs
        → length recalls < k
        → Collected is recalls rs
    unfolding collect pure
    collect_lem [] recalls [] d room = ap (λ xs. (ok xs, w)) (sym (nothing (k - length recalls)))
      where
        nothing : (n : ℕ) → recalls ++ take n [] ≡ recalls
        nothing zero = append-nil recalls
        nothing (suc n) = append-nil recalls
    collect_lem [] recalls (r ∷ rs) d room = absurd d
    collect_lem (i ∷ is) recalls [] d room = absurd d
    collect_lem (i ∷ is) recalls (r ∷ rs) d room =
        bind-ok (lift (from_value i.value)) _ w w r.memory (read_item i r.memory w d.0)
        ∙ bind-ok (is_active (some at) r.memory) _ w w (live_at at r.memory)
            (is_active-live_at at r.memory w)
        ∙ ap (λ x. next (record { memory = r.memory; score = x })) (sym d.1)
        ∙ after_reads r is recalls rs room (λ more h. collect_lem is more rs d.2 h)
            (live_at at r.memory)
      where
        next : Recall env.Float → Result (List (Recall env.Float)) × World
        next q =
            (if live_at at r.memory && length (recalls ++ q ∷ []) == k
                then pure (recalls ++ q ∷ [])
                else collect k (some at) is
                    (if live_at at r.memory then recalls ++ q ∷ [] else recalls))
              w

  -- What the store's search returns for a query.
  abbrev pub matches : World → String → String → ℕ → List (Item env.Float)
  matches w user_id query k =
      env.search w.store (memory_namespace, user_id) (some query) (k * overfetch) 0

  -- At a given instant, for a query that is not blank and a positive limit `k` (the given one or
  -- else the default), where every item of the search can be read, `recall` returns the memories of
  -- the search that are live then, in its order, and of these the first `k`; it changes nothing.
  pub recall_lem :
      (top_k : ℕ) (user_id query : String) (limit : Option ℕ) (at : Datetime) (w : World)
      (rs : List (Recall env.Float))
      → strip query ≢ ""
      → 0 < limit_or limit top_k
      → Decodes (matches w user_id query (limit_or limit top_k)) rs
      → recall top_k user_id query limit (some at) w
        ≡ (ok (take (limit_or limit top_k) (live at rs)), w)
  unfolding recall store_search ◌>>=◌
  recall_lem top_k user_id query limit at w rs asked positive d = rw (not_blank) (
      collect_lem at (limit_or limit top_k) w _ [] rs d positive
      ∙ ap (λ n. (ok (take n (live at rs)), w)) (minus_zero (limit_or limit top_k)))
    where
      minus_zero : (n : ℕ) → n - 0 ≡ n
      minus_zero n = omega arith

      not_blank : str_eq (strip query) "" ≡ false
      not_blank = ground (arith, eq_iff (strip query) "")

  live-All :
      (at : Datetime) (rs : List (Recall env.Float))
      → All (λ r. live_at at r.memory ≡ true) (live at rs)
  live-All at [] = tt
  live-All at (r ∷ rs) = kept (live_at at r.memory) refl (live-All at rs)
    where
      kept :
          (b : Bool)
          → live_at at r.memory ≡ b
          → All (λ q. live_at at q.memory ≡ true) (live at rs)
          → All (λ q. live_at at q.memory ≡ true) (if b then r ∷ live at rs else live at rs)
      kept true e h = (e, h)
      kept false e h = h

  All-take {ℓ} : {A : Type 0} (P : A → Type ℓ) (n : ℕ) (xs : List A) → All P xs → All P (take n xs)
  All-take P zero xs h = tt
  All-take P (suc n) [] h = tt
  All-take P (suc n) (x ∷ xs) h = (h.0, All-take P n xs h.1)

  -- Under the same conditions (a given instant, a query that is not blank, a positive limit `k`,
  -- and items that can all be read), what `recall` returns is at most `k` memories, and each is
  -- live at that instant: neither superseded nor expired.
  pub recall_live :
      (top_k : ℕ) (user_id query : String) (limit : Option ℕ) (at : Datetime) (w : World)
      (rs found : List (Recall env.Float))
      → strip query ≢ ""
      → 0 < limit_or limit top_k
      → Decodes (matches w user_id query (limit_or limit top_k)) rs
      → (recall top_k user_id query limit (some at) w).0 ≡ ok found
      → (length found ≤ limit_or limit top_k) × All (λ r. live_at at r.memory ≡ true) found
  recall_live top_k user_id query limit at w rs found asked positive d e =
      let same : take (limit_or limit top_k) (live at rs) ≡ found =
        cc (e, recall_lem top_k user_id query limit at w rs asked positive d) in
      rw (← same) (
        length-take-le (limit_or limit top_k) (live at rs),
        All-take (λ r. live_at at r.memory ≡ true) (limit_or limit top_k) (live at rs)
            (live-All at rs),
      )
