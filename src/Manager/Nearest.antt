-- ===== src/Manager/Nearest.antt =====
-- `_cosine`, `_embed` and `_nearest` of engram/memory/manager.py: the dedupe of unslotted facts.
use long_term_memory_agent.Base.{
  ℕ, String, Bool, not, ◌&&◌, Option, none, some, List, [], ◌∷◌, if◌then◌else◌, map,
}
use long_term_memory_agent.Base.Dicts.{lookup, insert}
use long_term_memory_agent.Env.{Env, Item}
use long_term_memory_agent.Exec.{Result, ok, raise_with, value_error, pure, lift, gets, ◌>>=◌}
use long_term_memory_agent.Schemas.{Memory, memory_namespace}
use long_term_memory_agent.World.{Method, store_search}

abbrev pub dedupe_candidates : ℕ
dedupe_candidates = 10

module _ ⦃env : Env⦄ where
  abbrev pub Vector : Type 0
  Vector = List env.Float

  -- `[x * y for x, y in zip(a, b, strict=True)]`; `none` where the lengths differ.
  unfoldable pub products : Vector → Vector → Option Vector
  products [] [] = some []
  products (x ∷ a) (y ∷ b) = elim (products a b) [ none ↦ none | some ps ↦ some (env.mul x y ∷ ps) ]
  products _ _ = none

  -- `bool(x)` of a float
  pub nonzero : env.Float → Bool
  nonzero x = not (env.le x env.zero && env.le env.zero x)

  -- `math.sqrt(sum(x * x for x in a))`
  pub norm_of : Vector → env.Float
  norm_of a = env.sqrt (env.sum (map (λ x. env.mul x x) a))

  unfoldable pub cosine : Vector → Vector → Result env.Float
  unfolding products nonzero norm_of
  cosine a b = elim (products a b) [
    | none ↦ raise_with value_error
    | some ps ↦
        let na = norm_of a in
        let nb = norm_of b in
        if nonzero na && nonzero nb then ok (env.div (env.sum ps) (env.mul na nb)) else ok env.zero
  ]

  unfoldable pub cache_vector : String → Vector → Method Vector
  cache_vector text v w = (ok v, record w { vectors = insert text v w.vectors })

  unfoldable pub from_cache : String → Option Vector → Method Vector
  unfolding cache_vector
  from_cache text none = cache_vector text (env.embed_query text)
  from_cache text (some v) = pure v

  -- `_embed`
  unfoldable pub embed : String → Method Vector
  embed text = do cached ← gets (λ w. lookup text w.vectors); from_cache text cached

  -- `{m.id: m for m in existing}`
  unfoldable pub live_from :
      List (String × Memory env.Float) → List (Memory env.Float) → List (String × Memory env.Float)
  live_from live [] = live
  live_from live (m ∷ ms) = live_from (insert m.id m live) ms

  -- `[live[item.key] for item in items if item.key in live]`
  unfoldable pub live_items :
      List (String × Memory env.Float) → List (Item env.Float) → List (Memory env.Float)
  live_items live [] = []
  live_items live (i ∷ is) =
      let rest = live_items live is in elim (lookup i.key live) [ none ↦ rest | some m ↦ m ∷ rest ]

  -- The loop over the candidates: the best one so far, and its score.
  unfoldable pub best_of :
      Vector
      → List (Memory env.Float)
      → Option (Memory env.Float)
      → env.Float
      → Method (Option (Memory env.Float) × env.Float)
  best_of query [] best best_score = pure (best, best_score)
  best_of query (m ∷ ms) best best_score = do
    v ← embed m.text
    score ← lift (cosine query v)
    let better = env.lt best_score score
    best_of query ms (if better then some m else best) (if better then score else best_score)

  unfoldable pub pick :
      env.Float → Option (Memory env.Float) × env.Float → Option (Memory env.Float)
  pick threshold (best, best_score) = if env.le threshold best_score then best else none

  unfoldable pub nearest_of :
      env.Float → String → List (Memory env.Float) → Method (Option (Memory env.Float))
  nearest_of threshold text [] = pure none
  nearest_of threshold text (m ∷ ms) = do
    query ← embed text
    found ← best_of query (m ∷ ms) none env.zero
    pure (pick threshold found)

  -- `_nearest`
  unfoldable pub nearest :
      env.Float → String → List (Memory env.Float) → Method (Option (Memory env.Float))
  nearest threshold text [] = pure none
  nearest threshold text (m ∷ ms) = do
    items ← store_search (memory_namespace, m.user_id) (some text) dedupe_candidates 0
    nearest_of threshold text (live_items (live_from [] (m ∷ ms)) items)
