-- ===== src/Manager/Dedupe.antt =====
-- `_nearest`: the memory that a fact with no slot repeats is one that is known, and near enough.
use long_term_memory_agent.Base.{
  subst, ℕ, String, ◌≡◌, refl, sym, ap, ◌∙◌, Bool, true, false, Option, none, some, List, [], ◌∷◌,
  All, arith, str_eq, eq_iff, if◌then◌else◌, Bool-cases, inl, inr, length, ◌⊎◌, ◌&&◌,
}
use long_term_memory_agent.Base.Dicts.{lookup, insert, lookup-insert}
use long_term_memory_agent.Env.{Env}
use long_term_memory_agent.Exec.{ok, pure, lift, gets, ◌>>=◌}
use long_term_memory_agent.Exec.Runs.{Runs, HasReturned, Runs-pure, Runs-lift, Runs-bind}
use long_term_memory_agent.Manager.Nearest.{
  Vector, embed, from_cache, cache_vector, cosine, products, nonzero, norm_of, best_of, pick,
  nearest_of, nearest, live_from, live_items,
}
use long_term_memory_agent.Manager.Found.{Each, All-live, Values-live}
use long_term_memory_agent.Schemas.{Memory}
use long_term_memory_agent.World.{World, store_search}

module _ {A : Type 0} where
  -- `a` stands in the list.
  abbrev pub IsAmong : A → List A → Type 0
  IsAmong a [] = ⊥
  IsAmong a (x ∷ xs) = (a ≡ x) ⊎ IsAmong a xs

  pub All-IsAmong : (xs : List A) → All (λ a. IsAmong a xs) xs
  All-IsAmong [] = tt
  All-IsAmong (x ∷ xs) = (inl refl, later xs (All-IsAmong xs))
    where
      later : (ys : List A) → All (λ a. IsAmong a xs) ys → All (λ a. IsAmong a (x ∷ xs)) ys
      later [] h = tt
      later (y ∷ ys) h = (inr h.0, later ys h.1)

module _ ⦃env : Env⦄ where
  -- What the cache holds for a text is the text's embedding.
  abbrev pub IsCached : World → Type 0
  IsCached w =
      (text : String) (v : Vector) → lookup text w.vectors ≡ some v → v ≡ env.embed_query text

  cached_insert :
      (text t : String) (v : Vector) (w : World)
      → IsCached w
      → lookup t (insert text (env.embed_query text) w.vectors) ≡ some v
      → v ≡ env.embed_query t
  cached_insert text t v w h e = elim (Bool-cases (str_eq text t)) [
    | inl here ↦
        let same : some (env.embed_query text) ≡ some v = rw (lookup-insert, here) at e in
        let one : text ≡ t = (eq_iff text t).0 here in cc
    | inr there ↦ h t v (rw (lookup-insert, there) at e)
  ]

  -- `_embed` returns the vector that the model gives, cached or not.
  embed-Runs : (text : String) → Runs IsCached (embed text) (λ v. v ≡ env.embed_query text)
  unfolding embed from_cache cache_vector pure gets ◌>>=◌
  embed-Runs text = record { at = λ w h. by w h (lookup text w.vectors) refl }
    where
      by :
          (w : World)
          → IsCached w
          → (o : Option Vector) → lookup text w.vectors ≡ o
          → HasReturned IsCached (λ v. v ≡ env.embed_query text) (from_cache text o w)
      by w h none e = record {
        result = env.embed_query text;
        state = record w { vectors = insert text (env.embed_query text) w.vectors };
        returned = refl;
        kept = λ t v found. cached_insert text t v w h found;
        holds = refl;
      }
      by w h (some v) e = record {
        result = v;
        state = w;
        returned = refl;
        kept = h;
        holds = h text v e;
      }

  searched :
      (a : String × String) (q : Option String) (limit offset : ℕ)
      → Runs IsCached (store_search a q limit offset) (λ _. Unit)
  unfolding store_search
  searched a q limit offset = record {
    at = λ w h. record {
      result = env.search w.store a q limit offset;
      state = w;
      returned = refl;
      kept = h;
      holds = tt;
    };
  }

  -- Vectors of one length have a cosine.
  products-some : (a b : Vector) → length a ≡ length b → (ps : Vector) × (products a b ≡ some ps)
  unfolding products
  products-some [] [] e = ([], refl)
  products-some [] (y ∷ b) e = absurd (omega arith)
  products-some (x ∷ a) [] e = absurd (omega arith)
  products-some (x ∷ a) (y ∷ b) e =
      let (ps, f) = products-some a b (omega arith) in (env.mul x y ∷ ps, rw f refl)

  cosine_ok : (a b : Vector) → length a ≡ length b → (score : env.Float) × (cosine a b ≡ ok score)
  unfolding cosine
  cosine_ok a b e =
      let (ps, f) = products-some a b e in
      elim (Bool-cases (nonzero (norm_of a) && nonzero (norm_of b))) [
        | inl both ↦
            (env.div (env.sum ps) (env.mul (norm_of a) (norm_of b)), rw (f, both, cosine) refl)
        | inr none_of ↦ (env.zero, rw (f, none_of, cosine) refl)
      ]

  module _ (text : String) (threshold : env.Float) where
    -- The similarity of a memory to the text is the given one.
    abbrev Scores : Memory env.Float → env.Float → Type 0
    Scores m score = cosine (env.embed_query text) (env.embed_query m.text) ≡ ok score

    -- The memory is near enough.
    abbrev pub IsNear : Memory env.Float → Type 0
    IsNear m = (score : env.Float) × Scores m score × (env.le threshold score ≡ true)

    module _ (P : Memory env.Float → Type 0) where
      abbrev Best : Option (Memory env.Float) × env.Float → Type 0
      Best (none, score) = Unit
      Best (some m, score) = P m × Scores m score

      module _
          (dims : (s : String) → length (env.embed_query text) ≡ length (env.embed_query s)) where
        best_of-Runs :
            (ms : List (Memory env.Float)) (best : Option (Memory env.Float)) (score : env.Float)
            → All P ms
            → Best (best, score)
            → Runs IsCached (best_of (env.embed_query text) ms best score) Best
        unfolding best_of
        best_of-Runs [] best score hs h = Runs-pure _ _ h
        best_of-Runs (m ∷ ms) best score hs h =
            Runs-bind (embed m.text) _ _ _ (embed-Runs m.text) λ v e.
              Runs-bind (lift (cosine (env.embed_query text) v)) _ (Scores m) _ (scored v e)
                λ s found. best_of-Runs ms _ _ hs.1 (better (env.lt score s) s found)
          where
            scored :
                (v : Vector)
                → v ≡ env.embed_query m.text
                → Runs IsCached (lift (cosine (env.embed_query text) v)) (Scores m)
            scored v e =
                let (s, f) =
                  cosine_ok (env.embed_query text) (env.embed_query m.text) (dims m.text) in
                Runs-lift _ s _ (ap (cosine (env.embed_query text)) e ∙ f) f

            better :
                (b : Bool) (s : env.Float)
                → Scores m s
                → Best (if b then some m else best, if b then s else score)
            better true s found = (hs.0, found)
            better false s found = h

        pick-Each :
            (found : Option (Memory env.Float) × env.Float)
            → Best found
            → Each (λ m. P m × IsNear m) (pick threshold found)
        unfolding pick
        pick-Each (none, score) h = nothing (env.le threshold score)
          where
            nothing : (b : Bool) → Each (λ m. P m × IsNear m) (if b then none else none)
            nothing true = tt
            nothing false = tt
        pick-Each (some m, score) h = near (env.le threshold score) refl
          where
            near :
                (b : Bool)
                → env.le threshold score ≡ b
                → Each (λ x. P x × IsNear x) (if b then some m else none)
            near true e = (h.0, (score, h.1, e))
            near false e = tt

        nearest_of-Runs :
            (ms : List (Memory env.Float))
            → All P ms
            → Runs IsCached (nearest_of threshold text ms) (Each (λ m. P m × IsNear m))
        unfolding nearest_of
        nearest_of-Runs [] hs = Runs-pure _ _ tt
        nearest_of-Runs (m ∷ ms) hs = Runs-bind (embed text) _ _ _ (embed-Runs text) λ query e.
            Runs-bind (best_of query (m ∷ ms) none env.zero) _ Best _
              (subst (λ v. Runs IsCached (best_of v (m ∷ ms) none env.zero) Best) (sym e)
                (best_of-Runs (m ∷ ms) none env.zero hs tt))
              λ found h. Runs-pure _ _ (pick-Each found h)

        nearest-Runs :
            (existing : List (Memory env.Float))
            → All P existing
            → Runs IsCached (nearest threshold text existing) (Each (λ m. P m × IsNear m))
        unfolding nearest
        nearest-Runs [] hs = Runs-pure _ _ tt
        nearest-Runs (m ∷ ms) hs =
            Runs-bind (store_search _ _ _ _) _ (λ _. Unit) _ (searched _ _ _ _)
              λ items _.
                nearest_of-Runs (live_items (live_from [] (m ∷ ms)) items)
                  (All-live P _ items (Values-live P [] (m ∷ ms) tt hs))

    -- Where all embeddings are as long as the text's and the cache holds embeddings, `_nearest`
    -- returns, and keeps the cache correct; if it returns a memory, that is one of the known ones,
    -- and its cosine similarity to the text is at least the threshold.
    pub nearest_lem :
        (existing : List (Memory env.Float)) (w : World)
        → ((s : String) → length (env.embed_query text) ≡ length (env.embed_query s))
        → IsCached w
        → HasReturned IsCached
            (Each (λ m. IsAmong m existing × IsNear m))
            (nearest threshold text existing w)
    nearest_lem existing w dims h =
        (nearest-Runs (λ m. IsAmong m existing) dims existing (All-IsAmong existing)).at w h
