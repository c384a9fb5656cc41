-- ===== src/Manager/Outcome.antt =====
-- What `_nearest`, `_resolve` and the loop of `apply` keep and return, over the same invariants.
use long_term_memory_agent.Base.{
  ℕ, String, Bool, Option, none, some, List, [], ◌∷◌, All, All-filter, str_eq, not, filter, find?,
}
use long_term_memory_agent.Base.Dicts.{lookup}
use long_term_memory_agent.Env.{Env}
use long_term_memory_agent.Exec.{lift, ◌>>=◌}
use long_term_memory_agent.Exec.Keeps.{Keeps, Keeps-lift}
use long_term_memory_agent.Exec.Yields.{Yields, Yields-pure, Yields-if, Yields-bind, Yields-then}
use long_term_memory_agent.Extract.{CandidateFact}
use long_term_memory_agent.Manager.Effects.{Manager, retire_all, reinforce, build}
use long_term_memory_agent.Manager.Nearest.{
  from_cache, embed, best_of, nearest, nearest_of, pick, cosine,
}
use long_term_memory_agent.Manager.Owned.{IsOf}
use long_term_memory_agent.Manager.Resolve.{
  Outcome, confirm, contradict, add, resolve, resolve_slotted, resolve_unslotted, fills, states,
}
use long_term_memory_agent.Manager.Steps.{
  IsBuilt, reinforce-Yields, retire_all-Yields, build-Yields, save-Inv,
}
use long_term_memory_agent.Schemas.{Memory, Provenance, namespace}
use long_term_memory_agent.Schemas.Values.{to_value}
use long_term_memory_agent.World.{World, store_search}
use long_term_memory_agent.Write.{save}
use long_term_memory_agent.Manager.Found.{Each, Each-find, Each-if, Values-live, All-live}

module _ ⦃env : Env⦄ (user_id : String) (R : env.State → Type 0)
    (saves : (s : env.State) (m : Memory env.Float) (index : Bool)
      → IsOf user_id m
      → R s
      → R (env.put s (namespace m) m.id (to_value m) index)) where
  abbrev Inv : World → Type 0
  Inv w = R w.store

  search-Inv :
      (a : String × String) (q : Option String) (limit offset : ℕ)
      → Keeps Inv (store_search a q limit offset)
  unfolding store_search
  search-Inv a q limit offset = record { at = λ w h. h }

  embed-Inv : (text : String) → Keeps Inv (embed text)
  unfolding embed from_cache ◌>>=◌
  embed-Inv text = record { at = λ w h. cached (lookup text w.vectors) w h }
    where
      cached :
          (o : Option (List env.Float)) (w : World) → R w.store → R ((from_cache text o w).1).store
      cached none w h = h
      cached (some v) w h = h

  best_of-Yields :
      (P : Memory env.Float → Type 0) (query : List env.Float) (ms : List (Memory env.Float))
      (best : Option (Memory env.Float)) (score : env.Float)
      → All P ms
      → Each P best
      → Yields Inv (best_of query ms best score) (λ r. Each P r.0)
  unfolding best_of
  best_of-Yields P query [] best score hs hb = Yields-pure _ _ hb
  best_of-Yields P query (m ∷ ms) best score hs hb =
      Yields-then (embed m.text) _ _ (embed-Inv m.text) λ v.
        Yields-then (lift (cosine query v)) _ _ (Keeps-lift _)
          λ x. best_of-Yields P query ms _ _ hs.1 (Each-if P (env.lt score x) (some m) best hs.0 hb)

  nearest_of-Yields :
      (P : Memory env.Float → Type 0) (threshold : env.Float) (text : String)
      (ms : List (Memory env.Float))
      → All P ms
      → Yields Inv (nearest_of threshold text ms) (Each P)
  unfolding nearest_of pick
  nearest_of-Yields P threshold text [] hs = Yields-pure _ _ tt
  nearest_of-Yields P threshold text (m ∷ ms) hs =
      Yields-then (embed text) _ _ (embed-Inv text) λ query.
        Yields-bind (best_of query (m ∷ ms) none env.zero) _ _ _
          (best_of-Yields P query (m ∷ ms) none env.zero hs tt)
          λ found h. Yields-pure _ _ (Each-if P (env.le threshold found.1) found.0 none h tt)

  -- What `_nearest` finds is one of the memories that it was given.
  pub nearest-Yields :
      (P : Memory env.Float → Type 0) (threshold : env.Float) (text : String)
      (ms : List (Memory env.Float))
      → All P ms
      → Yields Inv (nearest threshold text ms) (Each P)
  unfolding nearest
  nearest-Yields P threshold text [] hs = Yields-pure _ _ tt
  nearest-Yields P threshold text (m ∷ ms) hs =
      Yields-then (store_search _ _ _ _) _ _ (search-Inv _ _ _ _) λ items.
        nearest_of-Yields P threshold text _ (All-live P _ items (Values-live P [] (m ∷ ms) tt hs))

  -- What is written is what the candidate says, and what is known afterwards is the user's.
  abbrev pub IsFine : CandidateFact env.Float → Option String → Provenance → Outcome → Type 0
  IsFine c thread_id source o =
      Each (IsBuilt c user_id thread_id source) o.1 × All (IsOf user_id) o.2

  confirm-Yields :
      (c : CandidateFact env.Float) (thread_id : Option String) (source : Provenance)
      (reason : String) (m : Memory env.Float) (existing : List (Memory env.Float))
      → IsOf user_id m
      → All (IsOf user_id) existing
      → Yields Inv (confirm c reason m existing) (IsFine c thread_id source)
  unfolding confirm
  confirm-Yields c thread_id source reason m existing h hs =
      Yields-bind (reinforce m existing) _ (All (IsOf user_id)) _
        (reinforce-Yields user_id R saves m existing h hs)
        λ existing' hs'. Yields-pure _ _ (tt, hs')

  add-Yields :
      (c : CandidateFact env.Float) (thread_id : Option String) (source : Provenance)
      (existing : List (Memory env.Float))
      → All (IsOf user_id) existing
      → Yields Inv (add c existing user_id thread_id source) (IsFine c thread_id source)
  unfolding add
  add-Yields c thread_id source existing hs =
      Yields-bind (build c user_id thread_id source) _ (IsBuilt c user_id thread_id source) _
        (build-Yields user_id R saves c thread_id source)
        λ m h.
          Yields-then (save m) _ _ (save-Inv user_id R saves m h.of_user)
            λ _. Yields-pure _ _ (h, hs)

  contradict-Yields :
      (c : CandidateFact env.Float) (thread_id : Option String) (source : Provenance)
      (same_slot existing : List (Memory env.Float))
      → All (IsOf user_id) same_slot
      → All (IsOf user_id) existing
      → Yields Inv
          (contradict c same_slot existing user_id thread_id source)
          (IsFine c thread_id source)
  unfolding contradict
  contradict-Yields c thread_id source same_slot existing hc hs =
      Yields-bind (build c user_id thread_id source) _ (IsBuilt c user_id thread_id source) _
        (build-Yields user_id R saves c thread_id source)
        λ m h. Yields-then (save m) _ _ (save-Inv user_id R saves m h.of_user) λ _.
          Yields-bind (retire_all same_slot m.id existing) _ (All (IsOf user_id)) _
            (retire_all-Yields user_id R saves same_slot existing m.id hc hs)
            λ existing' hs'. Yields-pure _ _ (h, hs')

  slotted-Yields :
      (c : CandidateFact env.Float) (thread_id : Option String) (source : Provenance)
      (duplicate : Option (Memory env.Float)) (same_slot existing : List (Memory env.Float))
      → Each (IsOf user_id) duplicate
      → All (IsOf user_id) same_slot
      → All (IsOf user_id) existing
      → Yields Inv
          (resolve_slotted c duplicate same_slot existing user_id thread_id source)
          (IsFine c thread_id source)
  unfolding resolve_slotted
  slotted-Yields c thread_id source (some m) same_slot existing h hc hs =
      confirm-Yields c thread_id source _ m existing h hs
  slotted-Yields c thread_id source none [] existing h hc hs =
      add-Yields c thread_id source existing hs
  slotted-Yields c thread_id source none (m ∷ ms) existing h hc hs =
      contradict-Yields c thread_id source (m ∷ ms) existing hc hs

  unslotted-Yields :
      (c : CandidateFact env.Float) (thread_id : Option String) (source : Provenance)
      (near : Option (Memory env.Float)) (existing : List (Memory env.Float))
      → Each (IsOf user_id) near
      → All (IsOf user_id) existing
      → Yields Inv
          (resolve_unslotted c near existing user_id thread_id source)
          (IsFine c thread_id source)
  unfolding resolve_unslotted
  unslotted-Yields c thread_id source (some m) existing h hs =
      confirm-Yields c thread_id source _ m existing h hs
  unslotted-Yields c thread_id source none existing h hs = add-Yields c thread_id source existing hs

  pub resolve-Yields :
      (mg : Manager) (c : CandidateFact env.Float) (thread_id : Option String) (source : Provenance)
      (existing : List (Memory env.Float))
      → All (IsOf user_id) existing
      → Yields Inv (resolve mg c existing user_id thread_id source) (IsFine c thread_id source)
  unfolding resolve
  resolve-Yields mg c thread_id source existing hs =
      Yields-if (not (str_eq c.attribute ""))
        (resolve_slotted c (find? (states c) same_slot) same_slot existing user_id thread_id source)
        (nearest mg.dedupe_similarity c.text existing >>= λ near.
          resolve_unslotted c near existing user_id thread_id source)
        _
        (λ _.
          slotted-Yields c thread_id source (find? (states c) same_slot) same_slot existing
            (Each-find (IsOf user_id) (states c) same_slot slot_fine) slot_fine hs)
        (λ _.
          Yields-bind (nearest mg.dedupe_similarity c.text existing) _ (Each (IsOf user_id)) _
            (nearest-Yields (IsOf user_id) mg.dedupe_similarity c.text existing hs)
            λ near h. unslotted-Yields c thread_id source near existing h hs)
    where
      same_slot : List (Memory env.Float)
      same_slot = filter (fills c) existing

      slot_fine : All (IsOf user_id) same_slot
      slot_fine = All-filter (IsOf user_id) (fills c) existing hs
