-- ===== src/Manager/Plan.antt =====
-- What the loop of `apply` decides for the candidates of a turn, planned on a map from slots to
-- values.
pub mod Step
pub mod Loop
use long_term_memory_agent.Manager.Effects.{norm}
use long_term_memory_agent.Manager.Slots.{OneEach, DistinctIds}
use long_term_memory_agent.World.{World}
use long_term_memory_agent.Manager.Resolve.{states, fills}
use long_term_memory_agent.Write.{dedupe, supersede, write, MemoryOp}
use long_term_memory_agent.Manager.Retired.{after_retire}
use long_term_memory_agent.Manager.SlotMap.{slot_map-stated, learn, SlotMap, slot_map}
use long_term_memory_agent.Schemas.{Memory}
use long_term_memory_agent.Extract.{CandidateFact}
use long_term_memory_agent.Base.{
  eq_refl, inr, ◌≤◌, inl, All-append, Bool-cases, ◌≢◌, ℕ, ◌≡◌, refl, String, Bool, true, false,
  Option, none, some, List, [], ◌∷◌, ◌++◌, All, filter, find?, map, str_eq, if◌then◌else◌,
}
use long_term_memory_agent.Env.{Env}

module _ ⦃env : Env⦄ where
  -- A value that the slot has already is confirmed, another one is replaced.
  unfoldable pub decide : CandidateFact env.Float → Option String → MemoryOp
  decide c none = write
  decide c (some v) = if str_eq v (norm c.value) then dedupe else supersede

  unfoldable pub plan : List (CandidateFact env.Float) → SlotMap → List MemoryOp
  plan [] known = []
  plan (c ∷ cs) known = decide c (known c.attribute c.scope) ∷ plan cs (learn c known)

  find?-none :
      (p : Memory env.Float → Bool) (ms : List (Memory env.Float))
      → filter p ms ≡ []
      → find? p ms ≡ none
  find?-none p [] e = refl
  find?-none p (m ∷ ms) e = elim (Bool-cases (p m)) [
    | inl k ↦ absurd (filled (rw k at e))
    | inr k ↦ rw k (find?-none p ms (rw k at e))
  ]
    where
      filled : {y : Memory env.Float} {ys : List (Memory env.Float)} → y ∷ ys ≡ [] → ⊥
      filled f = cc

  -- A slot that no memory fills has no value.
  pub decide-write :
      (c : CandidateFact env.Float) (ms : List (Memory env.Float))
      → filter (fills c) ms ≡ []
      → decide c (slot_map ms c.attribute c.scope) ≡ write
  unfolding slot_map decide
  decide-write c ms e = rw (find?-none (fills c) ms e) refl

  -- A slot whose value is the candidate's is confirmed.
  pub decide-dedupe :
      (c : CandidateFact env.Float) (ms : List (Memory env.Float)) (known : Memory env.Float)
      → c.attribute ≢ ""
      → OneEach ms
      → find? (states c) (filter (fills c) ms) ≡ some known
      → decide c (slot_map ms c.attribute c.scope) ≡ dedupe
  unfolding decide
  decide-dedupe c ms known slot one found =
      rw (slot_map-stated c ms known slot one found) (rw (eq_refl (norm c.value)) refl)

  stateless :
      (c : CandidateFact env.Float) (m : Memory env.Float) (ms : List (Memory env.Float))
      → find? (states c) (m ∷ ms) ≡ none
      → states c m ≡ false
  stateless c m ms e = elim (Bool-cases (states c m)) [
    | inl k ↦ absurd (found (rw k at e))
    | inr k ↦ k
  ]
    where
      found : some m ≡ none → ⊥
      found f = cc

  -- A slot with other values only is replaced.
  pub decide-supersede :
      (c : CandidateFact env.Float) (ms : List (Memory env.Float))
      → filter (fills c) ms ≢ []
      → find? (states c) (filter (fills c) ms) ≡ none
      → decide c (slot_map ms c.attribute c.scope) ≡ supersede
  unfolding slot_map decide
  decide-supersede c [] known fresh = absurd (known refl)
  decide-supersede c (m ∷ ms) known fresh = elim (Bool-cases (fills c m)) [
    | inl k ↦ rw k (rw (stateless c m (filter (fills c) ms) (rw k at fresh)) refl)
    | inr k ↦ rw k (decide-supersede c ms (λ e. known (rw k e)) (rw k at fresh))
  ]

  -- No identifier that is still to be drawn is one of these memories'.
  abbrev pub AreOlder : List (Memory env.Float) → World → Type 0
  AreOlder ms w = (n : ℕ) → w.drawn ≤ n → All (λ m. str_eq (env.uuid n) m.id ≡ false) ms

  -- `uuid4` never gives one identifier twice.
  abbrev pub AreUnique : Type 0
  AreUnique = (i j : ℕ) → env.uuid i ≡ env.uuid j → i ≡ j

  pub append-DistinctIds :
      (ms : List (Memory env.Float)) (m : Memory env.Float)
      → All (λ n. str_eq m.id n.id ≡ false) ms
      → DistinctIds ms
      → DistinctIds (ms ++ m ∷ [])
  append-DistinctIds [] m h d = (tt, tt)
  append-DistinctIds (n ∷ ms) m h d =
      (All-append _ ms (m ∷ []) d.0 (h.0, tt), append-DistinctIds ms m h.1 d.1)
