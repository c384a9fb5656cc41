-- ===== src/Manager/Unique.antt =====
-- `_resolve` keeps one live memory for each slot.
use long_term_memory_agent.Base.{
  String, ◌≡◌, ◌≢◌, refl, sym, Bool, true, false, not, ◌&&◌, Option, none, some, List, [], ◌∷◌,
  ◌++◌, All, All-filter, filter, find?, arith, subst, str_eq, eq_iff,
}
use long_term_memory_agent.Env.{Env}
use long_term_memory_agent.Exec.{Result, ◌>>=◌}
use long_term_memory_agent.Exec.Yields.{
  Yields, Returns, Yields-pure, Yields-if, Yields-bind, Yields-then,
}
use long_term_memory_agent.Extract.{CandidateFact}
use long_term_memory_agent.Manager.{append_memory}
use long_term_memory_agent.Manager.Dedupe.{IsAmong, All-IsAmong}
use long_term_memory_agent.Manager.Effects.{Manager, reinforce, reinforced, retire_all, build}
use long_term_memory_agent.Manager.Nearest.{nearest}
use long_term_memory_agent.Manager.Found.{Each, Each-find}
use long_term_memory_agent.Manager.Outcome.{nearest-Yields}
use long_term_memory_agent.Manager.Resolve.{
  Outcome, confirm, contradict, add, resolve, resolve_slotted, resolve_unslotted, fills, states,
}
use long_term_memory_agent.Manager.Retired.{
  remove_all, retire_all_run, remove_all-clear, none-filter,
}
use long_term_memory_agent.Manager.Slots.{
  OneEach, DistinctIds, same, replace-OneEach, remove_all-OneEach, remove_all-DistinctIds,
  append-OneEach,
}
use long_term_memory_agent.Manager.Steps.{IsBuilt, build-Yields}
use long_term_memory_agent.Schemas.{Memory, Provenance}
use long_term_memory_agent.World.{World, utcnow}
use long_term_memory_agent.Write.{save}

module _ ⦃env : Env⦄ where
  abbrev Any : World → Type 0
  Any w = Unit

  -- What the list is after the candidate's turn.
  abbrev pub IsUnique : Outcome → Type 0
  IsUnique o = OneEach (append_memory o.2 o.1) × DistinctIds o.2

module _ ⦃env : Env⦄ (c : CandidateFact env.Float) (user_id : String) (thread_id : Option String)
    (source : Provenance) where
  -- Nothing in the list fills the candidate's slot, if it has one.
  abbrev IsFree : List (Memory env.Float) → Type 0
  IsFree ms = c.attribute ≢ "" → All (λ m. fills c m ≡ false) ms

  other_slot :
      (m x : Memory env.Float)
      → IsBuilt c user_id thread_id source m
      → (c.attribute ≢ "" → fills c x ≡ false)
      → x.attribute ≢ ""
      → same x m ≡ false
  other_slot m x built free slotted =
      rw (built.fact.1, built.fact.3) (apart (str_eq c.attribute "") refl)
    where
      true_ne : c.attribute ≡ "" → str_eq c.attribute "" ≡ false → ⊥
      true_ne g e = let t = (eq_iff c.attribute "").1 g in absurd cc

      apart :
          (b : Bool)
          → str_eq c.attribute "" ≡ b
          → (str_eq c.attribute x.attribute && str_eq c.scope x.scope) ≡ false
      apart true e =
          let none_of : c.attribute ≡ "" = (eq_iff c.attribute "").0 e in
          rw none_of (ground (arith, eq_iff "" x.attribute))
      apart false e =
          let differs = free (λ g. true_ne g e) in
          ground (
            arith,
            eq_iff x.attribute c.attribute,
            eq_iff c.attribute x.attribute,
            eq_iff x.scope c.scope,
            eq_iff c.scope x.scope,
          )

  added :
      (m : Memory env.Float) (ms : List (Memory env.Float))
      → IsBuilt c user_id thread_id source m
      → IsFree ms
      → OneEach ms
      → OneEach (ms ++ m ∷ [])
  added m ms built free h = append-OneEach ms m (clear ms free) h
    where
      clear :
          (xs : List (Memory env.Float))
          → IsFree xs
          → All (λ x. x.attribute ≢ "" → same x m ≡ false) xs
      clear [] f = tt
      clear (x ∷ xs) f = (other_slot m x built (λ e. (f e).0), clear xs (λ e. (f e).1))

  confirm-Unique :
      (reason : String) (known : Memory env.Float) (existing : List (Memory env.Float))
      → IsAmong known existing
      → OneEach existing
      → DistinctIds existing
      → Yields Any (confirm c reason known existing) IsUnique
  unfolding confirm reinforce
  confirm-Unique reason known existing a h d =
      Yields-bind (reinforce known existing) _ (λ l. OneEach l × DistinctIds l) _
        (Yields-then utcnow _ _ (record { at = λ w x. tt })
          λ now.
            Yields-then (save (reinforced known now)) _ _ (record { at = λ w x. tt })
              λ _. Yields-pure _ _ (
                replace-OneEach existing known (reinforced known now) d a (refl, refl, refl, refl)
                  h))
        λ l hl. Yields-pure _ _ hl

  add-Unique :
      (existing : List (Memory env.Float))
      → IsFree existing
      → OneEach existing
      → DistinctIds existing
      → Yields Any (add c existing user_id thread_id source) IsUnique
  unfolding add
  add-Unique existing free h d =
      Yields-bind (build c user_id thread_id source) _ (IsBuilt c user_id thread_id source) _
        (build-Yields user_id (λ _. Unit) (λ s m index of x. tt) c thread_id source)
        λ m b.
          Yields-then (save m) _ _ (record { at = λ w x. tt })
            λ _. Yields-pure _ _ (added m existing b free h, d)

  contradict-Unique :
      (existing : List (Memory env.Float))
      → OneEach existing
      → DistinctIds existing
      → Yields Any
          (contradict c (filter (fills c) existing) existing user_id thread_id source)
          IsUnique
  unfolding contradict
  contradict-Unique existing h d =
      Yields-bind (build c user_id thread_id source) _ (IsBuilt c user_id thread_id source) _
        (build-Yields user_id (λ _. Unit) (λ s m index of x. tt) c thread_id source)
        λ m b.
          Yields-then (save m) _ _ (record { at = λ w x. tt })
            λ _.
              Yields-bind (retire_all (filter (fills c) existing) m.id existing) _
                (λ left. left ≡ remove_all (filter (fills c) existing) existing) _ (retired m.id)
                λ left e. Yields-pure _ _ (fresh m left b e)
    where
      same_slot : List (Memory env.Float)
      same_slot = filter (fills c) existing

      retired :
          (id : String)
          → Yields Any
              (retire_all same_slot id existing)
              (λ left. left ≡ remove_all same_slot existing)
      retired id = record {
        at = λ w x. (
          tt,
          subst
              (λ (r : Result (List (Memory env.Float)) × World).
                Returns (λ left. left ≡ remove_all same_slot existing) r.0)
              (sym (retire_all_run same_slot existing id w)) refl,
        );
      }

      fresh :
          (m : Memory env.Float) (left : List (Memory env.Float))
          → IsBuilt c user_id thread_id source m
          → left ≡ remove_all same_slot existing
          → OneEach (left ++ m ∷ []) × DistinctIds left
      fresh m left b e =
          subst (λ l. OneEach (l ++ m ∷ []) × DistinctIds l) (sym e)
            (
              added m (remove_all same_slot existing) b (λ _. remove_all-clear (fills c) existing)
                  (remove_all-OneEach same_slot existing h),
              remove_all-DistinctIds same_slot existing d,
            )

  slotted-Unique :
      (duplicate : Option (Memory env.Float)) (ms existing : List (Memory env.Float))
      → filter (fills c) existing ≡ ms
      → Each (λ m. IsAmong m existing) duplicate
      → OneEach existing
      → DistinctIds existing
      → Yields Any (resolve_slotted c duplicate ms existing user_id thread_id source) IsUnique
  unfolding resolve_slotted
  slotted-Unique (some known) ms existing e a h d = confirm-Unique _ known existing a h d
  slotted-Unique none [] existing e a h d =
      add-Unique existing (λ _. none-filter (fills c) existing e) h d
  slotted-Unique none (m ∷ ms) existing e a h d =
      subst (λ l. Yields Any (contradict c l existing user_id thread_id source) IsUnique) e
        (contradict-Unique existing h d)

  unslotted-Unique :
      (near : Option (Memory env.Float)) (existing : List (Memory env.Float))
      → c.attribute ≡ ""
      → Each (λ m. IsAmong m existing) near
      → OneEach existing
      → DistinctIds existing
      → Yields Any (resolve_unslotted c near existing user_id thread_id source) IsUnique
  unfolding resolve_unslotted
  unslotted-Unique (some known) existing e a h d = confirm-Unique _ known existing a h d
  unslotted-Unique none existing e a h d = add-Unique existing (λ slotted. absurd (slotted e)) h d

-- Where no two memories of the list fill one slot and no two have one id, the same holds after a
-- candidate was resolved, whatever its outcome: of the list with the new memory for the slots, and of
-- the list without it for the ids.
pub resolve-IsUnique :
    ⦃env : Env⦄ (mg : Manager) (c : CandidateFact env.Float) (existing : List (Memory env.Float))
    (user_id : String) (thread_id : Option String) (source : Provenance) (w : World)
    → OneEach existing
    → DistinctIds existing
    → Returns IsUnique (resolve mg c existing user_id thread_id source w).0
unfolding resolve
resolve-IsUnique ⦃env⦄ mg c existing user_id thread_id source w h d = (by_slot.at w tt).1
  where
    same_slot : List (Memory env.Float)
    same_slot = filter (fills c) existing

    known : All (λ m. IsAmong m existing) existing
    known = All-IsAmong existing

    by_slot : Yields Any (resolve mg c existing user_id thread_id source) IsUnique
    by_slot =
        Yields-if (not (str_eq c.attribute ""))
          (resolve_slotted c (find? (states c) same_slot) same_slot existing user_id thread_id
            source)
          (nearest mg.dedupe_similarity c.text existing >>= λ near.
            resolve_unslotted c near existing user_id thread_id source)
          _
          (λ _.
            slotted-Unique c user_id thread_id source (find? (states c) same_slot) same_slot
              existing refl
              (Each-find (λ m. IsAmong m existing) (states c) same_slot
                (All-filter (λ m. IsAmong m existing) (fills c) existing known))
              h d)
          (λ e.
            Yields-bind (nearest mg.dedupe_similarity c.text existing) _
              (Each (λ m. IsAmong m existing)) _
              (nearest-Yields user_id (λ _. Unit) (λ s m index of x. tt) (λ m. IsAmong m existing)
                mg.dedupe_similarity c.text existing known)
              λ near a.
                unslotted-Unique c user_id thread_id source near existing
                  (ground (arith, eq_iff c.attribute "")) a h d)
