-- ===== src/Manager/Plan/Step.antt =====
-- One candidate of a turn is decided as planned, and what the next one needs holds again.
use long_term_memory_agent.Exec.Yields.{Returns}
use long_term_memory_agent.Manager.Unique.{resolve-IsUnique, IsUnique}
use long_term_memory_agent.Manager.Found.{Each-find, Each}
use long_term_memory_agent.Manager.Dedupe.{All-IsAmong, IsAmong}
use long_term_memory_agent.Manager.Retired.{after_retire-drawn, remove_all-All, remove_all}
use long_term_memory_agent.Manager.{append_memory}
use long_term_memory_agent.Write.{save}
use long_term_memory_agent.Manager.Supersede.{
  saved, slotted, contradict_run, new, resolve_contradiction,
}
use long_term_memory_agent.Manager.Refine.{resolve-Refines, add_run, resolve-add}
use long_term_memory_agent.Manager.Resolve.{confirm, resolve_slotted, Outcome, resolve}
use long_term_memory_agent.Exec.{◌>>=◌, pure, ok, Result}
use long_term_memory_agent.Manager.Plan.{
  after_retire, learn, decide-dedupe, append-DistinctIds, decide-supersede, decide-write, slot_map,
  decide, states, fills, AreUnique, AreOlder,
}
use long_term_memory_agent.Manager.Slots.{
  only, replace-AreLike, All-AreLike, IsLike, DistinctIds, OneEach,
}
use long_term_memory_agent.World.{utcnow, store_put, World}
use long_term_memory_agent.Manager.Build.{clocked, InTime, IsValid}
use long_term_memory_agent.Schemas.{Provenance, Memory}
use long_term_memory_agent.Manager.Effects.{replace_memory, reinforced, reinforce, Manager}
use long_term_memory_agent.Extract.{CandidateFact}
use long_term_memory_agent.Base.{
  ap, Option-cases, All-filter, inr, eq_iff, inl, ◌∙◌, Bool-cases, arith, All-append, sym, ◌≤◌,
  subst, suc, ◌≢◌, ℕ, ◌≡◌, refl, String, false, Option, none, some, List, [], ◌∷◌, ◌++◌, All,
  filter, find?, str_eq,
}
use long_term_memory_agent.Env.{Env}

-- A candidate with a slot, which can be stored whenever that is tried.
pub record IsReady ⦃env : Env⦄ (c : CandidateFact env.Float) : Type 0 where
  pub slotted : c.attribute ≢ ""
  pub valid : IsValid c
  pub in_time : (w : World) → InTime c.ttl_days w

module _ ⦃env : Env⦄ (mg : Manager) (c : CandidateFact env.Float)
    (existing : List (Memory env.Float)) (user_id : String) (thread_id : Option String)
    (source : Provenance) (w : World) (ready : IsReady c) (one : OneEach existing)
    (ids : DistinctIds existing) (older : AreOlder existing w) (unique : AreUnique) where
  abbrev kept : List (Memory env.Float)
  kept = filter (fills c) existing

  abbrev fact : Memory env.Float
  fact = new mg c existing user_id thread_id source w

  abbrev stored : World
  stored = saved mg c existing user_id thread_id source w

  -- What is decided, and what the rest of the turn starts from.
  abbrev Follows : Result Outcome × World → Type 0
  Follows r =
      (o : Outcome) × (r.0 ≡ ok o)
      × (o.0.op ≡ decide c (slot_map existing c.attribute c.scope))
      × AreOlder (append_memory o.2 o.1) r.1
      × (DistinctIds o.2 → DistinctIds (append_memory o.2 o.1))

  clocked-drawn : (ttl : Option ℕ) → (clocked ttl w).drawn ≡ w.drawn
  clocked-drawn none = refl
  clocked-drawn (some days) = refl

  -- An identifier that is drawn later is not the new memory's.
  new_older :
      (left : List (Memory env.Float)) (v : World)
      → v.drawn ≡ suc (clocked c.ttl_days w).drawn
      → ((n : ℕ) → w.drawn ≤ n → All (λ m. str_eq (env.uuid n) m.id ≡ false) left)
      → AreOlder (left ++ fact ∷ []) v
  new_older left v e h n later =
      let same_count = clocked-drawn c.ttl_days in
      All-append _ left (fact ∷ []) (h n (omega arith)) (
        elim (Bool-cases (str_eq (env.uuid n) fact.id)) [
          | inl same ↦
              let k = unique n _ ((eq_iff (env.uuid n) fact.id).0 same) in absurd (omega arith)
          | inr differs ↦ differs
        ],
        tt,
      )

  -- A memory that is confirmed keeps its identifier.
  kept_older :
      (known now : Memory env.Float)
      → find? (states c) kept ≡ some known
      → IsLike known now
      → AreOlder (replace_memory existing now) w
  kept_older known now found like n later =
      let among : IsAmong known existing = subst (Each (λ m. IsAmong m existing)) found (
        Each-find (λ m. IsAmong m existing) (states c) kept
          (All-filter (λ m. IsAmong m existing) (fills c) existing (All-IsAmong existing))) in
      All-AreLike (λ m. str_eq (env.uuid n) m.id ≡ false) (λ m. str_eq (env.uuid n) m.id ≡ false)
        existing _ (λ x y l e. rw (← l.0) e)
        (replace-AreLike existing now (only existing known now ids among like)) (older n later)

  fresh_id :
      (left : List (Memory env.Float))
      → ((n : ℕ) → w.drawn ≤ n → All (λ m. str_eq (env.uuid n) m.id ≡ false) left)
      → All (λ m. str_eq fact.id m.id ≡ false) left
  fresh_id left h =
      let same_count = clocked-drawn c.ttl_days in h (clocked c.ttl_days w).drawn (omega arith)

  confirmed :
      (known : Memory env.Float)
      → find? (states c) kept ≡ some known
      → Follows (resolve mg c existing user_id thread_id source w)
  unfolding resolve resolve_slotted confirm reinforce save store_put utcnow pure ◌>>=◌
  confirmed known found =
      rw (slotted mg c existing user_id thread_id source w ready.slotted, found)
        (
          _,
          refl,
          sym (decide-dedupe c existing known ready.slotted one found),
          kept_older known (reinforced known (env.now w.readings)) found (refl, refl, refl, refl),
          λ d. d,
        )

  added :
      kept ≡ []
      → find? (states c) kept ≡ none
      → Follows (resolve mg c existing user_id thread_id source w)
  added none_known fresh =
      subst Follows
        (sym (
          resolve-add mg c existing user_id thread_id source w ready.slotted ready.valid
            (ready.in_time w) one ids none_known fresh
          ∙ add_run mg c existing user_id thread_id source w ready.slotted ready.valid
              (ready.in_time w) one ids))
        (
          _,
          refl,
          sym (decide-write c existing none_known),
          new_older existing stored refl older,
          λ d. append-DistinctIds existing fact (fresh_id existing older) d,
        )

  replaced :
      kept ≢ []
      → find? (states c) kept ≡ none
      → Follows (resolve mg c existing user_id thread_id source w)
  replaced known fresh =
      subst Follows
        (sym (
          resolve_contradiction mg c existing user_id thread_id source w kept refl known
            ready.slotted fresh
          ∙ contradict_run mg c existing user_id thread_id source w kept ready.valid
              (ready.in_time w)))
        (
          _,
          refl,
          sym (decide-supersede c existing known fresh),
          new_older (remove_all kept existing) (after_retire kept fact.id stored)
              (after_retire-drawn kept fact.id stored)
              (λ n h. remove_all-All _ kept existing (older n h)),
          λ d.
              append-DistinctIds _ fact
                (fresh_id (remove_all kept existing)
                  (λ n h. remove_all-All _ kept existing (older n h)))
                d,
        )

  pub resolve-Follows : Follows (resolve mg c existing user_id thread_id source w)
  resolve-Follows = elim (Option-cases (find? (states c) kept)) [
    | inr (known, found) ↦ confirmed known found
    | inl fresh ↦ by_slot kept refl fresh
  ]
    where
      by_slot :
          (ms : List (Memory env.Float))
          → kept ≡ ms
          → find? (states c) kept ≡ none
          → Follows (resolve mg c existing user_id thread_id source w)
      by_slot [] e fresh = added e fresh
      by_slot (m ∷ ms) e fresh = replaced (λ f. something (sym e ∙ f)) fresh
        where
          something : (m ∷ ms) ≡ [] → ⊥
          something f = cc

  -- All that holds after a candidate of a turn.
  pub record HasStep (r : Result Outcome × World) : Type 0 where
    pub outcome : Outcome
    pub returned : r ≡ (ok outcome, r.1)
    pub decided : outcome.0.op ≡ decide c (slot_map existing c.attribute c.scope)
    pub learned : slot_map (append_memory outcome.2 outcome.1) ≡ learn c (slot_map existing)
    pub still_one : OneEach (append_memory outcome.2 outcome.1)
    pub distinct : DistinctIds (append_memory outcome.2 outcome.1)
    pub later : AreOlder (append_memory outcome.2 outcome.1) r.1

  pub resolve-HasStep : HasStep (resolve mg c existing user_id thread_id source w)
  resolve-HasStep =
      let (o, e, op, later, distinct) = resolve-Follows in
      let (p, f, learned) =
        resolve-Refines mg c existing user_id thread_id source w ready.slotted ready.valid
          (ready.in_time w) one ids in
      let both : IsUnique o =
        subst (Returns IsUnique) e
          (resolve-IsUnique mg c existing user_id thread_id source w one ids) in
      let says = subst (Returns Learned) e (subst (Returns Learned) (sym f) learned) in
      record {
        outcome = o;
        returned =
            ap (λ (r : Result Outcome). (r, (resolve mg c existing user_id thread_id source w).1))
              e;
        decided = op;
        learned = λ i a s. says a s i;
        still_one = both.0;
        distinct = distinct both.1;
        later = later;
      }
    where
      Learned : Outcome → Type 0
      Learned o =
          (a s : String) → slot_map (append_memory o.2 o.1) a s ≡ learn c (slot_map existing) a s
