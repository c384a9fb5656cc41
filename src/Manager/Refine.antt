-- ===== src/Manager/Refine.antt =====
-- `_resolve` of a slotted candidate, against the map from slots to values that it maintains.
use long_term_memory_agent.Base.{
  false≢true, and_true, ◌≡◌, ◌≢◌, refl, sym, ap, ◌∙◌, subst, String, Bool, true, false, ◌&&◌,
  Option, none, some, List, [], ◌∷◌, ◌++◌, All, All-map, All-filter, filter, find?, str_eq, eq_iff,
  Bool-cases, Option-cases, inl, inr,
}
use long_term_memory_agent.Env.{Env}
use long_term_memory_agent.Exec.{Result, ok, pure, bind-ok}
use long_term_memory_agent.Extract.{CandidateFact}
use long_term_memory_agent.Manager.Build.{IsValid, InTime, after_build, build_run}
use long_term_memory_agent.Manager.Dedupe.{IsAmong, All-IsAmong}
use long_term_memory_agent.Manager.Effects.{Manager, build, reinforced, replace_memory}
use long_term_memory_agent.Manager.Found.{Each, Each-find}
use long_term_memory_agent.Manager.Resolve.{Outcome, fills, states, add, resolve, resolve_slotted}
use long_term_memory_agent.Manager.Retired.{
  remove_all, remove_all-filter, one_of, All-both, All-filtered,
}
use long_term_memory_agent.Manager.SlotMap.{
  SlotMap, learn, slot_map, in_slot, find-append, find-last, find-remove_all, slot_map-AreLike,
  slot_map-stated, filling,
}
use long_term_memory_agent.Manager.Slots.{OneEach, DistinctIds, IsLike, only, replace-AreLike}
use long_term_memory_agent.Manager.Supersede.{
  new, saved, contradict_run, slotted, save_run, resolve_contradiction, confirm_run,
}
use long_term_memory_agent.Manager.{norm, append_memory}
use long_term_memory_agent.Schemas.{Memory, Provenance}
use long_term_memory_agent.World.{World}
use long_term_memory_agent.Write.{MemoryDecision, write, save}

module _ ⦃env : Env⦄ (c : CandidateFact env.Float) (a s : String) where
  -- The slot that is looked at is the candidate's.
  abbrev here : Bool
  here = str_eq c.attribute a && str_eq c.scope s

  at_slot : here ≡ true → (c.attribute ≡ a) × (c.scope ≡ s)
  at_slot e =
      let (x, y) = and_true (str_eq c.attribute a) (str_eq c.scope s) e in
      ((eq_iff c.attribute a).0 x, (eq_iff c.scope s).0 y)

  learn-known :
      (known : SlotMap)
      → known c.attribute c.scope ≡ some (norm c.value)
      → known a s ≡ learn c known a s
  unfolding learn
  learn-known known h = elim (Bool-cases here) [
    | inl e ↦ let (x, y) = at_slot e in rw e (rw (← x, ← y) h)
    | inr e ↦ rw e refl
  ]

  -- A memory of the candidate's slot is in no other one.
  clash : (k : Memory env.Float) → fills c k ≡ true → in_slot a s k ≡ true → here ≡ true
  clash k f g = let (x, y) = filling c k f in rw (← x, ← y) g

  -- Removing what fills the candidate's slot removes nothing of another slot.
  others_stay :
      (existing ss : List (Memory env.Float))
      → here ≡ false
      → DistinctIds existing
      → All (λ k. IsAmong k existing) ss
      → All (λ k. fills c k ≡ true) ss
      → All (λ m. in_slot a s m ≡ true → one_of ss m.id ≡ false) existing
  others_stay existing [] e d among f = All-map _ _ existing (λ m _ _. refl) (All-IsAmong existing)
  others_stay existing (k ∷ ss) e d among f =
      All-both (λ m. str_eq m.id k.id ≡ true → IsLike m k)
        (λ m. in_slot a s m ≡ true → one_of ss m.id ≡ false) _ existing
        (λ m like later p. elim (Bool-cases (str_eq m.id k.id)) [
          | inl same ↦
              let l = like same in absurd (false≢true (sym e ∙ clash k f.0 (rw (← l.1, ← l.2) p)))
          | inr differs ↦ rw differs (later p)
        ])
        (only existing k k d among.0 (refl, refl, refl, refl))
        (others_stay existing ss e d among.1 f.1)

  -- A new memory of the candidate's slot, behind memories of which none fills it.
  appended :
      (existing left : List (Memory env.Float)) (m : Memory env.Float)
      → (m.attribute ≡ c.attribute) × (m.scope ≡ c.scope) × (m.value ≡ c.value)
      → filter (fills c) left ≡ []
      → (here ≡ false → find? (in_slot a s) left ≡ find? (in_slot a s) existing)
      → slot_map (left ++ m ∷ []) a s ≡ learn c (slot_map existing) a s
  unfolding slot_map learn
  appended existing left m made alone stays = elim (Bool-cases here) [
    | inl e ↦
        let (x, y) = at_slot e in
        let gone : filter (in_slot a s) left ≡ [] = rw (← x, ← y) alone in
        let filled : in_slot a s m ≡ true = rw (made.0, made.1) e in
        rw (e, find-last (in_slot a s) left m gone filled) (ap (λ v. some (norm v)) made.2)
    | inr e ↦
        let elsewhere : in_slot a s m ≡ false = rw (made.0, made.1) e in
        rw (e, find-append (in_slot a s) left m elsewhere, stays e) refl
  ]

-- The result of a run, and what the slots are afterwards.
abbrev pub Refines :
    ⦃env : Env⦄ → CandidateFact env.Float → List (Memory env.Float) → Result Outcome → Type 0
Refines c existing r =
    (o : Outcome) × (r ≡ ok o)
    × ((a s : String) → slot_map (append_memory o.2 o.1) a s ≡ learn c (slot_map existing) a s)

module _ ⦃env : Env⦄ (mg : Manager) (c : CandidateFact env.Float)
    (existing : List (Memory env.Float)) (user_id : String) (thread_id : Option String)
    (source : Provenance) (w : World) (slot : c.attribute ≢ "") (valid : IsValid c)
    (in_time : InTime c.ttl_days w) (one : OneEach existing) (ids : DistinctIds existing) where
  abbrev run : Result Outcome
  run = (resolve mg c existing user_id thread_id source w).0

  abbrev kept : List (Memory env.Float)
  kept = filter (fills c) existing

  known-IsAmong : All (λ m. IsAmong m existing) kept
  known-IsAmong = All-filter (λ m. IsAmong m existing) (fills c) existing (All-IsAmong existing)

  confirmed :
      (known : Memory env.Float) → find? (states c) kept ≡ some known → Refines c existing run
  confirmed known found =
      let among : IsAmong known existing =
        subst (Each (λ m. IsAmong m existing)) found
          (Each-find (λ m. IsAmong m existing) (states c) kept known-IsAmong) in
      let now = reinforced known (env.now w.readings) in
      let alike =
        replace-AreLike existing now (only existing known now ids among (refl, refl, refl, refl)) in
      (
        _,
        (confirm_run mg c existing user_id thread_id source w known slot found ("", "") "").0,
        λ a s.
            sym (slot_map-AreLike existing (replace_memory existing now) a s alike)
            ∙ learn-known c a s (slot_map existing)
                (slot_map-stated c existing known slot one found),
      )

  abbrev pub fact : Memory env.Float
  fact = new mg c existing user_id thread_id source w

  abbrev pub writing : MemoryDecision
  writing = record {
    op = write;
    candidate = c.text;
    memory_id = some fact.id;
    superseded_ids = [];
    reason = "";
  }

  pub add_run :
      add c existing user_id thread_id source w
      ≡ (ok (writing, some fact, existing), saved mg c existing user_id thread_id source w)
  unfolding add pure
  add_run =
      bind-ok (build c user_id thread_id source) _ w _ _
        (build_run c user_id thread_id source w valid in_time)
      ∙ bind-ok (save fact) _ (after_build c w) _ tt
          (save_run mg c existing user_id thread_id source w fact (after_build c w))

  pub resolve-add :
      kept ≡ []
      → find? (states c) kept ≡ none
      → resolve mg c existing user_id thread_id source w ≡ add c existing user_id thread_id source w
  unfolding resolve resolve_slotted
  resolve-add none_known fresh =
      rw (slotted mg c existing user_id thread_id source w slot, fresh, none_known) refl

  added : kept ≡ [] → find? (states c) kept ≡ none → Refines c existing run
  added none_known fresh = (
    _,
    ap (λ (r : Result Outcome × World). r.0) (resolve-add none_known fresh ∙ add_run),
    λ a s. appended c a s existing existing fact (refl, refl, refl) none_known (λ e. refl),
  )

  replaced : kept ≢ [] → find? (states c) kept ≡ none → Refines c existing run
  replaced known fresh = (
    _,
    ap (λ (r : Result Outcome × World). r.0)
        (resolve_contradiction mg c existing user_id thread_id source w kept refl known slot fresh
          ∙ contradict_run mg c existing user_id thread_id source w kept valid in_time),
    λ a s.
        appended c a s existing (remove_all kept existing) _ (refl, refl, refl)
          (remove_all-filter (fills c) existing)
          (λ e. find-remove_all (in_slot a s) kept existing (
            others_stay c a s existing kept e ids known-IsAmong (All-filtered (fills c) existing))),
  )

  -- For a valid candidate with a slot, whose expiry is representable, and a list of live memories in
  -- which no two fill one slot and no two have one id, `_resolve` returns, and the list afterwards,
  -- read as a map from slots to normalised values, is the map before with the candidate's value in its
  -- slot and every other slot as it was: whether the candidate was confirmed, written or replaced what
  -- was known.
  pub resolve-Refines : Refines c existing run
  resolve-Refines = elim (Option-cases (find? (states c) kept)) [
    | inr (known, found) ↦ confirmed known found
    | inl fresh ↦ by_slot kept refl fresh
  ]
    where
      by_slot :
          (ms : List (Memory env.Float))
          → kept ≡ ms
          → find? (states c) kept ≡ none
          → Refines c existing run
      by_slot [] e fresh = added e fresh
      by_slot (m ∷ ms) e fresh = replaced (λ f. something (sym e ∙ f)) fresh
        where
          something : (m ∷ ms) ≡ [] → ⊥
          something f = cc
