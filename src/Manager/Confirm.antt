-- ===== src/Manager/Confirm.antt =====
-- `_resolve` of a candidate that is known already: what is reinforced, and what stays.
use long_term_memory_agent.Base.Dicts.{same_place, Namespace}
use long_term_memory_agent.Schemas.Values.{to_value}
use long_term_memory_agent.Manager.Owned.{bump_bounds}
use long_term_memory_agent.Manager.SlotMap.{filling}
use long_term_memory_agent.Manager.Supersede.{confirm_run}
use long_term_memory_agent.Write.{dedupe, MemoryDecision}
use long_term_memory_agent.Manager.Resolve.{resolve, states, Outcome, fills}
use long_term_memory_agent.Exec.{ok, Result}
use long_term_memory_agent.Manager.Slots.{
  at_among, only, replace-AreLike, same, AreLike, DistinctIds, OneEach,
}
use long_term_memory_agent.World.{World}
use long_term_memory_agent.Manager.Dedupe.{IsAmong}
use long_term_memory_agent.Schemas.{memory_namespace, Provenance, Memory}
use long_term_memory_agent.Extract.{CandidateFact}
use long_term_memory_agent.Manager.Effects.{reinforced, norm, replace_memory, Manager, bump}
use long_term_memory_agent.Base.{
  if◌then◌else◌, subst, filter, eq_iff, find?, eq_refl, suc, ◌∙◌, ap, false≢true, str_eq, ◌≢◌,
  length, ◌≡◌, refl, sym, ◌⊎◌, inl, inr, List, [], ◌∷◌, Bool-cases, true, false, String, Option,
  none, some,
}
use long_term_memory_agent.Env.{Env}

module _ ⦃env : Env⦄ where
  length-replace :
      (ms : List (Memory env.Float)) (u : Memory env.Float)
      → length (replace_memory ms u) ≡ length ms
  unfolding replace_memory
  length-replace [] u = refl
  length-replace (m ∷ ms) u = elim (Bool-cases (str_eq m.id u.id)) [
    | inl e ↦ rw e refl
    | inr e ↦ rw e (ap suc (length-replace ms u))
  ]

  among-replace :
      (ms : List (Memory env.Float)) (k u : Memory env.Float)
      → k.id ≡ u.id
      → IsAmong k ms
      → IsAmong u (replace_memory ms u)
  unfolding replace_memory
  among-replace [] k u e a = absurd a
  among-replace (m ∷ ms) k u e a = elim (Bool-cases (str_eq m.id u.id)) [
    | inl here ↦ rw here (inl refl)
    | inr other ↦ rw other (
        inr (elim a [
          | inl first ↦ absurd (
              false≢true (
                sym other
                ∙ (eq_iff m.id u.id).1 (ap (λ (x : Memory env.Float). x.id) (sym first) ∙ e)))
          | inr later ↦ among-replace ms k u e later
        ]))
  ]

  raised : (x : env.Float) → (bump x ≡ env.add x env.tenth) ⊎ (bump x ≡ env.one)
  unfolding bump
  raised x = elim (Bool-cases (env.lt (env.add x env.tenth) env.one)) [
    | inl e ↦ rw e (inl refl)
    | inr e ↦ rw e (inr refl)
  ]

  -- The only memory of a slot is found there.
  find-only :
      (c : CandidateFact env.Float) (known : Memory env.Float) (ms : List (Memory env.Float))
      → c.attribute ≢ ""
      → OneEach ms
      → IsAmong known ms
      → fills c known ≡ true
      → states c known ≡ true
      → find? (states c) (filter (fills c) ms) ≡ some known
  find-only c known [] slot h a f s = absurd a
  find-only c known (m ∷ ms) slot h a f s = elim (Bool-cases (fills c m)) [
    | inl k ↦ elim a [
      | inl first ↦
          let t : states c m ≡ true = subst (λ x. states c x ≡ true) first s in
          rw (k, t) (ap some (sym first))
      | inr later ↦
          let (a1, s1) = filling c m k in
          let (a2, s2) = filling c known f in
          let apart : same m known ≡ false =
            at_among (λ n. same m n ≡ false) ms known (h.0 (λ e. slot (sym a1 ∙ e))) later in
          absurd (
            false≢true (sym apart ∙ rw (a1, s1, a2, s2, eq_refl c.attribute, eq_refl c.scope) refl))
    ]
    | inr k ↦ elim a [
      | inl first ↦ absurd (false≢true (sym k ∙ subst (λ x. fills c x ≡ true) first f))
      | inr later ↦ rw k (find-only c known ms slot h.1 later f s)
    ]
  ]

  -- What a candidate that repeats `known` leaves behind.
  pub record IsConfirmed (existing : List (Memory env.Float)) (known : Memory env.Float) (w : World)
      (r : Result Outcome × World) : Type 0 where
    pub decision : MemoryDecision
    pub left : List (Memory env.Float)
    pub importance : env.Float
    pub again : Memory env.Float
    -- nothing is written, and the decision names what was known
    pub returned : r.0 ≡ ok (decision, none, left)
    pub named :
        (decision.op ≡ dedupe)
        × (decision.memory_id ≡ some known.id)
        × (decision.superseded_ids ≡ [])
    -- it gets a time of update and an importance
    pub updated : again ≡ record {
      id = known.id;
      user_id = known.user_id;
      text = known.text;
      kind = known.kind;
      source = known.source;
      importance = importance;
      created_at = known.created_at;
      updated_at = env.now w.readings;
      expires_at = known.expires_at;
      superseded_by = known.superseded_by;
      superseded_at = known.superseded_at;
      attribute = known.attribute;
      value = known.value;
      scope = known.scope;
      thread_id = known.thread_id;
      evidence = known.evidence;
    }
    pub raised_to : (importance ≡ env.add known.importance env.tenth) ⊎ (importance ≡ env.one)
    pub bounded : (env.le known.importance importance ≡ true) × (env.le importance env.one ≡ true)
    -- in the list it stands for what was known
    pub listed : IsAmong again left × AreLike existing left × (length left ≡ length existing)
    -- and it is stored, and nothing else
    pub stored :
        (a : Namespace) (k : String)
        → env.get r.1.store a k ≡ (
            if same_place (memory_namespace, known.user_id) known.id a k
            then some (to_value again)
            else env.get w.store a k)

module _ ⦃env : Env⦄ (mg : Manager) (c : CandidateFact env.Float)
    (existing : List (Memory env.Float)) (user_id : String) (thread_id : Option String)
    (source : Provenance) (w : World) (known : Memory env.Float) where
  -- Where a live memory of the candidate's slot has its value already, up to case and white space, no
  -- two live memories fill one slot or have one identifier, and its importance lies between 0 and 1,
  -- `_resolve` writes no new memory: the decision names the known memory, which is stored again as it
  -- was but for the time of update, a reading of the clock, and its importance, which is a tenth
  -- higher or 1 and neither lower than it was nor above 1. The list keeps its length, its ids, slots
  -- and values, with the updated memory in it, and no other entry of the store changes.
  pub resolve_confirms :
      c.attribute ≢ ""
      → IsAmong known existing
      → (known.attribute ≡ c.attribute) × (known.scope ≡ c.scope)
      → norm known.value ≡ norm c.value
      → OneEach existing
      → DistinctIds existing
      → env.le env.zero known.importance ≡ true
      → env.le known.importance env.one ≡ true
      → IsConfirmed existing known w (resolve mg c existing user_id thread_id source w)
  resolve_confirms slot among in_slot says one ids low high =
      let f : fills c known ≡ true =
        rw (in_slot.0, in_slot.1, eq_refl c.attribute, eq_refl c.scope) refl in
      let s : states c known ≡ true = (eq_iff (norm known.value) (norm c.value)).1 says in
      let found = find-only c known existing slot one among f s in
      let run = confirm_run mg c existing user_id thread_id source w known slot found in
      let again = reinforced known (env.now w.readings) in
      record {
        decision = _;
        left = replace_memory existing again;
        importance = bump known.importance;
        again = again;
        returned = (run ("", "") "").0;
        named = (refl, refl, refl);
        updated = refl;
        raised_to = raised known.importance;
        bounded = bump_bounds known.importance low high;
        listed = (
          among-replace existing known again refl among,
          replace-AreLike existing again
              (only existing known again ids among (refl, refl, refl, refl)),
          length-replace existing again,
        );
        stored = λ a k. (run a k).1;
      }
