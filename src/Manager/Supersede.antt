-- ===== src/Manager/Supersede.antt =====
-- `_resolve` of a slotted candidate that contradicts what is known, or repeats it.
use long_term_memory_agent.Manager.Slots.{filter-DistinctIds, DistinctIds}
use long_term_memory_agent.Manager.Marked.{after_retire-All, IsMarked}
use long_term_memory_agent.Base.{
  ℕ, suc, ◌+◌, ◌*◌, ◌<◌, String, ◌≡◌, ◌≢◌, refl, sym, ◌∙◌, Bool, true, false, Option, none, some,
  List, [], ◌∷◌, All, filter, find?, map, arith, subst, str_eq, eq_iff, if◌then◌else◌,
}
use long_term_memory_agent.Base.Dicts.{Namespace, same_place}
use long_term_memory_agent.Base.Texts.{◌+++◌, join}
use long_term_memory_agent.Env.{Env}
use long_term_memory_agent.Exec.{
  Result, ok, raise_with, overflow_error, pure, ◌>>=◌, bind-ok, bind-raise,
}
use long_term_memory_agent.Extract.{CandidateFact}
use long_term_memory_agent.Manager.Build.{
  expires, IsValid, InTime, built, after_build, build_run, build_overflow,
}
use long_term_memory_agent.Manager.Effects.{
  Manager, build, reinforce, reinforced, replace_memory, retire_all, day, max_datetime,
}
use long_term_memory_agent.Manager.Resolve.{
  Outcome, fills, states, confirm, contradict, add, resolve_slotted, resolve,
}
use long_term_memory_agent.Manager.Retired.{
  same_place_refl, remove_all, after_retire, retire_all_run, remove_all-filter, after_retire-get,
  one_of,
}
use long_term_memory_agent.Schemas.{Memory, Provenance, namespace}
use long_term_memory_agent.Schemas.Values.{to_value}
use long_term_memory_agent.World.{World, utcnow, store_put}
use long_term_memory_agent.Write.{MemoryDecision, supersede, dedupe, save}

module _ ⦃env : Env⦄ (mg : Manager) (c : CandidateFact env.Float)
    (existing : List (Memory env.Float)) (user_id : String) (thread_id : Option String)
    (source : Provenance) (w : World) where
  -- What is known of the candidate's slot, and the memory that states it now.
  abbrev pub same_slot : List (Memory env.Float)
  same_slot = filter (fills c) existing

  abbrev pub new : Memory env.Float
  new = built c user_id thread_id source w

  abbrev pub saved : World
  saved =
      let v = after_build c w in
      record v { store = env.put v.store (namespace new) new.id (to_value new) true }

  -- When a lifetime that begins now ends.
  abbrev ends_at : Option ℕ → Option ℕ
  ends_at none = none
  ends_at (some days) = some (env.now w.readings + days * day)

  ends : (ttl : Option ℕ) → expires ttl w ≡ ends_at ttl
  ends none = refl
  ends (some days) = refl

  -- The candidate replaces what was known of its slot.
  pub record IsSuperseded (r : Result Outcome × World) : Type 0 where
    pub decision : MemoryDecision
    pub left : List (Memory env.Float)
    pub returned : r.0 ≡ ok (decision, some new, left)
    pub op : decision.op ≡ supersede
    pub named : decision.superseded_ids ≡ map (λ (m : Memory env.Float). m.id) same_slot
    -- the new memory is the candidate's fact about the user, and live
    pub states_it : (new.attribute ≡ c.attribute) × (new.scope ≡ c.scope) × (new.value ≡ c.value)
    pub is_fact :
        (new.text ≡ c.text)
        × (new.kind ≡ c.kind)
        × (new.importance ≡ c.importance)
        × (new.user_id ≡ user_id)
        × (new.thread_id ≡ thread_id)
        × (new.source ≡ source)
        × (new.superseded_by ≡ none)
    pub lasts : new.expires_at ≡ ends_at c.ttl_days
    -- and nothing else that is taken for live fills the slot
    pub alone : filter (fills c) left ≡ []
    -- it is stored, and so is all that it supersedes, marked with its id
    pub stored : env.get r.1.store (namespace new) new.id ≡ some (to_value new)
    pub history : All (IsMarked r.1.store new.id) same_slot

  pub save_run :
      (m : Memory env.Float) (v : World)
      → save m v
        ≡ (ok tt, record v { store = env.put v.store (namespace m) m.id (to_value m) true })
  unfolding save store_put
  save_run m v = refl

  abbrev pub change : List (Memory env.Float) → MemoryDecision
  change ms = record {
    op = supersede;
    candidate = c.text;
    memory_id = some new.id;
    superseded_ids = map (λ (m : Memory env.Float). m.id) ms;
    reason =
        c.attribute
        +++ ": "
        +++ join ", " (map (λ (m : Memory env.Float). m.value) ms)
        +++ " -> "
        +++ c.value;
  }

  pub contradict_run :
      (ms : List (Memory env.Float))
      → IsValid c
      → InTime c.ttl_days w
      → contradict c ms existing user_id thread_id source w
        ≡ (ok (change ms, some new, remove_all ms existing), after_retire ms new.id saved)
  unfolding contradict pure
  contradict_run ms valid in_time =
      bind-ok (build c user_id thread_id source) _ w _ _
        (build_run c user_id thread_id source w valid in_time)
      ∙ bind-ok (save new) _ (after_build c w) saved tt (save_run new (after_build c w))
      ∙ bind-ok (retire_all ms new.id existing) _ saved _ _
          (retire_all_run ms existing new.id saved)

  not_selected :
      (p : Memory env.Float → Bool) (ms : List (Memory env.Float)) (k : String)
      → one_of ms k ≡ false
      → one_of (filter p ms) k ≡ false
  not_selected p [] k h = refl
  not_selected p (m ∷ ms) k h = select (p m) (not_selected p ms k (ground arith))
    where
      select :
          (b : Bool)
          → one_of (filter p ms) k ≡ false
          → one_of (if b then m ∷ filter p ms else filter p ms) k ≡ false
      select true e = ground arith
      select false e = e

  superseding :
      one_of existing new.id ≡ false
      → DistinctIds existing
      → IsSuperseded (
        ok (change same_slot, some new, remove_all same_slot existing),
        after_retire same_slot new.id saved,
      )
  superseding unused distinct = record {
    decision = change same_slot;
    left = remove_all same_slot existing;
    returned = refl;
    op = refl;
    named = refl;
    states_it = (refl, refl, refl);
    is_fact = (refl, refl, refl, refl, refl, refl, refl);
    lasts = ends c.ttl_days;
    alone = remove_all-filter (fills c) existing;
    stored =
        after_retire-get same_slot new.id saved (namespace new) new.id
          (not_selected (fills c) existing new.id unused)
        ∙ rw (env.get_put, same_place_refl) refl;
    history =
        after_retire-All same_slot new.id saved (filter-DistinctIds (fills c) existing distinct);
  }

  pub slotted : c.attribute ≢ "" → str_eq c.attribute "" ≡ false
  slotted h = ground (arith, eq_iff c.attribute "")

  pub resolve_contradiction :
      (ms : List (Memory env.Float))
      → same_slot ≡ ms
      → ms ≢ []
      → c.attribute ≢ ""
      → find? (states c) same_slot ≡ none
      → resolve mg c existing user_id thread_id source w
        ≡ contradict c same_slot existing user_id thread_id source w
  unfolding resolve resolve_slotted
  resolve_contradiction [] e known slot fresh = absurd (known refl)
  resolve_contradiction (m ∷ ms) e known slot fresh = rw (slotted slot, fresh, e) refl

  -- Where a valid candidate has a slot that is known with other values only, its expiry is
  -- representable, the identifier drawn is new and no two of the live memories have one, `_resolve`
  -- writes it: a memory of the user, the source and the conversation with the candidate's text, slot, value,
  -- kind, importance and lifetime, not superseded, is stored and is
  -- the only one left in the list that fills the slot, and every memory that filled it is named in
  -- the decision and still stored with all that it was, except that it is marked as superseded by
  -- the new one at a reading of the clock.
  pub resolve_supersedes :
      c.attribute ≢ ""
      → same_slot ≢ []
      → find? (states c) same_slot ≡ none
      → IsValid c
      → InTime c.ttl_days w
      → one_of existing new.id ≡ false
      → DistinctIds existing
      → IsSuperseded (resolve mg c existing user_id thread_id source w)
  resolve_supersedes slot known fresh valid in_time unused distinct =
      subst IsSuperseded
        (sym (
          resolve_contradiction same_slot refl known slot fresh
          ∙ contradict_run same_slot valid in_time))
        (superseding unused distinct)

  -- A candidate that is known already.
  pub confirm_run :
      (known : Memory env.Float)
      → c.attribute ≢ ""
      → find? (states c) same_slot ≡ some known
      → (a : Namespace) (k : String)
      → ((resolve mg c existing user_id thread_id source w).0
          ≡ ok (
            record {
              op = dedupe;
              candidate = c.text;
              memory_id = some known.id;
              superseded_ids = [];
              reason = "already knew " +++ c.attribute +++ "=" +++ c.value;
            },
            none,
            replace_memory existing (reinforced known (env.now w.readings)),
          ))
        × (env.get (resolve mg c existing user_id thread_id source w).1.store a k ≡ (
            if same_place (namespace known) known.id a k
            then some (to_value (reinforced known (env.now w.readings)))
            else env.get w.store a k))
  unfolding resolve resolve_slotted confirm reinforce save store_put utcnow pure ◌>>=◌
  confirm_run known slot found a k =
      rw (slotted slot, found) (refl, env.get_put w.store _ _ _ _ a k)

  overflow_by :
      (ms : List (Memory env.Float)) (days : ℕ)
      → c.ttl_days ≡ some days
      → max_datetime < env.now w.readings + days * day
      → resolve_slotted c none ms existing user_id thread_id source w
        ≡ (raise_with overflow_error, record w { readings = suc w.readings })
  unfolding resolve_slotted add contradict
  overflow_by [] days long late =
      bind-raise (build c user_id thread_id source) _ w _ overflow_error
        (build_overflow c days user_id thread_id source w long late)
  overflow_by (m ∷ ms) days long late =
      bind-raise (build c user_id thread_id source) _ w _ overflow_error
        (build_overflow c days user_id thread_id source w long late)

  -- Where the slot is not known with the candidate's value and its lifetime ends past the last
  -- representable instant, `_resolve` raises the overflow of the addition, and the store is as it
  -- was: nothing is superseded before the new memory can be made.
  pub resolve_overflows :
      (days : ℕ)
      → c.attribute ≢ ""
      → find? (states c) same_slot ≡ none
      → c.ttl_days ≡ some days
      → max_datetime < env.now w.readings + days * day
      → resolve mg c existing user_id thread_id source w
        ≡ (raise_with overflow_error, record w { readings = suc w.readings })
  unfolding resolve
  resolve_overflows days slot fresh long late =
      rw (slotted slot, fresh) (overflow_by same_slot days long late)
