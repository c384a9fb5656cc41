-- ===== src/Manager/Turn.antt =====
-- `apply` as a whole: what a turn keeps of the store, and what it writes.
use long_term_memory_agent.Base.{
  subst, All-if, ℕ, String, ◌≡◌, ◌≢◌, refl, sym, Bool, false, Option, none, some, List, [], ◌∷◌,
  All, All-append, any, str_eq, ap, ◌∙◌,
}
use long_term_memory_agent.Base.Dicts.{Dict}
use long_term_memory_agent.Base.Texts.{strip}
use long_term_memory_agent.Env.{Env, Item}
use long_term_memory_agent.Exec.{lift, validation_error, ok, raise_with, pure, for_each}
use long_term_memory_agent.Exec.Keeps.{Keeps-bind, Keeps}
use long_term_memory_agent.Exec.Yields.{
  Yields, Returns, Yields-pure, Yields-lift, Yields-if, Yields-bind, Yields-then, Yields-for_each,
}
use long_term_memory_agent.Extract.{CandidateFact}
use long_term_memory_agent.Extract.Patterns.{has_temporal_marker}
use long_term_memory_agent.Gate.{GateVerdict, quarantine_namespace, inspect, allowed}
use long_term_memory_agent.Gate
use long_term_memory_agent.Manager.{
  resolve_some, apply, remember, refuse, resolve_all, active_memories, append_memory, non_values,
}
use long_term_memory_agent.Manager.Candidates.{IsChecked, usable_candidates-IsChecked}
use long_term_memory_agent.Manager.Effects.{Manager, norm}
use long_term_memory_agent.Manager.Found.{Each}
use long_term_memory_agent.Manager.Outcome.{resolve-Yields}
use long_term_memory_agent.Manager.Owned.{IsOf, IsOwned, IsStorable-validate}
use long_term_memory_agent.Manager.Resolve.{resolve}
use long_term_memory_agent.Manager.Steps.{utcnow-Inv, IsBuilt}
use long_term_memory_agent.Schemas.{Memory, Provenance, namespace, memory_namespace}
use long_term_memory_agent.Schemas.Active.{is_active-store, active_now}
use long_term_memory_agent.Schemas.Values.{from_value, to_value}
use long_term_memory_agent.World.{World, store_put, store_search, filter_each}
use long_term_memory_agent.Write.{WriteReport, empty_report}

module _ ⦃env : Env⦄ where
  -- What every memory that a turn writes is.
  pub record IsWritten (user_id turn : String) (thread_id : Option String) (source : Provenance)
      (m : Memory env.Float) : Type 0 where
    pub of_user : IsOf user_id m
    pub from_source : m.source ≡ source
    pub in_thread : m.thread_id ≡ thread_id
    pub is_live : m.superseded_by ≡ none
    pub valued : m.attribute ≢ "" → any (str_eq (norm m.value)) non_values ≡ false
    pub durable : has_temporal_marker turn ≡ false → m.expires_at ≡ none

  IsWritten-built :
      (user_id turn : String) (thread_id : Option String) (source : Provenance)
      (c : CandidateFact env.Float) (m : Memory env.Float)
      → IsChecked turn c
      → IsBuilt c user_id thread_id source m
      → IsWritten user_id turn thread_id source m
  IsWritten-built user_id turn thread_id source c m h b = record {
    of_user = b.of_user;
    from_source = b.from_source;
    in_thread = b.in_thread;
    is_live = b.is_live;
    valued = λ slotted.
        ap (λ v. any (str_eq (norm v)) non_values) b.fact.2
        ∙ h.valued (λ e. slotted (b.fact.1 ∙ e));
    durable = λ e. b.durable (h.framed e);
  }

module _ ⦃env : Env⦄ (user_id : String) (R : env.State → Type 0)
    (owned : (s : env.State) → R s → IsOwned s)
    (saves : (s : env.State) (m : Memory env.Float) (index : Bool)
      → IsOf user_id m
      → R s
      → R (env.put s (namespace m) m.id (to_value m) index))
    (quarantines : (s : env.State) (key : String) (v : Dict env.Float)
      → R s
      → R (env.put s (quarantine_namespace, user_id) key v false)) where
  abbrev Inv : World → Type 0
  Inv w = R w.store

  -- What the items of a search in the user's namespace hold.
  abbrev HoldsOwn : Item env.Float → Type 0
  HoldsOwn i = (m : Memory env.Float) → env.validate i.value ≡ some m → IsOf user_id m

  own_items :
      (s : env.State) (is : List (Item env.Float))
      → IsOwned s
      → All (λ i. env.get s (memory_namespace, user_id) i.key ≡ some i.value) is
      → All HoldsOwn is
  own_items s [] h hs = tt
  own_items s (i ∷ is) h hs = (
    λ m e. record {
      owner = (h.at user_id i.key i.value m hs.0 e).0;
      storable = IsStorable-validate i.value m e;
    },
    own_items s is h hs.1,
  )

  search-Yields :
      (limit : ℕ)
      → Yields Inv (store_search (memory_namespace, user_id) none limit 0) (All HoldsOwn)
  unfolding store_search
  search-Yields limit = record {
    at = λ w h.
        (h, own_items w.store _ (owned w.store h) (env.search_stored w.store _ none limit 0));
  }

  from_value-Returns :
      (i : Item env.Float) → HoldsOwn i → Returns (IsOf user_id) (from_value i.value)
  unfolding from_value
  from_value-Returns i h = decoded (env.validate i.value) (λ m e. h m e)
    where
      decoded :
          (o : Option (Memory env.Float))
          → ((m : Memory env.Float) → o ≡ some m → IsOf user_id m)
          → Returns (IsOf user_id) (elim o [ none ↦ raise_with validation_error | some m ↦ ok m ])
      decoded none k = tt
      decoded (some m) k = k m refl

  active-Inv : (m : Memory env.Float) → Keeps Inv (active_now m)
  active-Inv m = record { at = λ w h. subst R (sym (is_active-store none m w)) h }

  filter-Yields :
      (ms : List (Memory env.Float))
      → All (IsOf user_id) ms
      → Yields Inv (filter_each active_now ms) (All (IsOf user_id))
  unfolding filter_each
  filter-Yields [] hs = Yields-pure _ _ tt
  filter-Yields (m ∷ ms) hs = Yields-then (active_now m) _ _ (active-Inv m) λ keep.
      Yields-bind (filter_each active_now ms) _ (All (IsOf user_id)) _ (filter-Yields ms hs.1)
        λ rest hr. Yields-pure _ _ (All-if (IsOf user_id) keep (m ∷ rest) rest (hs.0, hr) hr)

  quarantined-Inv :
      (key : String) (v : Dict env.Float)
      → Keeps Inv (store_put (quarantine_namespace, user_id) key v false)
  unfolding store_put
  quarantined-Inv key v = record { at = λ w h. quarantines w.store key v h }

  active_memories-Yields : Yields Inv (active_memories user_id) (All (IsOf user_id))
  unfolding active_memories
  active_memories-Yields =
      Yields-bind (store_search _ _ _ _) _ (All HoldsOwn) _ (search-Yields _) λ items hi.
        Yields-bind (for_each _ items) _ (All (IsOf user_id)) _
          (Yields-for_each _ items HoldsOwn (IsOf user_id) hi
            λ i h. Yields-lift _ _ (from_value-Returns i h))
          λ ms hs. filter-Yields ms hs

  module _ (mg : Manager) (turn : String) (thread_id : Option String) (source : Provenance) where
    abbrev Report : WriteReport env.Float → Type 0
    Report r = All (IsWritten user_id turn thread_id source) r.written

    append-All :
        (P : Memory env.Float → Type 0) (ms : List (Memory env.Float))
        (m : Option (Memory env.Float))
        → All P ms
        → Each P m
        → All P (append_memory ms m)
    append-All P ms none hs h = hs
    append-All P ms (some m) hs h = All-append P ms (m ∷ []) hs (h, tt)

    Each-map :
        (P Q : Memory env.Float → Type 0) (m : Option (Memory env.Float))
        → ((x : Memory env.Float) → P x → Q x)
        → Each P m
        → Each Q m
    Each-map P Q none f h = tt
    Each-map P Q (some m) f h = f m h

    resolve_all-Yields :
        (cs : List (CandidateFact env.Float)) (existing : List (Memory env.Float))
        (report : WriteReport env.Float)
        → All (IsChecked turn) cs
        → All (IsOf user_id) existing
        → Report report
        → Yields Inv (resolve_all mg cs existing user_id thread_id source report) Report
    unfolding resolve_all
    resolve_all-Yields [] existing report hc hs hr = Yields-pure _ _ hr
    resolve_all-Yields (c ∷ cs) existing report hc hs hr =
        Yields-bind (resolve mg c existing user_id thread_id source) _ _ _
          (resolve-Yields user_id R saves mg c thread_id source existing hs)
          λ o h.
            resolve_all-Yields cs (append_memory o.2 o.1) _ hc.1
              (append-All (IsOf user_id) o.2 o.1 h.1 (Each-map _ _ o.1 (λ m b. b.of_user) h.0))
              (append-All (IsWritten user_id turn thread_id source) report.written o.1 hr (
                Each-map _ _ o.1 (λ m b. IsWritten-built user_id turn thread_id source c m hc.0 b)
                  h.0))

    resolve_some-Yields :
        (cs : List (CandidateFact env.Float))
        → All (IsChecked turn) cs
        → Yields Inv (resolve_some mg cs user_id thread_id source) Report
    unfolding resolve_some
    resolve_some-Yields [] hc = Yields-pure _ _ tt
    resolve_some-Yields (c ∷ cs) hc =
        Yields-bind (active_memories user_id) _ (All (IsOf user_id)) _ active_memories-Yields
          λ existing hs. resolve_all-Yields (c ∷ cs) existing empty_report hc hs tt

    refuse-Yields :
        (verdict : GateVerdict) → Yields Inv (refuse user_id turn thread_id verdict) Report
    unfolding refuse Gate.quarantine
    refuse-Yields verdict =
        Yields-then _ _ _
          (Keeps-bind _ _ (utcnow-Inv user_id R saves)
            λ at. Keeps-bind _ _ (utcnow-Inv user_id R saves) λ later. quarantined-Inv _ _)
          λ _. Yields-pure _ _ tt

    -- `apply` behind `strip`: `turn` is the text as it is looked at.
    pub turn-Yields :
        (said : String)
        → strip said ≡ turn
        → Yields Inv (apply mg user_id said thread_id source) Report
    unfolding apply remember lift
    turn-Yields said e = rw e (
        Yields-if (str_eq turn "") (pure empty_report) _ _ (λ _. Yields-pure _ _ tt)
          λ _.
            Yields-if (allowed (inspect mg.gate turn source))
              (remember mg user_id turn thread_id source)
              (refuse user_id turn thread_id (inspect mg.gate turn source)) _
              (λ _.
                Yields-then (lift (mg.extract turn)) _ _ (record { at = λ w h. h })
                  λ cs. resolve_some-Yields _ (usable_candidates-IsChecked cs turn))
              (λ _. refuse-Yields (inspect mg.gate turn source)))
