-- ===== src/Manager/Steps.antt =====
-- What the helpers of the write path keep, for an invariant of the store that allows a write of a
-- memory of the user, and what they return.
use long_term_memory_agent.Base.{
  ◌*◌, ◌+◌, ltb, Bool-cases, inl, inr, All-if, All-filter, ℕ, String, ◌≡◌, refl, Bool, true, Option,
  none, some, List, [], ◌∷◌, All, arith, str_eq, eq_iff, not, ◌&&◌,
}
use long_term_memory_agent.Env.{Env}
use long_term_memory_agent.Exec.{pure, raise, overflow_error}
use long_term_memory_agent.Exec.Keeps.{Keeps}
use long_term_memory_agent.Exec.Yields.{
  Yields, Returns, Yields-pure, Yields-raise, Yields-lift, Yields-if, Yields-bind, Yields-then,
}
use long_term_memory_agent.Extract.{CandidateFact}
use long_term_memory_agent.Manager.Effects.{
  day, max_datetime, build, expiry, bump, reinforce, reinforced, retire, retired, retire_all,
  replace_memory, without,
}
use long_term_memory_agent.Manager.Owned.{IsOf, bump_bounds}
use long_term_memory_agent.Schemas.{Memory, Provenance, Datetime, namespace}
use long_term_memory_agent.Schemas.Values.{IsStorable, to_value}
use long_term_memory_agent.World.{World, utcnow, uuid4, store_put}
use long_term_memory_agent.Write.{NewMemory, made, create, checked, save}

module _ ⦃env : Env⦄ where
  -- What every memory built for a candidate is.
  pub record IsBuilt (c : CandidateFact env.Float) (user_id : String) (thread_id : Option String)
      (source : Provenance) (m : Memory env.Float) : Type 0 where
    pub of_user : IsOf user_id m
    pub from_source : m.source ≡ source
    pub in_thread : m.thread_id ≡ thread_id
    pub is_live : m.superseded_by ≡ none
    pub fact :
        (m.text ≡ c.text) × (m.attribute ≡ c.attribute) × (m.value ≡ c.value) × (m.scope ≡ c.scope)
    pub durable : c.ttl_days ≡ none → m.expires_at ≡ none

  pub checked-Returns :
      (m : Memory env.Float) (Q : Memory env.Float → Type 0)
      → (IsStorable m → Q m)
      → Returns Q (checked m)
  unfolding checked
  checked-Returns m Q q =
      elim (Bool-cases
        (not (str_eq m.text "") && env.le env.zero m.importance && env.le m.importance env.one)) [
          | inl good ↦ rw good (q (constraints m good))
          | inr bad ↦ rw bad tt
        ]
    where
      constraints :
          (n : Memory env.Float)
          → (not (str_eq n.text "") && env.le env.zero n.importance && env.le n.importance env.one)
            ≡ true
          → IsStorable n
      constraints n e = record {
        text = ground (arith, eq_iff n.text "");
        low = ground arith;
        high = ground arith;
      }

module _ ⦃env : Env⦄ (user_id : String) (R : env.State → Type 0)
    (saves : (s : env.State) (m : Memory env.Float) (index : Bool)
      → IsOf user_id m
      → R s
      → R (env.put s (namespace m) m.id (to_value m) index)) where
  -- The invariant, of a world.
  abbrev pub Inv : World → Type 0
  Inv w = R w.store

  pub utcnow-Inv : Keeps Inv utcnow
  unfolding utcnow
  utcnow-Inv = record { at = λ w h. h }

  pub uuid4-Inv : Keeps Inv uuid4
  unfolding uuid4
  uuid4-Inv = record { at = λ w h. h }

  pub save-Inv : (m : Memory env.Float) → IsOf user_id m → Keeps Inv (save m)
  unfolding save store_put
  save-Inv m of = record { at = λ w h. saves w.store m true of h }

  reinforced-IsOf :
      (m : Memory env.Float) (now : Datetime) → IsOf user_id m → IsOf user_id (reinforced m now)
  reinforced-IsOf m now h =
      let (more, less) = bump_bounds m.importance h.storable.low h.storable.high in
      record {
        owner = h.owner;
        storable = record {
          text = h.storable.text;
          low = env.le_trans env.zero m.importance (bump m.importance) h.storable.low more;
          high = less;
        };
      }

  retired-IsOf :
      (m : Memory env.Float) (id : String) (now : Datetime)
      → IsOf user_id m
      → IsOf user_id (retired m id now)
  retired-IsOf m id now h = record {
    owner = h.owner;
    storable = record { text = h.storable.text; low = h.storable.low; high = h.storable.high };
  }

  replace-All :
      (ms : List (Memory env.Float)) (m : Memory env.Float)
      → All (IsOf user_id) ms
      → IsOf user_id m
      → All (IsOf user_id) (replace_memory ms m)
  unfolding replace_memory
  replace-All [] m hs h = tt
  replace-All (x ∷ ms) m hs h =
      All-if (IsOf user_id) (str_eq x.id m.id) (m ∷ ms) (x ∷ replace_memory ms m) (h, hs.1)
        (hs.0, replace-All ms m hs.1 h)

  pub reinforce-Yields :
      (m : Memory env.Float) (existing : List (Memory env.Float))
      → IsOf user_id m
      → All (IsOf user_id) existing
      → Yields Inv (reinforce m existing) (All (IsOf user_id))
  unfolding reinforce
  reinforce-Yields m existing h hs = Yields-then utcnow _ _ utcnow-Inv λ now.
      Yields-then (save (reinforced m now)) _ _ (save-Inv _ (reinforced-IsOf m now h))
        λ _. Yields-pure _ _ (replace-All existing (reinforced m now) hs (reinforced-IsOf m now h))

  retire-Yields :
      (m : Memory env.Float) (existing : List (Memory env.Float)) (id : String)
      → IsOf user_id m
      → All (IsOf user_id) existing
      → Yields Inv (retire m id existing) (All (IsOf user_id))
  unfolding retire without
  retire-Yields m existing id h hs = Yields-then utcnow _ _ utcnow-Inv λ now.
      Yields-then (save (retired m id now)) _ _ (save-Inv _ (retired-IsOf m id now h))
        λ _. Yields-pure _ _ (All-filter (IsOf user_id) _ existing hs)

  pub retire_all-Yields :
      (stale existing : List (Memory env.Float)) (id : String)
      → All (IsOf user_id) stale
      → All (IsOf user_id) existing
      → Yields Inv (retire_all stale id existing) (All (IsOf user_id))
  unfolding retire_all
  retire_all-Yields [] existing id h hs = Yields-pure _ _ hs
  retire_all-Yields (m ∷ ms) existing id h hs =
      Yields-bind (retire m id existing) _ (All (IsOf user_id)) _
        (retire-Yields m existing id h.0 hs)
        λ existing' hs'. retire_all-Yields ms existing' id h.1 hs'

  -- The expiry of a candidate with no lifetime is none.
  abbrev Durable : Option ℕ → Option Datetime → Type 0
  Durable ttl at = ttl ≡ none → at ≡ none

  has_expiry : (days : ℕ) (at : Option Datetime) → Durable (some days) at
  has_expiry days at e = cc

  expiry-Yields : (ttl : Option ℕ) → Yields Inv (expiry ttl) (Durable ttl)
  unfolding expiry
  expiry-Yields none = Yields-pure _ _ (λ _. refl)
  expiry-Yields (some days) = Yields-then utcnow _ _ utcnow-Inv λ now.
      Yields-if (ltb max_datetime (now + days * day)) (raise overflow_error)
        (pure (some (now + days * day))) _ (λ _. Yields-raise overflow_error _)
        (λ _. Yields-pure _ _ (has_expiry days _))

  -- `Memory(…)` raises, or returns a memory that can be stored.
  create-Yields :
      (new : NewMemory) (Q : Memory env.Float → Type 0)
      → ((id : String) (created updated : Datetime)
          → IsStorable (made new id created updated)
          → Q (made new id created updated))
      → Yields Inv (create new) Q
  unfolding create
  create-Yields new Q q = Yields-then uuid4 _ _ uuid4-Inv λ id.
      Yields-then utcnow _ _ utcnow-Inv λ created.
        Yields-then utcnow _ _ utcnow-Inv
          λ updated. Yields-lift _ _ (checked-Returns _ Q (q id created updated))

  -- `_build` raises, or returns a memory that is what the candidate says.
  pub build-Yields :
      (c : CandidateFact env.Float) (thread_id : Option String) (source : Provenance)
      → Yields Inv (build c user_id thread_id source) (IsBuilt c user_id thread_id source)
  unfolding build
  build-Yields c thread_id source =
      Yields-bind (expiry c.ttl_days) _ (Durable c.ttl_days) _ (expiry-Yields c.ttl_days)
        λ at durable. create-Yields _ _ λ id created updated storable. record {
          of_user = record { owner = refl; storable = storable };
          from_source = refl;
          in_thread = refl;
          is_live = refl;
          fact = (refl, refl, refl, refl);
          durable = durable;
        }
