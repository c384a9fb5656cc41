-- ===== src/Schemas/Active.antt =====
-- `Memory.is_active` of engram/schemas.py.
use long_term_memory_agent.Base.{refl, ◌≡◌, String, Bool, true, false, Option, none, some, ltb}
use long_term_memory_agent.Env.{Env}
use long_term_memory_agent.Exec.{ok, pure, ◌>>=◌}
use long_term_memory_agent.Schemas.{Memory, Datetime}
use long_term_memory_agent.World.{World, Method, utcnow}

module _ {Float : Type 0} where
  -- Whether a memory is active at an instant.
  unfoldable pub live_at : Datetime → Memory Float → Bool
  live_at now m = elim m.superseded_by [
    | some _ ↦ false
    | none ↦ elim m.expires_at [ none ↦ true | some t ↦ ltb now t ]
  ]

module _ ⦃env : Env⦄ where
  -- `now or utcnow()`
  unfoldable pub now_or : Option Datetime → Method Datetime
  now_or none = utcnow
  now_or (some t) = pure t

  not_expired : Option Datetime → Option Datetime → Method Bool
  unfolding now_or
  not_expired now none = pure true
  not_expired now (some t) = do at ← now_or now; pure (ltb at t)

  active_by : Option Datetime → Option String → Option Datetime → Method Bool
  unfolding not_expired
  active_by now (some _) expires_at = pure false
  active_by now none expires_at = not_expired now expires_at

  -- `memory.is_active(now)`: the clock is read only where an expiry has to be compared.
  unfoldable pub is_active : Option Datetime → Memory env.Float → Method Bool
  unfolding active_by
  is_active now m = active_by now m.superseded_by m.expires_at

  abbrev pub active_now : Memory env.Float → Method Bool
  active_now = is_active none

  -- The test changes nothing that is stored.
  pub is_active-store :
      (now : Option Datetime) (m : Memory env.Float) (w : World)
      → (is_active now m w).1.store ≡ w.store
  unfolding is_active utcnow ◌>>=◌
  is_active-store now m w = by now m.superseded_by m.expires_at
    where
      by :
          (now : Option Datetime) (s : Option String) (e : Option Datetime)
          → (active_by now s e w).1.store ≡ w.store
      by now (some _) e = refl
      by now none none = refl
      by none none (some t) = refl
      by (some n) none (some t) = refl

  -- At a given instant it changes nothing at all.
  pub is_active-live_at :
      (at : Datetime) (m : Memory env.Float) (w : World)
      → is_active (some at) m w ≡ (ok (live_at at m), w)
  unfolding is_active live_at ◌>>=◌
  is_active-live_at at m w = by m.superseded_by m.expires_at
    where
      by :
          (s : Option String) (e : Option Datetime)
          → active_by (some at) s e w ≡ (
            ok (elim s [ some _ ↦ false | none ↦ elim e [ none ↦ true | some t ↦ ltb at t ] ]),
            w,
          )
      by (some _) e = refl
      by none none = refl
      by none (some t) = refl
