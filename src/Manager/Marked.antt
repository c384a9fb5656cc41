-- ===== src/Manager/Marked.antt =====
-- What the store holds of the memories that `_supersede` retires.
use long_term_memory_agent.Manager.Slots.{DistinctIds}
use long_term_memory_agent.World.{World}
use long_term_memory_agent.Schemas.Values.{to_value}
use long_term_memory_agent.Manager.Retired.{same_place_refl, after_retire-get, one_of, after_retire}
use long_term_memory_agent.Base.{
  ℕ, ◌≡◌, refl, ◌∙◌, String, false, some, List, [], ◌∷◌, All, arith, str_eq, eq_iff,
}
use long_term_memory_agent.Env.{Env}
use long_term_memory_agent.Schemas.{namespace, memory_namespace, Memory}

module _ ⦃env : Env⦄ where
  -- The store holds `m` under its name as it was, except that it is marked as superseded by `id` since
  -- a reading of the clock.
  pub record IsMarked (s : env.State) (id : String) (m : Memory env.Float) : Type 0 where
    pub reading : ℕ
    pub stored :
        env.get s (memory_namespace, m.user_id) m.id
        ≡ some (
            to_value (record {
              id = m.id;
              user_id = m.user_id;
              text = m.text;
              kind = m.kind;
              source = m.source;
              importance = m.importance;
              created_at = m.created_at;
              updated_at = m.updated_at;
              expires_at = m.expires_at;
              superseded_by = some id;
              superseded_at = some (env.now reading);
              attribute = m.attribute;
              value = m.value;
              scope = m.scope;
              thread_id = m.thread_id;
              evidence = m.evidence;
            }))

  unused :
      (ms : List (Memory env.Float)) (m : Memory env.Float)
      → All (λ n. str_eq n.id m.id ≡ false) ms
      → one_of ms m.id ≡ false
  unused [] m h = refl
  unused (n ∷ ms) m h = ground (arith, h.0, unused ms m h.1, eq_iff n.id m.id, eq_iff m.id n.id)

  -- Every memory that was superseded is still stored, marked.
  pub after_retire-All :
      (ms : List (Memory env.Float)) (id : String) (w : World)
      → DistinctIds ms
      → All (IsMarked (after_retire ms id w).store id) ms
  unfolding after_retire
  after_retire-All [] id w d = tt
  after_retire-All (m ∷ ms) id w d = (
    record {
      reading = w.readings;
      stored =
          after_retire-get ms id _ (namespace m) m.id (unused ms m d.0)
          ∙ rw (env.get_put, same_place_refl) refl;
    },
    after_retire-All ms id _ d.1,
  )
