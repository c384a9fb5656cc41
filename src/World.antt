-- ===== src/World.antt =====
-- The state that the methods of engram share (the store, the checkpointer, the clock, the source of
-- identifiers, and the writer's cache of vectors), and the calls that read or change it.
pub mod Laws
use long_term_memory_agent.Base.{
  ℕ, suc, ◌+◌, String, Bool, Option, none, some, List, [], ◌∷◌, if◌then◌else◌,
}
use long_term_memory_agent.Base.Dicts.{Dict, Namespace}
use long_term_memory_agent.Env.{Env, Item, Message}
use long_term_memory_agent.Exec.{Result, ok, Exec, pure, ◌>>=◌}
use long_term_memory_agent.Schemas.{Memory, Datetime}

module _ ⦃env : Env⦄ where
  pub record World : Type 0 where
    pub store : env.State
    pub transcripts : env.Transcripts
    pub readings : ℕ
    pub drawn : ℕ
    pub vectors : List (String × List env.Float)

  abbrev pub Method : Type 0 → Type 0
  Method = Exec World

  -- `utcnow()`
  unfoldable pub utcnow : Method Datetime
  utcnow w = (ok (env.now w.readings), record w { readings = suc w.readings })

  -- `uuid.uuid4().hex`
  unfoldable pub uuid4 : Method String
  uuid4 w = (ok (env.uuid w.drawn), record w { drawn = suc w.drawn })

  unfoldable pub store_get : Namespace → String → Method (Option (Dict env.Float))
  store_get a k w = (ok (env.get w.store a k), w)

  unfoldable pub store_put : Namespace → String → Dict env.Float → Bool → Method (Unit {0})
  store_put a k v index w = (ok tt, record w { store = env.put w.store a k v index })

  unfoldable pub store_delete : Namespace → String → Method (Unit {0})
  store_delete a k w = (ok tt, record w { store = env.delete w.store a k })

  unfoldable pub store_search : Namespace → Option String → ℕ → ℕ → Method (List (Item env.Float))
  store_search a query limit offset w = (ok (env.search w.store a query limit offset), w)

  unfoldable pub delete_transcript : String → Method (Unit {0})
  delete_transcript id w = (ok tt, record w { transcripts = env.delete_thread w.transcripts id })

  -- A step of the graph, kept by the checkpointer.
  unfoldable pub append_transcript : String → List Message → Method (Unit {0})
  append_transcript id ms w =
      (ok tt, record w { transcripts = env.append_messages w.transcripts id ms })

  module _ {A : Type 0} where
    -- `[x for x in xs if test(x)]` where the test reads the state.
    unfoldable pub filter_each : (A → Method Bool) → List A → Method (List A)
    filter_each test [] = pure []
    filter_each test (x ∷ xs) = do
      keep ← test x
      rest ← filter_each test xs
      pure (if keep then x ∷ rest else rest)
