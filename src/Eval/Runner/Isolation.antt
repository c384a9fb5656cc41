-- ===== src/Eval/Runner/Isolation.antt =====
-- A case of engram/eval/runner.py against the store.
use long_term_memory_agent.Schemas.Active.{is_active-store}
use long_term_memory_agent.Base.{
  sym, Option, ◌≡◌, ◌≢◌, refl, ◌∙◌, String, Bool, true, false, List, [], ◌∷◌, some, none, subst,
}
use long_term_memory_agent.Base.Dicts.{Namespace}
use long_term_memory_agent.Env.{Env}
use long_term_memory_agent.Eval.Cases.{EvalCase, Turn, user_key, spoken_by_user}
use long_term_memory_agent.Eval.Runner.{
  active_now, run_case, replay_session, replay_turn, live_stored,
}
use long_term_memory_agent.Exec.Keeps.{
  Keeps, Keeps-bind, Keeps-pure, Keeps-if, Keeps-lift, Keeps-for_each,
}
use long_term_memory_agent.Exec.{Exec, run_each}
use long_term_memory_agent.Graph.Isolation.{chat_isolated}
use long_term_memory_agent.Graph.{Agent, managed, chat, observe, write_turn}
use long_term_memory_agent.Manager.Effects.{Manager}
use long_term_memory_agent.Manager.Owned.{IsOwned}
use long_term_memory_agent.Manager.Safety.{apply-IsOwned, apply_isolated}
use long_term_memory_agent.Schemas.{Provenance}
use long_term_memory_agent.Read.{all_memories}
use long_term_memory_agent.World.Laws.{Keeps-filter_each}
use long_term_memory_agent.World.{World, store_search}

module _ {ℓ} {St A : Type ℓ} {P : St → Type ℓ} where
  Keeps-run_each :
      (body : A → Exec St (Unit {ℓ})) (xs : List A)
      → ((a : A) → Keeps P (body a))
      → Keeps P (run_each body xs)
  unfolding run_each
  Keeps-run_each body [] steps = Keeps-pure tt
  Keeps-run_each body (x ∷ xs) steps =
      Keeps-bind (body x) _ (steps x) λ y. Keeps-run_each body xs steps

module _ ⦃env : Env⦄ (agent : Agent) (mg : Manager) (user : String) (v : World) (a : Namespace)
    (key : String) (manages : agent.writer ≡ managed mg) (other : user ≢ a.1) where
  -- Every memory stands where it belongs, and the entry is as it was in `v`.
  abbrev Same : World → Type 0
  Same w = IsOwned w.store × (env.get w.store a key ≡ env.get v.store a key)

  chat-Same : (thread_id message : String) → Keeps Same (chat agent user thread_id message)
  chat-Same thread_id message = record {
    at = λ w h.
        let (owned, same) =
          chat_isolated agent mg user thread_id message w a key manages h.0 other in
        (owned, same ∙ h.1);
  }

  observe-Same :
      (text : String) (thread_id : Option String) (source : Provenance)
      → Keeps Same (observe agent user text thread_id source)
  unfolding observe write_turn
  observe-Same text thread_id source =
      subst (λ writer. Keeps Same (write_turn writer user text thread_id source)) (sym manages)
        (record {
          at = λ w h. (
            (apply-IsOwned mg user text thread_id source w h.0).0,
            apply_isolated mg user text thread_id source w a key h.0 other ∙ h.1,
          );
        })

  turn-Same : (thread : String) (t : Turn) → Keeps Same (replay_turn agent user thread t)
  unfolding replay_turn
  turn-Same thread t =
      Keeps-if (spoken_by_user t) _ _ (Keeps-bind _ _ (chat-Same thread t.text) λ _. Keeps-pure tt)
        (Keeps-bind _ _ (observe-Same t.text (some thread) t.source) λ _. Keeps-pure tt)

  stored-Same : (memory : Bool) → Keeps Same (live_stored memory user)
  unfolding live_stored all_memories store_search
  stored-Same true =
      Keeps-bind _ _
        (Keeps-bind _ _ (record { at = λ w h. h })
          λ items. Keeps-for_each _ items λ i. Keeps-lift _)
        λ memories. Keeps-filter_each active_now memories λ m. record {
          at = λ w h.
              subst (λ s. IsOwned s × (env.get s a key ≡ env.get v.store a key))
                (sym (is_active-store none m w)) h;
        }
  stored-Same false = Keeps-pure []

-- Where every memory stands in the namespace of its user under its id, running a case with the memory
-- manager, its history and its probe, keeps that and leaves every entry of a user other than the one
-- whom the case is stored under as it was, whether the run returns or raises.
pub run_case_isolated :
    ⦃env : Env⦄ (agent : Agent) (mg : Manager) (case : EvalCase) (memory : Bool) (w : World)
    (a : Namespace) (key : String)
    → agent.writer ≡ managed mg
    → IsOwned w.store
    → user_key case ≢ a.1
    → IsOwned (run_case agent case memory w).1.store
      × (env.get (run_case agent case memory w).1.store a key ≡ env.get w.store a key)
unfolding run_case replay_session
run_case_isolated agent mg case memory w a key manages owned other =
    (Keeps-bind _ _
        (Keeps-run_each _ case.sessions λ session.
          Keeps-run_each _ session.turns
            λ turn. turn-Same agent mg user w a key manages other _ turn)
        λ _. Keeps-bind _ _ (chat-Same agent mg user w a key manages other _ _) λ trace.
          Keeps-bind _ _ (stored-Same agent mg user w a key manages other memory)
            λ stored. Keeps-pure _).at
      w (owned, refl)
  where
    user : String
    user = user_key case
