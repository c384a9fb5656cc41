-- ===== src/Api/Routes/Guards.antt =====
-- What the endpoints refuse, and what observed content cannot do.
use long_term_memory_agent.Base.{
  if◌then◌else◌, ◌∙◌, ℕ, String, ◌≡◌, ◌≢◌, refl, true, false, Option, none, some, arith, str_eq,
  eq_iff, subst, sym, Bool-cases, inl, inr,
}
use long_term_memory_agent.Base.Dicts.{Dict, Namespace}
use long_term_memory_agent.Base.Texts.{strip}
use long_term_memory_agent.Api.Auth.{require_owner}
use long_term_memory_agent.Api.Routes.{
  delete_memory, forget_memory_endpoint, forget_thread_endpoint, delete_thread, delete_user,
  forget_user_endpoint, get_quarantine, quarantine_endpoint, get_history, thread_history,
  get_memories, Response, list_memories, chat_endpoint, observe_endpoint, post_chat, Method,
  Request, post_observe, handle, memory_out, observe_allowed, observable,
}
use long_term_memory_agent.Env.{Env}
use long_term_memory_agent.Exec.{bind-ok, ◌>>=◌, raise_with, lift, for_each, http_error, bind-raise}
use long_term_memory_agent.Exec.Keeps.{
  Keeps, Keeps-pure, Keeps-raise, Keeps-lift, Keeps-bind, Keeps-if, Keeps-for_each,
}
use long_term_memory_agent.Gate.{quarantine_namespace, inspect, allowed}
use long_term_memory_agent.Gate.Isolation.{allowed_iff, quarantine-Holds}
use long_term_memory_agent.Graph.{Agent, managed, observe, write_turn}
use long_term_memory_agent.Manager.{apply, refuse}
use long_term_memory_agent.Manager.Effects.{Manager}
use long_term_memory_agent.Schemas.{Memory, Provenance, user, agent, tool, document, is_trusted}
use long_term_memory_agent.Schemas.Active.{active_now, is_active-store}
use long_term_memory_agent.World.{World}
use long_term_memory_agent.World.Laws.{Holds}

module _ ⦃env : Env⦄ where
  -- Whose data a request is about.
  abbrev pub owner : Request → String
  owner (post_chat user_id thread_id message) = user_id
  owner (post_observe user_id text thread_id source) = user_id
  owner (get_memories user_id include_retired) = user_id
  owner (get_history user_id thread_id) = user_id
  owner (get_quarantine user_id) = user_id
  owner (delete_user user_id) = user_id
  owner (delete_thread user_id thread_id) = user_id
  owner (delete_memory user_id memory_id) = user_id

  -- A method behind the check of the owner.
  guarded :
      (asking user_id : String) (rest : Unit {0} → Method Response) (w : World)
      → (lift (require_owner (some asking) user_id) >>= rest) w ≡ (
          if str_eq asking user_id
          then (lift (require_owner none user_id) >>= rest) w
          else (raise_with (http_error 403), w))
  unfolding require_owner lift
  guarded asking user_id rest w = elim (Bool-cases (str_eq asking user_id)) [
    | inl same ↦
        bind-ok (lift (require_owner (some asking) user_id)) rest w w tt (rw same refl)
        ∙ sym (bind-ok (lift (require_owner none user_id)) rest w w tt refl)
        ∙ rw same refl
    | inr differs ↦
        bind-raise (lift (require_owner (some asking) user_id)) rest w w (http_error 403)
          (rw differs refl)
        ∙ rw differs refl
  ]

  -- Every endpoint answers a request of an authenticated user about somebody else's data by 403 and
  -- changes nothing, and serves one about the user's own data exactly as where authentication is
  -- disabled.
  pub handle_forbids :
      (fuel : ℕ) (a : Agent) (asking : String) (request : Request) (w : World)
      → handle fuel a (some asking) request w ≡ (
          if str_eq asking (owner request)
          then handle fuel a none request w
          else (raise_with (http_error 403), w))
  unfolding handle chat_endpoint observe_endpoint list_memories thread_history quarantine_endpoint
      forget_user_endpoint forget_thread_endpoint forget_memory_endpoint
  handle_forbids fuel a asking (post_chat user_id thread_id message) w = guarded asking user_id _ w
  handle_forbids fuel a asking (post_observe user_id text thread_id source) w =
      guarded asking user_id _ w
  handle_forbids fuel a asking (get_memories user_id include_retired) w = guarded asking user_id _ w
  handle_forbids fuel a asking (get_history user_id thread_id) w = guarded asking user_id _ w
  handle_forbids fuel a asking (get_quarantine user_id) w = guarded asking user_id _ w
  handle_forbids fuel a asking (delete_user user_id) w = guarded asking user_id _ w
  handle_forbids fuel a asking (delete_thread user_id thread_id) w = guarded asking user_id _ w
  handle_forbids fuel a asking (delete_memory user_id memory_id) w = guarded asking user_id _ w

  module _ (b : Namespace) (k : String) (o : Option (Dict env.Float))
      (apart : str_eq quarantine_namespace b.0 ≡ false) where
    memory_out-Holds : (m : Memory env.Float) → Keeps (Holds b k o) (memory_out m)
    unfolding memory_out
    memory_out-Holds m =
        Keeps-bind (active_now m) _
          (record { at = λ w h. subst (λ s. env.get s b k ≡ o) (sym (is_active-store none m w)) h })
          λ active. Keeps-pure _

    refuse-Holds :
        (mg : Manager) (user_id said : String) (thread_id : Option String) (source : Provenance)
        → is_trusted source ≡ false
        → Keeps (Holds b k o) (apply mg user_id said thread_id source)
    unfolding apply refuse
    refuse-Holds mg user_id said thread_id source untrusted =
        Keeps-if (str_eq (strip said) "") _ _ (Keeps-pure _) (rw blocked refused)
      where
        blocked : allowed (inspect mg.gate (strip said) source) ≡ false
        blocked = elim (Bool-cases (allowed (inspect mg.gate (strip said) source))) [
          | inl let_through ↦
              let trusted = ((allowed_iff mg.gate (strip said) source).0 let_through).0 in absurd cc
          | inr held ↦ held
        ]

        refused :
            Keeps
              (Holds b k o)
              (refuse user_id (strip said) thread_id (inspect mg.gate (strip said) source))
        refused =
            Keeps-bind _ _ (quarantine-Holds b k o user_id _ _ thread_id apart) λ _. Keeps-pure _

    observe-Holds :
        (mg : Manager) (a : Agent) (user_id text : String) (thread_id : Option String)
        (source : Provenance)
        → a.writer ≡ managed mg
        → is_trusted source ≡ false
        → Keeps (Holds b k o) (observe_allowed true a user_id text thread_id source)
    unfolding observe_allowed observe write_turn
    observe-Holds mg a user_id text thread_id source e untrusted =
        Keeps-bind (observe a user_id text thread_id source) _
          (rw e (refuse-Holds mg user_id text thread_id source untrusted))
          λ report.
            Keeps-bind (for_each memory_out report.written) _
              (Keeps-for_each memory_out report.written memory_out-Holds) λ written. Keeps-pure _

    by_source :
        (mg : Manager) (a : Agent) (user_id text : String) (thread_id : Option String)
        (source : Provenance)
        → a.writer ≡ managed mg
        → Keeps (Holds b k o) (observe_allowed (observable source) a user_id text thread_id source)
    unfolding observe_allowed is_trusted
    by_source mg a user_id text thread_id user e = Keeps-raise _
    by_source mg a user_id text thread_id agent e = Keeps-raise _
    by_source mg a user_id text thread_id tool e =
        observe-Holds mg a user_id text thread_id tool e refl
    by_source mg a user_id text thread_id document e =
        observe-Holds mg a user_id text thread_id document e refl

  -- With the memory manager as the writer, no request to observe content changes an entry outside
  -- the quarantine, whoever asks, whatever the text says and whatever source it names.
  pub observe_isolated :
      (fuel : ℕ) (mg : Manager) (a : Agent) (asking : Option String) (user_id text : String)
      (thread_id : Option String) (source : Provenance) (w : World) (b : Namespace) (k : String)
      → a.writer ≡ managed mg
      → quarantine_namespace ≢ b.0
      → env.get (handle fuel a asking (post_observe user_id text thread_id source) w).1.store b k
        ≡ env.get w.store b k
  unfolding handle observe_endpoint
  observe_isolated fuel mg a asking user_id text thread_id source w b k e elsewhere =
      (Keeps-bind (lift (require_owner asking user_id)) _ (Keeps-lift _)
          λ _. by_source b k (env.get w.store b k) differs mg a user_id text thread_id source e).at
        w refl
    where
      differs : str_eq quarantine_namespace b.0 ≡ false
      differs = ground (arith, eq_iff quarantine_namespace b.0)
