-- ===== src/Graph/Isolation.antt =====
-- `Agent.chat` against the store: what a turn with memory keeps.
use long_term_memory_agent.Base.{
  ℕ, String, ◌≡◌, ◌≢◌, refl, sym, Bool, true, false, Option, none, some, List, [], ◌∷◌, ◌&&◌, ◌==◌,
  ◌++◌, length, arith, subst, str_eq, eq_iff,
}
use long_term_memory_agent.Base.Dicts.{Dict, Namespace}
use long_term_memory_agent.Base.Texts.{strip}
use long_term_memory_agent.Env.{Env, Message, Item}
use long_term_memory_agent.Exec.Keeps.{
  Keeps, Keeps-bind, Keeps-gets, Keeps-lift, Keeps-pure, Keeps-if, Keeps-raise, Keeps-for_each,
}
use long_term_memory_agent.Exec.Yields.{Keeps-of_Yields}
use long_term_memory_agent.Forget.{record_thread}
use long_term_memory_agent.Gate.{quarantine_namespace}
use long_term_memory_agent.Graph.{
  Agent, managed, chat, recall_node, respond_node, remember_node, messages_of, write_turn,
}
use long_term_memory_agent.Manager.Effects.{Manager}
use long_term_memory_agent.Manager.Owned.{IsOf, IsOwned, put_own-IsOwned, put_elsewhere-IsOwned}
use long_term_memory_agent.Manager.Turn.{turn-Yields}
use long_term_memory_agent.Read.{recall, collect}
use long_term_memory_agent.Schemas.{Memory, Recall, Datetime, namespace}
use long_term_memory_agent.Schemas.Active.{is_active, is_active-store}
use long_term_memory_agent.Schemas.Values.{to_value}
use long_term_memory_agent.Threads.{
  checkpoint_thread_id, check_entry, thread_index_namespace, names_key,
}
use long_term_memory_agent.World.{
  World, store_get, store_put, store_search, utcnow, append_transcript,
}
use long_term_memory_agent.World.Laws.{outside_user}

module _ ⦃env : Env⦄ (user_id : String) (R : env.State → Type 0)
    (owned : (s : env.State) → R s → IsOwned s)
    (saves : (s : env.State) (m : Memory env.Float) (index : Bool)
      → IsOf user_id m
      → R s
      → R (env.put s (namespace m) m.id (to_value m) index))
    (quarantines : (s : env.State) (key : String) (v : Dict env.Float)
      → R s
      → R (env.put s (quarantine_namespace, user_id) key v false))
    (indexes : (s : env.State) (key : String) (v : Dict env.Float)
      → R s
      → R (env.put s (thread_index_namespace, user_id) key v false)) where
  abbrev Inv : World → Type 0
  Inv w = R w.store

  resolve-Inv : (thread_id : String) → Keeps Inv (checkpoint_thread_id user_id thread_id)
  unfolding checkpoint_thread_id check_entry store_get
  resolve-Inv thread_id = Keeps-bind _ _ (record { at = λ w h. h }) λ found. checked _ found
    where
      checked : (key : String) (o : Option (Dict env.Float)) → Keeps Inv (check_entry key o)
      checked key none = Keeps-pure _
      checked key (some v) = Keeps-if (names_key v key) _ _ (Keeps-pure _) (Keeps-raise _)

  record_thread-Inv : (thread_id : String) → Keeps Inv (record_thread user_id thread_id)
  unfolding record_thread utcnow store_put
  record_thread-Inv thread_id = Keeps-bind _ _ (resolve-Inv thread_id) λ id.
      Keeps-bind _ _ (record { at = λ w h. h })
        λ seen. record { at = λ w h. indexes w.store thread_id _ h }

  append-Inv : (id : String) (ms : List Message) → Keeps Inv (append_transcript id ms)
  unfolding append_transcript
  append-Inv id ms = record { at = λ w h. h }

  active-Inv : (now : Option Datetime) (m : Memory env.Float) → Keeps Inv (is_active now m)
  active-Inv now m = record { at = λ w h. subst R (sym (is_active-store now m w)) h }

  collect-Inv :
      (k : ℕ) (now : Option Datetime) (items : List (Item env.Float))
      (recalls : List (Recall env.Float))
      → Keeps Inv (collect k now items recalls)
  unfolding collect
  collect-Inv k now [] recalls = Keeps-pure _
  collect-Inv k now (i ∷ items) recalls = Keeps-bind _ _ (Keeps-lift _) λ m.
      Keeps-bind (is_active now m) _ (active-Inv now m) λ active.
        Keeps-if (active && length (recalls ++ record { memory = m; score = _ } ∷ []) == k) _ _
          (Keeps-pure _) (collect-Inv k now items _)

  recall-Inv :
      (enabled : Bool) (top_k : ℕ) (text : String)
      → Keeps Inv (recall_node enabled top_k user_id text)
  unfolding recall_node recall store_search
  recall-Inv true top_k text =
      Keeps-if (str_eq (strip text) "") _ _ (Keeps-pure _)
        (Keeps-bind _ _ (record { at = λ w h. h }) λ items. collect-Inv _ none items [])
  recall-Inv false top_k text = Keeps-pure _

  respond-Inv :
      (agent : Agent) (id : String) (recalled : List (Recall env.Float))
      → Keeps Inv (respond_node agent id recalled)
  unfolding respond_node messages_of
  respond-Inv agent id recalled = Keeps-bind _ _ (Keeps-gets _) λ messages.
      Keeps-bind _ _ (Keeps-lift _) λ content. Keeps-bind _ _ (append-Inv id _) λ _. Keeps-pure _

  remember-Inv :
      (enabled : Bool) (mg : Manager) (thread_id text : String)
      → Keeps Inv (remember_node enabled (managed mg) user_id thread_id text)
  unfolding remember_node write_turn
  remember-Inv true mg thread_id text =
      Keeps-bind _ _
        (Keeps-of_Yields _ (
          turn-Yields user_id R owned saves quarantines mg (strip text) (some thread_id) _ text
            refl))
        λ report.
          Keeps-bind _ _ (Keeps-for_each _ report.written λ m. Keeps-lift _) λ written. Keeps-pure _
  remember-Inv false mg thread_id text = Keeps-pure _

  pub chat-Inv :
      (agent : Agent) (mg : Manager) (thread_id message : String)
      → agent.writer ≡ managed mg
      → Keeps Inv (chat agent user_id thread_id message)
  unfolding chat messages_of
  chat-Inv agent mg thread_id message e = Keeps-bind _ _ (resolve-Inv thread_id) λ id.
      Keeps-bind _ _ (record_thread-Inv thread_id) λ _. Keeps-bind _ _ (append-Inv id _) λ _.
        Keeps-bind _ _ (Keeps-gets _) λ asked.
          Keeps-bind _ _ (recall-Inv agent.memory_enabled agent.top_k _) λ recalled.
            Keeps-bind _ _ (respond-Inv agent id recalled) λ content.
              Keeps-bind _ _ (Keeps-gets _)
                λ answered. Keeps-bind _ _ (written e _) λ r. Keeps-pure _
    where
      written :
          agent.writer ≡ managed mg
          → (text : String)
          → Keeps Inv (remember_node agent.memory_enabled agent.writer user_id thread_id text)
      written e text =
          subst (λ x. Keeps Inv (remember_node agent.memory_enabled x user_id thread_id text))
            (sym e) (remember-Inv agent.memory_enabled mg thread_id text)

-- Where every memory stands in the namespace of its user under its id, a chat of one user with an
-- agent that has the memory manager keeps that, and leaves every entry of every other user as it
-- was, whether it returns or raises.
pub chat_isolated :
    ⦃env : Env⦄ (agent : Agent) (mg : Manager) (user_id thread_id message : String) (w : World)
    (a : Namespace) (key : String)
    → agent.writer ≡ managed mg
    → IsOwned w.store
    → user_id ≢ a.1
    → IsOwned (chat agent user_id thread_id message w).1.store
      × (env.get (chat agent user_id thread_id message w).1.store a key ≡ env.get w.store a key)
chat_isolated ⦃env⦄ agent mg user_id thread_id message w a key e h other =
    (chat-Inv user_id (λ s. IsOwned s × (env.get s a key ≡ env.get w.store a key)) (λ s x. x.0)
        (λ s m index of x. (
          put_own-IsOwned s m index of.storable x.0,
          rw (env.get_put, outside_user (namespace m) a m.id key (rw of.owner differs)) x.1,
        ))
        (λ s k v x. (
          put_elsewhere-IsOwned s (quarantine_namespace, user_id) k v false refl x.0,
          rw (env.get_put, outside_user (quarantine_namespace, user_id) a k key differs) x.1,
        ))
        (λ s k v x. (
          put_elsewhere-IsOwned s (thread_index_namespace, user_id) k v false refl x.0,
          rw (env.get_put, outside_user (thread_index_namespace, user_id) a k key differs) x.1,
        ))
        agent mg thread_id message e).at
      w (h, refl)
  where
    differs : str_eq user_id a.1 ≡ false
    differs = ground (arith, eq_iff user_id a.1)
