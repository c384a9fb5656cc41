-- ===== src/Graph/Control.antt =====
-- `Agent.chat` of the control arm, whose memory is off.
use long_term_memory_agent.Base.{
  ap, ℕ, String, ◌≡◌, ◌≢◌, refl, Bool, true, false, Option, none, some, List, [], arith, str_eq,
  eq_iff,
}
use long_term_memory_agent.Base.Dicts.{Dict, Namespace}
use long_term_memory_agent.Env.{Env, Message}
use long_term_memory_agent.Exec.Keeps.{
  Keeps, Keeps-bind, Keeps-gets, Keeps-lift, Keeps-pure, Keeps-if, Keeps-raise,
}
use long_term_memory_agent.Exec.Yields.{Yields, Returns, Yields-pure, Yields-bind, Yields-then}
use long_term_memory_agent.Forget.{record_thread}
use long_term_memory_agent.Graph.{
  Agent, Writer, TurnTrace, chat, recall_node, respond_node, remember_node, messages_of,
}
use long_term_memory_agent.Threads.{
  checkpoint_thread_id, check_entry, thread_index_namespace, names_key,
}
use long_term_memory_agent.Schemas.{Recall}
use long_term_memory_agent.World.{World, append_transcript}
use long_term_memory_agent.World.Laws.{Holds, utcnow-Holds, get-Holds, put-Holds, outside_root}

module _ ⦃env : Env⦄ where
  -- The trace shows no memory.
  abbrev pub IsBare : TurnTrace → Type 0
  IsBare t = (t.recalled ≡ []) × (t.written ≡ []) × (t.decisions ≡ [])

module _ ⦃env : Env⦄ (a : Namespace) (k : String) (o : Option (Dict env.Float))
    (apart : str_eq thread_index_namespace a.0 ≡ false) where
  check-Holds :
      (key : String) (found : Option (Dict env.Float)) → Keeps (Holds a k o) (check_entry key found)
  unfolding check_entry
  check-Holds key none = Keeps-pure _
  check-Holds key (some v) = Keeps-if (names_key v key) _ _ (Keeps-pure _) (Keeps-raise _)

  resolve-Holds :
      (user_id thread_id : String) → Keeps (Holds a k o) (checkpoint_thread_id user_id thread_id)
  unfolding checkpoint_thread_id
  resolve-Holds user_id thread_id =
      Keeps-bind _ _ (get-Holds a k o _ _) λ found. check-Holds _ found

  append-Holds : (id : String) (ms : List Message) → Keeps (Holds a k o) (append_transcript id ms)
  unfolding append_transcript
  append-Holds id ms = record { at = λ w h. h }

  record_thread-Holds :
      (user_id thread_id : String) → Keeps (Holds a k o) (record_thread user_id thread_id)
  unfolding record_thread
  record_thread-Holds user_id thread_id = Keeps-bind _ _ (resolve-Holds user_id thread_id) λ id.
      Keeps-bind _ _ (utcnow-Holds a k o) λ seen.
        put-Holds a k o (thread_index_namespace, user_id) thread_id _ false
          (outside_root (thread_index_namespace, user_id) a thread_id k apart)

  messages-Holds : (id : String) → Keeps (Holds a k o) (messages_of id)
  unfolding messages_of
  messages-Holds id = Keeps-gets _

  respond-Holds :
      (agent : Agent) (id : String) (recalled : List (Recall env.Float))
      → Keeps (Holds a k o) (respond_node agent id recalled)
  unfolding respond_node
  respond-Holds agent id recalled = Keeps-bind _ _ (messages-Holds id) λ messages.
      Keeps-bind _ _ (Keeps-lift _) λ content. Keeps-bind _ _ (append-Holds id _) λ _. Keeps-pure _

  no_recall :
      (b : Bool) (top_k : ℕ) (user_id text : String)
      → b ≡ false
      → Yields (Holds a k o) (recall_node b top_k user_id text) (λ recalled. recalled ≡ [])
  unfolding recall_node
  no_recall true top_k user_id text off = absurd cc
  no_recall false top_k user_id text off = Yields-pure _ _ refl

  no_memory :
      (b : Bool) (writer : Writer) (user_id thread_id text : String)
      → b ≡ false
      → Yields (Holds a k o) (remember_node b writer user_id thread_id text) (λ r. r ≡ ([], []))
  unfolding remember_node
  no_memory true writer user_id thread_id text off = absurd cc
  no_memory false writer user_id thread_id text off = Yields-pure _ _ refl

  chat-Yields :
      (agent : Agent) (user_id thread_id message : String)
      → agent.memory_enabled ≡ false
      → Yields (Holds a k o) (chat agent user_id thread_id message) IsBare
  unfolding chat
  chat-Yields agent user_id thread_id message off =
      Yields-then _ _ _ (resolve-Holds user_id thread_id) λ id.
        Yields-then _ _ _ (record_thread-Holds user_id thread_id) λ _.
          Yields-then _ _ _ (append-Holds id _) λ _. Yields-then _ _ _ (messages-Holds id) λ asked.
            Yields-bind _ _ _ _ (no_recall agent.memory_enabled agent.top_k user_id _ off)
              λ recalled none_of. Yields-then _ _ _ (respond-Holds agent id recalled) λ content.
                Yields-then _ _ _ (messages-Holds id) λ answered.
                  Yields-bind _ _ _ _
                    (no_memory agent.memory_enabled agent.writer user_id thread_id _ off)
                    λ r nothing.
                      Yields-pure _ _ (none_of, ap (λ p. p.0) nothing, ap (λ p. p.1) nothing)

-- A chat of the control arm recalls, writes and decides nothing, and whether it returns or raises,
-- it changes no entry of the store outside the thread index.
pub chat_control :
    ⦃env : Env⦄ (agent : Agent) (user_id thread_id message : String) (w : World) (a : Namespace)
    (k : String)
    → agent.memory_enabled ≡ false
    → thread_index_namespace ≢ a.0
    → (env.get (chat agent user_id thread_id message w).1.store a k ≡ env.get w.store a k)
      × Returns IsBare (chat agent user_id thread_id message w).0
chat_control ⦃env⦄ agent user_id thread_id message w a k off elsewhere =
    (chat-Yields a k (env.get w.store a k) apart agent user_id thread_id message off).at w refl
  where
    apart : str_eq thread_index_namespace a.0 ≡ false
    apart = ground (arith, eq_iff thread_index_namespace a.0)
