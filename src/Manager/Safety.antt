-- ===== src/Manager/Safety.antt =====
-- What a turn promises of the store: the invariant, the isolation of users, the history, and the
-- refusal of content that is not the user's.
use long_term_memory_agent.Base.{
  String, ◌≡◌, ◌≢◌, refl, sym, Bool, true, false, Option, none, [], ◌∷◌, All, arith, str_eq, eq_iff,
  Bool-cases, inl, inr,
}
use long_term_memory_agent.Base.Dicts.{Dict, Namespace}
use long_term_memory_agent.Base.Texts.{strip}
use long_term_memory_agent.Env.{Env}
use long_term_memory_agent.Exec.{ok, ◌>>=◌}
use long_term_memory_agent.Exec.Yields.{Returns}
use long_term_memory_agent.Gate.{inspect, allowed, scan, quarantine_namespace}
use long_term_memory_agent.Gate
use long_term_memory_agent.Gate.Isolation.{allowed_iff}
use long_term_memory_agent.Manager.{apply, refuse}
use long_term_memory_agent.Manager.Effects.{Manager}
use long_term_memory_agent.Manager.Owned.{IsOwned, put_own-IsOwned, put_elsewhere-IsOwned}
use long_term_memory_agent.Manager.Turn.{IsWritten, turn-Yields}
use long_term_memory_agent.Schemas.{Provenance, namespace, is_trusted}
use long_term_memory_agent.Schemas.Values.{to_value}
use long_term_memory_agent.World.{World, utcnow, store_put}
use long_term_memory_agent.World.Laws.{outside_user, outside_root}
use long_term_memory_agent.Write.{quarantine}

str_ne : (s t : String) → s ≢ t → str_eq s t ≡ false
str_ne s t h = ground (arith, eq_iff s t)

module _ ⦃env : Env⦄ where
  -- A turn keeps every memory in the namespace of its user under its id, whether it returns or
  -- raises; and each memory that it reports as written belongs to the user, can be stored, has the
  -- turn's source and conversation, is not superseded, fills its slot (if it has one) with a value,
  -- and has no expiry if the turn has no temporal marker.
  pub apply-IsOwned :
      (mg : Manager) (user_id said : String) (thread_id : Option String) (source : Provenance)
      (w : World)
      → IsOwned w.store
      → IsOwned (apply mg user_id said thread_id source w).1.store
        × Returns
            (λ r. All (IsWritten user_id (strip said) thread_id source) r.written)
            (apply mg user_id said thread_id source w).0
  apply-IsOwned mg user_id said thread_id source w h =
      (turn-Yields user_id IsOwned (λ s x. x)
          (λ s m index of x. put_own-IsOwned s m index of.storable x)
          (λ s key v x. put_elsewhere-IsOwned s (quarantine_namespace, user_id) key v false refl x)
          mg (strip said) thread_id source said refl).at
        w h

  -- Where every memory stands in the namespace of its user under its id, a turn of one user leaves
  -- every entry of every other user as it was, whether it returns or raises.
  pub apply_isolated :
      (mg : Manager) (user_id said : String) (thread_id : Option String) (source : Provenance)
      (w : World) (a : Namespace) (key : String)
      → IsOwned w.store
      → user_id ≢ a.1
      → env.get (apply mg user_id said thread_id source w).1.store a key ≡ env.get w.store a key
  apply_isolated mg user_id said thread_id source w a key h other =
      ((turn-Yields user_id (λ s. IsOwned s × (env.get s a key ≡ env.get w.store a key))
          (λ s x. x.0)
          (λ s m index of x. (
            put_own-IsOwned s m index of.storable x.0,
            rw
                (
                  env.get_put,
                  outside_user (namespace m) a m.id key (rw of.owner (str_ne user_id a.1 other)),
                )
                x.1,
          ))
          (λ s k v x. (
            put_elsewhere-IsOwned s (quarantine_namespace, user_id) k v false refl x.0,
            rw
                (
                  env.get_put,
                  outside_user (quarantine_namespace, user_id) a k key (str_ne user_id a.1 other),
                )
                x.1,
          ))
          mg (strip said) thread_id source said refl).at
        w (h, refl)).0.1

  put_present :
      (s : env.State) (b a : Namespace) (j key : String) (v : Dict env.Float) (index : Bool)
      → env.get s a key ≢ none
      → env.get (env.put s b j v index) a key ≢ none
  put_present s b a j key v index h = ground (arith, env.get_put s b j v index a key)

  -- Where every memory stands in the namespace of its user under its id, a turn deletes nothing:
  -- where the store held an entry, of whichever namespace, it holds one afterwards.
  pub apply_keeps_history :
      (mg : Manager) (user_id said : String) (thread_id : Option String) (source : Provenance)
      (w : World) (a : Namespace) (key : String)
      → IsOwned w.store
      → env.get w.store a key ≢ none
      → env.get (apply mg user_id said thread_id source w).1.store a key ≢ none
  apply_keeps_history mg user_id said thread_id source w a key h held =
      ((turn-Yields user_id (λ s. IsOwned s × (env.get s a key ≢ none)) (λ s x. x.0)
          (λ s m index of x. (
            put_own-IsOwned s m index of.storable x.0,
            put_present s (namespace m) a m.id key (to_value m) index x.1,
          ))
          (λ s k v x. (
            put_elsewhere-IsOwned s (quarantine_namespace, user_id) k v false refl x.0,
            put_present s (quarantine_namespace, user_id) a k key v false x.1,
          ))
          mg (strip said) thread_id source said refl).at
        w (h, held)).0.1

  apply-refuse :
      (mg : Manager) (user_id said : String) (thread_id : Option String) (source : Provenance)
      → strip said ≢ ""
      → (is_trusted source ≡ true → scan mg.gate (strip said) ≢ [])
      → apply mg user_id said thread_id source
        ≡ refuse user_id (strip said) thread_id (inspect mg.gate (strip said) source)
  unfolding apply
  apply-refuse mg user_id said thread_id source something refused =
      rw (str_ne (strip said) "" something, not_allowed)
    where
      not_allowed : allowed (inspect mg.gate (strip said) source) ≡ false
      not_allowed = elim (Bool-cases (allowed (inspect mg.gate (strip said) source))) [
        | inl let_through ↦
            let (trusted, clean) = (allowed_iff mg.gate (strip said) source).0 let_through in
            absurd (refused trusted clean)
        | inr blocked ↦ blocked
      ]

  -- Content that is not blank and is of an untrusted source, or has a marker that is looked for, is
  -- refused: nothing is written, one decision says so, and no entry outside the quarantine changes.
  pub apply_refuses :
      (mg : Manager) (user_id said : String) (thread_id : Option String) (source : Provenance)
      (w : World) (a : Namespace) (key : String)
      → strip said ≢ ""
      → (is_trusted source ≡ true → scan mg.gate (strip said) ≢ [])
      → a.0 ≢ quarantine_namespace
      → ((apply mg user_id said thread_id source w).0
          ≡ ok (record {
            written = [];
            decisions =
                record {
                  op = quarantine;
                  candidate = strip said;
                  memory_id = none;
                  superseded_ids = [];
                  reason = (inspect mg.gate (strip said) source).reason;
                }
                ∷ [];
          }))
        × (env.get (apply mg user_id said thread_id source w).1.store a key ≡ env.get w.store a key)
  unfolding refuse Gate.quarantine utcnow store_put ◌>>=◌
  apply_refuses mg user_id said thread_id source w a key said_something refused elsewhere =
      rw (apply-refuse mg user_id said thread_id source said_something refused) (
        refl,
        rw (
          env.get_put,
          outside_root (quarantine_namespace, user_id) a _ key
              (str_ne quarantine_namespace a.0 (λ e. elsewhere (sym e))),
        ),
      )
