-- ===== src/Forget/Legacy.antt =====
-- `forget_user` where a thread is a legacy one: refused before anything is deleted.
use long_term_memory_agent.Base.{
  ◌⊎◌, ℕ, ◌<◌, String, ◌≡◌, ◌≢◌, refl, sym, ap, ◌∙◌, true, false, Option, none, some, List, [], ◌∷◌,
  length, str_eq, eq_iff, inl, inr, Bool-cases,
}
use long_term_memory_agent.Base.Dicts.{Dict}
use long_term_memory_agent.Env.{Env}
use long_term_memory_agent.Exec.{
  Error, Result, ok, raise_with, legacy_thread_error, pure, for_each, ◌>>=◌, bind-ok, bind-raise,
}
use long_term_memory_agent.Forget.{forget_user, known_threads}
use long_term_memory_agent.Forget.Erase.{among}
use long_term_memory_agent.Threads.{checkpoint_key, checkpoint_thread_id, check_entry, names_key}
use long_term_memory_agent.World.{World, store_get}
use long_term_memory_agent.Forget.Run.{threads_of, threads_known, threads_run, indexed}

ok-ne-raise : {A : Type 0} (a : A) (x : Error) → ok a ≢ raise_with x
ok-ne-raise a x h = cc

module _ ⦃env : Env⦄ (user_id : String) where
  legacy_found :
      (t : String) (w : World) (v : Dict env.Float)
      → env.get w.store (threads_of user_id) t ≡ some v
      → names_key v (checkpoint_key user_id t) ≡ false
      → checkpoint_thread_id user_id t w ≡ (raise_with legacy_thread_error, w)
  unfolding checkpoint_thread_id check_entry store_get ◌>>=◌
  legacy_found t w v e n = rw (e, n)

  -- An identifier is resolved, or refused; nothing changes.
  resolve_cases :
      (t : String) (w : World)
      → (checkpoint_thread_id user_id t w ≡ (ok (checkpoint_key user_id t), w))
        ⊎ (checkpoint_thread_id user_id t w ≡ (raise_with legacy_thread_error, w))
  unfolding checkpoint_thread_id check_entry store_get ◌>>=◌ pure
  resolve_cases t w = found (env.get w.store (threads_of user_id) t)
    where
      found :
          (o : Option (Dict env.Float))
          → (check_entry (checkpoint_key user_id t) o w ≡ (ok (checkpoint_key user_id t), w))
            ⊎ (check_entry (checkpoint_key user_id t) o w ≡ (raise_with legacy_thread_error, w))
      found none = inl refl
      found (some v) = elim (Bool-cases (names_key v (checkpoint_key user_id t))) [
        | inl e ↦ inl (rw e)
        | inr e ↦ inr (rw e)
      ]

  refuse_threads :
      (t : String) (ts : List String) (w : World)
      → among t ts ≡ true
      → checkpoint_thread_id user_id t w ≡ (raise_with legacy_thread_error, w)
      → for_each (checkpoint_thread_id user_id) ts w ≡ (raise_with legacy_thread_error, w)
  unfolding for_each
  refuse_threads t [] w h bad = cc
  refuse_threads t (x ∷ ts) w h bad = elim (resolve_cases x w) [
    | inr e ↦ bind-raise (checkpoint_thread_id user_id x) _ w w _ e
    | inl e ↦
        bind-ok (checkpoint_thread_id user_id x) _ w w _ e
        ∙ bind-raise (for_each (checkpoint_thread_id user_id) ts) _ w w _
            (elim (Bool-cases (str_eq x t)) [
              | inl same ↦ absurd (
                  ok-ne-raise (checkpoint_key user_id x) legacy_thread_error (
                    ap (λ (r : Result String × World). r.0)
                      (sym e
                        ∙ ap (λ y. checkpoint_thread_id user_id y w) ((eq_iff x t).0 same)
                        ∙ bad)))
              | inr other ↦ refuse_threads t ts w (rw other at h) bad
            ])
  ]

  -- Where an entry of the thread index is a legacy one, and with more fuel than the index has
  -- entries, `forget_user` raises, and nothing has been deleted: the store, the transcripts and all
  -- else are as they were.
  pub forget_user_atomic :
      (fuel : ℕ) (w : World) (t : String) (v : Dict env.Float)
      → length (env.listing w.store (threads_of user_id)) < fuel
      → env.get w.store (threads_of user_id) t ≡ some v
      → names_key v (checkpoint_key user_id t) ≡ false
      → forget_user fuel user_id w ≡ (raise_with legacy_thread_error, w)
  unfolding forget_user
  forget_user_atomic fuel w t v enough e n =
      bind-ok (known_threads fuel user_id) _ w w (threads_known user_id w)
        (threads_run user_id fuel w enough)
      ∙ bind-raise (for_each (checkpoint_thread_id user_id) (threads_known user_id w)) _ w w _ (
          refuse_threads t (threads_known user_id w) w (indexed user_id w t (λ gone. cc))
            (legacy_found t w v e n))
