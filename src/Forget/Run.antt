-- ===== src/Forget/Run.antt =====
-- A run of `forget_user` where no thread is a legacy one: its report, and the state that it leaves.
use long_term_memory_agent.Base.{
  ℕ, ◌<◌, String, ◌≡◌, ◌≢◌, refl, sym, ap, ◌∙◌, true, Option, none, some, List, [], ◌∷◌, map,
  length, subst, inl, inr, Bool-cases,
}
use long_term_memory_agent.Base.Dicts.{Dict, Namespace}
use long_term_memory_agent.Env.{Env}
use long_term_memory_agent.Exec.{ok, pure, for_each, ◌>>=◌, bind-ok}
use long_term_memory_agent.Forget.{
  ForgetReport, forget_user, known_threads, sorted, keys, delete_each, delete_threads, all_keys,
}
use long_term_memory_agent.Forget.Erase.{
  among, among-sorted, lookup_absent, delete_all, delete_each_lem, listing-delete_all,
  delete_transcripts, delete_threads_lem,
}
use long_term_memory_agent.Forget.Pages.{all_keys_lem}
use long_term_memory_agent.Gate.{quarantine_namespace}
use long_term_memory_agent.Schemas.{memory_namespace}
use long_term_memory_agent.Threads.{
  checkpoint_key, checkpoint_thread_id, check_entry, names_key, thread_index_namespace,
}
use long_term_memory_agent.World.{World, store_get}

module _ ⦃env : Env⦄ (user_id : String) where
  -- The three namespaces of a user.
  abbrev pub memories : Namespace
  memories = (memory_namespace, user_id)

  abbrev pub held_back : Namespace
  held_back = (quarantine_namespace, user_id)

  abbrev pub threads_of : Namespace
  threads_of = (thread_index_namespace, user_id)

  -- Every entry of the thread index names the thread's own identifier.
  abbrev pub IsCurrent : env.State → Type 0
  IsCurrent s =
      (t : String) (v : Dict env.Float)
      → env.get s threads_of t ≡ some v
      → names_key v (checkpoint_key user_id t) ≡ true

  pub resolve_current :
      (t : String) (w : World)
      → IsCurrent w.store
      → checkpoint_thread_id user_id t w ≡ (ok (checkpoint_key user_id t), w)
  unfolding checkpoint_thread_id check_entry store_get ◌>>=◌ pure
  resolve_current t w h = found (env.get w.store threads_of t) (h t)
    where
      found :
          (o : Option (Dict env.Float))
          → ((v : Dict env.Float) → o ≡ some v → names_key v (checkpoint_key user_id t) ≡ true)
          → check_entry (checkpoint_key user_id t) o w ≡ (ok (checkpoint_key user_id t), w)
      found none k = refl
      found (some v) k = rw (k v refl)

  resolve_threads :
      (ts : List String) (w : World)
      → IsCurrent w.store
      → for_each (checkpoint_thread_id user_id) ts w ≡ (ok (map (checkpoint_key user_id) ts), w)
  unfolding for_each pure
  resolve_threads [] w h = refl
  resolve_threads (t ∷ ts) w h =
      bind-ok (checkpoint_thread_id user_id t) _ w w _ (resolve_current t w h)
      ∙ bind-ok (for_each (checkpoint_thread_id user_id) ts) _ w w _ (resolve_threads ts w h)

  -- What is left of the store and of the transcripts.
  abbrev pub threads_known : World → List String
  threads_known w = sorted (keys (env.listing w.store threads_of))

  abbrev pub without_memories : World → env.State
  without_memories w = delete_all w.store memories (keys (env.listing w.store memories))

  abbrev pub without_quarantine : World → env.State
  without_quarantine w =
      delete_all (without_memories w) held_back (keys (env.listing (without_memories w) held_back))

  abbrev pub erased : World → World
  erased w = record w {
    store = delete_all (without_quarantine w) threads_of (threads_known w);
    transcripts = delete_transcripts w.transcripts (map (checkpoint_key user_id) (threads_known w));
  }

  abbrev pub report : World → ForgetReport
  report w = record {
    user_id = user_id;
    memories_deleted = length (env.listing w.store memories);
    quarantine_deleted = length (env.listing w.store held_back);
    threads_deleted = threads_known w;
  }

  pub threads_run :
      (fuel : ℕ) (w : World)
      → length (env.listing w.store threads_of) < fuel
      → known_threads fuel user_id w ≡ (ok (threads_known w), w)
  unfolding known_threads pure
  threads_run fuel w enough =
      bind-ok (all_keys fuel threads_of) _ w w _ (all_keys_lem threads_of w fuel enough)

  pub forget_user_run :
      (fuel : ℕ) (w : World)
      → IsCurrent w.store
      → length (env.listing w.store memories) < fuel
      → length (env.listing w.store held_back) < fuel
      → length (env.listing w.store threads_of) < fuel
      → forget_user fuel user_id w ≡ (ok (report w), erased w)
  unfolding forget_user pure
  forget_user_run fuel w current enough_memories enough_held enough_threads =
      bind-ok (known_threads fuel user_id) _ w w (threads_known w)
        (threads_run fuel w enough_threads)
      ∙ bind-ok (for_each (checkpoint_thread_id user_id) (threads_known w)) _ w w _
          (resolve_threads (threads_known w) w current)
      ∙ bind-ok (all_keys fuel memories) _ w w _ (all_keys_lem memories w fuel enough_memories)
      ∙ bind-ok (delete_each memories _) _ w _ _ (delete_each_lem memories _ w)
      ∙ bind-ok (all_keys fuel held_back) _ _ _ _
          (all_keys_lem held_back (record w { store = without_memories w }) fuel quarantine_enough)
      ∙ bind-ok (delete_each held_back _) _ _ _ _
          (delete_each_lem held_back _ (record w { store = without_memories w }))
      ∙ bind-ok (delete_threads user_id (threads_known w) _) _ _ _ _
          (delete_threads_lem user_id (threads_known w) (record w { store = without_quarantine w }))
      ∙ ap
          (λ (l : List (String × Dict env.Float)).
            (ok (record (report w) { quarantine_deleted = length l }), erased w))
          (listing-delete_all w.store memories _ held_back refl)
    where
      quarantine_enough : length (env.listing (without_memories w) held_back) < fuel
      quarantine_enough =
          subst (λ (l : List (String × Dict env.Float)). length l < fuel)
            (sym (listing-delete_all w.store memories _ held_back refl)) enough_held

  -- A thread with an entry is among the known ones.
  pub indexed :
      (w : World) (t : String)
      → env.get w.store threads_of t ≢ none
      → among t (threads_known w) ≡ true
  indexed w t h = elim (Bool-cases (among t (threads_known w))) [
    | inl e ↦ e
    | inr e ↦ absurd (
        h (
          sym (env.lookup_listing w.store threads_of t)
          ∙ lookup_absent t (env.listing w.store threads_of)
              (sym (among-sorted t (keys (env.listing w.store threads_of))) ∙ e)))
  ]
