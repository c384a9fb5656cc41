-- ===== src/Forget.antt =====
-- engram/memory/forget.py: forgetting on request.
pub mod Pages
pub mod Run
pub mod Complete
pub mod Legacy
pub mod Single
pub mod Learned
pub mod Thread
pub mod Erase
use long_term_memory_agent.Base.{
  ℕ, zero, suc, ◌+◌, String, code, Bool, true, false, Option, none, some, List, [], ◌∷◌, ◌++◌, map,
  length, str_eq, ltb, ◌==◌, if◌then◌else◌,
}
use long_term_memory_agent.Base.Dicts.{str, Dict, Namespace}
use long_term_memory_agent.Env.{Env, entry}
use long_term_memory_agent.Exec.{pure, raise, lift, for_each, run_each, out_of_fuel, ◌>>=◌, ◌>>◌}
use long_term_memory_agent.Gate.{quarantine_namespace}
use long_term_memory_agent.Schemas.{Memory, memory_namespace}
use long_term_memory_agent.Schemas.Values.{from_value}
use long_term_memory_agent.Threads.{thread_index_namespace, checkpoint_thread_id}
use long_term_memory_agent.World.{
  Method, utcnow, store_get, store_put, store_delete, store_search, delete_transcript,
}

abbrev pub page_size : ℕ
page_size = 200

pub record ForgetReport : Type 0 where
  pub user_id : String
  pub memories_deleted : ℕ
  pub quarantine_deleted : ℕ
  pub threads_deleted : List String

-- `total`
unfoldable pub total : ForgetReport → ℕ
total r = r.memories_deleted + r.quarantine_deleted + length r.threads_deleted

-- `s <= t` of two texts: by their code points.
unfoldable pub text_le : String → String → Bool
text_le String.[] t = true
text_le (String.◌∷◌ c s) String.[] = false
text_le (String.◌∷◌ c s) (String.◌∷◌ d t) =
    let rest = text_le s t in if code c == code d then rest else ltb (code c) (code d)

unfoldable pub insert_sorted : String → List String → List String
insert_sorted x [] = x ∷ []
insert_sorted x (y ∷ ys) = if text_le x y then x ∷ y ∷ ys else y ∷ insert_sorted x ys

-- `sorted(texts)`
unfoldable pub sorted : List String → List String
sorted [] = []
sorted (x ∷ xs) = insert_sorted x (sorted xs)

module _ ⦃env : Env⦄ where
  -- The loop of `_all_keys`, with what has been read so far; the fuel bounds the number of pages.
  unfoldable pub all_keys_from :
      ℕ → Namespace → ℕ → List (String × Dict env.Float) → Method (List (String × Dict env.Float))
  all_keys_from zero a offset out = raise out_of_fuel
  all_keys_from (suc fuel) a offset out = do
    page ← store_search a none page_size offset
    elim page [
      | [] ↦ pure out
      | i ∷ is ↦ all_keys_from fuel a (offset + length (i ∷ is)) (out ++ map entry (i ∷ is))
    ]

  -- `_all_keys`
  abbrev pub all_keys : ℕ → Namespace → Method (List (String × Dict env.Float))
  all_keys fuel a = all_keys_from fuel a 0 []

  unfoldable pub record_thread : String → String → Method (Unit {0})
  record_thread user_id thread_id = do
    checkpoint_id ← checkpoint_thread_id user_id thread_id
    seen ← utcnow
    store_put (thread_index_namespace, user_id) thread_id
        (("thread_id", str thread_id)
          ∷ ("checkpoint_id", str checkpoint_id)
          ∷ ("last_seen", str (env.isoformat seen))
          ∷ [])
        false

  abbrev pub keys : List (String × Dict env.Float) → List String
  keys = map (λ e. e.0)

  unfoldable pub known_threads : ℕ → String → Method (List String)
  known_threads fuel user_id = do
    entries ← all_keys fuel (thread_index_namespace, user_id)
    pure (sorted (keys entries))

  unfoldable pub delete_found : Namespace → String → Option (Dict env.Float) → Method Bool
  delete_found a memory_id none = pure false
  delete_found a memory_id (some _) = do store_delete a memory_id; pure true

  unfoldable pub forget_memory : String → String → Method Bool
  unfolding delete_found
  forget_memory user_id memory_id = do
    found ← store_get (memory_namespace, user_id) memory_id
    delete_found (memory_namespace, user_id) memory_id found

  abbrev pub learned_in : String → Memory env.Float → Bool
  learned_in thread_id m = elim m.thread_id [ none ↦ false | some t ↦ str_eq t thread_id ]

  -- The loop of `forget_thread`, with the number of records deleted so far.
  unfoldable pub delete_learned : String → String → List (String × Dict env.Float) → ℕ → Method ℕ
  delete_learned user_id thread_id [] deleted = pure deleted
  delete_learned user_id thread_id ((key, value) ∷ more) deleted = do
    m ← lift (from_value value)
    let here = learned_in thread_id m
    if here then store_delete (memory_namespace, user_id) key else pure tt
    delete_learned user_id thread_id more (if here then deleted + 1 else deleted)

  unfoldable pub forget_thread : ℕ → String → String → Method ForgetReport
  forget_thread fuel user_id thread_id = do
    checkpoint_id ← checkpoint_thread_id user_id thread_id
    entries ← all_keys fuel (memory_namespace, user_id)
    deleted ← delete_learned user_id thread_id entries 0
    delete_transcript checkpoint_id
    store_delete (thread_index_namespace, user_id) thread_id
    pure (record {
      user_id = user_id;
      memories_deleted = deleted;
      quarantine_deleted = 0;
      threads_deleted = thread_id ∷ [];
    })

  -- `for key, _ in entries: store.delete(namespace, key)`
  abbrev pub delete_each : Namespace → List String → Method (Unit {0})
  delete_each a = run_each (store_delete a)

  -- `zip(threads, checkpoint_ids)`: the transcript of each thread, and its entry in the index.
  unfoldable pub delete_threads : String → List String → List String → Method (Unit {0})
  delete_threads user_id (t ∷ threads) (id ∷ ids) = do
    delete_transcript id
    store_delete (thread_index_namespace, user_id) t
    delete_threads user_id threads ids
  delete_threads user_id _ _ = pure tt

  unfoldable pub forget_user : ℕ → String → Method ForgetReport
  forget_user fuel user_id = do
    threads ← known_threads fuel user_id
    checkpoint_ids ← for_each (checkpoint_thread_id user_id) threads
    memories ← all_keys fuel (memory_namespace, user_id)
    delete_each (memory_namespace, user_id) (keys memories)
    quarantined ← all_keys fuel (quarantine_namespace, user_id)
    delete_each (quarantine_namespace, user_id) (keys quarantined)
    delete_threads user_id threads checkpoint_ids
    pure (record {
      user_id = user_id;
      memories_deleted = length memories;
      quarantine_deleted = length quarantined;
      threads_deleted = threads;
    })
