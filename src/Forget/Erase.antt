-- ===== src/Forget/Erase.antt =====
-- Deleting many keys, and many transcripts.
use long_term_memory_agent.Base.{
  ◌||◌, String, ◌≡◌, refl, sym, ap, ◌∙◌, Bool, true, false, ◌&&◌, Option, none, List, [], ◌∷◌, map,
  any, arith, str_eq, eq_iff, eq_refl, if◌then◌else◌, Bool-cases, inl, inr,
}
use long_term_memory_agent.Base.Dicts.{Dict, Namespace, ns_eq, lookup}
use long_term_memory_agent.Env.{Message, Env}
use long_term_memory_agent.Exec.{ok, run_each, ◌>>=◌}
use long_term_memory_agent.Forget.{
  insert_sorted, sorted, keys, delete_each, delete_threads, text_le,
}
use long_term_memory_agent.Threads.{checkpoint_key, thread_index_namespace}
use long_term_memory_agent.World.{World, store_delete, delete_transcript}

-- `key in keys`
abbrev pub among : String → List String → Bool
among k = any (λ j. str_eq j k)

among-insert_sorted :
    (k x : String) (ys : List String) → among k (insert_sorted x ys) ≡ among k (x ∷ ys)
unfolding insert_sorted
among-insert_sorted k x [] = refl
among-insert_sorted k x (y ∷ ys) = placed (text_le x y) (among-insert_sorted k x ys)
  where
    swap : (a b c : Bool) → (b || (a || c)) ≡ (a || (b || c))
    swap a b c = ground arith

    placed :
        (b : Bool)
        → among k (insert_sorted x ys) ≡ among k (x ∷ ys)
        → among k (if b then x ∷ y ∷ ys else y ∷ insert_sorted x ys) ≡ among k (x ∷ y ∷ ys)
    placed true ih = refl
    placed false ih = ap (λ c. str_eq y k || c) ih ∙ swap (str_eq x k) (str_eq y k) (among k ys)

or_true : (b : Bool) → (b || true) ≡ true
or_true true = refl
or_true false = refl

pub ns_eq_refl : (a : Namespace) → ns_eq a a ≡ true
ns_eq_refl a = rw (eq_refl a.0, eq_refl a.1)

-- Sorting keeps the texts.
pub among-sorted : (k : String) (xs : List String) → among k (sorted xs) ≡ among k xs
unfolding sorted
among-sorted k [] = refl
among-sorted k (x ∷ xs) =
    among-insert_sorted k x (sorted xs) ∙ ap (λ c. str_eq x k || c) (among-sorted k xs)

-- A key that is not among the keys is not found.
pub lookup_absent :
    {V : Type 0} (k : String) (d : List (String × V))
    → among k (map (λ e. e.0) d) ≡ false
    → lookup k d ≡ none
lookup_absent k [] h = refl
lookup_absent k ((j, v) ∷ d) h = ground (arith, lookup_absent k d)

module _ ⦃env : Env⦄ where
  unfoldable pub delete_all : env.State → Namespace → List String → env.State
  delete_all s a [] = s
  delete_all s a (k ∷ ks) = delete_all (env.delete s a k) a ks

  pub delete_each_lem :
      (a : Namespace) (ks : List String) (w : World)
      → delete_each a ks w ≡ (ok tt, record w { store = delete_all w.store a ks })
  unfolding run_each delete_all store_delete ◌>>=◌
  delete_each_lem a [] w = refl
  delete_each_lem a (k ∷ ks) w = delete_each_lem a ks (record w { store = env.delete w.store a k })

  pub get-delete_all :
      (s : env.State) (a : Namespace) (ks : List String) (b : Namespace) (j : String)
      → env.get (delete_all s a ks) b j ≡ (if ns_eq a b && among j ks then none else env.get s b j)
  unfolding delete_all
  get-delete_all s a [] b j = none_left (ns_eq a b)
    where
      none_left : (q : Bool) → env.get s b j ≡ (if q && false then none else env.get s b j)
      none_left true = refl
      none_left false = refl
  get-delete_all s a (k ∷ ks) b j =
      get-delete_all (env.delete s a k) a ks b j
      ∙ ap (λ o. if ns_eq a b && among j ks then none else o) (env.get_delete s a k b j)
      ∙ merge (ns_eq a b) (str_eq k j) (among j ks) (env.get s b j)
    where
      merge :
          (p q r : Bool) (o : Option (Dict env.Float))
          → (if p && r then none else if p && q then none else o)
            ≡ (if p && (q || r) then none else o)
      merge p q r o = ground arith

  -- Deleting every listed key empties the namespace.
  pub delete_listed :
      (s : env.State) (a : Namespace) (ks : List String) (j : String)
      → ((k : String) → among k ks ≡ among k (keys (env.listing s a)))
      → env.get (delete_all s a ks) a j ≡ none
  delete_listed s a ks j same =
      get-delete_all s a ks a j
      ∙ ap (λ p. if p && among j ks then none else env.get s a j) (ns_eq_refl a)
      ∙ erased (among j ks) refl
    where
      erased : (b : Bool) → among j ks ≡ b → (if b then none else env.get s a j) ≡ none
      erased true e = refl
      erased false e =
          sym (env.lookup_listing s a j) ∙ lookup_absent j (env.listing s a) (sym (same j) ∙ e)

  pub listing-delete_all :
      (s : env.State) (b : Namespace) (ks : List String) (a : Namespace)
      → ns_eq b a ≡ false
      → env.listing (delete_all s b ks) a ≡ env.listing s a
  unfolding delete_all
  listing-delete_all s b [] a h = refl
  listing-delete_all s b (k ∷ ks) a h =
      listing-delete_all (env.delete s b k) b ks a h ∙ env.listing_delete s b k a h

  pub delete_transcripts : env.Transcripts → List String → env.Transcripts
  delete_transcripts t [] = t
  delete_transcripts t (id ∷ ids) = delete_transcripts (env.delete_thread t id) ids

  pub messages-delete_transcripts :
      (t : env.Transcripts) (ids : List String) (id : String)
      → env.messages (delete_transcripts t ids) id
        ≡ (if among id ids then [] else env.messages t id)
  unfolding delete_transcripts
  messages-delete_transcripts t [] id = refl
  messages-delete_transcripts t (x ∷ ids) id =
      messages-delete_transcripts (env.delete_thread t x) ids id
      ∙ ap (λ o. if among id ids then [] else o) (env.messages_delete t x id)
      ∙ merge (str_eq x id) (among id ids) (env.messages t id)
    where
      merge :
          (q r : Bool) (o : List Message)
          → (if r then [] else if q then [] else o) ≡ (if q || r then [] else o)
      merge q r o = ground arith

  pub delete_threads_lem :
      (user_id : String) (ts : List String) (w : World)
      → delete_threads user_id ts (map (checkpoint_key user_id) ts) w ≡ (
        ok tt,
        record w {
          store = delete_all w.store (thread_index_namespace, user_id) ts;
          transcripts = delete_transcripts w.transcripts (map (checkpoint_key user_id) ts);
        },
      )
  unfolding delete_threads delete_all delete_transcripts store_delete delete_transcript ◌>>=◌
  delete_threads_lem user_id [] w = refl
  delete_threads_lem user_id (t ∷ ts) w = delete_threads_lem user_id ts _

  -- The identifiers of the threads are among the identifiers.
  pub among-keys :
      (user_id t : String) (ts : List String)
      → among t ts ≡ true
      → among (checkpoint_key user_id t) (map (checkpoint_key user_id) ts) ≡ true
  among-keys user_id t [] h = h
  among-keys user_id t (x ∷ ts) h = elim (Bool-cases (str_eq x t)) [
    | inl e ↦ rw ((eq_iff x t).0 e, eq_refl (checkpoint_key user_id t))
    | inr e ↦ rw (among-keys user_id t ts (rw e at h)) (or_true _)
  ]
