-- ===== src/Forget/Thread.antt =====
-- `forget_thread`: what it deletes, and what it leaves.
use long_term_memory_agent.Base.{
  ℕ, ◌+◌, ◌<◌, String, ◌≡◌, refl, sym, ap, ◌∙◌, false, ◌&&◌, none, List, [], ◌∷◌, All, length,
  arith, subst, str_eq, eq_refl, if◌then◌else◌,
}
use long_term_memory_agent.Base.Dicts.{Namespace, ns_eq, same_place}
use long_term_memory_agent.Env.{Env}
use long_term_memory_agent.Exec.{Result, ok, pure, bind-ok}
use long_term_memory_agent.Forget.{ForgetReport, delete_learned, forget_thread, all_keys}
use long_term_memory_agent.Forget.Erase.{among, delete_all, get-delete_all, ns_eq_refl}
use long_term_memory_agent.Forget.Pages.{all_keys_lem}
use long_term_memory_agent.Forget.Run.{IsCurrent, resolve_current}
use long_term_memory_agent.Schemas.{memory_namespace}
use long_term_memory_agent.Threads.{checkpoint_key, checkpoint_thread_id, thread_index_namespace}
use long_term_memory_agent.World.{World, store_delete, delete_transcript}
use long_term_memory_agent.Forget.Learned.{
  is_learned, learned_keys, Decodes, among-learned, delete_learned_run,
}

module _ ⦃env : Env⦄ (user_id thread_id : String) where
  abbrev mine : Namespace
  mine = (memory_namespace, user_id)

  abbrev threads_of : Namespace
  threads_of = (thread_index_namespace, user_id)

  -- The keys of what was learned in the conversation.
  abbrev learned : World → List String
  learned w = learned_keys thread_id (env.listing w.store mine)

  abbrev deleted : World → World
  deleted w = record w {
    store = env.delete (delete_all w.store mine (learned w)) threads_of thread_id;
    transcripts = env.delete_thread w.transcripts (checkpoint_key user_id thread_id);
  }

  forget_thread_run :
      (fuel : ℕ) (w : World)
      → IsCurrent user_id w.store
      → length (env.listing w.store mine) < fuel
      → All Decodes (env.listing w.store mine)
      → forget_thread fuel user_id thread_id w ≡ (
        ok (record {
          user_id = user_id;
          memories_deleted = length (learned w);
          quarantine_deleted = 0;
          threads_deleted = thread_id ∷ [];
        }),
        deleted w,
      )
  unfolding forget_thread store_delete delete_transcript pure
  forget_thread_run fuel w current enough decoded =
      bind-ok (checkpoint_thread_id user_id thread_id) _ w w _
        (resolve_current user_id thread_id w current)
      ∙ bind-ok (all_keys fuel mine) _ w w _ (all_keys_lem mine w fuel enough)
      ∙ bind-ok (delete_learned user_id thread_id _ 0) _ w _ _
          (delete_learned_run user_id thread_id (env.listing w.store mine) 0 w decoded)
      ∙ bind-ok (delete_transcript (checkpoint_key user_id thread_id)) _ _ _ tt refl
      ∙ bind-ok (store_delete threads_of thread_id) _ _ _ tt refl
      ∙ ap
          (λ n. (
            ok (record {
              user_id = user_id;
              memories_deleted = n;
              quarantine_deleted = 0;
              threads_deleted = thread_id ∷ [];
            }),
            deleted w,
          ))
          (zero_plus (length (learned w)))
    where
      zero_plus : (n : ℕ) → 0 + n ≡ n
      zero_plus n = omega arith

  -- What the deletion of one conversation leaves.
  pub record IsForgotten (before after : World) : Type 0 where
    -- of the memories, those of the conversation are gone, and only those
    pub memories_left :
        (k : String)
        → env.get after.store mine k ≡ (
            if is_learned thread_id (env.get before.store mine k)
            then none
            else env.get before.store mine k)
    pub thread_gone : env.get after.store threads_of thread_id ≡ none
    pub messages_left :
        (id : String)
        → env.messages after.transcripts id ≡ (
            if str_eq (checkpoint_key user_id thread_id) id
            then []
            else env.messages before.transcripts id)
    -- and all else in the store is as it was
    pub others_kept :
        (a : Namespace) (k : String)
        → ns_eq mine a ≡ false
        → same_place threads_of thread_id a k ≡ false
        → env.get after.store a k ≡ env.get before.store a k

  deleted-IsForgotten : (w : World) → IsForgotten w (deleted w)
  deleted-IsForgotten w = record {
    memories_left = λ k. rw (env.get_delete) (
        get-delete_all w.store mine (learned w) mine k
        ∙ ap (λ p. if p && among k (learned w) then none else env.get w.store mine k)
            (ns_eq_refl mine)
        ∙ ap (λ p. if p then none else env.get w.store mine k)
            (among-learned thread_id k (env.listing w.store mine)
                (env.listing_distinct w.store mine)
              ∙ ap (is_learned thread_id) (env.lookup_listing w.store mine k)));
    thread_gone = rw (env.get_delete, eq_refl user_id, eq_refl thread_id) refl;
    messages_left = env.messages_delete w.transcripts (checkpoint_key user_id thread_id);
    others_kept = λ a k outside elsewhere.
        rw (env.get_delete, elsewhere)
          (rw (get-delete_all w.store mine (learned w) a k, outside) refl);
  }

  -- Where the thread index has no legacy entry, every stored memory of the user can be read, and
  -- there is more fuel than memories, `forget_thread` returns, reporting the conversation; the
  -- user's memories that were learned in it are gone and no other, its transcript is empty and no
  -- other changed, its entry in the index is gone, and the rest of the store is as it was.
  pub forget_thread_lem :
      (fuel : ℕ) (w : World)
      → IsCurrent user_id w.store
      → length (env.listing w.store mine) < fuel
      → All Decodes (env.listing w.store mine)
      → ((forget_thread fuel user_id thread_id w).0
          ≡ ok (record {
            user_id = user_id;
            memories_deleted = length (learned w);
            quarantine_deleted = 0;
            threads_deleted = thread_id ∷ [];
          }))
        × IsForgotten w (forget_thread fuel user_id thread_id w).1
  forget_thread_lem fuel w current enough decoded =
      let run = forget_thread_run fuel w current enough decoded in
      (
        ap (λ (r : Result ForgetReport × World). r.0) run,
        subst (λ (r : Result ForgetReport × World). IsForgotten w r.1) (sym run)
            (deleted-IsForgotten w),
      )
