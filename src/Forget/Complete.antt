-- ===== src/Forget/Complete.antt =====
-- `forget_user` leaves nothing of the user, and everything of anybody else.
use long_term_memory_agent.Base.{
  ℕ, ◌<◌, String, ◌≡◌, ◌≢◌, refl, sym, ap, ◌∙◌, false, none, List, [], map, length, arith, str_eq,
  if◌then◌else◌, subst,
}
use long_term_memory_agent.Base.Dicts.{Dict, Namespace, ns_eq}
use long_term_memory_agent.Env.{Env}
use long_term_memory_agent.Exec.{Result, ok}
use long_term_memory_agent.Forget.{ForgetReport, forget_user, keys}
use long_term_memory_agent.Forget.Erase.{
  among, among-sorted, delete_all, get-delete_all, delete_listed, listing-delete_all,
  messages-delete_transcripts, among-keys,
}
use long_term_memory_agent.Gate.{quarantine_namespace}
use long_term_memory_agent.Schemas.{memory_namespace}
use long_term_memory_agent.Threads.{checkpoint_key, thread_index_namespace}
use long_term_memory_agent.World.{World}
use long_term_memory_agent.Forget.Run.{
  memories, held_back, threads_of, threads_known, erased, report, without_memories,
  without_quarantine, IsCurrent, indexed, forget_user_run,
}

module _ ⦃env : Env⦄ (user_id : String) where
  -- What a complete deletion leaves behind.
  pub record IsErased (before after : World) : Type 0 where
    pub memories_gone : (k : String) → env.get after.store (memories user_id) k ≡ none
    pub quarantine_gone : (k : String) → env.get after.store (held_back user_id) k ≡ none
    pub threads_gone : (k : String) → env.get after.store (threads_of user_id) k ≡ none
    pub transcripts_gone :
        (t : String)
        → env.get before.store (threads_of user_id) t ≢ none
        → env.messages after.transcripts (checkpoint_key user_id t) ≡ []
    pub transcripts_kept :
        (id : String)
        → among id (map (checkpoint_key user_id) (threads_known user_id before)) ≡ false
        → env.messages after.transcripts id ≡ env.messages before.transcripts id
    pub others_kept :
        (a : Namespace) (k : String)
        → str_eq user_id a.1 ≡ false
        → env.get after.store a k ≡ env.get before.store a k

  -- A namespace that differs loses nothing.
  spared :
      (s : env.State) (b : Namespace) (ks : List String) (a : Namespace) (k : String)
      → ns_eq b a ≡ false
      → env.get (delete_all s b ks) a k ≡ env.get s a k
  spared s b ks a k e = rw (get-delete_all s b ks a k, e)

  other_user :
      (root : String) (a : Namespace) → str_eq user_id a.1 ≡ false → ns_eq (root, user_id) a ≡ false
  other_user root a e = ground arith

  erased-IsErased : (w : World) → IsErased w (erased user_id w)
  erased-IsErased w = record {
    memories_gone = λ k.
        spared (without_quarantine user_id w) (threads_of user_id) (threads_known user_id w)
          (memories user_id) k refl
        ∙ spared (without_memories user_id w) (held_back user_id) _ (memories user_id) k refl
        ∙ delete_listed w.store (memories user_id) _ k (λ j. refl);
    quarantine_gone = λ k.
        spared (without_quarantine user_id w) (threads_of user_id) (threads_known user_id w)
          (held_back user_id) k refl
        ∙ delete_listed (without_memories user_id w) (held_back user_id) _ k (λ j. refl);
    threads_gone = λ k.
        delete_listed (without_quarantine user_id w) (threads_of user_id) (threads_known user_id w)
          k
          (λ j.
            among-sorted j (keys (env.listing w.store (threads_of user_id)))
            ∙ ap (λ (l : List (String × Dict env.Float)). among j (keys l))
                (sym (
                  listing-delete_all (without_memories user_id w) (held_back user_id) _
                    (threads_of user_id) refl
                  ∙ listing-delete_all w.store (memories user_id) _ (threads_of user_id) refl)));
    transcripts_gone = λ t h.
        messages-delete_transcripts w.transcripts _ (checkpoint_key user_id t)
        ∙ ap (λ b. if b then [] else env.messages w.transcripts (checkpoint_key user_id t))
            (among-keys user_id t (threads_known user_id w) (indexed user_id w t h));
    transcripts_kept = λ id h.
        messages-delete_transcripts w.transcripts _ id
        ∙ ap (λ b. if b then [] else env.messages w.transcripts id) h;
    others_kept = λ a k e.
        spared (without_quarantine user_id w) (threads_of user_id) (threads_known user_id w) a k
          (other_user thread_index_namespace a e)
        ∙ spared (without_memories user_id w) (held_back user_id) _ a k
            (other_user quarantine_namespace a e)
        ∙ spared w.store (memories user_id) _ a k (other_user memory_namespace a e);
  }

  -- Where no entry of the thread index is a legacy one, and with more fuel than each namespace of
  -- the user has entries, `forget_user` returns its report, and afterwards the store holds no
  -- memory, no quarantined text and no thread of the user, every transcript of an indexed thread is
  -- empty, the other transcripts and the entries of all other users are as they were.
  pub forget_user_complete :
      (fuel : ℕ) (w : World)
      → IsCurrent user_id w.store
      → length (env.listing w.store (memories user_id)) < fuel
      → length (env.listing w.store (held_back user_id)) < fuel
      → length (env.listing w.store (threads_of user_id)) < fuel
      → ((forget_user fuel user_id w).0 ≡ ok (report user_id w))
        × IsErased w (forget_user fuel user_id w).1
  forget_user_complete fuel w current enough_memories enough_held enough_threads =
      let run = forget_user_run user_id fuel w current enough_memories enough_held enough_threads in
      (
        ap (λ (r : Result ForgetReport × World). r.0) run,
        subst (λ (r : Result ForgetReport × World). IsErased w r.1) (sym run) (erased-IsErased w),
      )
