-- ===== src/Write/Naive.antt =====
-- `NaiveMemoryWriter`: the baseline, with neither gate nor resolution.
use long_term_memory_agent.Base.{
  if◌then◌else◌, none, suc, String, ◌≡◌, ◌≢◌, refl, false, Option, some, [], ◌∷◌, arith, str_eq,
  eq_iff,
}
use long_term_memory_agent.Base.Dicts.{Namespace, same_place}
use long_term_memory_agent.Base.Texts.{strip}
use long_term_memory_agent.Env.{Env}
use long_term_memory_agent.Exec.{ok, pure, lift, ◌>>=◌}
use long_term_memory_agent.Schemas.{memory_namespace, semantic, Memory, Provenance}
use long_term_memory_agent.Schemas.Values.{to_value}
use long_term_memory_agent.World.{World, utcnow, uuid4, store_put}
use long_term_memory_agent.Write.{write, create, checked, save, naive_apply}

module _ ⦃env : Env⦄ where
  -- The text as it is, about the user and from the source, with the default importance and without
  -- slot, expiry or mark.
  abbrev verbatim : String → String → Option String → Provenance → World → Memory env.Float
  verbatim user_id text thread_id source w = record {
    id = env.uuid w.drawn;
    user_id = user_id;
    text = text;
    kind = semantic;
    source = source;
    importance = env.half;
    created_at = env.now w.readings;
    updated_at = env.now (suc w.readings);
    expires_at = none;
    superseded_by = none;
    superseded_at = none;
    attribute = "";
    value = "";
    scope = "";
    thread_id = thread_id;
    evidence = some text;
  }

  -- A turn that is not blank is stored word for word and taken for a fact, whatever its source: the
  -- memory and its evidence are the text without the white space around it, of the user, the source
  -- and the conversation given, with importance 0.5 and no slot, expiry or mark. It is the one that
  -- is reported as written, and no other entry of the store changes: no gate is asked, and nothing is
  -- deduped or superseded.
  pub naive_apply-verbatim :
      (user_id said : String) (thread_id : Option String) (source : Provenance) (w : World)
      → strip said ≢ ""
      → let m = verbatim user_id (strip said) thread_id source w in
        ((naive_apply user_id said thread_id source w).0
          ≡ ok (record {
            written = m ∷ [];
            decisions =
                record {
                  op = write;
                  candidate = strip said;
                  memory_id = some (env.uuid w.drawn);
                  superseded_ids = [];
                  reason = "";
                }
                ∷ [];
          }))
        × ((a : Namespace) (k : String)
            → env.get (naive_apply user_id said thread_id source w).1.store a k ≡ (
                if same_place (memory_namespace, user_id) (env.uuid w.drawn) a k
                then some (to_value m)
                else env.get w.store a k))
  unfolding naive_apply create checked save utcnow uuid4 store_put pure lift ◌>>=◌
  naive_apply-verbatim user_id said thread_id source w something =
      rw (worded, env.le_zero_half, env.le_half_one) (refl, λ a k. env.get_put w.store _ _ _ _ a k)
    where
      worded : str_eq (strip said) "" ≡ false
      worded = ground (arith, eq_iff (strip said) "")
