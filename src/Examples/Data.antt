-- ===== src/Examples/Data.antt =====
-- The data of the examples: a writer with a fixed extractor, two turns, and worlds after them.
use long_term_memory_agent.Exec.{ok}
use long_term_memory_agent.Base.{
  refl, str_eq, false, arith, eq_iff, ◌≢◌, false, ◌≡◌, String, true, none, some, List, ℕ,
}
use long_term_memory_agent.Demo.{demo, fresh}
use long_term_memory_agent.Manager.Owned.{IsOwned, put_own-IsOwned}
use long_term_memory_agent.Schemas.Values.{IsStorable, to_value}
use long_term_memory_agent.Extract.{CandidateFact}
use long_term_memory_agent.Manager.Effects.{Manager}
use long_term_memory_agent.Schemas.{Memory, namespace, memory_namespace, semantic, user}
use long_term_memory_agent.World.{World}

abbrev pub uses : String → String → CandidateFact ℕ
uses text value = record {
  text = text;
  attribute = "editor";
  value = value;
  scope = "";
  kind = semantic;
  importance = 5;
  ttl_days = none;
}

abbrev pub likes_tea : CandidateFact ℕ
likes_tea = record {
  text = "Likes tea";
  attribute = "";
  value = "";
  scope = "";
  kind = semantic;
  importance = 5;
  ttl_days = some 30;
}

-- A writer whose extractor finds these facts in every turn.
abbrev pub writer : List (CandidateFact ℕ) → Manager
writer cs = record {
  extract = λ _. ok cs;
  gate = record { scan_trusted_content = true };
  dedupe_similarity = 8;
}

-- What is known of Ann.
abbrev pub vim : Memory ℕ
vim = record {
  id = "v";
  user_id = "ann";
  text = "Uses vim";
  kind = semantic;
  source = user;
  importance = 5;
  created_at = 1;
  updated_at = 1;
  expires_at = none;
  superseded_by = none;
  superseded_at = none;
  attribute = "editor";
  value = "vim";
  scope = "";
  thread_id = some "t1";
  evidence = none;
}

pub vim-IsStorable : IsStorable vim
vim-IsStorable = record { text = text_ne; low = refl; high = refl }
  where
    text_ne : vim.text ≢ ""
    text_ne e = cc

abbrev pub known : World
known = record fresh { store = demo.put fresh.store (namespace vim) vim.id (to_value vim) true }

fresh-IsOwned : IsOwned fresh.store
fresh-IsOwned = record { at = λ user_id key v m e valid. absurd (none_ne e) }
  where
    none_ne : {A : Type 0} {a : A} → none ≢ some a
    none_ne e = cc

pub known-IsOwned : IsOwned known.store
known-IsOwned = put_own-IsOwned fresh.store vim true vim-IsStorable fresh-IsOwned

pub has_vim : demo.get known.store (memory_namespace, "ann") "v" ≢ none
has_vim e = cc

-- Two texts that a comparison tells apart.
pub apart : (s t : String) → str_eq s t ≡ false → s ≢ t
apart s t h = ground (arith, eq_iff s t)
