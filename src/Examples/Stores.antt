-- ===== src/Examples/Stores.antt =====
-- Searches and deletions in a small store.
use long_term_memory_agent.Manager.Effects.{build}
use long_term_memory_agent.Read.Lapse.{recall_lapses}
use long_term_memory_agent.Manager.Build.{built, build_run, IsValid, after_build}
use long_term_memory_agent.Base.{
  ◌≢◌, ap, eq_refl, false, str_eq, Bool-cases, inl, inr, eq_iff, String, ◌≡◌, refl, true, none,
  some, List, [], ◌∷◌, All, ℕ, ◌<◌, length, arith, take,
}
use long_term_memory_agent.Base.Texts.{strip}
use long_term_memory_agent.Demo.{fresh, demo}
use long_term_memory_agent.Examples.Data.{likes_tea, vim-IsStorable, apart, known, vim}
use long_term_memory_agent.Exec.{Result, ok, raise_with, legacy_thread_error}
use long_term_memory_agent.Base.Dicts.{str, Dict}
use long_term_memory_agent.Threads.{thread_index_namespace, checkpoint_key, names_key, json_pair}
use long_term_memory_agent.Forget.{all_keys, forget_user, forget_thread, forget_memory}
use long_term_memory_agent.Forget.Complete.{forget_user_complete, IsErased}
use long_term_memory_agent.Forget.Legacy.{forget_user_atomic}
use long_term_memory_agent.Forget.Run.{report, IsCurrent}
use long_term_memory_agent.Forget.Learned.{learned_keys}
use long_term_memory_agent.Forget.Thread.{IsForgotten, forget_thread_lem}
use long_term_memory_agent.Forget.Single.{forget_memory_lem}
use long_term_memory_agent.Forget.Pages.{all_keys_lem}
use long_term_memory_agent.Read.{recall}
use long_term_memory_agent.Read.Best.{recall_lem, live, Decodes, matches}
use long_term_memory_agent.Schemas.{Memory, user, Recall, memory_namespace}
use long_term_memory_agent.Schemas.Active.{is_active}
use long_term_memory_agent.Manager.Owned.{validate-to_value}
use long_term_memory_agent.World.{World}

abbrev found : List (Recall ℕ)
found = record { memory = vim; score = 0 } ∷ []

found-Decodes : Decodes (matches known "ann" "editor" 8) found
found-Decodes = (validate-to_value vim vim-IsStorable, refl, tt)

recall_lem_example :
    recall 8 "ann" "editor" none (some 50) known ≡ (ok (take 8 (live 50 found)), known)
unfolding strip
recall_lem_example =
    recall_lem 8 "ann" "editor" none 50 known found (apart "editor" "" refl) (omega arith)
      found-Decodes

all_keys_lem_example :
    all_keys 2 (memory_namespace, "ann") known
    ≡ (ok (demo.listing known.store (memory_namespace, "ann")), known)
all_keys_lem_example = all_keys_lem (memory_namespace, "ann") known 2 two
  where
    two : length (demo.listing known.store (memory_namespace, "ann")) < 2
    two = omega arith

-- Ann has a thread, under its own identifier; and one that is a legacy thread.
abbrev thread_entry : String → Dict ℕ
thread_entry id = ("checkpoint_id", str id) ∷ []

abbrev with_thread : String → World
with_thread id = record known {
  store = demo.put known.store (thread_index_namespace, "ann") "t1" (thread_entry id) false;
  transcripts = λ t. record { type = "human"; content = some "hi" } ∷ [];
}

abbrev talked : World
talked = with_thread (checkpoint_key "ann" "t1")

names_own : (key : String) → names_key (thread_entry key) key ≡ true
unfolding names_key
names_own key = eq_refl key

talked-IsCurrent : IsCurrent "ann" talked.store
talked-IsCurrent t v e = elim (Bool-cases (str_eq "t1" t)) [
  | inl here ↦
      let same : some (thread_entry (checkpoint_key "ann" "t1")) ≡ some v = rw here at e in
      let id : "t1" ≡ t = (eq_iff "t1" t).0 here in
      let named = names_own (checkpoint_key "ann" "t1") in cc
  | inr there ↦ let nothing : none ≡ some v = rw there at e in absurd cc
]

forget_user_complete_example :
    ((forget_user 5 "ann" talked).0 ≡ ok (report "ann" talked))
    × IsErased "ann" talked (forget_user 5 "ann" talked).1
forget_user_complete_example =
    forget_user_complete "ann" 5 talked talked-IsCurrent (omega arith) (omega arith) (omega arith)

forget_user_atomic_example :
    forget_user 5 "ann" (with_thread "ann:t1")
    ≡ (raise_with legacy_thread_error, with_thread "ann:t1")
unfolding names_key checkpoint_key json_pair
forget_user_atomic_example =
    forget_user_atomic "ann" 5 (with_thread "ann:t1") "t1" (thread_entry "ann:t1") (omega arith)
      refl refl

forget_thread_lem_example :
    ((forget_thread 5 "ann" "t1" talked).0
      ≡ ok (record {
        user_id = "ann";
        memories_deleted =
            length (learned_keys "t1" (demo.listing talked.store (memory_namespace, "ann")));
        quarantine_deleted = 0;
        threads_deleted = "t1" ∷ [];
      }))
    × IsForgotten "ann" "t1" talked (forget_thread 5 "ann" "t1" talked).1
forget_thread_lem_example =
    forget_thread_lem "ann" "t1" 5 talked talked-IsCurrent (omega arith)
      ((vim, validate-to_value vim vim-IsStorable), tt)

forget_memory_lem_example :
    ((forget_memory "ann" "v" known).0 ≡ ok true)
    × (demo.get (forget_memory "ann" "v" known).1.store (memory_namespace, "ann") "v" ≡ none)
forget_memory_lem_example = forget_memory_lem "ann" "v" known (memory_namespace, "ann") "v"

abbrev tea : Memory ℕ
tea = built likes_tea "ann" none user fresh

tea_built : build likes_tea "ann" none user fresh ≡ (ok tea, after_build likes_tea fresh)
tea_built = build_run likes_tea "ann" none user fresh likes_tea-IsValid (omega arith)
  where
    likes_tea-IsValid : IsValid likes_tea
    likes_tea-IsValid = record { text = apart "Likes tea" "" refl; low = refl; high = refl }

-- A fact of thirty days, asked for right away, and a recall long after.
recall_lapses_example :
    (is_active (some 1) tea known ≡ (ok true, known))
    × All (λ r. r.memory ≢ tea) (take 8 (live 9999999999999 found))
unfolding strip
recall_lapses_example =
    recall_lapses likes_tea 30 "ann" none user fresh _ tea refl tea_built 1 9999999999999 known 8
      "ann" "editor" none found (take 8 (live 9999999999999 found)) (omega arith) (omega arith)
      (apart "editor" "" refl) (omega arith) found-Decodes
      (ap (λ (r : Result (List (Recall ℕ)) × World). r.0)
        (recall_lem 8 "ann" "editor" none 9999999999999 known found (apart "editor" "" refl)
          (omega arith) found-Decodes))
