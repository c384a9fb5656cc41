-- ===== src/Eval/Locomo/Graded.antt =====
-- What engram/eval/locomo.py counts as a correct answer, and how much it runs.
use long_term_memory_agent.Eval.Locomo.Benchmark.{
  LocomoResult, ask, asked, declines_to_answer, ingest, ingest_turns, refused, run_conversation,
  score_locomo_answer,
}
use long_term_memory_agent.Base.{
  map, ◌≡◌, refl, ap, ℕ, ◌+◌, String, false, Option, some, List, [], ◌∷◌, length, Bool-cases, inl,
  inr, arith,
}
use long_term_memory_agent.Env.{Env}
use long_term_memory_agent.Eval.Judge.{Judge, Verdict}
use long_term_memory_agent.Eval.Locomo.{
  total_turns, RawQuestion, LocomoQuestion, LocomoConversation, LocomoSession, LocomoTurn,
  parse_question, is_adversarial, adversarial_category, str_or, turn_count,
}
use long_term_memory_agent.Exec.Keeps.{Keeps}
use long_term_memory_agent.Exec.Yields.{Yields, Returns, Yields-pure, Yields-bind, Yields-then}
use long_term_memory_agent.Exec.{Exec, ok}
use long_term_memory_agent.Graph.{Agent}
use long_term_memory_agent.World.{World}

module _ ⦃env : Env⦄ where
  refused-correct :
      (q : LocomoQuestion) (answer : String)
      → (refused q answer).correct ≡ declines_to_answer answer
  unfolding refused
  refused-correct q answer = elim (Bool-cases (declines_to_answer answer)) [
    | inl e ↦ rw e refl
    | inr e ↦ rw e refl
  ]

  -- A question of the adversarial category is read without a gold answer, and an answer to it is
  -- correct exactly when it declines, whatever the judge would say and whether or not it repeats the
  -- trap; a question of any other category is read without a trap, and the judge grades the answer
  -- against the gold answer of the file.
  pub score_parsed :
      (item : RawQuestion) (answer : String) (judge : Judge)
      → let q = parse_question item in
        (item.category ≡ some adversarial_category
          → (q.answer ≡ "")
            × ((v : Verdict) × (score_locomo_answer q answer judge ≡ ok v)
                × (v.correct ≡ declines_to_answer answer)))
        × (is_adversarial q ≡ false
            → (q.distractor ≡ "")
              × (score_locomo_answer q answer judge
                  ≡ judge (str_or item.question) (str_or item.answer) answer))
  unfolding parse_question is_adversarial score_locomo_answer
  score_parsed item answer judge = (
    λ e. (
      rw e refl,
      (
        refused (parse_question item) answer,
        rw e refl,
        refused-correct (parse_question item) answer,
      ),
    ),
    λ e. rw e (refl, refl),
  )

  abbrev Any : World → Type 0
  Any w = Unit

  kept : {A : Type 0} (m : Exec World A) → Keeps Any m
  kept m = record { at = λ w h. tt }

  ingest_turns-count :
      (agent : Agent) (id : String) (s : LocomoSession) (ts : List LocomoTurn)
      → Yields Any (ingest_turns agent id s ts) (λ n. n ≡ length ts)
  unfolding ingest_turns
  ingest_turns-count agent id s [] = Yields-pure _ _ refl
  ingest_turns-count agent id s (t ∷ ts) = Yields-then _ _ _ (kept _) λ _.
      Yields-bind (ingest_turns agent id s ts) _ (λ n. n ≡ length ts) _
        (ingest_turns-count agent id s ts) λ more e. Yields-pure _ _ (omega (arith, e))

  ingest-count :
      (agent : Agent) (id : String) (ss : List LocomoSession)
      → Yields Any (ingest agent id ss) (λ n. n ≡ total_turns ss)
  unfolding ingest
  ingest-count agent id [] = Yields-pure _ _ refl
  ingest-count agent id (s ∷ ss) =
      Yields-bind (ingest_turns agent id s s.turns) _ (λ n. n ≡ length s.turns) _
        (ingest_turns-count agent id s s.turns)
        λ here e.
          Yields-bind (ingest agent id ss) _ (λ n. n ≡ total_turns ss) _ (ingest-count agent id ss)
            λ more f. Yields-pure _ _ (omega (arith, e, f))

  ask-length :
      (agent : Agent) (judge : Judge) (show : ℕ → String) (id : String) (i : ℕ)
      (qs : List LocomoQuestion)
      → Yields Any (ask agent judge show id i qs) (λ rs.
        map (λ (r : LocomoResult). r.question) rs ≡ map (λ (q : LocomoQuestion). q.question) qs)
  unfolding ask
  ask-length agent judge show id i [] = Yields-pure _ _ refl
  ask-length agent judge show id i (q ∷ qs) = Yields-then _ _ _ (kept _) λ trace.
      Yields-then _ _ _ (kept _) λ v.
        Yields-bind (ask agent judge show id (1 + i) qs) _ _ _
          (ask-length agent judge show id (1 + i) qs)
          λ rs e. Yields-pure _ _ (ap (◌∷◌ q.question) e)

  -- Where running a conversation returns, it has observed every turn of every session and has one
  -- result for each question that was to be asked, in their order.
  pub run_conversation-counts :
      (agent : Agent) (c : LocomoConversation) (judge : Judge) (show : ℕ → String)
      (max_questions : Option ℕ) (w : World)
      → Returns
          (λ (r : List LocomoResult × ℕ).
            (r.1 ≡ turn_count c)
            × (map (λ (x : LocomoResult). x.question) r.0
                ≡ map (λ (q : LocomoQuestion). q.question) (asked max_questions c.questions)))
          (run_conversation agent c judge show max_questions w).0
  unfolding run_conversation turn_count
  run_conversation-counts agent c judge show max_questions w =
      ((Yields-bind (ingest agent c.sample_id c.sessions) _ (λ n. n ≡ total_turns c.sessions) _
          (ingest-count agent c.sample_id c.sessions)
          λ n e.
            Yields-bind (ask agent judge show c.sample_id 0 (asked max_questions c.questions)) _ _ _
              (ask-length agent judge show c.sample_id 0 (asked max_questions c.questions))
              λ rs f. Yields-pure _ _ (e, f)).at
        w tt).1
