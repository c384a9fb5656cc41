-- ===== src/Manager/Plan/Loop.antt =====
-- The loop of `apply` over the candidates of a turn follows the plan.
use long_term_memory_agent.Manager.Plan.Step.{resolve-HasStep, IsReady}
use long_term_memory_agent.Manager.{
  empty_report, WriteReport, MemoryOp, MemoryDecision, resolve_all, append_memory,
}
use long_term_memory_agent.Manager.Resolve.{resolve}
use long_term_memory_agent.Exec.{bind-ok, pure, ok, Result}
use long_term_memory_agent.Manager.Plan.{plan, slot_map, AreUnique, AreOlder}
use long_term_memory_agent.Manager.Slots.{DistinctIds, OneEach}
use long_term_memory_agent.World.{World}
use long_term_memory_agent.Schemas.{Provenance, Memory}
use long_term_memory_agent.Manager.Effects.{Manager}
use long_term_memory_agent.Extract.{CandidateFact}
use long_term_memory_agent.Base.{ap, map, ◌∙◌, ◌≡◌, refl, String, Option, List, [], ◌∷◌, ◌++◌, All}
use long_term_memory_agent.Env.{Env}

abbrev pub ops : List MemoryDecision → List MemoryOp
ops = map (λ (d : MemoryDecision). d.op)

ops_append :
    (ds : List MemoryDecision) (d : MemoryDecision) (rest : List MemoryOp)
    → ops (ds ++ d ∷ []) ++ rest ≡ ops ds ++ d.op ∷ rest
ops_append [] d rest = refl
ops_append (x ∷ ds) d rest = ap (λ l. x.op ∷ l) (ops_append ds d rest)

append_none : (os : List MemoryOp) → os ≡ os ++ []
append_none [] = refl
append_none (o ∷ os) = ap (λ l. o ∷ l) (append_none os)

module _ ⦃env : Env⦄ (mg : Manager) (user_id : String) (thread_id : Option String)
    (source : Provenance) (unique : AreUnique) where
  -- With any report so far.
  follows :
      (cs : List (CandidateFact env.Float)) (existing : List (Memory env.Float)) (w : World)
      (report : WriteReport env.Float)
      → All IsReady cs
      → OneEach existing
      → DistinctIds existing
      → AreOlder existing w
      → (r : WriteReport env.Float) × ((resolve_all mg cs existing user_id thread_id source report
            w).0
          ≡ ok r)
        × (ops r.decisions ≡ ops report.decisions ++ plan cs (slot_map existing))
  unfolding resolve_all plan pure
  follows [] existing w report ready one ids older =
      (report, refl, append_none (ops report.decisions))
  follows (c ∷ cs) existing w report ready one ids older =
      let h =
        resolve-HasStep mg c existing user_id thread_id source w ready.0 one ids older unique in
      let now : WriteReport env.Float = record {
        written = append_memory report.written h.outcome.1;
        decisions = report.decisions ++ h.outcome.0 ∷ [];
      } in
      let (r, e, planned) =
        follows cs (append_memory h.outcome.2 h.outcome.1) _ now ready.1 h.still_one h.distinct
          h.later in
      (
        r,
        ap (λ (x : Result (WriteReport env.Float) × World). x.0)
              (bind-ok (resolve mg c existing user_id thread_id source) _ w _ h.outcome h.returned)
            ∙ e,
        planned ∙ ops_append report.decisions h.outcome.0 _ ∙ rw (h.decided, h.learned) refl,
      )

  -- For candidates that each have a slot, are valid and have a representable expiry whenever they are
  -- stored, a list of live memories of which no two fill one slot and no two have one id, and
  -- identifiers that `uuid4` never gives twice and has given to no memory of the list yet, the loop
  -- over the candidates of a turn returns, and its decisions are in order those of a plan on the map
  -- from slots to normalised values: a candidate is written where its slot has no value, a repetition
  -- where the slot has its value, and supersedes where the slot has another one; the rest is planned
  -- on the map with its value.
  pub resolve_all-plan :
      (cs : List (CandidateFact env.Float)) (existing : List (Memory env.Float)) (w : World)
      → All IsReady cs
      → OneEach existing
      → DistinctIds existing
      → AreOlder existing w
      → (r : WriteReport env.Float) × ((resolve_all mg cs existing user_id thread_id source
            empty_report w).0
          ≡ ok r)
        × (ops r.decisions ≡ plan cs (slot_map existing))
  resolve_all-plan cs existing w ready one ids older =
      follows cs existing w empty_report ready one ids older
