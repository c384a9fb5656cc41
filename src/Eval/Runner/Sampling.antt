-- ===== src/Eval/Runner/Sampling.antt =====
-- `_sample_per_kind` of engram/eval/runner.py.
use long_term_memory_agent.Base.{
  ◌∙◌, ◌<◌, ap, ◌≡◌, refl, ℕ, suc, ◌+◌, ◌≤◌, Bool, true, false, List, [], ◌∷◌, ◌++◌, filter, length,
  ltb, str_eq, eq_iff, arith, if◌then◌else◌, Bool-cases, inl, inr,
}
use long_term_memory_agent.Eval.Cases.{CaseKind, EvalCase, same_kind, case_kind_name}
use long_term_memory_agent.Eval.Metrics.{count}
use long_term_memory_agent.Eval.Runner.{sample, sample_per_kind}

abbrev pub of : CaseKind → List EvalCase → ℕ
of kind cases = count (λ (d : EvalCase). same_kind d.kind kind) cases

abbrev pub min : ℕ → ℕ → ℕ
min a b = if ltb a b then a else b

of-append :
    (kind : CaseKind) (out : List EvalCase) (c : EvalCase)
    → of kind (out ++ c ∷ []) ≡ (if same_kind c.kind kind then suc (of kind out) else of kind out)
of-append kind [] c = elim (Bool-cases (same_kind c.kind kind)) [
  | inl e ↦ rw e refl
  | inr e ↦ rw e refl
]
of-append kind (d ∷ out) c = elim (Bool-cases (same_kind d.kind kind)) [
  | inl e ↦ rw (e, of-append kind out c) (inside (same_kind c.kind kind))
  | inr e ↦ rw e (of-append kind out c)
]
  where
    inside :
        (b : Bool)
        → suc (if b then suc (of kind out) else of kind out)
          ≡ (if b then suc (suc (of kind out)) else suc (of kind out))
    inside true = refl
    inside false = refl

-- Cases of the kind of `c` are cases of the kind that is counted, if `c` is one.
of-same :
    (kind : CaseKind) (c : EvalCase) (out : List EvalCase)
    → same_kind c.kind kind ≡ true
    → of c.kind out ≡ of kind out
of-same kind c out e =
    ap (λ name. length (filter (λ (d : EvalCase). str_eq (case_kind_name d.kind) name) out))
      ((eq_iff (case_kind_name c.kind) (case_kind_name kind)).0 e)

-- What the rest of the loop adds, of one kind.
sample-of :
    (limit : ℕ) (kind : CaseKind) (cases out : List EvalCase)
    → of kind out ≤ limit
    → of kind (sample limit out cases) ≡ min (of kind out + of kind cases) limit
unfolding sample
sample-of limit kind [] out h = at_end (of kind out) h
  where
    at_end : (n : ℕ) → n ≤ limit → n ≡ min (n + 0) limit
    at_end n k = ground arith
sample-of limit kind (c ∷ cs) out h = elim (Bool-cases (ltb (of c.kind out) limit)) [
  | inl t ↦ elim (Bool-cases (same_kind c.kind kind)) [
    | inl e ↦
        let more : of kind (out ++ c ∷ []) ≡ suc (of kind out) =
          rw (of-append kind out c, e) refl in
        let room : of kind out < limit =
          room_for (of c.kind out) (of kind out) t (of-same kind c out e) in
        rw (t, e)
          (sample-of limit kind cs (out ++ c ∷ []) (rw more room)
            ∙ rw more (moved (of kind out) (of kind cs)))
    | inr e ↦
        let more : of kind (out ++ c ∷ []) ≡ of kind out = rw (of-append kind out c, e) refl in
        rw (t, e)
          (sample-of limit kind cs (out ++ c ∷ []) (rw more h)
            ∙ ap (λ n. min (n + of kind cs) limit) more)
  ]
  | inr t ↦ elim (Bool-cases (same_kind c.kind kind)) [
    | inl e ↦
        rw (t, e)
          (sample-of limit kind cs out h
            ∙ full (of c.kind out) (of kind out) (of kind cs) t (of-same kind c out e))
    | inr e ↦ rw (t, e) (sample-of limit kind cs out h)
  ]
]
  where
    room_for : (m n : ℕ) → ltb m limit ≡ true → m ≡ n → n < limit
    room_for m n t e = ground arith

    moved : (m n : ℕ) → min (suc m + n) limit ≡ min (m + suc n) limit
    moved m n = ground arith

    full : (m n k : ℕ) → ltb m limit ≡ false → m ≡ n → min (n + k) limit ≡ min (n + suc k) limit
    full m n k t e = ground arith

-- The sample has, of every kind, as many cases as there are, but at most `limit`.
pub sample_per_kind_lem :
    (cases : List EvalCase) (limit : ℕ) (kind : CaseKind)
    → of kind (sample_per_kind cases limit) ≡ min (of kind cases) limit
unfolding sample_per_kind
sample_per_kind_lem cases limit kind =
    sample-of limit kind cases [] (omega arith) ∙ ap (λ n. min n limit) (plain (of kind cases))
  where
    plain : (n : ℕ) → 0 + n ≡ n
    plain n = omega arith
