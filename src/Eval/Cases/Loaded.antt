-- ===== src/Eval/Cases/Loaded.antt =====
-- What the cases that engram/eval/cases.py loads have in common.
use long_term_memory_agent.Base.{
  subst, and_true, or_false, ◌≡◌, ◌≢◌, refl, String, true, false, ◌&&◌, Option, none, some, List,
  [], ◌∷◌, ◌++◌, All, All-append, any, str_eq, if◌then◌else◌, Bool-cases, inl, inr,
}
use long_term_memory_agent.Eval.Cases.{
  strip, is_skipped, value_error, EvalCase, filled, asserts, probe_is_new, validate_case, load_line,
  load_lines, load_cases,
}
use long_term_memory_agent.Exec.{Result, ok, raise_with}
use long_term_memory_agent.Models.{splitlines}

-- A case that can be run: it has turns, asserts something, and its probe is asked in a new thread.
pub record IsRunnable (c : EvalCase) : Type 0 where
  pub filled : filled c ≡ true
  pub asserts : asserts c ≡ true
  pub new : probe_is_new c ≡ true

-- No two cases have one id.
abbrev pub DistinctCases : List EvalCase → Type 0
DistinctCases [] = Unit
DistinctCases (c ∷ cs) = All (λ d. str_eq d.id c.id ≡ false) cs × DistinctCases cs

abbrev Loaded : List EvalCase → Type 0
Loaded cs = All IsRunnable cs × DistinctCases cs

-- The result has the property, if there is one.
abbrev When : (List EvalCase → Type 0) → Result (List EvalCase) → Type 0
When P (ok cs) = P cs
When P (raise_with e) = Unit

append-DistinctCases :
    (cs : List EvalCase) (c : EvalCase)
    → any (λ (d : EvalCase). str_eq c.id d.id) cs ≡ false
    → DistinctCases cs
    → DistinctCases (cs ++ c ∷ [])
append-DistinctCases [] c h k = (tt, tt)
append-DistinctCases (d ∷ ds) c h k =
    let (head, rest) = or_false (str_eq c.id d.id) _ h in
    (All-append _ ds (c ∷ []) k.0 (head, tt), append-DistinctCases ds c rest k.1)

module _ (parse : String → Option EvalCase) where
  added :
      (found : Option EvalCase) (cs : List EvalCase)
      → When Loaded (ok cs)
      → ((c : EvalCase) → found ≡ some c → IsRunnable c)
      → When Loaded (elim found [
        | none ↦ raise_with value_error
        | some c ↦
            if any (λ (d : EvalCase). str_eq c.id d.id) cs
            then raise_with value_error
            else ok (cs ++ c ∷ [])
      ])
  added none cs h k = tt
  added (some c) cs h k = elim (Bool-cases (any (λ (d : EvalCase). str_eq c.id d.id) cs)) [
    | inl e ↦ rw e tt
    | inr e ↦
        rw e (All-append IsRunnable cs (c ∷ []) h.0 (k c refl, tt), append-DistinctCases cs c e h.1)
  ]

  validated :
      (found : Option EvalCase) (c : EvalCase)
      → (elim found [
        | none ↦ none
        | some c ↦ if filled c && asserts c && probe_is_new c then some c else none
      ])
        ≡ some c
      → IsRunnable c
  validated none c e = absurd cc
  validated (some d) c e = elim (Bool-cases (filled d && asserts d && probe_is_new d)) [
    | inl k ↦ subst IsRunnable (same (rw k at e)) (runnable k)
    | inr k ↦ absurd (nothing (rw k at e))
  ]
    where
      same : ◌≡◌ {A = Option EvalCase} (some d) (some c) → d ≡ c
      same f = cc

      nothing : ◌≡◌ {A = Option EvalCase} none (some c) → ⊥
      nothing f = cc

      runnable : (filled d && asserts d && probe_is_new d) ≡ true → IsRunnable d
      runnable k =
          let (rest, new) = and_true (filled d && asserts d) (probe_is_new d) k in
          let (has_turns, asserting) = and_true (filled d) (asserts d) rest in
          record { filled = has_turns; asserts = asserting; new = new }

  load_line-Loaded :
      (line : String) (cs : List EvalCase) → Loaded cs → When Loaded (load_line parse line cs)
  unfolding load_line
  load_line-Loaded line cs h =
      added (validate_case parse line) cs h
        (λ c e. validated (parse line) c (unfold validate_case in e))

  load_lines-Loaded :
      (raws : List String) (cs : List EvalCase) → Loaded cs → When Loaded (load_lines parse raws cs)
  unfolding load_lines
  load_lines-Loaded [] cs h = h
  load_lines-Loaded (raw ∷ raws) cs h = elim (Bool-cases (is_skipped (strip raw))) [
    | inl e ↦ rw e (load_lines-Loaded raws cs h)
    | inr e ↦ rw e (
        next (load_line parse (strip raw) cs) (load_line-Loaded (strip raw) cs h)
          λ cs' k. load_lines-Loaded raws cs' k)
  ]
    where
      next :
          (r : Result (List EvalCase))
          → When Loaded r
          → ((cs' : List EvalCase) → Loaded cs' → When Loaded (load_lines parse raws cs'))
          → When Loaded
              (elim r [ raise_with e ↦ raise_with e | ok cases' ↦ load_lines parse raws cases' ])
      next (ok cases') k ih = ih cases' k
      next (raise_with e) k ih = tt

  -- What `load_cases` returns is not empty, no two of its cases have one id, and each of them has
  -- turns, asserts something, and asks its probe in a thread in which nothing was said before.
  pub load_cases-Loaded :
      (text : String) (cs : List EvalCase)
      → load_cases parse text ≡ ok cs
      → (cs ≢ []) × All IsRunnable cs × DistinctCases cs
  unfolding load_cases
  load_cases-Loaded text cs e =
      by (load_lines parse (splitlines text) []) (load_lines-Loaded (splitlines text) [] (tt, tt)) e
    where
      by :
          (r : Result (List EvalCase))
          → When Loaded r
          → (elim r [
            | raise_with e ↦ raise_with e
            | ok [] ↦ raise_with value_error
            | ok (c ∷ cs) ↦ ok (c ∷ cs)
          ])
            ≡ ok cs
          → (cs ≢ []) × All IsRunnable cs × DistinctCases cs
      by (raise_with x) h f = absurd cc
      by (ok []) h f = absurd cc
      by (ok (d ∷ ds)) h f =
          subst (λ (xs : List EvalCase). (xs ≢ []) × All IsRunnable xs × DistinctCases xs) (same f)
            (something, h.0, h.1)
        where
          same : ◌≡◌ {A = Result (List EvalCase)} (ok (d ∷ ds)) (ok cs) → d ∷ ds ≡ cs
          same g = cc

          something : d ∷ ds ≢ []
          something g = cc
