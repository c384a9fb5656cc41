-- ===== src/Eval/Cases.antt =====
-- engram/eval/cases.py: the cases of the benchmark, and their loader.
pub mod Loaded
use long_term_memory_agent.Base.{
  ◌≡◌, refl, String, Bool, true, false, not, ◌&&◌, ◌||◌, Option, none, some, List, [], ◌∷◌, ◌++◌,
  any, map, is_empty, str_eq, if◌then◌else◌,
}
use long_term_memory_agent.Base.Texts.{◌+++◌, strip, starts}
use long_term_memory_agent.Exec.{Result, ok, raise_with, value_error}
use long_term_memory_agent.Models.{splitlines}
use long_term_memory_agent.Schemas.{Provenance, same_source, user}

pub data CaseKind : Type 0 where
  passive_recall decision_relevant conflict injection : CaseKind

-- The values of the enumeration.
abbrev pub case_kind_name : CaseKind → String
case_kind_name passive_recall = "passive_recall"
case_kind_name decision_relevant = "decision_relevant"
case_kind_name conflict = "conflict"
case_kind_name injection = "injection"

abbrev pub all_kinds : List CaseKind
all_kinds = passive_recall ∷ decision_relevant ∷ conflict ∷ injection ∷ []

abbrev pub same_kind : CaseKind → CaseKind → Bool
same_kind a b = str_eq (case_kind_name a) (case_kind_name b)

pub record Turn : Type 0 where
  pub text : String
  pub source : Provenance

-- `Turn.spoken_by_user`
unfoldable pub spoken_by_user : Turn → Bool
spoken_by_user t = same_source t.source user

pub record Session : Type 0 where
  pub thread_id : String
  pub turns : List Turn

pub record EvalCase : Type 0 where
  pub id : String
  pub kind : CaseKind
  pub user_id : String
  pub sessions : List Session
  pub probe : String
  pub probe_thread_id : String
  pub expect_any : List String
  pub reject_any : List String
  pub poison_markers : List String
  pub gold_facts : List String
  pub note : String

-- `min_length` of the fields
unfoldable pub filled : EvalCase → Bool
filled c =
    not (is_empty c.sessions)
    && not (
        any (λ (s : Session). is_empty s.turns || any (λ (t : Turn). str_eq t.text "") s.turns)
          c.sessions)

-- `_must_assert_something`
unfoldable pub asserts : EvalCase → Bool
asserts c =
    not (is_empty c.expect_any) || not (is_empty c.reject_any) || not (is_empty c.poison_markers)

-- `_probe_thread_must_be_new`
unfoldable pub probe_is_new : EvalCase → Bool
probe_is_new c = not (any (λ (s : Session). str_eq c.probe_thread_id s.thread_id) c.sessions)

-- `EvalCase.user_key`
unfoldable pub user_key : EvalCase → String
user_key c = c.id +++ ":" +++ c.user_id

-- A line that holds no case.
unfoldable pub is_skipped : String → Bool
is_skipped line = str_eq line "" || starts "#" line

-- `json.loads` and the types of the fields, by pydantic: `none` where they refuse.
module _ (parse : String → Option EvalCase) where
  -- `EvalCase.model_validate(json.loads(line))`
  unfoldable pub validate_case : String → Option EvalCase
  validate_case line = elim (parse line) [
    | none ↦ none
    | some c ↦ if filled c && asserts c && probe_is_new c then some c else none
  ]

  -- One line of the loop, with the ids seen and the cases read so far.
  unfoldable pub load_line : String → List EvalCase → Result (List EvalCase)
  load_line line cases = elim (validate_case line) [
    | none ↦ raise_with value_error
    | some c ↦
        if any (λ (d : EvalCase). str_eq c.id d.id) cases
        then raise_with value_error
        else ok (cases ++ c ∷ [])
  ]

  unfoldable pub load_lines : List String → List EvalCase → Result (List EvalCase)
  load_lines [] cases = ok cases
  load_lines (raw ∷ raws) cases =
      if is_skipped (strip raw) then load_lines raws cases else elim (load_line (strip raw) cases) [
        | raise_with e ↦ raise_with e
        | ok cases' ↦ load_lines raws cases'
      ]

  -- `load_cases`, of the text of the file
  unfoldable pub load_cases : String → Result (List EvalCase)
  load_cases text = elim (load_lines (splitlines text) []) [
    | raise_with e ↦ raise_with e
    | ok [] ↦ raise_with value_error
    | ok (c ∷ cs) ↦ ok (c ∷ cs)
  ]
