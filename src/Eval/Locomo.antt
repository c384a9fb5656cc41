-- ===== src/Eval/Locomo.antt =====
-- engram/eval/locomo.py: the LoCoMo benchmark.
pub mod Benchmark
pub mod Graded
use long_term_memory_agent.Base.{
  ℕ, zero, suc, ◌+◌, ◌*◌, ◌-◌, String, Char, code, Bool, true, false, not, ◌&&◌, ◌||◌, Option, none,
  some, List, [], ◌∷◌, ◌++◌, map, filter, length, take, any, str_eq, leb, ltb, ◌==◌, is_empty,
  if◌then◌else◌,
}
use long_term_memory_agent.Base.Dicts.{lookup}
use long_term_memory_agent.Base.Texts.{◌+++◌, strip, contains, starts}
use long_term_memory_agent.Env.{Env}
use long_term_memory_agent.Eval.Judge.{Judge, Verdict}
use long_term_memory_agent.Eval.Metrics.{count}
use long_term_memory_agent.Exec.{
  Result, ok, raise_with, attribute_error, pure, lift, ◌>>=◌, ◌>>◌, for_each,
}
use long_term_memory_agent.Gate.Markers.{edge}
use long_term_memory_agent.Graph.{Agent, chat, observe}
use long_term_memory_agent.Regex.Build.{text, texts, seqs, one_of, optional}
use long_term_memory_agent.Regex.{Regex, is_found}
use long_term_memory_agent.Schemas.{user}
use long_term_memory_agent.World.{Method}

abbrev pub adversarial_category : ℕ
adversarial_category = 5

pub record LocomoTurn : Type 0 where
  pub speaker : String
  pub dia_id : String
  pub text : String

-- `rendered`
unfoldable pub rendered : LocomoTurn → String → String
rendered t date_time =
    (if str_eq date_time "" then "" else "[" +++ date_time +++ "] ")
    +++ t.speaker
    +++ ": "
    +++ t.text

pub record LocomoSession : Type 0 where
  pub key : String
  pub date_time : String
  pub turns : List LocomoTurn

pub record LocomoQuestion : Type 0 where
  pub question : String
  pub answer : String
  pub distractor : String
  pub category : ℕ
  pub evidence : List String

unfoldable pub is_adversarial : LocomoQuestion → Bool
is_adversarial q = q.category == adversarial_category

pub record LocomoConversation : Type 0 where
  pub sample_id : String
  pub speaker_a : String
  pub speaker_b : String
  pub sessions : List LocomoSession
  pub questions : List LocomoQuestion

abbrev pub total_turns : List LocomoSession → ℕ
total_turns [] = 0
total_turns (s ∷ ss) = length s.turns + total_turns ss

unfoldable pub turn_count : LocomoConversation → ℕ
turn_count c = total_turns c.sessions

-- The data of the file, where values are read by `str(…)` already; a missing key is `none`.
pub record RawTurn : Type 0 where
  pub speaker : Option String
  pub dia_id : Option String
  pub text : Option String

-- A value of the `conversation` dictionary: a text, or the turns of a session.
pub data RawValue : Type 0 where
  plain : String → RawValue
  said : List RawTurn → RawValue

pub record RawQuestion : Type 0 where
  pub question : Option String
  pub answer : Option String
  pub adversarial_answer : Option String
  pub category : Option ℕ
  pub evidence : List String

pub record Raw : Type 0 where
  pub sample_id : Option String
  pub conversation : List (String × RawValue)
  pub qa : List RawQuestion

abbrev str_or : Option String → String
str_or none = ""
str_or (some s) = s

is_digit : Char → Bool
is_digit c = leb b'0' (code c) && leb (code c) b'9'

-- `\d+` from here on, and what it reads.
number_from : ℕ → String → ℕ
unfolding is_digit
number_from n String.[] = n
number_from n (String.◌∷◌ c s) =
    let more = number_from (n * 10 + (code c - b'0')) s in if is_digit c then more else n

-- `_session_sort_key`, for keys whose digits are those of ASCII
unfoldable pub session_sort_key : String → ℕ
unfolding is_digit number_from
session_sort_key String.[] = 0
session_sort_key (String.◌∷◌ c s) =
    let later = session_sort_key s in if is_digit c then number_from 0 (String.◌∷◌ c s) else later

-- `sorted(keys, key=_session_sort_key)`, which is stable.
insert_key : String → List String → List String
insert_key k [] = k ∷ []
insert_key k (j ∷ js) =
    let rest = insert_key k js in
    if ltb (session_sort_key j) (session_sort_key k) then j ∷ rest else k ∷ j ∷ js

sort_keys : List String → List String
unfolding insert_key
sort_keys [] = []
sort_keys (k ∷ ks) = insert_key k (sort_keys ks)

unfoldable pub session_keys : List (String × RawValue) → List String
unfolding sort_keys
session_keys conversation = sort_keys (
    filter (λ k. starts "session_" k && not (contains "date_time" k))
      (map (λ (e : String × RawValue). e.0) conversation))

-- The turns of a session that are not blank. A text has no turns: each of its characters would be
-- asked for its fields.
unfoldable pub turns_of : List RawTurn → List LocomoTurn
turns_of [] = []
turns_of (t ∷ ts) =
    let rest = turns_of ts in
    if str_eq (strip (str_or t.text)) ""
    then rest
    else record { speaker = str_or t.speaker; dia_id = str_or t.dia_id; text = str_or t.text }
      ∷ rest

unfoldable pub turns_at : Option RawValue → Result (List LocomoTurn)
turns_at none = ok []
turns_at (some (plain s)) = if str_eq s "" then ok [] else raise_with attribute_error
turns_at (some (said ts)) = ok (turns_of ts)

abbrev number_or : Option ℕ → ℕ
number_or none = 0
number_or (some n) = n

-- One item of `qa`.
unfoldable pub parse_question : RawQuestion → LocomoQuestion
parse_question item =
    let category = number_or item.category in
    let adversarial = category == adversarial_category in
    record {
      question = str_or item.question;
      answer = if adversarial then "" else str_or item.answer;
      distractor = if adversarial then str_or item.adversarial_answer else "";
      category = category;
      evidence = item.evidence;
    }

-- `raw.get("sample_id") or f"conversation-{index}"`
unfoldable pub sample_id_or : Option String → String → String
sample_id_or none index = "conversation-" +++ index
sample_id_or (some s) index = if str_eq s "" then "conversation-" +++ index else s

-- `str` of a list, which no date is.
module _ (str_list : List RawTurn → String) where
  unfoldable pub text_at : Option RawValue → String
  text_at none = ""
  text_at (some (plain s)) = s
  text_at (some (said ts)) = str_list ts

  unfoldable pub sessions_of : List String → List (String × RawValue) → Result (List LocomoSession)
  sessions_of [] conversation = ok []
  sessions_of (key ∷ keys) conversation = elim (turns_at (lookup key conversation)) [
    | raise_with e ↦ raise_with e
    | ok turns ↦ elim (sessions_of keys conversation) [
      | raise_with e ↦ raise_with e
      | ok rest ↦ ok (
          record {
            key = key;
            date_time = text_at (lookup (key +++ "_date_time") conversation);
            turns = turns;
          }
          ∷ rest)
    ]
  ]

  -- `_parse_conversation`; `index` is the text of the index
  unfoldable pub parse_conversation : Raw → String → Result LocomoConversation
  parse_conversation raw index =
      elim (sessions_of (session_keys raw.conversation) raw.conversation) [
        | raise_with e ↦ raise_with e
        | ok sessions ↦ ok (record {
          sample_id = sample_id_or raw.sample_id index;
          speaker_a = text_at (lookup "speaker_a" raw.conversation);
          speaker_b = text_at (lookup "speaker_b" raw.conversation);
          sessions = sessions;
          questions = map parse_question raw.qa;
        })
      ]
