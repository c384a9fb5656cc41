-- ===== src/Threads.antt =====
-- engram/threads.py: public conversation names, mapped to checkpoint identifiers of one user.
pub mod Decode
pub mod Distinct
use Prim.Native.Nat.{◌/◌, ◌%◌}
use long_term_memory_agent.Base.{
  ℕ, ◌-◌, ◌+◌, String, Char, code, ◌≡◌, refl, Bool, false, ◌&&◌, Option, none, some, ◌==◌, ltb, leb,
  str_eq, if◌then◌else◌,
}
use long_term_memory_agent.Base.Texts.{◌+++◌}
use long_term_memory_agent.Base.Dicts.{str, Dict, lookup}
use long_term_memory_agent.Env.{Env}
use long_term_memory_agent.Exec.{pure, raise, ◌>>=◌, legacy_thread_error}
use long_term_memory_agent.World.{Method, store_get}

abbrev pub thread_index_namespace : String
thread_index_namespace = "threads"

unfoldable pub nth : ℕ → String → String
nth n String.[] = ""
nth n (String.◌∷◌ c s) = let rest = nth (n - 1) s in if n == 0 then String.◌∷◌ c "" else rest

-- One digit, and four digits, in base sixteen.
unfoldable pub hex : ℕ → String
unfolding nth
hex n = nth n "0123456789abcdef"

unfoldable pub hex4 : ℕ → String
unfolding hex
hex4 n = hex (n / 4096 % 16) +++ hex (n / 256 % 16) +++ hex (n / 16 % 16) +++ hex (n % 16)

-- A character as `json.dumps` writes it with `ensure_ascii=True`.
unfoldable pub escape : Char → String
unfolding hex4
escape ch =
    let c = code ch in
    if c == b'"'
    then "\\\""
    else if c == 92
    then "\\\\"
    else if c == 10
    then "\\n"
    else if c == 13
    then "\\r"
    else if c == 9
    then "\\t"
    else if c == 12
    then "\\f"
    else if c == 8
    then "\\b"
    else if leb 32 c && leb c 126
    then String.◌∷◌ ch ""
    else if ltb c 0x10000
    then "\\u" +++ hex4 c
    else "\\u"
      +++ hex4 (0xd800 + (c - 0x10000) / 1024)
      +++ "\\u"
      +++ hex4 (0xdc00 + (c - 0x10000) % 1024)

unfoldable pub escape_all : String → String
unfolding escape
escape_all String.[] = ""
escape_all (String.◌∷◌ c s) = escape c +++ escape_all s

-- `json.dumps([user_id, thread_id], ensure_ascii=True, separators=(",", ":"))`
unfoldable pub json_pair : String → String → String
unfolding escape_all
json_pair user_id thread_id =
    "[\"" +++ escape_all user_id +++ "\",\"" +++ escape_all thread_id +++ "\"]"

module _ ⦃env : Env⦄ where
  unfoldable pub checkpoint_key : String → String → String
  checkpoint_key user_id thread_id = "engram:v2:" +++ env.sha256 (json_pair user_id thread_id)

  -- `value.get("checkpoint_id") != key`, negated
  unfoldable pub names_key : Dict env.Float → String → Bool
  names_key value key = elim (lookup "checkpoint_id" value) [
    | none ↦ false
    | some j ↦ elim j [ str s ↦ str_eq s key | _ ↦ false ]
  ]

  unfoldable pub check_entry : String → Option (Dict env.Float) → Method String
  check_entry key none = pure key
  check_entry key (some value) = if names_key value key then pure key else raise legacy_thread_error

  unfoldable pub checkpoint_thread_id : String → String → Method String
  unfolding check_entry
  checkpoint_thread_id user_id thread_id = do
    found ← store_get (thread_index_namespace, user_id) thread_id
    check_entry (checkpoint_key user_id thread_id) found

json_pair_example : json_pair "a\"b" "é\n" ≡ "[\"a\\\"b\",\"\\u00e9\\n\"]"
unfolding json_pair
json_pair_example = refl
