-- ===== src/Regex.antt =====
-- The regular expressions of Python's `re`, as far as the program's patterns use them, with the
-- order in which a backtracking search tries the ways to match.
pub mod Build
use long_term_memory_agent.Base.{
  ℕ, zero, suc, ◌-◌, String, Char, Bool, true, false, not, ◌&&◌, ◌||◌, Option, none, some, List, [],
  ◌∷◌, ◌++◌, map, if◌then◌else◌, take, length,
}
use long_term_memory_agent.Base.Texts.{chars, of_chars}

pub data Regex : Type 0 where
  eps : Regex
  -- one character of a class
  char : (Char → Bool) → Regex
  seq alt : Regex → Regex → Regex
  -- up to so many times, as often as possible or as seldom as possible
  greedy lazy : ℕ → Regex → Regex
  -- as often as possible
  star : Regex → Regex
  -- `^` with no flag, `\b` for a class of word characters, and `(?!…)`
  start : Regex
  boundary : (Char → Bool) → Regex
  unless : Regex → Regex
  -- the capturing group
  group : Regex → Regex

-- A place in the text: the character before it, the text behind it, and what the group holds.
pub record Place : Type 0 where
  pub before : Option Char
  pub rest : List Char
  pub held : Option (List Char)

module _ {ℓ κ} {A : Type ℓ} {B : Type κ} where
  unfoldable pub flat_map : (A → List B) → List A → List B
  flat_map f [] = []
  flat_map f (x ∷ xs) = f x ++ flat_map f xs

step : (Char → Bool) → Option Char → List Char → Option (List Char) → List Place
step p before [] held = []
step p before (c ∷ rest) held =
    if p c then record { before = some c; rest = rest; held = held } ∷ [] else []

-- The places to which `r`, tried up to `n` times, can lead, in the order of the search.
repeat_greedy : ℕ → (Place → List Place) → Place → List Place
unfolding flat_map
repeat_greedy zero r at = at ∷ []
repeat_greedy (suc n) r at = flat_map (repeat_greedy n r) (r at) ++ at ∷ []

repeat_lazy : ℕ → (Place → List Place) → Place → List Place
unfolding flat_map
repeat_lazy zero r at = at ∷ []
repeat_lazy (suc n) r at = at ∷ flat_map (repeat_lazy n r) (r at)

is_word : (Char → Bool) → Option Char → Bool
is_word word none = false
is_word word (some c) = word c

first : List Char → Option Char
first [] = none
first (c ∷ cs) = some c

at_boundary : (Char → Bool) → Place → Bool
unfolding is_word first
at_boundary word at =
    let here = is_word word (first at.rest) in if is_word word at.before then not here else here

hold : List Char → Place → Place
hold from to = record to { held = some (take (length from - length to.rest) from) }

pub paths : Regex → Place → List Place
unfolding step repeat_greedy repeat_lazy at_boundary hold flat_map
paths eps at = at ∷ []
paths (char p) at = step p at.before at.rest at.held
paths (seq r s) at = flat_map (paths s) (paths r at)
paths (alt r s) at = paths r at ++ paths s at
paths (greedy n r) at = repeat_greedy n (paths r) at
paths (lazy n r) at = repeat_lazy n (paths r) at
paths (star r) at = repeat_greedy (length at.rest) (paths r) at
paths start at = elim at.before [ none ↦ at ∷ [] | some c ↦ [] ]
paths (boundary word) at = if at_boundary word at then at ∷ [] else []
paths (unless r) at = elim (paths r at) [ [] ↦ at ∷ [] | _ ↦ [] ]
paths (group r) at = map (hold at.rest) (paths r at)

-- The text matched, and the place where the match ends, if there is a way to match here.
match_at : Regex → Option Char → List Char → Option (List Char × Place)
unfolding paths
match_at r before text = elim (paths r (record { before = before; rest = text; held = none })) [
  | [] ↦ none
  | at ∷ _ ↦ some (take (length text - length at.rest) text, at)
]

or_else {ℓ} : {A : Type ℓ} → Option A → Option A → Option A
or_else none y = y
or_else (some x) y = some x

search_from : Regex → Option Char → List Char → Option (List Char × Place)
unfolding match_at or_else
search_from r before [] = match_at r before []
search_from r before (c ∷ rest) =
    let later = search_from r (some c) rest in or_else (match_at r before (c ∷ rest)) later

-- `pattern.search(text)`: the text of the match and the place behind it.
unfoldable pub search_text : Regex → String → Option (List Char × Place)
unfolding search_from
search_text r text = search_from r none (chars text)

-- `bool(pattern.search(text))`
unfoldable pub is_found : Regex → String → Bool
unfolding search_text
is_found r text = elim (search_text r text) [ none ↦ false | some _ ↦ true ]

-- `match.group(1)` where the pattern has a group, `match.group(0)` where it has none.
unfoldable pub matched : List Char × Place → String
matched (whole, at) = elim at.held [ none ↦ of_chars whole | some g ↦ of_chars g ]
