-- ===== src/Base/Texts.antt =====
-- Python's `str` operations that the program calls, over the native strings.
use Prim.Native.Nat.{ℕ}
use Prim.Native.Char.{Char, code}
use Prim.Native.String.{String}
use mathlib.Core.Bool.{Bool, true, false, ◌&&◌, ◌||◌}
use mathlib.Core.List.{List, [], ◌∷◌}
use mathlib.Core.Path.{◌≡◌, refl, ap}
use text.Mathlib.Text.{◌==◌ as str_eq}
use long_term_memory_agent.Base.Tests.{leb, ◌==◌, if◌then◌else◌}

-- `str.isspace` of one character, which is also the `\s` of a pattern.
unfoldable pub is_space : Char → Bool
is_space ch =
    let c = code ch in
    (leb 9 c && leb c 13)
    || (leb 28 c && leb c 32)
    || c == 0x85
    || c == 0xa0
    || c == 0x1680
    || (leb 0x2000 c && leb c 0x200a)
    || c == 0x2028
    || c == 0x2029
    || c == 0x202f
    || c == 0x205f
    || c == 0x3000

-- The characters of a text.
abbrev pub chars : String → List Char
chars String.[] = []
chars (String.◌∷◌ c s) = c ∷ chars s

abbrev pub of_chars : List Char → String
of_chars [] = ""
of_chars (c ∷ cs) = String.◌∷◌ c (of_chars cs)

-- `s + t`
infixr 65 ◌+++◌
abbrev pub ◌+++◌ : String → String → String
String.[] +++ t = t
(String.◌∷◌ c s) +++ t = String.◌∷◌ c (s +++ t)

-- `s.lstrip()`
unfoldable pub lstrip : String → String
unfolding is_space
lstrip String.[] = ""
lstrip (String.◌∷◌ c s) = let rest = lstrip s in if is_space c then rest else String.◌∷◌ c s

-- `s.rstrip()`
unfoldable pub rstrip : String → String
unfolding is_space
rstrip String.[] = ""
rstrip (String.◌∷◌ c s) =
    let rest = rstrip s in if is_space c && str_eq rest "" then "" else String.◌∷◌ c rest

-- `s.strip()`
unfoldable pub strip : String → String
unfolding lstrip rstrip
strip s = rstrip (lstrip s)

pub append_assoc : (s t u : String) → (s +++ t) +++ u ≡ s +++ t +++ u
append_assoc String.[] t u = refl
append_assoc (String.◌∷◌ c s) t u = ap (String.◌∷◌ c) (append_assoc s t u)

-- `sep.join(parts)`
abbrev pub join : String → List String → String
join sep [] = ""
join sep (x ∷ []) = x
join sep (x ∷ y ∷ xs) = x +++ sep +++ join sep (y ∷ xs)

-- The word that a text begins with, and the words behind it.
scan_words : String → String × List String
unfolding is_space
scan_words String.[] = ("", [])
scan_words (String.◌∷◌ c s) =
    let (word, more) = scan_words s in
    if is_space c
    then ("", if str_eq word "" then more else word ∷ more)
    else (String.◌∷◌ c word, more)

-- `s.split()`
unfoldable pub split : String → List String
unfolding scan_words
split s = let (word, more) = scan_words s in if str_eq word "" then more else word ∷ more

-- `t.startswith(s)`
abbrev pub starts : String → String → Bool
starts String.[] t = true
starts (String.◌∷◌ c s) String.[] = false
starts (String.◌∷◌ c s) (String.◌∷◌ d t) = code c == code d && starts s t

-- `needle in text`
abbrev pub contains : String → String → Bool
contains needle String.[] = starts needle ""
contains needle (String.◌∷◌ c s) = starts needle (String.◌∷◌ c s) || contains needle s

-- The text has such a character.
abbrev pub has : ℕ → String → Bool
has b String.[] = false
has b (String.◌∷◌ c s) = code c == b || has b s

-- `s.replace(from, to)` for two characters
abbrev pub replace : Char → Char → String → String
replace from to String.[] = ""
replace from to (String.◌∷◌ c s) =
    String.◌∷◌ (if code c == code from then to else c) (replace from to s)

strip_example : strip "  a b \n" ≡ "a b"
unfolding strip
strip_example = refl

split_example : join " " (split "  On the  team\n") ≡ "On the team"
unfolding split
split_example = refl

contains_example : contains "the" "On the team" ≡ true
contains_example = refl
