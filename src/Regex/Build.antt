-- ===== src/Regex/Build.antt =====
-- Shorthands in which the program's patterns are written down.
use long_term_memory_agent.Base.{
  String, Char, code, ◌≡◌, refl, ◌-◌, Bool, true, false, ◌&&◌, ◌||◌, List, [], ◌∷◌, ◌==◌, leb,
}
use long_term_memory_agent.Base.Texts.{chars, is_space}
use long_term_memory_agent.Regex.{Regex, eps, char, seq, alt, greedy, star, is_found}

-- A literal character under `re.IGNORECASE`, given in lower case: beside the capital, the three
-- letters that Python's `re` folds with characters outside ASCII.
unfoldable pub same_letter : Char → Char → Bool
same_letter l ch =
    let a = code l in
    let c = code ch in
    c == a
    || (leb b'a' a && leb a b'z' && c == a - 32)
    || (a == b'i' && (c == 0x130 || c == 0x131))
    || (a == b's' && c == 0x17f)
    || (a == b'k' && c == 0x212a)

letters : List Char → Regex
unfolding same_letter
letters [] = eps
letters (c ∷ cs) = seq (char (same_letter c)) (letters cs)

-- A literal text, given in lower case, under `re.IGNORECASE`.
unfoldable pub text : String → Regex
unfolding letters
text s = letters (chars s)

-- `a|b|c`
unfoldable pub one_of : List Regex → Regex
one_of [] = eps
one_of (r ∷ []) = r
one_of (r ∷ q ∷ rs) = alt r (one_of (q ∷ rs))

unfoldable pub texts : List String → Regex
unfolding text one_of
texts [] = eps
texts (s ∷ []) = text s
texts (s ∷ t ∷ more) = alt (text s) (texts (t ∷ more))

unfoldable pub seqs : List Regex → Regex
seqs [] = eps
seqs (r ∷ rs) = seq r (seqs rs)

-- `r?`, `r+`
abbrev pub optional : Regex → Regex
optional = greedy 1

abbrev pub some_of : Regex → Regex
some_of r = seq r (star r)

-- `\s`, and the classes `[…]` and `[^…]` of single characters
abbrev pub space : Regex
space = char is_space

unfoldable pub is_one_of : String → Char → Bool
is_one_of String.[] c = false
is_one_of (String.◌∷◌ d s) c = code c == code d || is_one_of s c

-- `[a-z]` under `re.IGNORECASE`, and `[A-Z]`, `[a-zA-Z]` with no flag
unfoldable pub is_latin_folded : Char → Bool
is_latin_folded ch =
    let c = code ch in
    (leb b'a' c && leb c b'z')
    || (leb b'A' c && leb c b'Z')
    || c == 0x130
    || c == 0x131
    || c == 0x17f
    || c == 0x212a

unfoldable pub is_capital : Char → Bool
is_capital ch = leb b'A' (code ch) && leb (code ch) b'Z'

unfoldable pub is_latin : Char → Bool
is_latin ch =
    (leb b'a' (code ch) && leb (code ch) b'z') || (leb b'A' (code ch) && leb (code ch) b'Z')

text_example :
    is_found (seqs (text "you" ∷ some_of space ∷ text "are" ∷ [])) "I know: You  ARE" ≡ true
unfolding text seqs is_found is_space
text_example = refl
