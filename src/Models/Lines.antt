-- ===== src/Models/Lines.antt =====
-- Texts with markers and line breaks, as engram/models.py reads them.
use long_term_memory_agent.Base.{
  or_false, ◌∙◌, eq_iff, ◌≢◌, ◌≡◌, refl, ap, String, Char, Bool, false, ◌&&◌, ◌||◌, List, [], ◌∷◌,
  All, code, ◌==◌, str_eq, arith, if◌then◌else◌,
}
use long_term_memory_agent.Base.Texts.{has, append_assoc, ◌+++◌, starts, contains, join}
use long_term_memory_agent.Models.{scan_lines, is_line_break}

abbrev pub breaks : String → Bool
breaks String.[] = false
breaks (String.◌∷◌ c s) = is_line_break c || breaks s

-- No character of the text ends a line.
abbrev pub IsOneLine : String → Type 0
IsOneLine s = breaks s ≡ false

pub starts_line : (m s r : String) → has b'\n' m ≡ false → starts m (s +++ "\n" +++ r) ≡ starts m s
starts_line String.[] s r h = refl
starts_line (String.◌∷◌ c m) String.[] r h = rw (or_false (code c == 10) (has 10 m) h).0
starts_line (String.◌∷◌ c m) (String.◌∷◌ d s) r h =
    ap (λ b. code c == code d && b) (starts_line m s r (or_false (code c == 10) (has 10 m) h).1)

-- A marker within one line is in none of two texts if it is not in the two lines together.
pub contains_line :
    (m s r : String)
    → has b'\n' m ≡ false
    → contains m s ≡ false
    → contains m r ≡ false
    → contains m (s +++ "\n" +++ r) ≡ false
contains_line m String.[] r l h k = rw (starts_line m "" r l, h, k) refl
contains_line m (String.◌∷◌ d s) r l h k =
    let both = or_false (starts m (String.◌∷◌ d s)) (contains m s) h in
    rw (starts_line m (String.◌∷◌ d s) r l, both.0) (contains_line m s r l both.1 k)

-- What is left of a text behind the break that ends its first line.
abbrev pub later : String → List String
later r = if str_eq r "" then [] else (scan_lines r).0 ∷ (scan_lines r).1

not_return : (c : Char) → is_line_break c ≡ false → (code c == 13) ≡ false
unfolding is_line_break
not_return c h = ground arith

pub filled : (t : String) → t ≢ "" → str_eq t "" ≡ false
filled t h = ground (arith, eq_iff t "")

scan_lines_break : (s r : String) → IsOneLine s → scan_lines (s +++ "\n" +++ r) ≡ (s, later r)
unfolding scan_lines
scan_lines_break String.[] r h = refl
scan_lines_break (String.◌∷◌ c s) r h =
    let both = or_false (is_line_break c) (breaks s) h in
    rw (scan_lines_break s r both.1, not_return c both.0, both.0) refl

ended-nonempty : (s r : String) → str_eq (s +++ "\n" +++ r) "" ≡ false
ended-nonempty String.[] r = filled ("\n" +++ r) cc
ended-nonempty (String.◌∷◌ c s) r = filled (String.◌∷◌ c (s +++ "\n" +++ r)) cc

pub later-break : (s r : String) → IsOneLine s → later (s +++ "\n" +++ r) ≡ s ∷ later r
later-break s r h = rw (ended-nonempty s r, scan_lines_break s r h) refl

-- Lines that are joined and ended are read back.
pub later-join :
    (x : String) (xs : List String)
    → All IsOneLine (x ∷ xs)
    → later (join "\n" (x ∷ xs) +++ "\n") ≡ x ∷ xs
later-join x [] h = later-break x "" h.0
later-join x (y ∷ ys) h =
    rw (append_assoc x ("\n" +++ join "\n" (y ∷ ys)) "\n")
      (later-break x (join "\n" (y ∷ ys) +++ "\n") h.0 ∙ ap (◌∷◌ x) (later-join y ys h.1))
