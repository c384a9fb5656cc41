-- ===== src/Models/RoundTrip.antt =====
-- What engram/prompts.py shows is what engram/models.py reads.
use long_term_memory_agent.Schemas.{Recall}
use long_term_memory_agent.Base.{
  or_false, ◌≡◌, ◌≢◌, refl, ap, ◌∙◌, ℕ, zero, suc, String, Char, true, false, Option, some, List,
  [], ◌∷◌, map, All,
}
use long_term_memory_agent.Base.Texts.{has, ◌+++◌, starts, contains, join, strip, lstrip, rstrip}
use long_term_memory_agent.Models.{
  is_line_break, Message, extract_memory_block, splitlines, leave, inside, outside, scan, keep,
  enter, blocks, bullet,
}
use long_term_memory_agent.Models.Lines.{
  later-break, later-join, later, starts_line, filled, IsOneLine, contains_line,
}
use mathlib.Core.List.{append-nil}
use long_term_memory_agent.Prompts.{
  render_memory_block, build_system_prompt, memory_block_start, memory_block_end, system_prompt,
}
use long_term_memory_agent.Regex.{flat_map}

-- A text that the block shows as it is.
pub record IsShowable (t : String) : Type 0 where
  pub one_line : IsOneLine t
  pub left : lstrip t ≡ t
  pub right : rstrip t ≡ t
  pub filled : t ≢ ""
  pub unmarked : contains memory_block_end t ≡ false

abbrev item : String → String
item t = "- " +++ t

abbrev drop_text : ℕ → String → String
drop_text zero s = s
drop_text (suc n) String.[] = ""
drop_text (suc n) (String.◌∷◌ c s) = drop_text n s

abbrev prepend : String → Option String × List String → Option String × List String
prepend String.[] x = x
prepend (String.◌∷◌ c s) x = keep c (prepend s x)

prepend-some :
    (s b : String) (more : List String) → prepend s (some b, more) ≡ (some (s +++ b), more)
prepend-some String.[] b more = refl
prepend-some (String.◌∷◌ c s) b more = rw (prepend-some s b more) refl

lacks : has b'\n' memory_block_end ≡ false
lacks = refl

scan-keep :
    (c : Char) (s : String)
    → starts memory_block_end (String.◌∷◌ c s) ≡ false
    → scan inside 0 (String.◌∷◌ c s) ≡ keep c (scan inside 0 s)
unfolding scan
scan-keep c s h =
    ap (λ b. elim b [ true ↦ leave (scan outside 19 s) | false ↦ keep c (scan inside 0 s) ]) h

scan_inside :
    (t : String)
    → contains memory_block_end t ≡ false
    → scan inside 0 (t +++ "\n" +++ memory_block_end) ≡ (some (t +++ "\n"), [])
unfolding scan
scan_inside String.[] h = refl
scan_inside (String.◌∷◌ c t) h =
    let both =
      or_false (starts memory_block_end (String.◌∷◌ c t)) (contains memory_block_end t) h in
    let apart = starts_line memory_block_end (String.◌∷◌ c t) memory_block_end lacks ∙ both.0 in
    scan-keep c (t +++ "\n" +++ memory_block_end) apart ∙ ap (keep c) (scan_inside t both.1)

joined-unmarked :
    (t : String) (ts : List String)
    → All IsShowable (t ∷ ts)
    → contains memory_block_end (join "\n" (map item (t ∷ ts))) ≡ false
joined-unmarked t [] h = h.0.unmarked
joined-unmarked t (u ∷ ts) h =
    contains_line memory_block_end (item t) (join "\n" (map item (u ∷ ts))) lacks h.0.unmarked
      (joined-unmarked u ts h.1)

strip_item : (t : String) → IsShowable t → bullet (item t) ≡ t ∷ []
unfolding bullet strip lstrip rstrip
strip_item t h = rw (h.right, filled t h.filled, h.left, h.right) refl

bullets : (ts : List String) → All IsShowable ts → flat_map bullet (map item ts) ≡ ts
unfolding flat_map
bullets [] h = refl
bullets (t ∷ ts) h = rw (strip_item t h.0, bullets ts h.1) refl

-- What the message of the agent holds between its first marker and the block's items.
abbrev prose : String
prose = drop_text 111 system_prompt +++ "\n\n" +++ memory_block_start +++ "\n"

blocks-prompt :
    (t : String)
    → contains memory_block_end t ≡ false
    → blocks (
        system_prompt +++ "\n\n" +++ memory_block_start +++ "\n" +++ t +++ "\n"
        +++ memory_block_end)
      ≡ (prose +++ t +++ "\n") ∷ []
unfolding blocks scan system_prompt
blocks-prompt t h = ap (λ x. (enter (prepend prose x)).1) (scan_inside t h)

abbrev sentence : String
sentence = drop_text 111 system_prompt

-- The lines of the prose are no items.
bullets-prose :
    (s : String) → flat_map bullet (splitlines (prose +++ s)) ≡ flat_map bullet (later s)
unfolding splitlines system_prompt is_line_break bullet flat_map strip
bullets-prose s = ap (flat_map bullet) (
    later-break sentence _ refl
    ∙ ap (λ xs. sentence ∷ xs)
        (later-break "" _ refl ∙ ap (λ xs. "" ∷ xs) (later-break memory_block_start s refl)))

one_lines : (ts : List String) → All IsShowable ts → All IsOneLine (map item ts)
unfolding is_line_break
one_lines [] h = tt
one_lines (t ∷ ts) h = (h.0.one_line, one_lines ts h.1)

blocks-plain : blocks system_prompt ≡ []
unfolding blocks scan system_prompt
blocks-plain = refl

-- The items of a block, one line each, are its texts.
block_items :
    (t : String) (ts : List String)
    → All IsShowable (t ∷ ts)
    → flat_map bullet (splitlines (prose +++ join "\n" (map item (t ∷ ts)) +++ "\n")) ≡ t ∷ ts
block_items t ts h =
    bullets-prose _
    ∙ ap (flat_map bullet) (later-join (item t) (map item ts) (one_lines (t ∷ ts) h))
    ∙ bullets (t ∷ ts) h

module _ {Float : Type 0} where
  abbrev pub texts : List (Recall Float) → List String
  texts = map (λ (r : Recall Float). r.memory.text)

  items :
      (rs : List (Recall Float))
      → map (λ (q : Recall Float). "- " +++ q.memory.text) rs ≡ map item (texts rs)
  items [] = refl
  items (r ∷ rs) = ap (◌∷◌ (item r.memory.text)) (items rs)

  abbrev pub system_message : List (Recall Float) → Message
  system_message recalls = record { type = "system"; content = some (build_system_prompt recalls) }

  rendered :
      (r : Recall Float) (rs : List (Recall Float))
      → build_system_prompt (r ∷ rs)
        ≡ system_prompt
          +++ "\n\n"
          +++ memory_block_start
          +++ "\n"
          +++ join "\n" (map item (texts (r ∷ rs)))
          +++ "\n"
          +++ memory_block_end
  unfolding build_system_prompt render_memory_block
  rendered r rs =
      ap
        (λ bullets.
          system_prompt
          +++ "\n\n"
          +++ memory_block_start
          +++ "\n"
          +++ join "\n" bullets
          +++ "\n"
          +++ memory_block_end)
        (items (r ∷ rs))

  -- The stub model reads from the agent's system message exactly the texts of the recalled
  -- memories, in their order, if each of them is a single line that is not empty, has no white space
  -- at its ends and does not hold the marker at which the block ends.
  pub extract_memory_block-build :
      (recalls : List (Recall Float))
      → All IsShowable (texts recalls)
      → extract_memory_block (system_message recalls ∷ []) ≡ texts recalls
  unfolding extract_memory_block build_system_prompt
  extract_memory_block-build [] h = rw blocks-plain refl
  extract_memory_block-build (r ∷ rs) h =
      let t = r.memory.text in
      rw
        (
          rendered r rs,
          blocks-prompt _ (joined-unmarked t (texts rs) h),
          block_items t (texts rs) h,
        )
        (rw (append-nil, append-nil) refl)
