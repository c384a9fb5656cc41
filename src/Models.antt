-- ===== src/Models.antt =====
-- engram/models.py: the stub chat model, which reports the memories that its prompt shows.
pub mod Lines
pub mod RoundTrip
use long_term_memory_agent.Base.{
  ◌≡◌, refl, ℕ, zero, suc, ◌-◌, String, Char, Bool, true, false, Option, none, some, List, [], ◌∷◌,
  ◌++◌, map, code, ◌==◌, leb, ◌||◌, ◌&&◌, str_eq, if◌then◌else◌,
}
use long_term_memory_agent.Base.Texts.{◌+++◌, strip, starts, join}
use long_term_memory_agent.Env.{Message}
use long_term_memory_agent.Exec.{Result, ok}
use long_term_memory_agent.Prompts.{memory_block_start, memory_block_end}
use long_term_memory_agent.Regex.{flat_map}

abbrev size : String → ℕ
size String.[] = 0
size (String.◌∷◌ c s) = suc (size s)

-- The search for `START(.*?)END` is outside a block or inside one, and may still have characters of
-- a marker in front of it.
pub data Side : Type 0 where
  outside inside : Side

abbrev enter : Option String × List String → Option String × List String
enter (none, more) = (none, more)
enter (some block, more) = (none, block ∷ more)

abbrev leave : Option String × List String → Option String × List String
leave (_, more) = (some "", more)

abbrev keep : Char → Option String × List String → Option String × List String
keep c (none, more) = (none, more)
keep c (some block, more) = (some (String.◌∷◌ c block), more)

-- The rest of the block that is read, if it has an end, and the blocks behind it.
unfoldable pub scan : Side → ℕ → String → Option String × List String
scan spot k String.[] = (none, [])
scan spot (suc k) (String.◌∷◌ c s) = scan spot k s
scan outside zero (String.◌∷◌ c s) = elim (starts memory_block_start (String.◌∷◌ c s)) [
  | true ↦ enter (scan inside (size memory_block_start - 1) s)
  | false ↦ scan outside zero s
]
scan inside zero (String.◌∷◌ c s) = elim (starts memory_block_end (String.◌∷◌ c s)) [
  | true ↦ leave (scan outside (size memory_block_end - 1) s)
  | false ↦ keep c (scan inside zero s)
]

-- `re.findall(f"{START}(.*?){END}", content, flags=re.DOTALL)`
unfoldable pub blocks : String → List String
unfolding scan
blocks content = (scan outside 0 content).1

-- The characters at which `str.splitlines` ends a line.
unfoldable pub is_line_break : Char → Bool
is_line_break ch =
    let c = code ch in
    (leb 10 c && leb c 13) || (leb 28 c && leb c 30) || c == 0x85 || c == 0x2028 || c == 0x2029

-- The line that a text begins with, and the lines behind it.
unfoldable pub scan_lines : String → String × List String
unfolding is_line_break
scan_lines String.[] = ("", [])
scan_lines (String.◌∷◌ c s) =
    let (line, more) = scan_lines s in
    if code c == 13 && starts "\n" s
    then (line, more)
    else if is_line_break c
    then ("", if str_eq s "" then [] else line ∷ more)
    else (String.◌∷◌ c line, more)

unfoldable pub splitlines : String → List String
unfolding scan_lines
splitlines s = let (line, more) = scan_lines s in if str_eq s "" then [] else line ∷ more

-- `line[2:].strip()` of a line that starts with "- ".
abbrev tail : String → String
tail String.[] = ""
tail (String.◌∷◌ c s) = s

unfoldable pub bullet : String → List String
unfolding strip
bullet raw = let line = strip raw in if starts "- " line then strip (tail (tail line)) ∷ [] else []

unfoldable pub shown : Message → List String
unfolding blocks splitlines bullet flat_map
shown m = elim m.content [
  | none ↦ []
  | some content ↦ flat_map (λ block. flat_map bullet (splitlines block)) (blocks content)
]

-- `extract_memory_block`
unfoldable pub extract_memory_block : List Message → List String
unfolding shown flat_map
extract_memory_block messages = flat_map shown messages

unfoldable pub no_memory_reply : String
no_memory_reply =
    "I don't have anything stored about you, so I'm answering from the current conversation only."

-- `_default_responder`
unfoldable pub default_responder : List Message → String
unfolding extract_memory_block no_memory_reply
default_responder messages = elim (extract_memory_block messages) [
  | [] ↦ no_memory_reply
  | fact ∷ facts ↦
      "Based on what I remember about you — "
      +++ join " " (map (λ f. "You told me: " +++ f) (fact ∷ facts))
]

-- `StubChatModel._generate`
unfoldable pub generate : Option (List Message → String) → List Message → String
unfolding default_responder
generate none messages = default_responder messages
generate (some responder) messages = responder messages
