-- ===== src/Embeddings.antt =====
-- engram/embeddings.py: the hashing embedder, and the choice of an embedder.
pub mod Words
pub mod Lengths
pub mod Build
use long_term_memory_agent.Regex.{flat_map}
use Prim.Native.Nat.{◌%◌}
use long_term_memory_agent.Base.{
  take, ℕ, zero, suc, ◌+◌, ◌*◌, String, Char, Bool, true, false, not, ◌&&◌, Option, none, some,
  List, [], ◌∷◌, ◌++◌, map, filter, any, length, str_eq, ltb, ◌==◌, if◌then◌else◌,
}
use long_term_memory_agent.Base.Texts.{◌+++◌, split}
use long_term_memory_agent.Env.{Env}
use long_term_memory_agent.Exec.{Result, ok, raise_with, value_error}

unfoldable pub stopword_text : String
stopword_text =
    "\n" +++ "    a an the and or but if then than that this these those there here\n"
    +++ "    i me my mine myself you your yours we us our ours they them their\n"
    +++ "    he him his she her hers it its\n"
    +++ "    is am are was were be been being do does did doing done\n"
    +++ "    have has had having will would shall should can could may might must\n"
    +++ "    of in on at to from for with by about into onto over under again\n"
    +++ "    as so just also very too much many more most some any all\n"
    +++ "    what which who whom whose when where why how\n"
    +++ "    not no nor only own same now\n" +++ "    "

unfoldable pub stopwords : List String
unfolding stopword_text split
stopwords = split stopword_text

unfoldable pub is_stopword : String → Bool
unfolding stopwords
is_stopword w = any (str_eq w) stopwords

abbrev append_char : String → Char → String
append_char s c = s +++ String.◌∷◌ c ""

-- `if current: out.append("".join(current))`
abbrev flush : String → List String → List String
flush current rest = if str_eq current "" then rest else current ∷ rest

-- `_NGRAM`: the windows of three characters of a text.
abbrev windows : String → List String
windows (String.◌∷◌ a (String.◌∷◌ b (String.◌∷◌ c s))) =
    String.◌∷◌ a (String.◌∷◌ b (String.◌∷◌ c "")) ∷ windows (String.◌∷◌ b (String.◌∷◌ c s))
windows s = []

-- `int.from_bytes(bytes, "big")`
abbrev from_bytes : ℕ → List ℕ → ℕ
from_bytes n [] = n
from_bytes n (b ∷ bs) = from_bytes (n * 256 + b) bs

module _ ⦃env : Env⦄ where
  -- The loop of `_words`: the word that is read, and the text that is left.
  unfoldable pub tokens : String → String → List String
  tokens current String.[] = flush current []
  tokens current (String.◌∷◌ c s) =
      let rest = tokens (if env.is_alnum c then append_char current c else "") s in
      if env.is_alnum c then rest else flush current rest

  -- `_words`
  unfoldable pub words : String → List String
  words text = filter (λ w. not (is_stopword w)) (tokens "" (env.lower text))

  abbrev word_features : String → List (String × env.Float)
  word_features word =
      (word, env.one) ∷ map (λ w. (w, env.four_tenths)) (windows ("#" +++ word +++ "#"))

  -- `_features`
  unfoldable pub features : String → List (String × env.Float)
  features text = flat_map word_features (words text)

  abbrev pub Vector : Type 0
  Vector = List env.Float

  abbrev pub zeros : ℕ → Vector
  zeros zero = []
  zeros (suc n) = env.zero ∷ zeros n

  -- `vec[slot] += x`
  abbrev add_at : ℕ → env.Float → Vector → Vector
  add_at slot x [] = []
  add_at zero x (v ∷ vs) = env.add v x ∷ vs
  add_at (suc slot) x (v ∷ vs) = v ∷ add_at slot x vs

  -- `vec[0] = 1.0`
  abbrev set_first : Vector → Vector
  set_first [] = []
  set_first (v ∷ vs) = env.one ∷ vs

  abbrev nth : ℕ → List ℕ → ℕ
  nth k [] = 0
  nth zero (b ∷ bs) = b
  nth (suc k) (b ∷ bs) = nth k bs

  -- One round of the loop of `_embed`; `k` is one less than the number of dimensions.
  unfoldable pub add_feature : ℕ → String × env.Float → Vector → Vector
  add_feature k (token, weight) vec =
      let digest = env.digest token in
      let slot = from_bytes 0 (take 4 digest) % suc k in
      let sign = nth 4 digest % 2 == 1 in
      add_at slot (if sign then weight else env.minus weight) vec

  unfoldable pub add_features : ℕ → List (String × env.Float) → Vector → Vector
  unfolding add_feature
  add_features k [] vec = vec
  add_features k (f ∷ fs) vec = add_features k fs (add_feature k f vec)

  unfoldable pub normalised : Vector → Vector
  normalised vec =
      let norm = env.sqrt (env.sum (map (λ v. env.mul v v) vec)) in
      if env.le norm env.zero && env.le env.zero norm
      then set_first vec
      else map (λ v. env.div v norm) vec

  -- `HashingEmbeddings._embed`, which `embed_query` is
  unfoldable pub hash_embed : ℕ → String → Vector
  unfolding add_features normalised features
  hash_embed k text = normalised (add_features k (features text) (zeros (suc k)))

  -- `HashingEmbeddings.embed_documents`
  unfoldable pub embed_documents : ℕ → List String → List Vector
  embed_documents k = map (hash_embed k)

  -- `HashingEmbeddings(dims)`: its `embed_query`.
  unfoldable pub hashing_embeddings : ℕ → Result (String → Vector)
  hashing_embeddings zero = raise_with value_error
  hashing_embeddings (suc k) = ok (hash_embed k)
