-- ===== src/Env.antt =====
-- What engram calls and does not implement: floating-point numbers, the Unicode tables behind
-- `str.lower` and `str.isalnum`, the clock, `uuid4` and the hash functions, pydantic, LangGraph's
-- store and checkpointer, and the embedding model. The laws are what the program relies on.
use long_term_memory_agent.Base.{
  false, ℕ, ◌≤◌, String, Char, ◌≡◌, ◌≢◌, Bool, true, Option, none, some, List, [], ◌++◌, str_eq,
  map, All, take, drop, length, if◌then◌else◌,
}
use long_term_memory_agent.Base.Dicts.{
  ns_eq, same_place, str, Dict, Namespace, lookup, insert, Distinct,
}
use long_term_memory_agent.Schemas.{Memory}

-- One result of a search.
pub record Item (Float : Type 0) : Type 0 where
  pub key : String
  pub value : Dict Float
  pub score : Option Float

module _ {Float : Type 0} where
  abbrev pub entry : Item Float → String × Dict Float
  entry i = (i.key, i.value)

-- A message of a conversation: its type, and its content where that is a text.
pub record Message : Type 0 where
  pub type : String
  pub content : Option String

pub record Env : Type 1 where
  -- floats: `a <= b`, `a < b`, and the operations
  pub Float : Type 0
  pub zero : Float
  pub half : Float
  pub eight_tenths : Float
  pub one : Float
  pub four_tenths : Float
  pub minus : Float → Float
  pub tenth : Float
  pub add : Float → Float → Float
  pub mul : Float → Float → Float
  pub div : Float → Float → Float
  pub sqrt : Float → Float
  -- `float(n)`
  pub of_nat : ℕ → Float
  -- `sum` of a list of floats
  pub sum : List Float → Float
  pub le : Float → Float → Bool
  pub lt : Float → Float → Bool
  pub le_trans : (a b c : Float) → le a b ≡ true → le b c ≡ true → le a c ≡ true
  pub le_of_lt : (a b : Float) → lt a b ≡ true → le a b ≡ true
  pub le_one : le one one ≡ true
  pub le_zero_half : le zero half ≡ true
  pub le_half_one : le half one ≡ true
  pub le_zero_eight_tenths : le zero eight_tenths ≡ true
  pub le_eight_tenths_one : le eight_tenths one ≡ true
  -- Rounding is monotone, so a sum with a positive number is no smaller.
  pub le_add_tenth : (a : Float) → le zero a ≡ true → le a (add a tenth) ≡ true
  -- the Unicode tables
  pub lower : String → String
  pub is_alnum : Char → Bool
  -- the n-th reading of the clock, and the n-th identifier drawn
  pub now : ℕ → ℕ
  pub uuid : ℕ → String
  pub isoformat : ℕ → String
  pub blake2b : String → String
  -- the eight bytes of `blake2b(text.encode("utf-8"), digest_size=8)`
  pub digest : String → List ℕ
  pub sha256 : String → String
  -- pydantic: `model_dump(mode="json")`, and `model_validate`, which refuses by `none`
  pub dump : Memory Float → Dict Float
  pub validate : Dict Float → Option (Memory Float)
  pub validate_dump :
      (m : Memory Float)
      → m.text ≢ ""
      → le zero m.importance ≡ true
      → le m.importance one ≡ true
      → validate (dump m) ≡ some m
  -- What is accepted meets the constraints of the fields.
  pub validate_text : (v : Dict Float) (m : Memory Float) → validate v ≡ some m → m.text ≢ ""
  pub validate_low :
      (v : Dict Float) (m : Memory Float) → validate v ≡ some m → le zero m.importance ≡ true
  pub validate_high :
      (v : Dict Float) (m : Memory Float) → validate v ≡ some m → le m.importance one ≡ true
  -- A key that is no field of the model is ignored.
  pub validate_dump_slot :
      (m : Memory Float) (slot : String)
      → m.text ≢ ""
      → le zero m.importance ≡ true
      → le m.importance one ≡ true
      → validate (insert "slot_text" (str slot) (dump m)) ≡ some m
  -- LangGraph's store. The flag of `put` is its `index` argument; a search has a query or none.
  pub State : Type 0
  pub get : State → Namespace → String → Option (Dict Float)
  pub put : State → Namespace → String → Dict Float → Bool → State
  pub delete : State → Namespace → String → State
  pub search : State → Namespace → Option String → ℕ → ℕ → List (Item Float)
  -- the entries of a namespace, in the order of a search with no query
  pub listing : State → Namespace → List (String × Dict Float)
  pub get_put :
      (s : State) (b : Namespace) (j : String) (v : Dict Float) (index : Bool) (a : Namespace)
      (k : String)
      → get (put s b j v index) a k ≡ (if same_place b j a k then some v else get s a k)
  pub get_delete :
      (s : State) (b : Namespace) (j : String) (a : Namespace) (k : String)
      → get (delete s b j) a k ≡ (if same_place b j a k then none else get s a k)
  pub lookup_listing : (s : State) (a : Namespace) (k : String) → lookup k (listing s a) ≡ get s a k
  pub listing_distinct : (s : State) (a : Namespace) → Distinct (listing s a)
  -- A deletion in one namespace leaves the others as they were.
  pub listing_delete :
      (s : State) (b : Namespace) (j : String) (a : Namespace)
      → ns_eq b a ≡ false
      → listing (delete s b j) a ≡ listing s a
  pub search_page :
      (s : State) (a : Namespace) (limit offset : ℕ)
      → map entry (search s a none limit offset) ≡ take limit (drop offset (listing s a))
  pub search_stored :
      (s : State) (a : Namespace) (query : Option String) (limit offset : ℕ)
      → All (λ i. get s a i.key ≡ some i.value) (search s a query limit offset)
  pub search_limit :
      (s : State) (a : Namespace) (query : Option String) (limit offset : ℕ)
      → length (search s a query limit offset) ≤ limit
  -- LangGraph's checkpointer: the messages of a thread, what a step of the graph adds to them, and
  -- `delete_thread`
  pub Transcripts : Type 0
  pub messages : Transcripts → String → List Message
  pub append_messages : Transcripts → String → List Message → Transcripts
  pub delete_thread : Transcripts → String → Transcripts
  pub messages_delete :
      (t : Transcripts) (id other : String)
      → messages (delete_thread t id) other ≡ (if str_eq id other then [] else messages t other)
  pub messages_append :
      (t : Transcripts) (id : String) (ms : List Message) (other : String)
      → messages (append_messages t id ms) other
        ≡ (if str_eq id other then messages t id ++ ms else messages t other)
  -- the embedding model
  pub embed_query : String → List Float
