-- ===== src/Demo/Codec.antt =====
-- A memory as a dictionary, and back: every field under its name.
use long_term_memory_agent.Base.{
  eq_iff, arith, true, leb, ◌&&◌, not, ◌≢◌, ℕ, String, ◌≡◌, refl, Option, none, some, [], ◌∷◌,
  str_eq, if◌then◌else◌,
}
use long_term_memory_agent.Base.Dicts.{Json, null, num, str, Dict, lookup, insert}
use long_term_memory_agent.Schemas.{
  Memory, MemoryKind, semantic, episodic, procedural, Provenance, user, agent, tool, document,
  kind_name, source_name,
}

infixl 5 ◌>>=◌
abbrev ◌>>=◌ : {A B : Type 0} → Option A → (A → Option B) → Option B
none >>= f = none
(some a) >>= f = f a

abbrev of_str : Option String → Json ℕ
of_str none = null
of_str (some s) = str s

abbrev of_num : Option ℕ → Json ℕ
of_num none = null
of_num (some n) = num n

abbrev to_str : Json ℕ → Option (Option String)
to_str null = some none
to_str (str s) = some (some s)
to_str _ = none

abbrev to_num : Json ℕ → Option (Option ℕ)
to_num null = some none
to_num (num n) = some (some n)
to_num _ = none

abbrev a_str : Json ℕ → Option String
a_str (str s) = some s
a_str _ = none

abbrev a_num : Json ℕ → Option ℕ
a_num (num n) = some n
a_num _ = none

abbrev to_kind : Json ℕ → Option MemoryKind
to_kind (str s) =
    if str_eq s "semantic"
    then some semantic
    else if str_eq s "episodic"
    then some episodic
    else if str_eq s "procedural"
    then some procedural
    else none
to_kind _ = none

abbrev to_source : Json ℕ → Option Provenance
to_source (str s) =
    if str_eq s "user"
    then some user
    else if str_eq s "agent"
    then some agent
    else if str_eq s "tool"
    then some tool
    else if str_eq s "document"
    then some document
    else none
to_source _ = none

abbrev pub dump : Memory ℕ → Dict ℕ
dump m =
    ("id", str m.id)
    ∷ ("user_id", str m.user_id)
    ∷ ("text", str m.text)
    ∷ ("kind", str (kind_name m.kind))
    ∷ ("source", str (source_name m.source))
    ∷ ("importance", num m.importance)
    ∷ ("created_at", num m.created_at)
    ∷ ("updated_at", num m.updated_at)
    ∷ ("expires_at", of_num m.expires_at)
    ∷ ("superseded_by", of_str m.superseded_by)
    ∷ ("superseded_at", of_num m.superseded_at)
    ∷ ("attribute", str m.attribute)
    ∷ ("value", str m.value)
    ∷ ("scope", str m.scope)
    ∷ ("thread_id", of_str m.thread_id)
    ∷ ("evidence", of_str m.evidence)
    ∷ []

abbrev read : Dict ℕ → Option (Memory ℕ)
read d = do
  id ← lookup "id" d >>= a_str
  user_id ← lookup "user_id" d >>= a_str
  text ← lookup "text" d >>= a_str
  kind ← lookup "kind" d >>= to_kind
  source ← lookup "source" d >>= to_source
  importance ← lookup "importance" d >>= a_num
  created_at ← lookup "created_at" d >>= a_num
  updated_at ← lookup "updated_at" d >>= a_num
  expires_at ← lookup "expires_at" d >>= to_num
  superseded_by ← lookup "superseded_by" d >>= to_str
  superseded_at ← lookup "superseded_at" d >>= to_num
  attribute ← lookup "attribute" d >>= a_str
  value ← lookup "value" d >>= a_str
  scope ← lookup "scope" d >>= a_str
  thread_id ← lookup "thread_id" d >>= to_str
  evidence ← lookup "evidence" d >>= to_str
  some (record {
    id = id;
    user_id = user_id;
    text = text;
    kind = kind;
    source = source;
    importance = importance;
    created_at = created_at;
    updated_at = updated_at;
    expires_at = expires_at;
    superseded_by = superseded_by;
    superseded_at = superseded_at;
    attribute = attribute;
    value = value;
    scope = scope;
    thread_id = thread_id;
    evidence = evidence;
  })

abbrev constrain : Memory ℕ → Option (Memory ℕ)
constrain m = if not (str_eq m.text "") && leb m.importance 10 then some m else none

abbrev pub validate : Dict ℕ → Option (Memory ℕ)
validate d = read d >>= constrain

to_kind-name : (k : MemoryKind) → to_kind (str (kind_name k)) ≡ some k
to_kind-name semantic = refl
to_kind-name episodic = refl
to_kind-name procedural = refl

to_source-name : (p : Provenance) → to_source (str (source_name p)) ≡ some p
to_source-name user = refl
to_source-name agent = refl
to_source-name tool = refl
to_source-name document = refl

to_num-of : (o : Option ℕ) → to_num (of_num o) ≡ some o
to_num-of none = refl
to_num-of (some n) = refl

to_str-of : (o : Option String) → to_str (of_str o) ≡ some o
to_str-of none = refl
to_str-of (some s) = refl

constrain_kept : (m : Memory ℕ) → m.text ≢ "" → leb m.importance 10 ≡ true → constrain m ≡ some m
constrain_kept m h k = ground (arith, eq_iff m.text "")

constrain_sound :
    (m n : Memory ℕ)
    → constrain m ≡ some n
    → (n.text ≢ "") × (leb 0 n.importance ≡ true) × (leb n.importance 10 ≡ true)
constrain_sound m n h = ground (arith, eq_iff m.text "")

pub validate_dump :
    (m : Memory ℕ) → m.text ≢ "" → leb m.importance 10 ≡ true → validate (dump m) ≡ some m
validate_dump m h k =
    simp (to_kind-name, to_source-name, to_num-of, to_str-of) (constrain_kept m h k)

pub validate_dump_slot :
    (m : Memory ℕ) (slot : String)
    → m.text ≢ ""
    → leb m.importance 10 ≡ true
    → validate (insert "slot_text" (str slot) (dump m)) ≡ some m
validate_dump_slot m slot h k =
    simp (to_kind-name, to_source-name, to_num-of, to_str-of) (constrain_kept m h k)

-- An accepted value ended in `constrain`.
bind_some :
    {A : Type 0} (o : Option A) (f : A → Option (Memory ℕ)) (n : Memory ℕ)
    → (o >>= f) ≡ some n
    → (a : A) × (f a ≡ some n)
bind_some none f n h = cc
bind_some (some a) f n h = (a, h)

pub validate_constraints :
    (d : Dict ℕ) (n : Memory ℕ)
    → validate d ≡ some n
    → (n.text ≢ "") × (leb 0 n.importance ≡ true) × (leb n.importance 10 ≡ true)
validate_constraints d n h = let (m, e) = bind_some (read d) constrain n h in constrain_sound m n e
