-- ===== src/Demo.antt =====
-- A world in which the assumptions of Env.antt hold, for the examples: a store kept as the list of
-- its writes, numbers in tenths for floats, and counters for the clock and the identifiers.
mod Store
mod Codec
use Prim.Native.Nat.{◌/◌}
use long_term_memory_agent.Base.{
  take, map, ◌++◌, ℕ, zero, suc, ◌+◌, ◌*◌, ◌≤◌, String, Char, code, ◌≡◌, refl, Bool, true, false,
  ◌&&◌, ◌||◌, List, [], ◌∷◌, arith, leb, ltb, ◌==◌, str_eq, if◌then◌else◌, none,
}
use long_term_memory_agent.Base.Texts.{chars, ◌+++◌}
use long_term_memory_agent.Env.{Env, Message}
use long_term_memory_agent.World.{World}
use Store.{
  State, get, put, delete, listing, search, get_put, get_delete, lookup_listing, listing-Distinct,
  listing_delete, search_page, search_stored, search_limit,
}
use Codec.{dump, validate, validate_dump, validate_dump_slot, validate_constraints}

abbrev translate : String → String → Char → Char
translate (String.◌∷◌ a from) (String.◌∷◌ b to) c =
    if code a == code c then b else translate from to c
translate _ _ c = c

abbrev pub lower_ascii : String → String
lower_ascii String.[] = ""
lower_ascii (String.◌∷◌ c s) =
    String.◌∷◌ (translate "ABCDEFGHIJKLMNOPQRSTUVWXYZ" "abcdefghijklmnopqrstuvwxyz" c)
      (lower_ascii s)

abbrev is_alnum_ascii : Char → Bool
is_alnum_ascii ch =
    let c = code ch in
    (leb b'a' c && leb c b'z') || (leb b'A' c && leb c b'Z') || (leb b'0' c && leb c b'9')

-- The largest number whose square is at most `n`.
abbrev root : ℕ → ℕ
root zero = 0
root (suc n) = let r = root n in if leb ((r + 1) * (r + 1)) (suc n) then r + 1 else r

abbrev total : List ℕ → ℕ
total [] = 0
total (x ∷ xs) = x + total xs

abbrev total_codes : String → ℕ
total_codes String.[] = 0
total_codes (String.◌∷◌ c s) = code c + total_codes s

abbrev pub strokes : ℕ → String
strokes zero = ""
strokes (suc n) = "x" +++ strokes n

pub leb_trans : (a b c : ℕ) → leb a b ≡ true → leb b c ≡ true → leb a c ≡ true
leb_trans a b c h k = ground arith

pub leb_of_ltb : (a b : ℕ) → ltb a b ≡ true → leb a b ≡ true
leb_of_ltb a b h = ground arith

pub leb_add : (a : ℕ) → leb 0 a ≡ true → leb a (a + 1) ≡ true
leb_add a h = ground arith

abbrev forget_messages : (String → List Message) → String → String → List Message
forget_messages t id other = if str_eq id other then [] else t other

abbrev add_messages : (String → List Message) → String → List Message → String → List Message
add_messages t id ms other = if str_eq id other then t id ++ ms else t other

instance abbrev pub demo : Env
demo = record {
  Float = ℕ;
  zero = 0;
  half = 5;
  eight_tenths = 8;
  one = 10;
  four_tenths = 4;
  minus = λ x. 0;
  tenth = 1;
  add = ◌+◌;
  mul = ◌*◌;
  div = λ a b. 10 * a / b;
  sqrt = root;
  of_nat = λ n. 10 * n;
  sum = total;
  le = leb;
  lt = ltb;
  le_trans = leb_trans;
  le_of_lt = leb_of_ltb;
  le_one = refl;
  le_zero_half = refl;
  le_half_one = refl;
  le_zero_eight_tenths = refl;
  le_eight_tenths_one = refl;
  le_add_tenth = leb_add;
  lower = lower_ascii;
  is_alnum = is_alnum_ascii;
  now = λ n. n;
  uuid = λ n. "m" +++ strokes n;
  isoformat = strokes;
  blake2b = λ s. s;
  digest = λ s. map code (take 8 (chars (s +++ "00000000")));
  sha256 = λ s. s;
  dump = dump;
  validate = validate;
  validate_dump = λ m h _ k. validate_dump m h k;
  validate_text = λ v m h. (validate_constraints v m h).0;
  validate_low = λ v m h. (validate_constraints v m h).1;
  validate_high = λ v m h. (validate_constraints v m h).2;
  validate_dump_slot = λ m slot h _ k. validate_dump_slot m slot h k;
  State = State;
  get = get;
  put = put;
  delete = delete;
  search = search;
  listing = listing;
  get_put = get_put;
  get_delete = get_delete;
  lookup_listing = lookup_listing;
  listing_distinct = listing-Distinct;
  listing_delete = listing_delete;
  search_page = search_page;
  search_stored = search_stored;
  search_limit = search_limit;
  Transcripts = String → List Message;
  append_messages = add_messages;
  messages_append = λ t id ms other. refl;
  messages = λ t id. t id;
  delete_thread = forget_messages;
  messages_delete = λ t id other. refl;
  embed_query = λ s. total_codes s ∷ [];
}

-- Nothing stored, nothing said.
abbrev pub fresh : World
fresh = record { store = []; transcripts = λ _. []; readings = 0; drawn = 0; vectors = [] }
