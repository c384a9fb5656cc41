-- ===== src/Config/Dsn.antt =====
-- The connection string of engram/config.py splits where it should, whatever the password.
use long_term_memory_agent.Base.{
  eq_iff, sym, ◌-◌, ◌⊎◌, ◌≡◌, refl, ap, ℕ, String, Char, code, true, false, not, ◌==◌, str_eq,
  arith, or_false, Bool-cases, inl, inr, if◌then◌else◌, List, [], ◌∷◌,
}
use long_term_memory_agent.Base.Texts.{◌+++◌, has}
use long_term_memory_agent.Config.{
  ◌/◌, Settings, quote_plus, quote_char, percent, percents, hex_from, utf8, is_unreserved,
  auth_part, resolved_dsn,
}

-- The text before the first such character, and the text behind it.
abbrev pub before : ℕ → String → String
before b String.[] = ""
before b (String.◌∷◌ c s) = let rest = before b s in if code c == b then "" else String.◌∷◌ c rest

abbrev pub behind : ℕ → String → String
behind b String.[] = ""
behind b (String.◌∷◌ c s) = let rest = behind b s in if code c == b then s else rest

module _ (b : ℕ) where
  before-append :
      (s t : String) (c : Char) → has b s ≡ false → code c ≡ b → before b (s +++ String.◌∷◌ c t) ≡ s
  before-append String.[] t c h e = ground arith
  before-append (String.◌∷◌ d s) t c h e =
      let (head, rest) = or_false (code d == b) (has b s) h in
      rw (head, before-append s t c rest e) refl

  behind-append :
      (s t : String) (c : Char) → has b s ≡ false → code c ≡ b → behind b (s +++ String.◌∷◌ c t) ≡ t
  behind-append String.[] t c h e = ground arith
  behind-append (String.◌∷◌ d s) t c h e =
      let (head, rest) = or_false (code d == b) (has b s) h in
      rw (head, behind-append s t c rest e) refl

  before-lacking : (s : String) → has b s ≡ false → before b s ≡ s
  before-lacking String.[] h = refl
  before-lacking (String.◌∷◌ d s) h =
      let (head, rest) = or_false (code d == b) (has b s) h in rw (head, before-lacking s rest) refl

  behind-lacking : (s : String) → has b s ≡ false → behind b s ≡ ""
  behind-lacking String.[] h = refl
  behind-lacking (String.◌∷◌ d s) h =
      let (head, rest) = or_false (code d == b) (has b s) h in rw (head, behind-lacking s rest) refl

  has-append : (s t : String) → has b s ≡ false → has b t ≡ false → has b (s +++ t) ≡ false
  has-append String.[] t h k = k
  has-append (String.◌∷◌ c s) t h k =
      let (head, rest) = or_false (code c == b) (has b s) h in rw head (has-append s t rest k)

  hex_from-has : (s : String) (n : ℕ) → has b s ≡ false → has b (hex_from s n) ≡ false
  unfolding hex_from
  hex_from-has String.[] n h = refl
  hex_from-has (String.◌∷◌ c s) n h =
      let (head, rest) = or_false (code c == b) (has b s) h in
      elim (Bool-cases (n == 0)) [
        | inl e ↦ rw (e, head) refl
        | inr e ↦ rw e (hex_from-has s (n - 1) rest)
      ]

-- The characters at which a connection string is split.
abbrev IsDelimiter : ℕ → Type 0
IsDelimiter b = (b ≡ b':') ⊎ (b ≡ b'@')

module _ (b : ℕ) (d : IsDelimiter b) where
  digits : has b "0123456789ABCDEF" ≡ false
  digits = elim d [ inl e ↦ rw e refl | inr e ↦ rw e refl ]

  percent-has : (n : ℕ) → has b (percent n) ≡ false
  unfolding percent
  percent-has n = has-append b "%" _ sign (
      has-append b (hex_from "0123456789ABCDEF" (n / 16)) _ (hex_from-has b _ _ digits)
        (hex_from-has b _ _ digits))
    where
      sign : has b "%" ≡ false
      sign = elim d [ inl e ↦ rw e refl | inr e ↦ rw e refl ]

  percents-has : (bs : List ℕ) → has b (percents bs) ≡ false
  unfolding percents
  percents-has [] = refl
  percents-has (n ∷ bs) = has-append b (percent n) (percents bs) (percent-has n) (percents-has bs)

  unreserved : (c : Char) → is_unreserved c ≡ true → (code c == b) ≡ false
  unfolding is_unreserved
  unreserved c h = ground arith

  quote_char-has : (c : Char) → has b (quote_char c) ≡ false
  unfolding quote_char
  quote_char-has c = elim (Bool-cases (is_unreserved c)) [
    | inl e ↦ rw (e, unreserved c e) refl
    | inr e ↦ elim (Bool-cases (code c == 32)) [
      | inl k ↦ rw (e, k) plus
      | inr k ↦ rw (e, k) (percents-has (utf8 c))
    ]
  ]
    where
      plus : has b "+" ≡ false
      plus = elim d [ inl e ↦ rw e refl | inr e ↦ rw e refl ]

  pub quote_plus-has : (s : String) → has b (quote_plus s) ≡ false
  unfolding quote_plus
  quote_plus-has String.[] = refl
  quote_plus-has (String.◌∷◌ c s) =
      has-append b (quote_char c) (quote_plus s) (quote_char-has c) (quote_plus-has s)

eq_of_str : (s t : String) → str_eq s t ≡ true → s ≡ t
eq_of_str s t h = ground (arith, eq_iff s t)

-- A reader of connection strings: the user, the password, and what is behind them.
abbrev pub read_dsn : String → String × String × String
read_dsn dsn =
    let url = behind b'/' (behind b'/' dsn) in
    let auth = before b'@' url in (before b':' auth, behind b':' auth, behind b'@' url)

module _ {Float : Type 0} where
  auth_part-has : (s : Settings Float) → has b'@' (auth_part s) ≡ false
  unfolding auth_part
  auth_part-has s =
      let user = quote_plus-has b'@' (inr refl) s.postgres_user in
      elim (Bool-cases (not (str_eq s.postgres_password ""))) [
        | inl e ↦ rw e (
            has-append b'@' (quote_plus s.postgres_user) _ user
              (quote_plus-has b'@' (inr refl) s.postgres_password))
        | inr e ↦ rw e user
      ]

  auth_splits :
      (s : Settings Float)
      → (before b':' (auth_part s) ≡ quote_plus s.postgres_user)
        × (behind b':' (auth_part s) ≡ quote_plus s.postgres_password)
  unfolding auth_part quote_plus
  auth_splits s =
      let user = quote_plus-has b':' (inl refl) s.postgres_user in
      elim (Bool-cases (str_eq s.postgres_password "")) [
        | inl e ↦
            rw
              (
                e,
                before-lacking b':' (quote_plus s.postgres_user) user,
                behind-lacking b':' (quote_plus s.postgres_user) user,
              )
              (refl, ap quote_plus (sym (eq_of_str s.postgres_password "" e)))
        | inr e ↦ rw e (
          before-append b':' (quote_plus s.postgres_user) _ ":" user refl,
          behind-append b':' (quote_plus s.postgres_user) _ ":" user refl,
        )
      ]

  -- Where a host is set, a reader who takes what is behind "//", splits it at the first "@" and the
  -- part before that at the first ":" gets from the connection string the quoted user, the quoted
  -- password (nothing if there is none), and the host, port and database as they are set, whatever
  -- characters the user's name and the password hold.
  pub read_dsn-resolved :
      (s : Settings Float)
      → str_eq s.postgres_host "" ≡ false
      → read_dsn (resolved_dsn s) ≡ (
        quote_plus s.postgres_user,
        quote_plus s.postgres_password,
        s.postgres_host +++ ":" +++ s.postgres_port +++ "/" +++ s.postgres_db,
      )
  unfolding resolved_dsn
  read_dsn-resolved s h =
      let has_none = auth_part-has s in
      let rest = s.postgres_host +++ ":" +++ s.postgres_port +++ "/" +++ s.postgres_db in
      rw
        (
          h,
          before-append b'@' (auth_part s) rest "@" has_none refl,
          behind-append b'@' (auth_part s) rest "@" has_none refl,
          (auth_splits s).0,
          (auth_splits s).1,
        )
        refl
