-- ===== src/Threads/Decode.antt =====
-- The characters that a text of engram/threads.py stands for: a reader of JSON's escapes.
use Prim.Native.Nat.{◌/◌, ◌%◌}
use Prim.Native.Char.{Char, char}
use long_term_memory_agent.Base.{
  ◌≡◌, refl, ap, ℕ, zero, suc, ◌+◌, ◌-◌, ◌*◌, ◌<◌, ◌≤◌, ◌⊎◌, inl, inr, String, code, true, false,
  ◌&&◌, ◌==◌, leb, ltb, if◌then◌else◌, arith, Bool-cases,
}
use long_term_memory_agent.Base.Texts.{append_assoc, ◌+++◌}
use long_term_memory_agent.Threads.{hex, hex4, escape, nth}

abbrev digit : Char → ℕ
digit c = if leb b'a' (code c) then code c - 87 else code c - 48

abbrev read4 : String → ℕ × String
read4 (String.◌∷◌ a (String.◌∷◌ b (String.◌∷◌ c (String.◌∷◌ d s)))) =
    (((digit a * 16 + digit b) * 16 + digit c) * 16 + digit d, s)
read4 s = (0, s)

abbrev pub skip2 : String → String
skip2 (String.◌∷◌ a (String.◌∷◌ b s)) = s
skip2 s = s

abbrev pair : ℕ → ℕ × String → ℕ × String
pair high (low, s) = (0x10000 + (high - 0xd800) * 1024 + (low - 0xdc00), s)

abbrev unicode : ℕ × String → ℕ × String
unicode (n, s) = if leb 0xd800 n && leb n 0xdbff then pair n (read4 (skip2 s)) else (n, s)

abbrev short : ℕ → ℕ
short k =
    if k == b'n'
    then 10
    else if k == b'r'
    then 13
    else if k == b't'
    then 9
    else if k == b'f'
    then 12
    else if k == b'b'
    then 8
    else k

abbrev escaped : String → ℕ × String
escaped String.[] = (0, "")
escaped (String.◌∷◌ k s) = elim (code k == b'u') [
  | true ↦ unicode (read4 s)
  | false ↦ (short (code k), s)
]

-- No character has this number; it stands for the quotation mark that ends a text.
abbrev pub end : ℕ
end = 0x110000

-- The number of the first character that the escapes stand for, and what is behind it.
abbrev pub first : String → ℕ × String
first String.[] = (end, "")
first (String.◌∷◌ c s) =
    if code c == 92 then escaped s else if code c == b'"' then (end, s) else (code c, s)

hex-digit : (d : ℕ) → d < 16 → (c : Char) × (hex d ≡ String.◌∷◌ c "") × (digit c ≡ d)
unfolding hex nth
hex-digit zero h = ("0", refl, refl)
hex-digit (suc zero) h = ("1", refl, refl)
hex-digit (suc (suc zero)) h = ("2", refl, refl)
hex-digit (suc (suc (suc zero))) h = ("3", refl, refl)
hex-digit (suc (suc (suc (suc zero)))) h = ("4", refl, refl)
hex-digit (suc (suc (suc (suc (suc zero))))) h = ("5", refl, refl)
hex-digit (suc (suc (suc (suc (suc (suc zero)))))) h = ("6", refl, refl)
hex-digit (suc (suc (suc (suc (suc (suc (suc zero))))))) h = ("7", refl, refl)
hex-digit (suc (suc (suc (suc (suc (suc (suc (suc zero)))))))) h = ("8", refl, refl)
hex-digit (suc (suc (suc (suc (suc (suc (suc (suc (suc zero))))))))) h = ("9", refl, refl)
hex-digit (suc (suc (suc (suc (suc (suc (suc (suc (suc (suc zero)))))))))) h = ("a", refl, refl)
hex-digit (suc (suc (suc (suc (suc (suc (suc (suc (suc (suc (suc zero))))))))))) h =
    ("b", refl, refl)
hex-digit (suc (suc (suc (suc (suc (suc (suc (suc (suc (suc (suc (suc zero)))))))))))) h =
    ("c", refl, refl)
hex-digit (suc (suc (suc (suc (suc (suc (suc (suc (suc (suc (suc (suc (suc zero))))))))))))) h =
    ("d", refl, refl)
hex-digit (suc (suc (suc (suc (suc (suc (suc (suc (suc (suc (suc (suc (suc (suc zero))))))))))))))
      h =
    ("e", refl, refl)
hex-digit
      (suc (suc (suc (suc (suc (suc (suc (suc (suc (suc (suc (suc (suc (suc (suc zero)))))))))))))))
      h =
    ("f", refl, refl)
hex-digit
      (suc
        (suc (suc (suc (suc (suc (suc (suc (suc (suc (suc (suc (suc (suc (suc (suc d))))))))))))))))
      h =
    absurd (omega arith)

digits :
    (n a b c d : ℕ)
    → n < 65536
    → a ≡ n / 4096 % 16
    → b ≡ n / 256 % 16
    → c ≡ n / 16 % 16
    → d ≡ n % 16
    → ((a * 16 + b) * 16 + c) * 16 + d ≡ n
digits n a b c d h ea eb ec ed = omega arith

read4-hex4 : (n : ℕ) (x : String) → n < 65536 → read4 (hex4 n +++ x) ≡ (n, x)
unfolding hex4
read4-hex4 n x h =
    let (a, ea, da) = hex-digit (n / 4096 % 16) (omega arith) in
    let (b, eb, db) = hex-digit (n / 256 % 16) (omega arith) in
    let (c, ec, dc) = hex-digit (n / 16 % 16) (omega arith) in
    let (d, ed, dd) = hex-digit (n % 16) (omega arith) in
    rw (ea, eb, ec, ed) (ap (λ k. (k, x)) (digits n _ _ _ _ h da db dc dd))

scalar_cases : (c : Char) → (code c < 0xd800) ⊎ ((0xdfff < code c) × (code c < 0x110000))
scalar_cases (char n p) = ground arith

not_surrogate :
    (n : ℕ)
    → (n < 0xd800) ⊎ ((0xdfff < n) × (n < 0x110000))
    → (leb 0xd800 n && leb n 0xdbff) ≡ false
not_surrogate n s = ground arith

is_surrogate : (n : ℕ) → 0xd800 ≤ n → n < 0xdc00 → (leb 0xd800 n && leb n 0xdbff) ≡ true
is_surrogate n h k = ground arith

unicode_bmp :
    (n : ℕ) (x : String)
    → (n < 0xd800) ⊎ ((0xdfff < n) × (n < 0x110000))
    → n < 0x10000
    → unicode (read4 (hex4 n +++ x)) ≡ (n, x)
unicode_bmp n x s h = rw (read4-hex4 n x h, not_surrogate n s) refl

unicode_pair :
    (high low : ℕ) (x : String)
    → 0xd800 ≤ high
    → high < 0xdc00
    → low < 0x10000
    → unicode (read4 (hex4 high +++ "\\u" +++ hex4 low +++ x))
      ≡ (0x10000 + (high - 0xd800) * 1024 + (low - 0xdc00), x)
unicode_pair high low x h k l =
    rw
      (
        read4-hex4 high ("\\u" +++ hex4 low +++ x) (omega arith),
        is_surrogate high h k,
        read4-hex4 low x l,
      )
      refl

high_half : (n : ℕ) → 0x10000 ≤ n → n < 0x110000 → 0xd800 + (n - 0x10000) / 1024 < 0xdc00
high_half n h k = omega arith

whole :
    (n : ℕ)
    → 0x10000 ≤ n
    → n < 0x110000
    → 0x10000
        + (0xd800 + (n - 0x10000) / 1024 - 0xd800) * 1024
        + (0xdc00 + (n - 0x10000) % 1024 - 0xdc00)
      ≡ n
whole n h k = omega arith

-- A character that is written as itself, or behind a backslash.
eq_of : (a b : ℕ) → (a == b) ≡ true → b ≡ a
eq_of a b h = ground arith

pub below : (c : Char) → code c < 0x110000
below c = ground (arith, scalar_cases c)

abbrev high : ℕ → ℕ
high n = 0xd800 + (n - 0x10000) / 1024

abbrev low : ℕ → ℕ
low n = 0xdc00 + (n - 0x10000) % 1024

long_escape : (c : Char) → String
long_escape c = "\\u" +++ hex4 (high (code c)) +++ "\\u" +++ hex4 (low (code c))

first-unicode :
    (c : Char) (x : String)
    → first ((if ltb (code c) 0x10000 then "\\u" +++ hex4 (code c) else long_escape c) +++ x)
      ≡ (code c, x)
unfolding long_escape
first-unicode c x = elim (Bool-cases (ltb (code c) 0x10000)) [
  | inl e ↦ rw e (unicode_bmp (code c) x (scalar_cases c) (ground arith))
  | inr e ↦
      rw
        (
          e,
          append_assoc (hex4 (high (code c))) ("\\u" +++ hex4 (low (code c))) x,
          unicode_pair (high (code c)) (low (code c)) x (omega arith)
              (high_half _ (ground arith) (below c)) (omega arith),
        )
        (ap (λ n. (n, x)) (whole _ (ground arith) (below c)))
]

first-plain :
    (c : Char) (x : String)
    → (code c == 34) ≡ false
    → (code c == 92) ≡ false
    → first (String.◌∷◌ c x) ≡ (code c, x)
first-plain c x h k = rw (k, h) refl

-- An escaped character is read back, whatever follows it.
pub first-escape : (c : Char) (x : String) → first (escape c +++ x) ≡ (code c, x)
unfolding escape long_escape
first-escape c x = elim (Bool-cases (code c == 34)) [
  | inl e ↦ rw e (ap (λ n. (n, x)) (eq_of _ _ e))
  | inr e34 ↦ elim (Bool-cases (code c == 92)) [
    | inl e ↦ rw (e34, e) (ap (λ n. (n, x)) (eq_of _ _ e))
    | inr e92 ↦ elim (Bool-cases (code c == 10)) [
      | inl e ↦ rw (e34, e92, e) (ap (λ n. (n, x)) (eq_of _ _ e))
      | inr e10 ↦ elim (Bool-cases (code c == 13)) [
        | inl e ↦ rw (e34, e92, e10, e) (ap (λ n. (n, x)) (eq_of _ _ e))
        | inr e13 ↦ elim (Bool-cases (code c == 9)) [
          | inl e ↦ rw (e34, e92, e10, e13, e) (ap (λ n. (n, x)) (eq_of _ _ e))
          | inr e9 ↦ elim (Bool-cases (code c == 12)) [
            | inl e ↦ rw (e34, e92, e10, e13, e9, e) (ap (λ n. (n, x)) (eq_of _ _ e))
            | inr e12 ↦ elim (Bool-cases (code c == 8)) [
              | inl e ↦ rw (e34, e92, e10, e13, e9, e12, e) (ap (λ n. (n, x)) (eq_of _ _ e))
              | inr e8 ↦ elim (Bool-cases (leb 32 (code c) && leb (code c) 126)) [
                | inl e ↦ rw (e34, e92, e10, e13, e9, e12, e8, e) (first-plain c x e34 e92)
                | inr e ↦ rw (e34, e92, e10, e13, e9, e12, e8, e) (first-unicode c x)
              ]
            ]
          ]
        ]
      ]
    ]
  ]
]
