-- ===== src/Api/Tokens.antt =====
-- What an accepted token says.
use long_term_memory_agent.Base.{
  String, ◌≡◌, ◌≢◌, refl, ap, ◌∙◌, true, false, ◌&&◌, Option, none, some, arith, str_eq, eq_iff,
  if◌then◌else◌, Bool-cases, inl, inr,
}
use long_term_memory_agent.Base.Dicts.{Json, null, num, str, strs}
use long_term_memory_agent.Api.Auth.{
  Jwt, Header, Claims, CognitoVerifier, current_user, subject, claimed, named, answered, is_text,
  decoded, is_rs256, is_given,
}
use long_term_memory_agent.Exec.{
  Result, ok, raise_with, http_error, out_of_fuel, validation_error, overflow_error, value_error,
  legacy_thread_error, import_error, attribute_error, invalid_token, jwk_connection_error,
  jwk_client_error,
}

module _ {Float : Type 0} (jwt : Jwt Float) (v : CognitoVerifier) where
  -- The token is one that was issued to `s` as an access token of this client.
  pub record IsIssued (token s : String) : Type 0 where
    pub key : jwt.Key
    pub claims : Claims Float
    pub fetched : jwt.signing_key token ≡ ok key
    pub verified : jwt.decode token key v.issuer ≡ ok claims
    pub access : is_text claims.token_use "access" ≡ true
    pub client : is_text claims.client_id v.client_id ≡ true
    pub names_it : claims.sub ≡ str s
    pub something : s ≢ ""

  named_ok : (sub : Json Float) (s : String) → named sub ≡ ok s → (sub ≡ str s) × (s ≢ "")
  unfolding named
  named_ok null s e = absurd cc
  named_ok (num x) s e = absurd cc
  named_ok (strs xs) s e = absurd cc
  named_ok (str t) s e = elim (Bool-cases (str_eq t "")) [
    | inl empty ↦ let bad : raise_with invalid_token ≡ ok s = rw empty at e in absurd cc
    | inr full ↦
        let same : ok t ≡ ok s = rw full at e in
        let one : t ≡ s = cc in
        (ap str one, λ x. let twice : str_eq t "" ≡ true = (eq_iff t "").1 (one ∙ x) in absurd cc)
  ]

  claimed_ok :
      (token s : String) (key : jwt.Key) (r : Result (Claims Float))
      → jwt.signing_key token ≡ ok key
      → jwt.decode token key v.issuer ≡ r
      → elim r [ raise_with e ↦ raise_with e | ok claims ↦ claimed v claims ] ≡ ok s
      → IsIssued token s
  unfolding claimed
  claimed_ok token s key (raise_with x) f g e = absurd cc
  claimed_ok token s key (ok c) f g e =
      elim (Bool-cases (is_text c.token_use "access" && is_text c.client_id v.client_id)) [
        | inl both ↦
            let (sub, something) = named_ok c.sub s (rw both at e) in
            record {
              key = key;
              claims = c;
              fetched = f;
              verified = g;
              access = ground arith;
              client = ground arith;
              names_it = sub;
              something = something;
            }
        | inr wrong ↦ let bad : raise_with invalid_token ≡ ok s = rw wrong at e in absurd cc
      ]

  decoded_ok :
      (token s : String) (r : Result jwt.Key)
      → jwt.signing_key token ≡ r
      → decoded jwt v token r ≡ ok s
      → IsIssued token s
  unfolding decoded
  decoded_ok token s (raise_with x) f e = absurd cc
  decoded_ok token s (ok key) f e = claimed_ok token s key (jwt.decode token key v.issuer) f refl e

  subject_ok : (token s : String) → subject jwt v token ≡ ok s → IsIssued token s
  unfolding subject
  subject_ok token s e = headed (jwt.header token) e
    where
      headed :
          (r : Result Header)
          → elim r [
            | raise_with x ↦ raise_with x
            | ok h ↦
                if is_rs256 h.alg && is_given h.kid
                then decoded jwt v token (jwt.signing_key token)
                else raise_with invalid_token
          ]
            ≡ ok s
          → IsIssued token s
      headed (raise_with x) f = absurd cc
      headed (ok h) f = elim (Bool-cases (is_rs256 h.alg && is_given h.kid)) [
        | inl good ↦ decoded_ok token s (jwt.signing_key token) refl (rw good at f)
        | inr bad ↦ let no : raise_with invalid_token ≡ ok s = rw bad at f in absurd cc
      ]

  answered_ok :
      (r : Result String) (o : Option String)
      → answered jwt r ≡ ok o
      → (s : String) × (r ≡ ok s) × (o ≡ some s)
  unfolding answered
  answered_ok (ok s) o e = (s, refl, cc)
  answered_ok (raise_with out_of_fuel) o e = absurd cc
  answered_ok (raise_with validation_error) o e = absurd cc
  answered_ok (raise_with overflow_error) o e = absurd cc
  answered_ok (raise_with value_error) o e = absurd cc
  answered_ok (raise_with legacy_thread_error) o e = absurd cc
  answered_ok (raise_with invalid_token) o e = absurd cc
  answered_ok (raise_with jwk_connection_error) o e = absurd cc
  answered_ok (raise_with jwk_client_error) o e = absurd cc
  answered_ok (raise_with import_error) o e = absurd cc
  answered_ok (raise_with attribute_error) o e = absurd cc
  answered_ok (raise_with (http_error n)) o e = absurd cc

  -- With authentication enabled, `current_user` lets only a request through that carries a token
  -- which PyJWT verified for the pool's issuer, whose claims make it an access token of this client,
  -- and the user that it names is the token's subject, which is not empty.
  pub current_user_verified :
      (credentials asking : Option String)
      → current_user jwt false v credentials ≡ ok asking
      → (token : String) × (s : String) × (credentials ≡ some token)
        × (asking ≡ some s)
        × IsIssued token s
  unfolding current_user
  current_user_verified none asking e = absurd cc
  current_user_verified (some token) asking e =
      let (s, f, g) = answered_ok (subject jwt v token) asking e in
      (token, s, refl, g, subject_ok token s f)
