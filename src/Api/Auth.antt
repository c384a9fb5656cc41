-- ===== src/Api/Auth.antt =====
-- engram/api/auth.py: who asks, and whose data it may be. The JWT library is a parameter.
use long_term_memory_agent.Base.{
  String, Bool, true, false, ◌&&◌, Option, none, some, str_eq, if◌then◌else◌,
}
use long_term_memory_agent.Base.Dicts.{Json, str}
use long_term_memory_agent.Exec.{
  Result, ok, raise_with, http_error, invalid_token, jwk_connection_error, jwk_client_error,
}

-- What is read of a token's unverified header.
pub record Header : Type 0 where
  pub alg : Option String
  pub kid : Option String

-- The claims that `jwt.decode` requires and the program looks at.
pub record Claims (Float : Type 0) : Type 0 where
  pub token_use : Json Float
  pub client_id : Json Float
  pub sub : Json Float

-- PyJWT: `get_unverified_header`, `get_signing_key_from_jwt`, and `decode` for RS256 and an issuer.
pub record Jwt (Float : Type 0) : Type 1 where
  pub Key : Type 0
  pub header : String → Result Header
  pub signing_key : String → Result Key
  pub decode : String → Key → String → Result (Claims Float)

pub record CognitoVerifier : Type 0 where
  pub issuer : String
  pub client_id : String

abbrev pub is_text : {Float : Type 0} → Json Float → String → Bool
is_text (str s) t = str_eq s t
is_text _ t = false

abbrev pub is_rs256 : Option String → Bool
is_rs256 none = false
is_rs256 (some alg) = str_eq alg "RS256"

abbrev pub is_given : Option String → Bool
is_given none = false
is_given (some kid) = true

module _ {Float : Type 0} where
  -- `isinstance(subject, str) and subject`
  unfoldable pub named : Json Float → Result String
  named (str s) = if str_eq s "" then raise_with invalid_token else ok s
  named _ = raise_with invalid_token

  -- The checks of the claims.
  unfoldable pub claimed : CognitoVerifier → Claims Float → Result String
  claimed v c =
      if is_text c.token_use "access" && is_text c.client_id v.client_id
      then named c.sub
      else raise_with invalid_token

  module _ (jwt : Jwt Float) where
    unfoldable pub decoded : CognitoVerifier → String → Result jwt.Key → Result String
    decoded v token (raise_with e) = raise_with e
    decoded v token (ok key) = elim (jwt.decode token key v.issuer) [
      | raise_with e ↦ raise_with e
      | ok claims ↦ claimed v claims
    ]

    -- `CognitoVerifier.subject`
    unfoldable pub subject : CognitoVerifier → String → Result String
    unfolding decoded
    subject v token = elim (jwt.header token) [
      | raise_with e ↦ raise_with e
      | ok h ↦
          if is_rs256 h.alg && is_given h.kid
          then decoded v token (jwt.signing_key token)
          else raise_with invalid_token
    ]

    -- The `except` clauses of `current_user`.
    unfoldable pub answered : Result String → Result (Option String)
    answered (ok s) = ok (some s)
    answered (raise_with jwk_connection_error) = raise_with (http_error 503)
    answered (raise_with invalid_token) = raise_with (http_error 401)
    answered (raise_with jwk_client_error) = raise_with (http_error 401)
    answered (raise_with e) = raise_with e

    -- `current_user`: nobody where authentication is disabled.
    unfoldable pub current_user : Bool → CognitoVerifier → Option String → Result (Option String)
    current_user true v credentials = ok none
    current_user false v none = raise_with (http_error 401)
    current_user false v (some token) = answered (subject v token)

-- `require_owner`
unfoldable pub require_owner : Option String → String → Result (Unit {0})
require_owner none user_id = ok tt
require_owner (some s) user_id = if str_eq s user_id then ok tt else raise_with (http_error 403)
