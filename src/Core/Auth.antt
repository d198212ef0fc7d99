-- ===== src/Core/Auth.antt =====
-- Who makes a request (app/core/auth.py). PyJWT's `decode`, Python's `UUID` and FastAPI's
-- `HTTPBearer` are parameters. The cache of the signing keys is left out: it only saves calls.

use ufirst_backend.Base.{
  ℕ, zero, suc, String, Option, none, some, List, [], ◌∷◌, Bool, false, not, ◌&&◌, ◌||◌, str_eq,
  starts_with, cut_at, if◌then◌else◌,
}
use ufirst_backend.Core.Errors.{
  Error, Result, ok, err, authentication_error, value_error, http_error,
}
use ufirst_backend.Identity.Models.{User, UserRole, role_text}

pub record CurrentUser : Type 0 where
  pub id : ℕ
  pub role : String
  pub email : String

-- The settings that authentication reads.
pub record AuthSettings : Type 0 where
  pub dev_mode : Bool
  pub supabase_jwt_secret : String
  pub supabase_jwks_url : String

-- The claims that the code reads; `role` stands inside `app_metadata`.
pub record Payload : Type 0 where
  pub sub : Option String
  pub role : Option String
  pub email : Option String

-- What `jwt.decode` does: a payload, ExpiredSignatureError or another InvalidTokenError, or an error
-- that is neither.
pub data Decoded : Type 0 where
  payload : Payload → Decoded
  expired : Decoded
  invalid : Decoded
  raised : Error → Decoded

-- The code's view of PyJWT, of `UUID` and of the `HTTPBearer` that reads the Authorization header.
pub record Tokens : Type 0 where
  pub decode_secret : (token secret : String) → Decoded
  pub decode_jwks : (token url : String) → Decoded
  pub uuid_of : String → Option ℕ
  pub bearer : Option String → Option String

abbrev pub text_or_empty : Option String → String
text_or_empty none = ""
text_or_empty (some s) = s

-- `token.split(":")`, for at most as many parts as the fuel.
abbrev pub split : (fuel : ℕ) → (separator s : String) → List String
split zero separator s = s ∷ []
split (suc fuel) separator s = elim (cut_at separator s) [
  | none ↦ s ∷ []
  | some (before, after) ↦ before ∷ split fuel separator after
]

module _ (settings : AuthSettings) (tokens : Tokens) where
  unfoldable pub payload_to_user : Payload → Result CurrentUser
  payload_to_user p = elim p.sub [
    | none ↦ err authentication_error
    | some sub ↦ elim (tokens.uuid_of sub) [
      | none ↦ err authentication_error
      | some id ↦
          ok (record { id = id; role = text_or_empty p.role; email = text_or_empty p.email })
    ]
  ]

  -- The two `try` blocks around `jwt.decode`.
  abbrev pub from_decoded : Decoded → Result CurrentUser
  from_decoded (Decoded.payload p) = payload_to_user p
  from_decoded Decoded.expired = err authentication_error
  from_decoded Decoded.invalid = err authentication_error
  from_decoded (Decoded.raised e) = err e

  abbrev dev_user : String → String → Result CurrentUser
  dev_user id role = elim (tokens.uuid_of id) [
    | none ↦ err value_error
    | some user_id ↦ ok (record { id = user_id; role = role; email = "" })
  ]

  -- Four parts are as wrong as more.
  abbrev dev_parts : List String → Result CurrentUser
  dev_parts [] = err authentication_error
  dev_parts (_ ∷ []) = err authentication_error
  dev_parts (_ ∷ _ ∷ []) = err authentication_error
  dev_parts (dev ∷ id ∷ role ∷ []) = dev_user id role
  dev_parts (_ ∷ _ ∷ _ ∷ _ ∷ _) = err authentication_error

  unfoldable pub verify_token : String → Result CurrentUser
  unfolding payload_to_user
  verify_token token =
      if settings.dev_mode && starts_with token "dev:"
      then dev_parts (split 4 ":" token)
      else if not (str_eq settings.supabase_jwt_secret "")
      then from_decoded (tokens.decode_secret token settings.supabase_jwt_secret)
      else if not (str_eq settings.supabase_jwks_url "")
      then from_decoded (tokens.decode_jwks token settings.supabase_jwks_url)
      else err authentication_error

  -- `except AuthenticationError as exc: raise HTTPException(status_code=401)`
  abbrev pub or_401 : Result CurrentUser → Result CurrentUser
  or_401 (ok user) = ok user
  or_401 (err Error.authentication_error) = err (http_error 401)
  or_401 (err e) = err e

  -- The role of the row, where the request carries a row and the row has a role.
  abbrev pub database_role : Option User → Option UserRole
  database_role none = none
  database_role (some u) = u.role

  abbrev pub with_role : Option UserRole → CurrentUser → CurrentUser
  with_role none user = user
  with_role (some role) user = record user { role = role_text role }

  abbrev pub authoritative : Option User → Result CurrentUser → Result CurrentUser
  authoritative identity (err e) = err e
  authoritative identity (ok user) =
      ok (if settings.dev_mode then user else with_role (database_role identity) user)

  -- `credentials` is what HTTPBearer made of the header, `identity` is `request.state.identity`.
  unfoldable pub get_current_user : Option String → Option User → Result CurrentUser
  get_current_user none identity = err (http_error 401)
  get_current_user (some credentials) identity =
      authoritative identity (or_401 (verify_token credentials))

-- `user.role not in roles`
abbrev pub role_in : String → List String → Bool
role_in role [] = false
role_in role (r ∷ roles) = str_eq role r || role_in role roles

unfoldable pub require_roles : List String → CurrentUser → Result CurrentUser
require_roles roles user = if role_in user.role roles then ok user else err (http_error 403)
