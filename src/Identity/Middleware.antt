-- ===== src/Identity/Middleware.antt =====
-- `LazyUserProvisioningMiddleware` (app/modules/identity/middleware.py), and how FastAPI composes a
-- request: the middleware, `get_current_user`, `require_roles`, and the handler in the transaction
-- of `get_db` (app/core/auth.py, app/core/database.py).
pub mod Roles
pub mod Guards
use ufirst_backend.Base.{
  true, String, Option, none, some, List, Bool, starts_with, from_byte, if◌then◌else◌,
}
use ufirst_backend.Core.Errors.{Error, Result, ok, err, http_error, http_status}
use ufirst_backend.Core.Auth.{
  AuthSettings, Tokens, CurrentUser, verify_token, get_current_user, require_roles,
}
use ufirst_backend.Db.{Db, Action, pure, raise, in_transaction, ◌>>=◌}
use ufirst_backend.Identity.Models.{User}
use ufirst_backend.Identity.Service.{get_or_create_user}

abbrev pub from_result : {A : Type 0} → Result A → Action A
from_result r db = (r, db)

-- The responses of the two `except` clauses.
abbrev pub answered : {A : Type 0} → Action A → Action A
answered m db =
    let (r, db') = m db in
    elim r [ ok a ↦ (ok a, db') | err e ↦ (err (http_error (http_status e)), db') ]

-- A route with `dependencies=[Depends(require_roles(*roles))]`, after `get_current_user`.
abbrev pub guarded : {A : Type 0} → List String → (CurrentUser → Action A) → CurrentUser → Action A
guarded roles handler user = from_result (require_roles roles user) >>= handler

module _ (settings : AuthSettings) (tokens : Tokens) (others : Db → Db) where
  abbrev pub provisioned : CurrentUser → Action (Option User)
  provisioned user = do
    db_user ←
        answered (in_transaction (get_or_create_user true others user.id user.email user.role))
    pure (some db_user)

  -- AuthenticationError passes; what else `verify_token` raises is not caught.
  abbrev pub identified : Result CurrentUser → Action (Option User)
  identified (ok user) = provisioned user
  identified (err Error.authentication_error) = pure none
  identified (err e) = raise e

  -- `request.state.identity`, as the middleware leaves it. `others` is what other requests commit
  -- while it provisions.
  unfoldable pub identify : Option String → Action (Option User)
  identify none = pure none
  identify (some header) =
      if starts_with header "Bearer "
      then identified (verify_token settings tokens (from_byte 7 header))
      else pure none

  -- The user of a request, as its handler gets it.
  unfoldable pub current_user : Option String → Action CurrentUser
  current_user header = do
    identity ← identify header
    from_result (get_current_user settings tokens (tokens.bearer header) identity)

  -- A request, from its Authorization header to the transaction that its route runs in.
  unfoldable pub serve : {A : Type 0} → Option String → (CurrentUser → Action A) → Action A
  serve header route = do user ← current_user header; in_transaction (route user)
