-- ===== src/Identity/Middleware/Roles.antt =====
-- Whose role a request has (app/modules/identity/middleware.py, app/core/auth.py).
use ufirst_backend.Base.{
  ℕ, ◌≡◌, inl, inr, String, none, some, ◌∷◌, true, false, arith, refl, sym, subst, Bool-cases,
  Option-cases, starts_with, from_byte, is_some, ◌||◌,
}
use ufirst_backend.Base.Table.{get, replace, get-replace_self, key-get, get-key}
use ufirst_backend.Core.Errors.{
  Error, Result, Result-cases, ok, err, integrity_error, invalid_request,
}
use ufirst_backend.Core.Auth.{
  AuthSettings, Tokens, CurrentUser, verify_token, get_current_user, authoritative, or_401,
}
use ufirst_backend.Db.{Db, Action, identity, ◌>>=◌}
use ufirst_backend.Identity.Models.{User, UserRole, role_text, user_created}
use ufirst_backend.Identity.Repository.{user_key, email_taken, new_user}
use ufirst_backend.Identity.Service.{get_or_create_user, role_of, or_null}
use ufirst_backend.Identity.Middleware.{current_user, identify, identified, from_result}

-- The text of a role names that role.
pub role_of-role_text : (r : UserRole) → role_of (role_text r) ≡ some r
unfolding role_of
role_of-role_text UserRole.sponsor = refl
role_of-role_text UserRole.beneficiary = refl
role_of-role_text UserRole.vendor_admin = refl
role_of-role_text UserRole.vendor_cashier = refl
role_of-role_text UserRole.ops_agent = refl
role_of-role_text UserRole.compliance_officer = refl
role_of-role_text UserRole.admin = refl

abbrev Stored : ℕ → Result User × Db → Type 0
Stored k (ok u, db) = get user_key k db.users ≡ some u
Stored k (err e, db) = Unit

-- A user that provisioning returns is in the table, whatever other requests commit meanwhile.
stored :
    (others : Db → Db) (k : ℕ) (email role : String) (db : Db)
    → Stored k (get_or_create_user true others k email role db)
unfolding get_or_create_user
stored others k email role db = elim (Option-cases (get user_key k db.users)) [
  | inl absent ↦
      elim (Bool-cases (
        is_some (get user_key k (others db).users)
        || email_taken k (or_null email) (others db).users)) [
          | inl taken ↦
              let run : get_or_create_user true others k email role db
                  ≡ (err invalid_request, others db) =
                ground arith in
              left run tt
          | inr free ↦
              let u = new_user k (or_null email) (role_of role) none none none none in
              let run : get_or_create_user true others k email role db ≡ (
                ok u,
                record (others db) {
                  users = u ∷ (others db).users;
                  published =
                      identity (user_created u.id u.role u.email u.country) ∷ (others db).published;
                },
              ) =
                ground arith in
              left run (ground arith)
        ]
  | inr (u, there) ↦ elim (Option-cases u.role) [
    | inr (current, has) ↦
        let run : get_or_create_user true others k email role db ≡ (ok u, db) = ground arith in
        left run there
    | inl unset ↦ elim (Option-cases (role_of role)) [
      | inl unnamed ↦
          let run : get_or_create_user true others k email role db ≡ (ok u, db) = ground arith in
          left run there
      | inr (named, e) ↦ elim (Bool-cases (email_taken u.id u.email db.users)) [
        | inl taken ↦
            let run : get_or_create_user true others k email role db ≡ (err integrity_error, db) =
              ground arith in
            left run tt
        | inr free ↦
            let v : User = record u { role = some named } in
            let run : get_or_create_user true others k email role db
                ≡ (ok v, record db { users = replace user_key v db.users }) =
              ground arith in
            left run (
              subst (λ i. get user_key i (replace user_key v db.users) ≡ some v)
                (key-get user_key k db.users u there)
                (get-replace_self user_key v db.users u (get-key user_key k db.users u there)))
      ]
    ]
  ]
]
  where
    left :
        {r : Result User × Db}
        → get_or_create_user true others k email role db ≡ r
        → Stored k r
        → Stored k (get_or_create_user true others k email role db)
    left run h = subst (Stored k) (sym run) h

from_stored :
    (others : Db → Db) (claimed : CurrentUser) (u : User) (db : Db)
    → (get_or_create_user true others claimed.id claimed.email claimed.role db).0 ≡ ok u
    → get user_key claimed.id
        (get_or_create_user true others claimed.id claimed.email claimed.role db).1.users
      ≡ some u
from_stored others claimed u db known =
    let run = get_or_create_user true others claimed.id claimed.email claimed.role db in
    subst (λ r. Stored claimed.id (r, run.1)) known
      (stored others claimed.id claimed.email claimed.role db)

module _ (settings : AuthSettings) (tokens : Tokens) (others : Db → Db) where
  -- A request, from the result of `verify_token` on.
  abbrev goes_on : Result CurrentUser → Action CurrentUser
  goes_on verified = do
    row ← identified settings tokens others verified
    from_result (authoritative settings tokens row (or_401 settings tokens verified))

  goes_on-err :
      {P : Type 0}
      → (e : Error) (user : CurrentUser) (db db' : Db) → goes_on (err e) db ≡ (ok user, db')
      → P
  goes_on-err Error.authentication_error user db db' h = cc h
  goes_on-err e user db db' h = cc h

module _ (settings : AuthSettings) (tokens : Tokens) (others : Db → Db) (header : String)
    (db db' : Db) (user : CurrentUser) (row : User) (role : UserRole) where
  -- In production, where FastAPI reads the token out of the header that the middleware reads, the role of a request that gets a user is the role of that user's row: whatever role the token names, if the row has a role.
  pub current_user-HasRole :
      settings.dev_mode ≡ false
      → starts_with header "Bearer " ≡ true
      → tokens.bearer (some header) ≡ some (from_byte 7 header)
      → current_user settings tokens others (some header) db ≡ (ok user, db')
      → get user_key user.id db'.users ≡ some row
      → row.role ≡ some role
      → user.role ≡ role_text role
  unfolding current_user identify get_current_user
  current_user-HasRole production bearer same run there has =
      elim (Result-cases (verify_token settings tokens (from_byte 7 header))) [
        | inr (e, bad) ↦
            goes_on-err settings tokens others e user db db'
              (subst (λ r. goes_on settings tokens others r db ≡ (ok user, db')) bad whole)
        | inl (claimed, good) ↦
            elim (Result-cases
              (get_or_create_user true others claimed.id claimed.email claimed.role db).0) [
                | inr (e, failed) ↦ ground (arith, failed, start good)
                | inl (u, known) ↦
                    let kept = from_stored others claimed u db known in
                    elim (Option-cases u.role) [
                      | inl unset ↦
                          ground (arith, start good, known, kept, unset, production, there, has)
                      | inr (r, set) ↦
                          ground (arith, start good, known, kept, set, production, there, has)
                    ]
              ]
      ]
    where
      whole :
          goes_on settings tokens others (verify_token settings tokens (from_byte 7 header)) db
          ≡ (ok user, db')
      whole = ground (arith, run, bearer, same)

      start :
          {claimed : CurrentUser}
          → verify_token settings tokens (from_byte 7 header) ≡ ok claimed
          → goes_on settings tokens others (ok claimed) db ≡ (ok user, db')
      start good = subst (λ r. goes_on settings tokens others r db ≡ (ok user, db')) good whole
