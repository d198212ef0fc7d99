-- ===== src/Identity/Accounts.antt =====
-- The accounts of users (app/modules/identity/service.py): what provisioning and onboarding do to
-- the row of a user, and to its role.
use ufirst_backend.Base.{
  false, Bool, if◌then◌else◌, ℕ, ◌≡◌, inl, inr, String, none, some, ◌∷◌, true, arith, sym, subst,
  Bool-cases, Option-cases,
}
use ufirst_backend.Base.Table.{get, replace, get-replace_self, key-get, get-key}
use ufirst_backend.Core.Errors.{Result, ok, err, integrity_error, invalid_request}
use ufirst_backend.Db.{Db, identity}
use ufirst_backend.Identity.Models.{User, user_created}
use ufirst_backend.Identity.Repository.{user_key, email_taken, new_user}
use ufirst_backend.Identity.Service.{get_or_create_user, role_of, or_null}

-- A new user whose email another user has is not provisioned.
get_or_create_user-taken :
    (in_begin : Bool) (user_id : ℕ) (email role : String) (db : Db)
    → get user_key user_id db.users ≡ none
    → email_taken user_id (or_null email) db.users ≡ true
    → get_or_create_user in_begin (λ x. x) user_id email role db
      ≡ (err (if in_begin then invalid_request else integrity_error), db)
unfolding get_or_create_user
get_or_create_user-taken true user_id email role db absent taken = ground arith
get_or_create_user-taken false user_id email role db absent taken = ground arith

-- The user is in the table, and has a role if the token names one.
abbrev Provisioned : ℕ → String → User → Db → Type 0
Provisioned user_id role u db =
    (get user_key user_id db.users ≡ some u) × (u.role ≡ none → role_of role ≡ none)

-- What a call that returns leaves.
abbrev Leaves : ℕ → String → Result User × Db → Type 0
Leaves user_id role (ok u, db) = Provisioned user_id role u db
Leaves user_id role (err e, db) = Unit

get_or_create_user_lem :
    (in_begin : Bool) (user_id : ℕ) (email role : String) (db : Db)
    → Leaves user_id role (get_or_create_user in_begin (λ x. x) user_id email role db)
unfolding get_or_create_user
get_or_create_user_lem in_begin user_id email role db =
    elim (Option-cases (get user_key user_id db.users)) [
      | inl absent ↦ elim (Bool-cases (email_taken user_id (or_null email) db.users)) [
        | inl taken ↦ left (get_or_create_user-taken in_begin user_id email role db absent taken) tt
        | inr free ↦
            let u = new_user user_id (or_null email) (role_of role) none none none none in
            let run : get_or_create_user in_begin (λ x. x) user_id email role db ≡ (
              ok u,
              record db {
                users = u ∷ db.users;
                published = identity (user_created u.id u.role u.email u.country) ∷ db.published;
              },
            ) =
              ground arith in
            left run (ground arith, λ e. e)
      ]
      | inr (u, there) ↦ elim (Option-cases u.role) [
        | inr (current, has) ↦
            let run : get_or_create_user in_begin (λ x. x) user_id email role db ≡ (ok u, db) =
              ground arith in
            left run (there, λ e. cc (has, e))
        | inl unset ↦ elim (Option-cases (role_of role)) [
          | inl unnamed ↦
              let run : get_or_create_user in_begin (λ x. x) user_id email role db ≡ (ok u, db) =
                ground arith in
              left run (there, λ e. unnamed)
          | inr (named, e) ↦ elim (Bool-cases (email_taken u.id u.email db.users)) [
            | inl taken ↦
                let run : get_or_create_user in_begin (λ x. x) user_id email role db
                    ≡ (err integrity_error, db) =
                  ground arith in
                left run tt
            | inr free ↦
                let v : User = record u { role = some named } in
                let run : get_or_create_user in_begin (λ x. x) user_id email role db
                    ≡ (ok v, record db { users = replace user_key v db.users }) =
                  ground arith in
                left run (
                  subst (λ k. get user_key k (replace user_key v db.users) ≡ some v)
                      (key-get user_key user_id db.users u there)
                      (get-replace_self user_key v db.users u
                        (get-key user_key user_id db.users u there)),
                  λ x. cc x,
                )
          ]
        ]
      ]
    ]
  where
    left :
        {r : Result User × Db}
        → get_or_create_user in_begin (λ x. x) user_id email role db ≡ r
        → Leaves user_id role r
        → Leaves user_id role (get_or_create_user in_begin (λ x. x) user_id email role db)
    left run h = subst (Leaves user_id role) (sym run) h

-- Provisioning twice is provisioning once, in the session of the middleware and in that of a route: the second call for a token returns the user of the first one and changes nothing.
pub get_or_create_user_again :
    (in_begin : Bool) (user_id : ℕ) (email role : String) (db db' : Db) (u : User)
    → get_or_create_user in_begin (λ x. x) user_id email role db ≡ (ok u, db')
    → get_or_create_user in_begin (λ x. x) user_id email role db' ≡ (ok u, db')
unfolding get_or_create_user
get_or_create_user_again in_begin user_id email role db db' u done =
    let known : Provisioned user_id role u db' =
      subst (Leaves user_id role) done (get_or_create_user_lem in_begin user_id email role db) in
    elim (Option-cases u.role) [
      | inr (current, has) ↦ ground (arith, known.0, has)
      | inl unset ↦ ground (arith, known.0, unset, known.1 unset)
    ]
