-- ===== src/Identity/Roles.antt =====
-- The role of a user (app/modules/identity/service.py): once it is set, no operation changes it.
use ufirst_backend.Base.{
  ℕ, ◌≡◌, inl, inr, ◌⊎◌, String, Option, none, some, false, arith, refl, ◌∙◌, sym, ap, subst,
  Bool-cases, Option-cases, ◌==◌, ◌||◌, is_some,
}
use ufirst_backend.Base.Table.{get, replace, get-replace_ne, get-replace_self, key-get}
use ufirst_backend.Core.Errors.{Error, ok, err, not_found, validation_error, permission_denied}
use ufirst_backend.Db.{Db, Action, ◌>>=◌, pure, or_raise}
use ufirst_backend.Db.Keeps.{Keeps, Keeps->>=, after->>=, next}
use ufirst_backend.Identity.Service.{
  complete_profile, checked_role, has_role, announce, role_of, self_assignable,
}
use ufirst_backend.Identity.Models.{CompleteProfileRequest, User, UserRole}
use ufirst_backend.Identity.Repository.{
  upsert_profile, with_profile, user_key, email_taken, save_user, create_user, given_or,
  upsert_found,
}

-- The user under this id has this role.
abbrev pub HasRole : ℕ → UserRole → Db → Type 0
HasRole k role db = (u : User) × (get user_key k db.users ≡ some u) × (u.role ≡ some role)

abbrev role_of_row : Option User → Option UserRole
role_of_row none = none
role_of_row (some u) = u.role

module _ (k : ℕ) (role : UserRole) where
  -- A row that replaces a user keeps the role, or is of another user.
  replace-HasRole :
      (v : User) (db : Db)
      → (v.id ≡ k → v.role ≡ some role)
      → HasRole k role db
      → HasRole k role (record db { users = replace user_key v db.users })
  replace-HasRole v db safe (u, there, has) = elim (Bool-cases (v.id == k)) [
    | inl hit ↦
        let same : v.id ≡ k = ground (arith, hit) in
        (
          v,
          subst (λ i. get user_key i (replace user_key v db.users) ≡ some v) same
              (get-replace_self user_key v db.users u
                (subst (λ i. get user_key i db.users ≡ some u) (sym same) there)),
          safe same,
        )
    | inr miss ↦ (u, get-replace_ne user_key k v db.users (ground (arith, miss)) ∙ there, has)
  ]

  save_user-HasRole :
      (v : User) → (v.id ≡ k → v.role ≡ some role) → Keeps (HasRole k role) (save_user v)
  save_user-HasRole v safe db h = elim (Bool-cases (email_taken v.id v.email db.users)) [
    | inl taken ↦ rw taken h
    | inr free ↦ rw free (replace-HasRole v db safe h)
  ]

  create_user-HasRole : (v : User) → Keeps (HasRole k role) (create_user v)
  create_user-HasRole v db (u, there, has) =
      elim (Bool-cases
        (is_some (get user_key v.id db.users) || email_taken v.id v.email db.users)) [
          | inl taken ↦ rw taken (u, there, has)
          | inr free ↦
              let absent : get user_key v.id db.users ≡ none = ground (arith, free) in
              rw free (u, ground (arith, absent, there), has)
        ]

  with_profile-HasRole :
      (user_id : ℕ) (change : User → User) (db : Db)
      → ((u : User) → (change u).id ≡ u.id)
      → ((u : User)
          → u.role ≡ some role
          → get user_key user_id db.users ≡ some u
          → (change u).role ≡ some role)
      → HasRole k role db
      → HasRole k role (upsert_found change (get user_key user_id db.users) db).1
  with_profile-HasRole user_id change db own kept (u, there, has) =
      elim (Option-cases (get user_key user_id db.users)) [
        | inl absent ↦ rw absent (u, there, has)
        | inr (v, found) ↦
            let safe : (change v).id ≡ k → (change v).role ≡ some role = λ same.
              let one : some v ≡ some u =
                sym found
                ∙ ap (λ i. get user_key i db.users)
                    (sym (key-get user_key user_id db.users v found) ∙ sym (own v) ∙ same)
                ∙ there in
              kept v (ap role_of_row one ∙ has) found in
            rw found (
              Keeps->>= (HasRole k role) (save_user (change v)) (λ saved. pure (some saved))
                (save_user-HasRole (change v) safe) (λ saved x h. h) db (u, there, has))
      ]

  abbrev concluded : Option UserRole → Option User → Action User
  concluded given changed = or_raise changed not_found >>= announce given

  concluded-HasRole :
      (given : Option UserRole) (changed : Option User)
      → Keeps (HasRole k role) (concluded given changed)
  concluded-HasRole none none db h = h
  concluded-HasRole none (some u) db h = h
  concluded-HasRole (some r) none db h = h
  concluded-HasRole (some r) (some u) db h = h

  module _ (user_id : ℕ) (request : CompleteProfileRequest) where
    abbrev upsert : Option UserRole → Action (Option User)
    upsert given =
        upsert_profile user_id request.email request.country request.phone request.full_name
          request.beneficiary_relationship given

    upsert-HasRole :
        (given : Option UserRole) (db : Db)
        → (given ≡ none) ⊎ (has_role (get user_key user_id db.users) ≡ false)
        → HasRole k role db
        → HasRole k role ((upsert given >>= concluded given) db).1
    unfolding upsert_profile
    upsert-HasRole given db free h =
        after->>= (HasRole k role) (upsert given) (concluded given) db
          (with_profile-HasRole user_id
            (with_profile request.email request.country request.phone request.full_name
              request.beneficiary_relationship given)
            db (λ u. refl) (kept given free) h)
          (concluded-HasRole given)
      where
        kept :
            (g : Option UserRole)
            → (g ≡ none) ⊎ (has_role (get user_key user_id db.users) ≡ false)
            → (u : User) → u.role ≡ some role
            → get user_key user_id db.users ≡ some u
            → given_or g u.role ≡ some role
        kept none free u has found = has
        kept (some r) (inl e) u has found = cc e
        kept (some r) (inr unset) u has found = ground (arith, unset, has, found)

    -- The check raises, or it passes a role on for a user without one.
    checked_role_lem :
        (o : Option String) (db : Db)
        → ((e : Error) × (checked_role user_id o db ≡ (err e, db)))
          ⊎ ((given : Option UserRole) × (checked_role user_id o db ≡ (ok given, db))
              × ((given ≡ none) ⊎ (has_role (get user_key user_id db.users) ≡ false)))
    checked_role_lem none db = inr (none, refl, inl refl)
    checked_role_lem (some value) db = elim (Option-cases (role_of value)) [
      | inl unknown ↦ inl (validation_error, ground arith)
      | inr (r, named) ↦ elim (Bool-cases (self_assignable r)) [
        | inr reserved ↦ inl (permission_denied, ground arith)
        | inl free ↦ elim (Bool-cases (has_role (get user_key user_id db.users))) [
          | inl set ↦ inl (validation_error, ground arith)
          | inr unset ↦ inr (some r, ground arith, inr unset)
        ]
      ]
    ]

    abbrev onboard : Option UserRole → Action User
    onboard given = upsert given >>= concluded given

    -- Onboarding changes no role that is set: a user that has a role before any user's call, with whatever profile and role it asks for, has the same role after it, whether the call returns or raises.
    pub complete_profile-HasRole :
        (db : Db) → HasRole k role db → HasRole k role (complete_profile user_id request db).1
    unfolding complete_profile
    complete_profile-HasRole db h = elim (checked_role_lem request.role db) [
      | inl (e, r) ↦
          let run : complete_profile user_id request db ≡ (err e, db) = ground arith in rw run h
      | inr (given, r, free) ↦
          subst (λ y. HasRole k role (next onboard y.1 y.0).1) (sym r)
            (upsert-HasRole given db free h)
    ]
