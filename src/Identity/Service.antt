-- ===== src/Identity/Service.antt =====
-- `IdentityService` (app/modules/identity/service.py).
use ufirst_backend.Base.{
  ℕ, String, Option, none, some, List, Bool, true, false, not, str_eq, is_some, if◌then◌else◌,
}
use ufirst_backend.Core.Errors.{
  Error, ok, err, validation_error, permission_denied, not_found, integrity_error, invalid_request,
}
use ufirst_backend.Db.{
  Context, Db, Action, pure, raise, modify, or_raise, raise_if, publish, identity, ◌>>=◌, ◌>>◌,
}
use ufirst_backend.Identity.Models.{
  User, UserRole, role_eq, KycStatus, KycSubmission, LinkStatus, link_status_eq,
  SponsorBeneficiaryLink, CompleteProfileRequest, CreateBeneficiaryRequest, user_created,
  kyc_status_changed, sponsor_beneficiary_linked,
}
use ufirst_backend.Identity.Repository as repo
use ufirst_backend.Identity.Repository.{new_user}

-- `UserRole(value)`, none where it raises ValueError.
unfoldable pub role_of : String → Option UserRole
role_of value =
    if str_eq value "sponsor"
    then some UserRole.sponsor
    else if str_eq value "beneficiary"
    then some UserRole.beneficiary
    else if str_eq value "vendor_admin"
    then some UserRole.vendor_admin
    else if str_eq value "vendor_cashier"
    then some UserRole.vendor_cashier
    else if str_eq value "ops_agent"
    then some UserRole.ops_agent
    else if str_eq value "compliance_officer"
    then some UserRole.compliance_officer
    else if str_eq value "admin"
    then some UserRole.admin
    else none

-- `email or None`
abbrev pub or_null : String → Option String
or_null s = if str_eq s "" then none else some s

unfoldable pub get_user : ℕ → Action User
get_user user_id = do or_raise (← repo.get_user user_id) not_found

-- A user without a role adopts the role of the token, if that names one.
abbrev pub adopt_role : User → Option UserRole → Option UserRole → Action User
adopt_role u (some current) token_role = pure u
adopt_role u none none = pure u
adopt_role u none (some role) = repo.save_user (record u { role = some role })

abbrev pub on_integrity_error : {A : Type 0} → Action A → Action A → Action A
on_integrity_error handler m db =
    let (r, db') = m db in
    elim r [ ok a ↦ (ok a, db') | err Error.integrity_error ↦ handler db' | err e ↦ (err e, db') ]

abbrev tell_created : User → Action User
tell_created u = do publish (identity (user_created u.id u.role u.email u.country)); pure u

-- After the rollback of a lost race: the row of the winner. Inside `session.begin()` the rollback
-- has closed the transaction, and the query raises.
abbrev pub winner : (in_begin : Bool) → ℕ → Action User
winner true user_id = raise invalid_request
winner false user_id = do or_raise (← repo.get_user user_id) integrity_error

-- `others` is what other requests commit between the look-up and the insert.
abbrev pub provision : (in_begin : Bool) → (Db → Db) → ℕ → String → String → Action User
provision in_begin others user_id email role = do
  modify others
  let u = new_user user_id (or_null email) (role_of role) none none none none
  on_integrity_error (winner in_begin user_id) (repo.create_user u >>= tell_created)

abbrev known_or_new :
    (in_begin : Bool) → (Db → Db) → ℕ → String → String → Option User → Action User
known_or_new in_begin others user_id email role none = provision in_begin others user_id email role
known_or_new in_begin others user_id email role (some u) = adopt_role u u.role (role_of role)

-- The session is the one of the middleware, inside `session.begin()`, or that of a route.
unfoldable pub get_or_create_user :
    (in_begin : Bool) → (Db → Db) → ℕ → String → String → Action User
unfolding role_of
get_or_create_user in_begin others user_id email role = do
  existing ← repo.get_user user_id
  known_or_new in_begin others user_id email role existing

-- `_SELF_ASSIGNABLE_ROLES`
abbrev pub self_assignable : UserRole → Bool
self_assignable role = role_eq role UserRole.sponsor

abbrev pub has_role : Option User → Bool
has_role none = false
has_role (some u) = is_some u.role

-- The role of the request, checked.
abbrev pub checked_role : ℕ → Option String → Action (Option UserRole)
checked_role user_id none = pure none
checked_role user_id (some value) = do
  role ← or_raise (role_of value) validation_error
  raise_if (not (self_assignable role)) permission_denied
  existing ← repo.get_user user_id
  raise_if (has_role existing) validation_error
  pure (some role)

abbrev pub announce : Option UserRole → User → Action User
announce none u = pure u
announce (some role) u = tell_created u

unfoldable pub complete_profile : ℕ → CompleteProfileRequest → Action User
unfolding role_of
complete_profile user_id request = do
  role ← checked_role user_id request.role
  changed ←
      repo.upsert_profile user_id request.email request.country request.phone request.full_name
        request.beneficiary_relationship role
  user ← or_raise changed not_found
  announce role user

-- KYC.

unfoldable pub submit_kyc : Context → ℕ → Option String → Action KycSubmission
submit_kyc ctx user_id document_refs = do
  user ← or_raise (← repo.get_user user_id) not_found
  submission ← repo.create_kyc_submission ctx user_id document_refs
  repo.update_kyc_status user_id KycStatus.submitted none
  pure submission

unfoldable pub update_kyc_status : ℕ → KycStatus → Option String → Action User
update_kyc_status user_id new_status provider_ref = do
  user ← or_raise (← repo.get_user user_id) not_found
  changed ← repo.update_kyc_status user_id new_status provider_ref
  updated ← or_raise changed not_found
  publish (identity (kyc_status_changed user_id user.kyc_status new_status))
  pure updated

-- Links.

-- `caller is None or caller.role != UserRole.SPONSOR`
abbrev pub is_sponsor : Option User → Bool
is_sponsor none = false
is_sponsor (some u) = elim u.role [ none ↦ false | some role ↦ role_eq role UserRole.sponsor ]

abbrev pub sponsor_only : ℕ → Action (Unit {0})
sponsor_only sponsor_id = do
  caller ← repo.get_user sponsor_id
  raise_if (not (is_sponsor caller)) permission_denied

unfoldable pub list_beneficiaries : ℕ → Action (List User)
list_beneficiaries sponsor_id = do sponsor_only sponsor_id; repo.list_beneficiaries sponsor_id

-- `if request.email:` another user has it.
abbrev pub given_email : Option String → Option String
given_email none = none
given_email (some s) = or_null s

abbrev pub free_email : Option String → Action (Unit {0})
free_email none = pure tt
free_email (some email) = do
  existing ← repo.get_user_by_email email
  raise_if (is_some existing) validation_error

abbrev pub beneficiary_of : Context → CreateBeneficiaryRequest → User
beneficiary_of ctx request =
    new_user ctx.new_id (given_email request.email) (some UserRole.beneficiary) (some request.phone)
      (some request.full_name) (some request.country) (some request.beneficiary_relationship)

-- `uuid4` is the new id of the context.
unfoldable pub create_beneficiary : Context → ℕ → CreateBeneficiaryRequest → Action User
unfolding repo.create_link
create_beneficiary ctx sponsor_id request = do
  sponsor_only sponsor_id
  free_email (given_email request.email)
  beneficiary ←
      on_integrity_error (raise validation_error) (repo.create_user (beneficiary_of ctx request))
  repo.create_link sponsor_id beneficiary.id
  tell_created beneficiary
  publish (identity (sponsor_beneficiary_linked sponsor_id beneficiary.id))
  pure beneficiary

abbrev pub is_active : Option SponsorBeneficiaryLink → Bool
is_active none = false
is_active (some l) = link_status_eq l.status LinkStatus.active

abbrev pub not_suspended : Option SponsorBeneficiaryLink → Bool
not_suspended none = false
not_suspended (some l) = not (link_status_eq l.status LinkStatus.suspended)

unfoldable pub remove_beneficiary_link : ℕ → ℕ → Action (Unit {0})
unfolding repo.update_link_status
remove_beneficiary_link sponsor_id beneficiary_id = do
  sponsor_only sponsor_id
  link ← repo.get_link sponsor_id beneficiary_id
  raise_if (not (not_suspended link)) not_found
  repo.update_link_status sponsor_id beneficiary_id LinkStatus.suspended
  pure tt

unfoldable pub verify_sponsor_beneficiary_link : ℕ → ℕ → Action (Unit {0})
verify_sponsor_beneficiary_link sponsor_id beneficiary_id = do
  link ← repo.get_link sponsor_id beneficiary_id
  raise_if (not (is_active link)) permission_denied
