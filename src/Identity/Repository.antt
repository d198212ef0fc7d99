-- ===== src/Identity/Repository.antt =====
-- The queries and updates of app/modules/identity/repository.py. A flush raises IntegrityError
-- where a unique constraint refuses the row: the id and the email of a user, and the pair of a link.
use ufirst_backend.Base.{
  ℕ, String, Option, none, some, List, [], ◌∷◌, Bool, false, not, ◌&&◌, ◌||◌, ◌==◌, str_eq, is_some,
  if◌then◌else◌,
}
use ufirst_backend.Base.Table.{get, find, replace}
use ufirst_backend.Core.Errors.{integrity_error}
use ufirst_backend.Db.{Context, Action, pure, gets, modify, raise_if, ◌>>=◌, ◌>>◌}
use ufirst_backend.Identity.Models.{
  User, UserRole, KycStatus, KycSubmission, KycSubmissionStatus, LinkStatus, link_status_eq,
  SponsorBeneficiaryLink,
}

abbrev pub user_key : User → ℕ
user_key u = u.id

abbrev pub submission_key : KycSubmission → ℕ
submission_key s = s.id

-- Users.

abbrev pub get_user : ℕ → Action (Option User)
get_user user_id = gets λ db. get user_key user_id db.users

abbrev pub has_email : String → User → Bool
has_email email u = elim u.email [ none ↦ false | some e ↦ str_eq e email ]

abbrev pub get_user_by_email : String → Action (Option User)
get_user_by_email email = gets λ db. find (has_email email) db.users

-- Another user has this email.
abbrev pub taken_by_other : ℕ → String → User → Bool
taken_by_other user_id email u = has_email email u && not (u.id == user_id)

abbrev pub email_taken : ℕ → Option String → List User → Bool
email_taken user_id none users = false
email_taken user_id (some email) users = is_some (find (taken_by_other user_id email) users)

abbrev pub save_user : User → Action User
save_user u = do
  raise_if (← gets λ db. email_taken u.id u.email db.users) integrity_error
  modify λ db. record db { users = replace user_key u db.users }
  pure u

-- The columns that `create_user` takes, without the role.
abbrev pub new_user :
    ℕ
    → Option String
    → Option UserRole
    → (phone full_name country relationship : Option String) → User
new_user user_id email role phone full_name country relationship = record {
  id = user_id;
  email = email;
  phone = phone;
  full_name = full_name;
  role = role;
  kyc_status = KycStatus.pending;
  country = country;
  beneficiary_relationship = relationship;
}

abbrev pub create_user : User → Action User
create_user u = do
  same_id ← get_user u.id
  other ← gets λ db. email_taken u.id u.email db.users
  raise_if (is_some same_id || other) integrity_error
  modify λ db. record db { users = u ∷ db.users }
  pure u

-- `if value is not None: column = value`
abbrev pub given_or {ℓ} : {A : Type ℓ} → Option A → Option A → Option A
given_or none old = old
given_or (some value) old = some value

abbrev pub with_profile :
    (email country phone full_name relationship : Option String) → Option UserRole → User → User
with_profile email country phone full_name relationship role u = record u {
  email = given_or email u.email;
  country = given_or country u.country;
  phone = given_or phone u.phone;
  full_name = given_or full_name u.full_name;
  beneficiary_relationship = given_or relationship u.beneficiary_relationship;
  role = given_or role u.role;
}

abbrev pub upsert_found : (User → User) → Option User → Action (Option User)
upsert_found change none = pure none
upsert_found change (some u) = do saved ← save_user (change u); pure (some saved)

unfoldable pub upsert_profile :
    ℕ
    → (email country phone full_name relationship : Option String) → Option UserRole
    → Action (Option User)
upsert_profile user_id email country phone full_name relationship role = do
  user ← get_user user_id
  upsert_found (with_profile email country phone full_name relationship role) user

-- The status changes, and the reference of the provider is not stored.
abbrev pub with_kyc : KycStatus → User → User
with_kyc status u = record u { kyc_status = status }

abbrev pub kyc_found : KycStatus → Option User → Action (Option User)
kyc_found status none = pure none
kyc_found status (some u) = do
  modify λ db. record db { users = replace user_key (with_kyc status u) db.users }
  pure (some (with_kyc status u))

unfoldable pub update_kyc_status : ℕ → KycStatus → Option String → Action (Option User)
update_kyc_status user_id status provider_ref = do user ← get_user user_id; kyc_found status user

-- Submissions.

unfoldable pub create_kyc_submission : Context → ℕ → Option String → Action KycSubmission
create_kyc_submission ctx user_id document_refs = do
  let submission : KycSubmission = record {
    id = ctx.new_id;
    user_id = user_id;
    status = KycSubmissionStatus.pending;
    document_refs = document_refs;
    provider_ref = none;
    reviewer_notes = none;
  }
  modify λ db. record db { kyc_submissions = submission ∷ db.kyc_submissions }
  pure submission

abbrev submission_found :
    KycSubmissionStatus
    → (provider_ref reviewer_notes : Option String) → Option KycSubmission
    → Action (Option KycSubmission)
submission_found status provider_ref reviewer_notes none = pure none
submission_found status provider_ref reviewer_notes (some s) = do
  let changed = record s {
    status = status;
    provider_ref = given_or provider_ref s.provider_ref;
    reviewer_notes = given_or reviewer_notes s.reviewer_notes;
  }
  modify λ db. record db { kyc_submissions = replace submission_key changed db.kyc_submissions }
  pure (some changed)

unfoldable pub update_kyc_submission :
    ℕ
    → KycSubmissionStatus
    → (provider_ref reviewer_notes : Option String) → Action (Option KycSubmission)
update_kyc_submission submission_id status provider_ref reviewer_notes = do
  submission ← gets λ db. get submission_key submission_id db.kyc_submissions
  submission_found status provider_ref reviewer_notes submission

-- Links.

abbrev pub is_link : ℕ → ℕ → SponsorBeneficiaryLink → Bool
is_link sponsor_id beneficiary_id l =
    l.sponsor_id == sponsor_id && l.beneficiary_id == beneficiary_id

abbrev pub get_link : ℕ → ℕ → Action (Option SponsorBeneficiaryLink)
get_link sponsor_id beneficiary_id = gets λ db. find (is_link sponsor_id beneficiary_id) db.links

unfoldable pub create_link : ℕ → ℕ → Action SponsorBeneficiaryLink
create_link sponsor_id beneficiary_id = do
  existing ← get_link sponsor_id beneficiary_id
  raise_if (is_some existing) integrity_error
  let link : SponsorBeneficiaryLink = record {
    sponsor_id = sponsor_id;
    beneficiary_id = beneficiary_id;
    status = LinkStatus.active;
  }
  modify λ db. record db { links = link ∷ db.links }
  pure link

-- The status of the row under the pair; the pair is unique.
abbrev pub set_status :
    ℕ → ℕ → LinkStatus → List SponsorBeneficiaryLink → List SponsorBeneficiaryLink
set_status sponsor_id beneficiary_id status [] = []
set_status sponsor_id beneficiary_id status (l ∷ links) =
    (if is_link sponsor_id beneficiary_id l then record l { status = status } else l)
    ∷ set_status sponsor_id beneficiary_id status links

abbrev link_found :
    ℕ → ℕ → LinkStatus → Option SponsorBeneficiaryLink → Action (Option SponsorBeneficiaryLink)
link_found sponsor_id beneficiary_id status none = pure none
link_found sponsor_id beneficiary_id status (some l) = do
  modify λ db. record db { links = set_status sponsor_id beneficiary_id status db.links }
  pure (some (record l { status = status }))

unfoldable pub update_link_status : ℕ → ℕ → LinkStatus → Action (Option SponsorBeneficiaryLink)
update_link_status sponsor_id beneficiary_id status = do
  link ← get_link sponsor_id beneficiary_id
  link_found sponsor_id beneficiary_id status link

-- The join of the users with the sponsor's active links.
abbrev pub linked : ℕ → List SponsorBeneficiaryLink → User → Bool
linked sponsor_id links u = elim (find (is_link sponsor_id u.id) links) [
  | none ↦ false
  | some l ↦ link_status_eq l.status LinkStatus.active
]

abbrev linked_users : ℕ → List SponsorBeneficiaryLink → List User → List User
linked_users sponsor_id links [] = []
linked_users sponsor_id links (u ∷ users) =
    if linked sponsor_id links u
    then u ∷ linked_users sponsor_id links users
    else linked_users sponsor_id links users

abbrev pub list_beneficiaries : ℕ → Action (List User)
list_beneficiaries sponsor_id = gets λ db. linked_users sponsor_id db.links db.users
