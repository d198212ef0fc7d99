-- ===== src/Tests/Identities.antt =====
-- The theorems on users and links, applied to a sponsor who takes in and lets go a beneficiary.
use ufirst_backend.Base.{true, ◌≡◌, refl, none, some, List, [], ◌∷◌, if◌then◌else◌}
use ufirst_backend.Core.Errors.{ok, err, permission_denied}
use ufirst_backend.Db.{Db}
use ufirst_backend.Identity.Models.{
  User, UserRole, KycStatus, CreateBeneficiaryRequest, CompleteProfileRequest,
}
use ufirst_backend.Identity.Service.{
  complete_profile, get_or_create_user, role_of, verify_sponsor_beneficiary_link,
}
use ufirst_backend.Identity.Links.{
  LinkStep, step_all, meaning_all, view, verify_sponsor_beneficiary_link_refines,
}
use ufirst_backend.Identity.Accounts.{get_or_create_user_again}
use ufirst_backend.Identity.Roles.{HasRole, complete_profile-HasRole}
use ufirst_backend.Tests.Data.{ctx, later, database}

abbrev kofi : User
kofi = record {
  id = 9;
  email = some "kofi@example.com";
  phone = none;
  full_name = none;
  role = some UserRole.sponsor;
  kyc_status = KycStatus.pending;
  country = some "GB";
  beneficiary_relationship = none;
}

abbrev people : Db
people = record database { users = kofi ∷ [] }

abbrev esi : CreateBeneficiaryRequest
esi = record {
  full_name = "Esi";
  phone = "+233";
  country = "GH";
  beneficiary_relationship = "sibling";
  email = some "esi@example.com";
}

abbrev steps : List LinkStep
steps = LinkStep.create ctx 9 esi ∷ LinkStep.create later 9 esi ∷ LinkStep.remove 9 90 ∷ []

verify_sponsor_beneficiary_link_refines_example :
    verify_sponsor_beneficiary_link 9 90 (step_all steps people) ≡ (
      if meaning_all steps people (view people) 9 90 then ok tt else err permission_denied,
      step_all steps people,
    )
verify_sponsor_beneficiary_link_refines_example =
    verify_sponsor_beneficiary_link_refines steps people 9 90

abbrev first_call : Db
first_call = (get_or_create_user true (λ x. x) 7 "ama@example.com" "beneficiary" people).1

abbrev provisioned : User
provisioned = record kofi {
  id = 7;
  email = some "ama@example.com";
  role = some UserRole.beneficiary;
  country = none;
}

provisions :
    get_or_create_user true (λ x. x) 7 "ama@example.com" "beneficiary" people
    ≡ (ok provisioned, first_call)
unfolding get_or_create_user role_of
provisions = refl

get_or_create_user_again_example :
    get_or_create_user true (λ x. x) 7 "ama@example.com" "beneficiary" first_call
    ≡ (ok provisioned, first_call)
get_or_create_user_again_example =
    get_or_create_user_again true 7 "ama@example.com" "beneficiary" people first_call provisioned
      provisions

abbrev ambition : CompleteProfileRequest
ambition = record {
  email = none;
  country = some "FR";
  phone = none;
  full_name = some "Kofi";
  role = some "sponsor";
  beneficiary_relationship = none;
}

complete_profile-HasRole_example : HasRole 9 UserRole.sponsor (complete_profile 9 ambition people).1
complete_profile-HasRole_example =
    complete_profile-HasRole 9 UserRole.sponsor 9 ambition people (kofi, refl, refl)
