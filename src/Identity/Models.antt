-- ===== src/Identity/Models.antt =====
-- The enumerations and rows of app/modules/identity/models.py, the requests of
-- app/modules/identity/schemas.py, and the events of app/modules/identity/events.py. The columns
-- `created_at` and `updated_at` and the ids of links are left out.
use ufirst_backend.Base.{ℕ, String, Option, Bool, ◌==◌}

pub data UserRole : Type 0 where
  sponsor beneficiary vendor_admin vendor_cashier ops_agent compliance_officer admin : UserRole

pub data KycStatus : Type 0 where
  pending submitted approved rejected : KycStatus

pub data KycSubmissionStatus : Type 0 where
  pending under_review approved rejected : KycSubmissionStatus

pub data LinkStatus : Type 0 where
  active suspended : LinkStatus

-- The place of a member in its enumeration; two members are equal if their places are.
abbrev pub role_index : UserRole → ℕ
role_index UserRole.sponsor = 0
role_index UserRole.beneficiary = 1
role_index UserRole.vendor_admin = 2
role_index UserRole.vendor_cashier = 3
role_index UserRole.ops_agent = 4
role_index UserRole.compliance_officer = 5
role_index UserRole.admin = 6

-- `role.value`
abbrev pub role_text : UserRole → String
role_text UserRole.sponsor = "sponsor"
role_text UserRole.beneficiary = "beneficiary"
role_text UserRole.vendor_admin = "vendor_admin"
role_text UserRole.vendor_cashier = "vendor_cashier"
role_text UserRole.ops_agent = "ops_agent"
role_text UserRole.compliance_officer = "compliance_officer"
role_text UserRole.admin = "admin"

abbrev pub role_eq : UserRole → UserRole → Bool
role_eq a b = role_index a == role_index b

abbrev pub kyc_status_index : KycStatus → ℕ
kyc_status_index KycStatus.pending = 0
kyc_status_index KycStatus.submitted = 1
kyc_status_index KycStatus.approved = 2
kyc_status_index KycStatus.rejected = 3

abbrev pub kyc_status_eq : KycStatus → KycStatus → Bool
kyc_status_eq a b = kyc_status_index a == kyc_status_index b

abbrev pub link_status_index : LinkStatus → ℕ
link_status_index LinkStatus.active = 0
link_status_index LinkStatus.suspended = 1

abbrev pub link_status_eq : LinkStatus → LinkStatus → Bool
link_status_eq a b = link_status_index a == link_status_index b

pub record User : Type 0 where
  pub id : ℕ
  pub email : Option String
  pub phone : Option String
  pub full_name : Option String
  pub role : Option UserRole
  pub kyc_status : KycStatus
  pub country : Option String
  pub beneficiary_relationship : Option String

pub record KycSubmission : Type 0 where
  pub id : ℕ
  pub user_id : ℕ
  pub status : KycSubmissionStatus
  pub document_refs : Option String
  pub provider_ref : Option String
  pub reviewer_notes : Option String

pub record SponsorBeneficiaryLink : Type 0 where
  pub sponsor_id : ℕ
  pub beneficiary_id : ℕ
  pub status : LinkStatus

pub record CompleteProfileRequest : Type 0 where
  pub email : Option String
  pub country : Option String
  pub phone : Option String
  pub full_name : Option String
  pub role : Option String
  pub beneficiary_relationship : Option String

pub record CreateBeneficiaryRequest : Type 0 where
  pub full_name : String
  pub phone : String
  pub country : String
  pub beneficiary_relationship : String
  pub email : Option String

pub data Event : Type 0 where
  user_created : (user_id : ℕ) (role : Option UserRole) (email country : Option String) → Event
  kyc_status_changed : (user_id : ℕ) (old_status new_status : KycStatus) → Event
  sponsor_beneficiary_linked : (sponsor_id beneficiary_id : ℕ) → Event
