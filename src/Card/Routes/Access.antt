-- ===== src/Card/Routes/Access.antt =====
-- Who may do what with cards (app/modules/card/routes.py).
use ufirst_backend.Base.{
  Bool, not, ℕ, ◌≡◌, inl, inr, ◌⊎◌, ◌∙◌, ◌==◌, none, some, [], ◌∷◌, true, arith, refl, Bool-cases,
  Option-cases, str_eq, ◌==◌, eq_iff,
}
use ufirst_backend.Base.Table.{get}
use ufirst_backend.Core.Errors.{not_found, permission_denied, http_error}
use ufirst_backend.Core.Auth.{CurrentUser, role_in}
use ufirst_backend.Db.{Db, Context, Action, ◌>>◌}
use ufirst_backend.Identity.Models.{User, KycStatus, kyc_status_eq}
use ufirst_backend.Identity.Repository.{user_key}
use ufirst_backend.Identity.Middleware.{guarded}
use ufirst_backend.Identity.Middleware.Guards.{Refuses->>=, guarded_lem}
use ufirst_backend.Identity.Links.{view}
use ufirst_backend.Wallet.Outcomes.{Refuses}
use ufirst_backend.Card.Models.{Card}
use ufirst_backend.Card.Repository.{card_key}
use ufirst_backend.Card.Service as service
use ufirst_backend.Card.Service.{Processor}
use ufirst_backend.Card.Routes.{
  CardCall, issue, read, activate, freeze, unfreeze, cancel, update, handle_card, managers,
  managed_card, default_program, get_card, may_issue, IssueCardRequest, issue_card, freeze_card,
  activate_card, unfreeze_card, cancel_card, update_spending_controls,
}

-- The role is one of operations.
abbrev pub IsStaff : CurrentUser → Type 0
IsStaff user = role_in user.role ("admin" ∷ "ops_agent" ∷ []) ≡ true

-- A card of a beneficiary whom the user sponsors.
abbrev pub Sponsors : CurrentUser → ℕ → Db → Type 0
Sponsors user card_id db =
    (c : Card) × (get card_key card_id db.cards ≡ some c)
    × (user.role ≡ "sponsor")
    × (view db user.id c.owner_id ≡ true)

-- What a read asks for: a card, and a role or the ownership of it.
abbrev pub Reads : CurrentUser → ℕ → Db → Type 0
Reads user card_id db =
    (c : Card) × (get card_key card_id db.cards ≡ some c)
    × ((user.id ≡ c.owner_id)
        ⊎ (role_in user.role ("admin" ∷ "ops_agent" ∷ "compliance_officer" ∷ []) ≡ true))

-- What an issue asks for: a sponsor with an active link, and a beneficiary with approved KYC.
abbrev pub Issues : CurrentUser → IssueCardRequest → Db → Type 0
Issues user body db =
    (b : User) × (user.role ≡ "sponsor")
    × (view db user.id body.beneficiary_id ≡ true)
    × (get user_key body.beneficiary_id db.users ≡ some b)
    × (b.kyc_status ≡ KycStatus.approved)

-- A read by a sponsor is left out: the route does not ask for a link.
abbrev pub is_covered : CurrentUser → CardCall → Bool
is_covered user (read card_id) = not (str_eq user.role "sponsor")
is_covered user _ = true

-- The rules of access.
unfoldable pub Permits : CurrentUser → CardCall → Db → Type 0
Permits user (issue body) db = Issues user body db
Permits user (read card_id) db = Reads user card_id db
Permits user (activate card_id) db = IsStaff user
Permits user (freeze card_id) db = IsStaff user ⊎ Sponsors user card_id db
Permits user (unfreeze card_id) db = IsStaff user ⊎ Sponsors user card_id db
Permits user (cancel card_id) db = IsStaff user ⊎ Sponsors user card_id db
Permits user (update card_id controls) db = IsStaff user ⊎ Sponsors user card_id db

managed_card_lem :
    (card_id : ℕ) (user : CurrentUser) (db : Db)
    → role_in user.role managers ≡ true
    → Refuses (managed_card card_id user) db ⊎ (IsStaff user ⊎ Sponsors user card_id db)
unfolding managed_card
managed_card_lem card_id user db manager = elim (Option-cases (get card_key card_id db.cards)) [
  | inl missing ↦ inl (not_found, ground arith)
  | inr (c, here) ↦ elim (Bool-cases (str_eq user.role "sponsor")) [
    | inr staff ↦ inr (inl (ground (arith, manager, staff)))
    | inl sponsor ↦ elim (Bool-cases (view db user.id c.owner_id)) [
      | inl linked ↦ inr (inr (c, here, (eq_iff user.role "sponsor").0 sponsor, linked))
      | inr unlinked ↦ inl (permission_denied, ground arith)
    ]
  ]
]

-- A route of managers whose handler begins with `managed_card`.
managed_lem :
    {A : Type 0}
    → (card_id : ℕ) (call : CurrentUser → Action A) (user : CurrentUser) (db : Db)
    → (IsStaff user ⊎ Sponsors user card_id db)
      ⊎ Refuses (guarded managers (λ u. managed_card card_id u >> call u) user) db
managed_lem card_id call user db =
    elim (guarded_lem managers (λ u. managed_card card_id u >> call u) user db) [
      | inl refused ↦ inr refused
      | inr (manager, run) ↦ elim (managed_card_lem card_id user db manager) [
        | inr may ↦ inl may
        | inl refused ↦
            let (e, stop) = Refuses->>= (managed_card card_id user) (λ x. call user) db refused in
            inr (e, run ∙ stop)
      ]
    ]

is_approved : (s : KycStatus) → kyc_status_eq s KycStatus.approved ≡ true → s ≡ KycStatus.approved
is_approved KycStatus.approved h = refl
is_approved KycStatus.pending h = cc h
is_approved KycStatus.submitted h = cc h
is_approved KycStatus.rejected h = cc h

issue_card_lem :
    (processor : Processor) (ctx : Context) (body : IssueCardRequest) (user : CurrentUser) (db : Db)
    → (role_in user.role ("sponsor" ∷ []) ≡ true)
    → Issues user body db ⊎ Refuses (may_issue processor ctx body user) db
unfolding may_issue
issue_card_lem processor ctx body user db sponsor =
    elim (Bool-cases (view db user.id body.beneficiary_id)) [
      | inr unlinked ↦ inr (permission_denied, ground arith)
      | inl linked ↦ elim (Option-cases (get user_key body.beneficiary_id db.users)) [
        | inl absent ↦ inr (not_found, ground arith)
        | inr (b, there) ↦ elim (Bool-cases (kyc_status_eq b.kyc_status KycStatus.approved)) [
          | inr unknown ↦ inr (http_error 422, ground arith)
          | inl approved ↦ inl (
            b,
            (eq_iff user.role "sponsor").0 (ground (arith, sponsor)),
            linked,
            there,
            is_approved b.kyc_status approved,
          )
        ]
      ]
    ]

module _ (processor : Processor) (ctx : Context) (user : CurrentUser) (db : Db) where
  -- Every request for a card, except the read by a sponsor, is permitted, or it raises and changes nothing: a card is issued by a sponsor with an active link to a beneficiary whose KYC is approved; the route /activate is for the roles admin and ops_agent, and the routes that freeze, unfreeze, cancel and control a card are for these and for a sponsor with an active link to its owner; and a card is read by its owner and by the roles admin, ops_agent and compliance_officer.
  pub handle_card-Permits :
      (call : CardCall)
      → is_covered user call ≡ true
      → Permits user call db ⊎ Refuses (handle_card processor ctx call user) db
  unfolding Permits handle_card get_card issue_card freeze_card unfreeze_card cancel_card
      update_spending_controls
  handle_card-Permits (issue body) covered =
      elim (guarded_lem ("sponsor" ∷ []) (issue_card processor ctx body) user db) [
        | inl refused ↦ inr refused
        | inr (sponsor, run) ↦ elim (issue_card_lem processor ctx body user db sponsor) [
          | inl may ↦ inl may
          | inr refused ↦
              let (e, stop) =
                Refuses->>= (may_issue processor ctx body user)
                  (λ w.
                    service.issue_card processor ctx w body.beneficiary_id user.id
                      body.spending_controls default_program)
                  db refused in
              inr (e, run ∙ stop)
        ]
      ]
  handle_card-Permits (read card_id) covered = elim (Option-cases (get card_key card_id db.cards)) [
    | inl missing ↦ inr (not_found, ground arith)
    | inr (c, here) ↦ elim (Bool-cases (user.id == c.owner_id)) [
      | inl own ↦ inl (c, here, inl (ground (arith, own)))
      | inr other ↦
          elim (Bool-cases
            (role_in user.role ("sponsor" ∷ "admin" ∷ "ops_agent" ∷ "compliance_officer" ∷ []))) [
              | inl reader ↦ inl (c, here, inr (ground (arith, reader, covered)))
              | inr stranger ↦ inr (permission_denied, ground arith)
            ]
    ]
  ]
  handle_card-Permits (activate card_id) covered =
      elim (guarded_lem ("admin" ∷ "ops_agent" ∷ []) (activate_card processor ctx card_id) user
        db) [ inl refused ↦ inr refused | inr (staff, run) ↦ inl staff ]
  handle_card-Permits (freeze card_id) covered =
      managed_lem card_id (λ u. service.freeze_card processor ctx card_id u.id none) user db
  handle_card-Permits (unfreeze card_id) covered =
      managed_lem card_id (λ u. service.unfreeze_card processor ctx card_id u.id) user db
  handle_card-Permits (cancel card_id) covered =
      managed_lem card_id (λ u. service.cancel_card processor ctx card_id u.id none) user db
  handle_card-Permits (update card_id controls) covered =
      managed_lem card_id
        (λ u. service.update_spending_controls processor ctx card_id u.id controls) user db
