-- ===== src/Wallet/Routes/Access.antt =====
-- Who may do what with a funding transfer (app/modules/wallet/routes.py).
use ufirst_backend.Base.{
  ℕ, ◌≡◌, inl, inr, ◌⊎◌, ◌∙◌, String, List, none, some, [], ◌∷◌, true, arith, Bool-cases,
  Option-cases, ◌==◌, eq_iff,
}
use ufirst_backend.Base.Table.{get}
use ufirst_backend.Core.Errors.{not_found, permission_denied}
use ufirst_backend.Core.Auth.{CurrentUser, role_in}
use ufirst_backend.Db.{Db, Context, Action, pure}
use ufirst_backend.Identity.Middleware.{guarded}
use ufirst_backend.Identity.Middleware.Guards.{Refuses->>=, guarded_lem}
use ufirst_backend.Wallet.Models.{FundingTransfer, PaymentState}
use ufirst_backend.Wallet.Repository.{transfer_key}
use ufirst_backend.Wallet.Outcomes.{Refuses}
use ufirst_backend.Wallet.Funding.{allowed}
use ufirst_backend.Wallet.Funding.Outcomes.{advance_outcome, credit_outcome}
use ufirst_backend.Wallet.Routes.{
  FundingCall, status, read, cancel, update, complete, handle_funding, readers,
  get_funding_transfer, get_funding_status, cancel_funding, update_funding_state, complete_funding,
  as_reply, Reply, transfer, wallet, UpdateFundingStateRequest,
}

abbrev pub IsStaff : CurrentUser → Type 0
IsStaff user = role_in user.role ("admin" ∷ "ops_agent" ∷ []) ≡ true

-- The transfer is there, and passes a test.
abbrev pub Finds : (FundingTransfer → Type 0) → ℕ → Db → Type 0
Finds P transfer_id db =
    (t : FundingTransfer) × (get transfer_key transfer_id db.funding_transfers ≡ some t) × P t

abbrev pub MayRead : CurrentUser → FundingTransfer → Type 0
MayRead user t = (t.sponsor_id ≡ user.id) ⊎ (role_in user.role readers ≡ true)

-- The rules of access.
unfoldable pub Permits : CurrentUser → FundingCall → Db → Type 0
Permits user (status transfer_id) db = Finds (MayRead user) transfer_id db
Permits user (read transfer_id) db = Finds (MayRead user) transfer_id db
Permits user (cancel transfer_id) db =
    (user.role ≡ "sponsor") × Finds (λ t. t.sponsor_id ≡ user.id) transfer_id db
Permits user (update transfer_id body) db =
    IsStaff user × Finds (λ t. allowed t.payment_state body.payment_state ≡ true) transfer_id db
Permits user (complete transfer_id) db = IsStaff user × Finds (λ t. Unit {0}) transfer_id db

module _ (ctx : Context) (user : CurrentUser) (db : Db) where
  read_lem :
      (transfer_id : ℕ)
      → Finds (MayRead user) transfer_id db ⊎ Refuses (get_funding_transfer transfer_id user) db
  unfolding get_funding_transfer
  read_lem transfer_id = elim (Option-cases (get transfer_key transfer_id db.funding_transfers)) [
    | inl missing ↦ inr (not_found, ground arith)
    | inr (t, here) ↦ elim (Bool-cases (t.sponsor_id == user.id)) [
      | inl own ↦ inl (t, here, inl (ground (arith, own)))
      | inr other ↦ elim (Bool-cases (role_in user.role readers)) [
        | inl reader ↦ inl (t, here, inr reader)
        | inr stranger ↦ inr (permission_denied, ground arith)
      ]
    ]
  ]

  cancel_lem :
      (transfer_id : ℕ)
      → Finds (λ t. t.sponsor_id ≡ user.id) transfer_id db
        ⊎ Refuses (cancel_funding ctx transfer_id user) db
  unfolding cancel_funding
  cancel_lem transfer_id = elim (Option-cases (get transfer_key transfer_id db.funding_transfers)) [
    | inl missing ↦ inr (not_found, ground arith)
    | inr (t, here) ↦ elim (Bool-cases (t.sponsor_id == user.id)) [
      | inr other ↦ inr (permission_denied, ground arith)
      | inl own ↦ elim (advance_outcome ctx transfer_id db PaymentState.cancelled none none) [
        | inl (e, run) ↦ inr (e, ground arith)
        | inr (t', run, here', free) ↦ inl (t', here', ground (arith, own, here, here'))
      ]
    ]
  ]

  -- A route whose handler is permitted or refuses.
  route_lem :
      {A P : Type 0}
      → (f : A → Reply) (roles : List String) (handler : CurrentUser → Action A)
      → P ⊎ Refuses (handler user) db
      → ((role_in user.role roles ≡ true) × P)
        ⊎ Refuses (as_reply f (guarded roles handler user)) db
  route_lem f roles handler known = elim (guarded_lem roles handler user db) [
    | inl refused ↦ inr (Refuses->>= (guarded roles handler user) (λ a. pure (f a)) db refused)
    | inr (fine, run) ↦ elim known [
      | inl may ↦ inl (fine, may)
      | inr (e, stop) ↦
          inr (Refuses->>= (guarded roles handler user) (λ a. pure (f a)) db (e, run ∙ stop))
    ]
  ]

  update_lem :
      (transfer_id : ℕ) (body : UpdateFundingStateRequest)
      → Finds (λ t. allowed t.payment_state body.payment_state ≡ true) transfer_id db
        ⊎ Refuses (update_funding_state ctx transfer_id body user) db
  unfolding update_funding_state
  update_lem transfer_id body =
      elim (advance_outcome ctx transfer_id db body.payment_state body.external_payment_ref
        body.failure_reason) [
          | inl refused ↦ inr refused
          | inr (t, run, here, free) ↦ inl (t, here, free)
        ]

  complete_lem :
      (transfer_id : ℕ)
      → Finds (λ t. Unit {0}) transfer_id db ⊎ Refuses (complete_funding ctx transfer_id user) db
  unfolding complete_funding
  complete_lem transfer_id = elim (credit_outcome ctx transfer_id db) [
    | inl refused ↦ inr refused
    | inr (t, w, run, here, ready, there) ↦ inl (t, here, tt)
  ]

  -- Every request for a funding transfer is permitted, or it raises and changes nothing: a transfer is read by its sponsor and by the roles admin, ops_agent and compliance_officer; it is cancelled only by its own sponsor, in the role of one; and it is moved to a state, along the transitions of the service, and completed by the roles admin and ops_agent.
  pub handle_funding-Permits :
      (call : FundingCall) → Permits user call db ⊎ Refuses (handle_funding ctx call user) db
  unfolding Permits handle_funding get_funding_status get_funding_transfer
  handle_funding-Permits (status transfer_id) = elim (read_lem transfer_id) [
    | inl may ↦ inl may
    | inr refused ↦
        inr
          (Refuses->>= (get_funding_transfer transfer_id user) (λ t. pure (transfer t)) db refused)
  ]
  handle_funding-Permits (read transfer_id) = elim (read_lem transfer_id) [
    | inl may ↦ inl may
    | inr refused ↦
        inr
          (Refuses->>= (get_funding_transfer transfer_id user) (λ t. pure (transfer t)) db refused)
  ]
  handle_funding-Permits (cancel transfer_id) =
      elim (route_lem transfer ("sponsor" ∷ []) (cancel_funding ctx transfer_id)
        (cancel_lem transfer_id)) [
          | inl (sponsor, may) ↦ inl ((eq_iff user.role "sponsor").0 (ground (arith, sponsor)), may)
          | inr refused ↦ inr refused
        ]
  handle_funding-Permits (update transfer_id body) =
      route_lem transfer ("admin" ∷ "ops_agent" ∷ []) (update_funding_state ctx transfer_id body)
        (update_lem transfer_id body)
  handle_funding-Permits (complete transfer_id) =
      route_lem wallet ("admin" ∷ "ops_agent" ∷ []) (complete_funding ctx transfer_id)
        (complete_lem transfer_id)
