-- ===== src/Wallet/Tasks/Expiry.antt =====
-- The expiry of the transfers that nobody authorizes (app/modules/wallet/tasks.py).
use ufirst_backend.Base.{
  ℕ, ◌≡◌, inl, inr, ◌⊎◌, Option, none, some, List, [], ◌∷◌, Bool, true, false, arith, refl, ap,
  subst, ◌∙◌, sym, Bool-cases, Option-cases, ◌==◌, ◌||◌, ==_iff,
}
use ufirst_backend.Base.Table.{
  get, replace, filter, get-replace_ne, get-replace_self, key-get, get-key,
}
use ufirst_backend.Db.{Db, Context, in_transaction}
use ufirst_backend.Wallet.Models.{FundingTransfer, PaymentState}
use ufirst_backend.Wallet.Repository.{transfer_key}
use ufirst_backend.Wallet.PaymentRecords.{is_stale, ids_of}
use ufirst_backend.Wallet.Funding.{advance_funding_state, allowed, valid_transitions}
use ufirst_backend.Wallet.Funding.Outcomes.{moved}
use ufirst_backend.Wallet.Tasks.{expire_transfer, expire_each, expire_stale_authorizations}

abbrev member : ℕ → List ℕ → Bool
member k [] = false
member k (i ∷ ids) = (i == k) || member k ids

module _ (ctx : Context) where
  -- Every stale transfer under this id is still on the list.
  abbrev Listed : ℕ → List ℕ → List FundingTransfer → Type 0
  Listed k ids rows =
      (t : FundingTransfer)
      → get transfer_key k rows ≡ some t
      → is_stale ctx t ≡ true
      → member k ids ≡ true

  listed :
      (k : ℕ) (rows : List FundingTransfer) → Listed k (ids_of (filter (is_stale ctx) rows)) rows
  listed k [] t e stale = cc e
  listed k (x ∷ rows) t e stale = elim (Bool-cases (x.id == k)) [
    | inl hit ↦
        let there : is_stale ctx x ≡ true = ground (arith, hit, e, stale) in rw (there, hit) refl
    | inr miss ↦
        let rest : member k (ids_of (filter (is_stale ctx) rows)) ≡ true =
          listed k rows t (ground arith) stale in
        ground arith
  ]

  -- A stale transfer may expire.
  stale-allowed :
      (t : FundingTransfer)
      → is_stale ctx t ≡ true
      → allowed t.payment_state PaymentState.expired ≡ true
  unfolding allowed valid_transitions
  stale-allowed t e =
      let waits : t.payment_state ≡ PaymentState.awaiting_authorization = ground arith in
      rw waits refl

  abbrev expired : FundingTransfer → FundingTransfer
  expired t = moved ctx PaymentState.expired none none t

  abbrev found_stale : Option FundingTransfer → Bool
  found_stale none = false
  found_stale (some t) = is_stale ctx t

  -- What the expiry of one transfer does to the table.
  expire_outcome :
      (k : ℕ) (db : Db)
      → (((in_transaction (expire_transfer ctx k) db).1.funding_transfers ≡ db.funding_transfers)
          × ((t : FundingTransfer)
              → get transfer_key k db.funding_transfers ≡ some t
              → is_stale ctx t ≡ false))
        ⊎ ((t : FundingTransfer) × ((in_transaction (expire_transfer ctx k) db).1.funding_transfers
              ≡ replace transfer_key (expired t) db.funding_transfers)
            × (get transfer_key k db.funding_transfers ≡ some t))
  unfolding advance_funding_state
  expire_outcome k db = elim (Option-cases (get transfer_key k db.funding_transfers)) [
    | inl e ↦ inl (ground arith, λ t f. cc (e, f))
    | inr (t, e) ↦ elim (Bool-cases (allowed t.payment_state PaymentState.expired)) [
      | inl free ↦ inr (t, ground arith, e)
      | inr stuck ↦ inl (
        ground arith,
        λ u f. elim (Bool-cases (is_stale ctx u)) [
          | inl stale ↦ cc (stuck, e, f, stale-allowed u stale)
          | inr fresh ↦ fresh
        ],
      )
    ]
  ]

  -- Whatever the list, the transfers that are on it do not stay stale.
  expire_each-Listed :
      (ids : List ℕ) (db : Db) (k : ℕ)
      → Listed k ids db.funding_transfers
      → Listed k [] (expire_each ctx ids db).funding_transfers
  unfolding expire_each
  expire_each-Listed [] db k h = h
  expire_each-Listed (i ∷ ids) db k h =
      expire_each-Listed ids (in_transaction (expire_transfer ctx i) db).1 k
        (elim (expire_outcome i db) [
          | inl (same, fresh) ↦ rw same (λ t e stale. elim (Bool-cases (i == k)) [
            | inl hit ↦ cc (
              fresh t (
                  subst (λ j. get transfer_key j db.funding_transfers ≡ some t)
                    (sym ((==_iff i k).0 hit)) e),
              stale,
            )
            | inr miss ↦ ground (arith, h t e stale)
          ])
          | inr (u, changed, there) ↦
              let own : u.id ≡ i = key-get transfer_key i db.funding_transfers u there in
              rw changed (λ t e stale. elim (Bool-cases (i == k)) [
                | inl hit ↦
                    let now : get transfer_key u.id
                          (replace transfer_key (expired u) db.funding_transfers)
                        ≡ some (expired u) =
                      get-replace_self transfer_key (expired u) db.funding_transfers u
                        (get-key transfer_key i db.funding_transfers u there) in
                    let one : some t ≡ some (expired u) =
                      sym e
                      ∙ subst
                          (λ j.
                            get transfer_key j
                              (replace transfer_key (expired u) db.funding_transfers)
                            ≡ some (expired u))
                          (own ∙ (==_iff i k).0 hit) now in
                    cc (ap found_stale one, stale)
                | inr miss ↦
                    let before : get transfer_key k
                          (replace transfer_key (expired u) db.funding_transfers)
                        ≡ get transfer_key k db.funding_transfers =
                      get-replace_ne transfer_key k (expired u) db.funding_transfers
                        (λ same. cc ((==_iff i k).1 (sym own ∙ same), miss)) in
                    ground (arith, h t (sym before ∙ e) stale)
              ])
        ])

  -- After the task no transfer has waited for its authorization for more than 15 minutes: each one was moved on.
  pub expire_stale_authorizations_leaves_none :
      (db : Db) (k : ℕ) (t : FundingTransfer)
      → get transfer_key k (expire_stale_authorizations ctx db).funding_transfers ≡ some t
      → is_stale ctx t ≡ false
  unfolding expire_stale_authorizations
  expire_stale_authorizations_leaves_none db k t e = elim (Bool-cases (is_stale ctx t)) [
    | inl stale ↦ cc (
        expire_each-Listed (ids_of (filter (is_stale ctx) db.funding_transfers)) db k
          (listed k db.funding_transfers) t e stale)
    | inr fresh ↦ fresh
  ]
