-- ===== src/Wallet/Funding/Once.antt =====
-- A transfer is paid into its wallet at most once, and only by the step that completes it.
use ufirst_backend.Base.{
  ℕ, ◌+◌, ◌≡◌, inl, inr, ◌⊎◌, String, Option, some, none, List, [], ◌∷◌, arith, true, false, ◌==◌,
  ◌&&◌, str_eq, if◌then◌else◌, Bool, Bool-cases, refl, ap, ◌∙◌, subst, ==_iff,
}
use ufirst_backend.Base.Table.{get, replace, get-replace_ne, get-replace_self, key-get, get-key}
use ufirst_backend.Db.{Db, Context}
use ufirst_backend.Wallet.Models.{Wallet, EntryType, LedgerEntry, FundingTransfer, PaymentState}
use ufirst_backend.Wallet.Repository.{transfer_key}
use ufirst_backend.Wallet.Funding.{advance_funding_state, credit_from_funding, allowed}
use ufirst_backend.Wallet.Funding.Machine.{FundingStep, advance, credit, perform, perform_all}
use ufirst_backend.Wallet.Funding.Outcomes.{
  advance_outcome, credit_outcome, moved, with_transfer, funded,
}

abbrev is_credit : EntryType → Bool
is_credit EntryType.credit = true
is_credit EntryType.debit = false

-- An entry that pays the transfer of this id into a wallet.
abbrev pub pays_transfer : ℕ → LedgerEntry → Bool
pays_transfer transfer_id e =
    is_credit e.entry_type
    && (str_eq e.reference_type "funding_transfer" && e.reference_id == transfer_id)

abbrev pub payouts : ℕ → List LedgerEntry → ℕ
payouts transfer_id [] = 0
payouts transfer_id (e ∷ entries) =
    payouts transfer_id entries + (if pays_transfer transfer_id e then 1 else 0)

-- A transfer has no entry, or it is completed and has one.
abbrev pub PaidOnce : ℕ → Db → Type 0
PaidOnce k db =
    (payouts k db.ledger_entries ≡ 0)
    ⊎ ((payouts k db.ledger_entries ≡ 1)
        × (t : FundingTransfer) × (get transfer_key k db.funding_transfers ≡ some t)
        × (t.payment_state ≡ PaymentState.completed))

completed-stuck : (s to : PaymentState) → s ≡ PaymentState.completed → allowed s to ≡ false
unfolding allowed
completed-stuck s to e = rw e

pub advance-PaidOnce :
    (ctx : Context) (id : ℕ) (to : PaymentState) (ref reason : Option String) (db : Db) (k : ℕ)
    → PaidOnce k db
    → PaidOnce k (advance_funding_state ctx id to ref reason db).1
advance-PaidOnce ctx id to ref reason db k h = elim (advance_outcome ctx id db to ref reason) [
  | inl (e, r) ↦ rw r h
  | inr (old, r, there, free) ↦ rw r (kept old there free h)
]
  where
    kept :
        (old : FundingTransfer)
        → get transfer_key id db.funding_transfers ≡ some old
        → allowed old.payment_state to ≡ true
        → PaidOnce k db
        → PaidOnce k (with_transfer (moved ctx to ref reason old) db)
    kept old there free (inl unpaid) = inl unpaid
    kept old there free (inr (paid, t, here, done)) = inr (
      paid,
      t,
      get-replace_ne transfer_key k (moved ctx to ref reason old) db.funding_transfers (λ same.
            let one : old ≡ t =
              cc (here, there, key-get transfer_key id db.funding_transfers old there, same) in
            cc (free, completed-stuck old.payment_state to (ap (λ x. x.payment_state) one ∙ done)))
          ∙ here,
      done,
    )

pub credit-PaidOnce :
    (ctx : Context) (id : ℕ) (db : Db) (k : ℕ)
    → PaidOnce k db
    → PaidOnce k (credit_from_funding ctx id db).1
credit-PaidOnce ctx id db k h = elim (credit_outcome ctx id db) [
  | inl (e, r) ↦ rw r h
  | inr (old, w, r, there, ready, _) ↦ rw r (elim (Bool-cases (id == k)) [
    | inl e ↦
        let same : id ≡ k = (==_iff id k).0 e in
        inr (
          ground (arith, unpaid same old there ready h),
          moved ctx PaymentState.completed none none old,
          subst
              (λ i.
                get transfer_key i (
                  replace transfer_key (moved ctx PaymentState.completed none none old)
                    db.funding_transfers)
                ≡ some (moved ctx PaymentState.completed none none old))
              (key-get transfer_key id db.funding_transfers old there ∙ same)
              (get-replace_self transfer_key (moved ctx PaymentState.completed none none old)
                db.funding_transfers old (get-key transfer_key id db.funding_transfers old there)),
          refl,
        )
    | inr ne ↦ other old w ne (key-get transfer_key id db.funding_transfers old there) h
  ])
]
  where
    unpaid :
        id ≡ k
        → (old : FundingTransfer) → get transfer_key id db.funding_transfers ≡ some old
        → old.payment_state ≡ PaymentState.awaiting_settlement
        → PaidOnce k db
        → payouts k db.ledger_entries ≡ 0
    unpaid same old there ready (inl none_yet) = none_yet
    unpaid same old there ready (inr (_, t, here, done)) =
        let one : old ≡ t = cc (here, there, same) in
        cc (ap (λ x. x.payment_state) one, ready, done)

    other :
        (old : FundingTransfer) (w : Wallet)
        → (id == k) ≡ false
        → old.id ≡ id
        → PaidOnce k db
        → PaidOnce k (funded ctx id db old w)
    other old w ne own (inl none_yet) = inl (ground arith)
    other old w ne own (inr (paid, t, here, done)) = inr (
      ground arith,
      t,
      get-replace_ne transfer_key k (moved ctx PaymentState.completed none none old)
            db.funding_transfers (ground arith)
          ∙ here,
      done,
    )

-- Whatever advances and credits are made, in any order and number, a transfer that had at most one payment to its wallet (and that one by being completed) has at most one after them.
pub perform_all-PaidOnce :
    (steps : List FundingStep) (db : Db) (k : ℕ) → PaidOnce k db → PaidOnce k (perform_all steps db)
unfolding perform_all perform
perform_all-PaidOnce [] db k h = h
perform_all-PaidOnce (advance ctx id to ref reason ∷ steps) db k h =
    perform_all-PaidOnce steps _ k (advance-PaidOnce ctx id to ref reason db k h)
perform_all-PaidOnce (credit ctx id ∷ steps) db k h =
    perform_all-PaidOnce steps _ k (credit-PaidOnce ctx id db k h)
