-- ===== src/History/Soundness.antt =====
-- No history of requests breaks the books or makes a balance negative.
use ufirst_backend.Base.{◌≡◌, inl, inr, String, Option, none, List, [], ◌∷◌, arith, refl, ℕ}
use ufirst_backend.Base.Int.{ℤ, pos, ◌≤ℤ◌}
use ufirst_backend.Base.Table.{All, All-find, All-replace, replace}
use ufirst_backend.Db.{Db, Context, Action, in_transaction, in_transaction-keeps}
use ufirst_backend.Wallet.Models.{PaymentState, FundingTransfer}
use ufirst_backend.Wallet.Repository.{FundingRequest, transfer_key}
use ufirst_backend.Wallet.Service.{create_wallet, debit_wallet}
use ufirst_backend.Wallet.Funding.{initiate_funding, advance_funding_state, credit_from_funding}
use ufirst_backend.Wallet.Outcomes.{create_outcome, debit_outcome}
use ufirst_backend.Wallet.Funding.Outcomes.{advance_outcome, credit_outcome, moved}
use ufirst_backend.Wallet.Funding.Start.{
  initiate-Start, refused, known, raced, conflicted, clashed, fresh, amounts-positive,
}
use ufirst_backend.Wallet.Books.{
  IsBooked, create_wallet-IsBooked, debit_wallet-IsBooked, credit_from_funding-IsBooked,
}
use ufirst_backend.Wallet.Solvency.{
  IsPayable, create_wallet-IsSolvent, debit_wallet-IsSolvent, credit_from_funding-IsSolvent,
}
use ufirst_backend.Wallet.Ledger.{IsSolvent}
use ufirst_backend.Transaction.Service.{authorize}
use ufirst_backend.Transaction.Payable.{
  authorize-IsPayable, process_clearing-IsPayable, process_reversal-IsPayable,
}
use ufirst_backend.Transaction.Safety.{
  IsSafe, authorize-IsSafe, process_clearing-IsSafe, process_reversal-IsSafe,
}
use ufirst_backend.History.{Request, serve, serve_all}

-- What every request keeps: the safety of card payments, and transfers that pay out no negative amount.
pub record IsSound (db : Db) : Type 0 where
  pub safe : IsSafe db
  pub payable : IsPayable db

-- A change of the balances, the ledger and the transfers only.
IsSound-change :
    (db db' : Db)
    → db'.authorizations ≡ db.authorizations
    → IsBooked db'
    → IsSolvent db'
    → IsPayable db'
    → IsSound db
    → IsSound db'
IsSound-change db db' same booked solvent payable s = record {
  safe = record {
    booked = booked;
    solvent = solvent;
    unique = rw same s.safe.unique;
    positive = rw same s.safe.positive;
  };
  payable = payable;
}

-- A transfer that moves on pays out what it did.
IsPayable-moved :
    (t : FundingTransfer) (db : Db)
    → pos 0 ≤ℤ t.dest_amount
    → IsPayable db
    → All (λ t. pos 0 ≤ℤ t.dest_amount) (replace transfer_key t db.funding_transfers)
IsPayable-moved t db paid h =
    All-replace _ _ transfer_key t db.funding_transfers paid (λ x ne old. old) h

create_wallet-IsSound :
    (ctx : Context) (owner : ℕ) (currency : String) (db : Db)
    → IsSound db
    → IsSound (create_wallet ctx owner currency db).1
create_wallet-IsSound ctx owner currency db s =
    IsSound-change db (create_wallet ctx owner currency db).1
      (elim (create_outcome ctx owner currency db) [
        | inl (e, r) ↦ rw r refl
        | inr (inl (w, r, _)) ↦ rw r refl
        | inr (inr (r, _, _)) ↦ rw r refl
      ])
      (create_wallet-IsBooked ctx owner currency db s.safe.booked)
      (create_wallet-IsSolvent ctx owner currency db s.safe.solvent)
      (elim (create_outcome ctx owner currency db) [
        | inl (e, r) ↦ rw r s.payable
        | inr (inl (w, r, _)) ↦ rw r s.payable
        | inr (inr (r, _, _)) ↦ rw r s.payable
      ])
      s

debit_wallet-IsSound :
    (ctx : Context) (k : ℕ) (amount : ℤ) (rt : String) (rid : ℕ) (d : Option String) (db : Db)
    → IsSound db
    → IsSound (debit_wallet ctx k amount rt rid d db).1
debit_wallet-IsSound ctx k amount rt rid d db s =
    IsSound-change db (debit_wallet ctx k amount rt rid d db).1
      (elim (debit_outcome ctx k amount rt rid db d) [
        | inl (e, r) ↦ rw r refl
        | inr (w, r, _) ↦ rw r refl
      ])
      (debit_wallet-IsBooked ctx k amount rt rid db d s.safe.booked)
      (debit_wallet-IsSolvent ctx k amount rt rid db d s.safe.solvent)
      (elim (debit_outcome ctx k amount rt rid db d) [
        | inl (e, r) ↦ rw r s.payable
        | inr (w, r, _) ↦ rw r s.payable
      ])
      s

initiate_funding-IsSound :
    (ctx : Context) (r : FundingRequest) (db : Db)
    → IsSound db
    → IsSound (initiate_funding ctx (λ x. x) r db).1
initiate_funding-IsSound ctx r db s = elim (initiate-Start ctx (λ x. x) r db) [
  | refused e _ x ↦ rw x s
  | known t here same x ↦ rw x s
  | raced t here same x ↦ rw x s
  | conflicted x ↦ rw x s
  | clashed t taken x ↦ rw x s
  | fresh none_yet x ↦
      let good = amounts-positive ctx (λ x. x) r db x in
      rw x (IsSound-change db _ refl s.safe.booked s.safe.solvent (ground arith, s.payable) s)
]

advance_funding_state-IsSound :
    (ctx : Context) (k : ℕ) (to : PaymentState) (ref reason : Option String) (db : Db)
    → IsSound db
    → IsSound (advance_funding_state ctx k to ref reason db).1
advance_funding_state-IsSound ctx k to ref reason db s =
    elim (advance_outcome ctx k db to ref reason) [
      | inl (e, r) ↦ rw r s
      | inr (t, r, here, _) ↦
          let paid = All-find _ _ db.funding_transfers t s.payable here in
          rw r (
            IsSound-change db _ refl s.safe.booked s.safe.solvent
              (IsPayable-moved (moved ctx to ref reason t) db paid s.payable) s)
    ]

credit_from_funding-IsSound :
    (ctx : Context) (k : ℕ) (db : Db) → IsSound db → IsSound (credit_from_funding ctx k db).1
credit_from_funding-IsSound ctx k db s =
    IsSound-change db (credit_from_funding ctx k db).1
      (elim (credit_outcome ctx k db) [
        | inl (e, r) ↦ rw r refl
        | inr (t, w, r, _, _, _) ↦ rw r refl
      ])
      (credit_from_funding-IsBooked ctx k db s.safe.booked)
      (credit_from_funding-IsSolvent ctx k db s.payable s.safe.solvent)
      (elim (credit_outcome ctx k db) [
        | inl (e, r) ↦ rw r s.payable
        | inr (t, w, r, here, _, _) ↦ rw r (
            IsPayable-moved (moved ctx PaymentState.completed none none t) db
              (All-find _ _ db.funding_transfers t s.payable here) s.payable)
      ])
      s

transacted :
    {A : Type 0} (m : Action A) (db : Db)
    → IsSound db
    → IsSound (m db).1
    → IsSound (in_transaction m db).1
transacted m db s t =
    in_transaction-keeps IsSound m db
      (λ db'.
        IsSound-change db (record db { published = db'.published }) refl s.safe.booked
          s.safe.solvent s.payable s)
      t

serve-IsSound : (r : Request) (db : Db) → IsSound db → IsSound (serve r db)
unfolding serve
serve-IsSound (Request.create_wallet ctx owner currency) db s =
    transacted (create_wallet ctx owner currency) db s
      (create_wallet-IsSound ctx owner currency db s)
serve-IsSound (Request.debit_wallet ctx k amount rt rid d) db s =
    transacted (debit_wallet ctx k amount rt rid d) db s
      (debit_wallet-IsSound ctx k amount rt rid d db s)
serve-IsSound (Request.initiate_funding ctx r) db s =
    transacted (initiate_funding ctx (λ x. x) r) db s (initiate_funding-IsSound ctx r db s)
serve-IsSound (Request.advance_funding_state ctx k to ref reason) db s =
    transacted (advance_funding_state ctx k to ref reason) db s
      (advance_funding_state-IsSound ctx k to ref reason db s)
serve-IsSound (Request.credit_from_funding ctx k) db s =
    transacted (credit_from_funding ctx k) db s (credit_from_funding-IsSound ctx k db s)
serve-IsSound (Request.authorize ctx payload) db s =
    transacted (authorize ctx payload) db s (record {
      safe = authorize-IsSafe ctx payload db s.safe;
      payable = authorize-IsPayable ctx payload db s.payable;
    })
serve-IsSound (Request.process_clearing ctx payload) db s = record {
  safe = process_clearing-IsSafe ctx payload db s.safe;
  payable = process_clearing-IsPayable ctx payload db s.payable;
}
serve-IsSound (Request.process_reversal ctx ref) db s = record {
  safe = process_reversal-IsSafe ctx ref db s.safe;
  payable = process_reversal-IsPayable ctx ref db s.payable;
}

-- Whatever requests are served, in any order, if the database before them is sound, then so is the database after them. Sound is: on every wallet, what can be spent and what is held back make up its credits less its debits, every ledger entry is of a wallet of the table, no balance is negative, every hold is of a positive amount, no two authorizations have one id, and no transfer pays out a negative amount.
pub serve_all-IsSound :
    (requests : List Request) (db : Db) → IsSound db → IsSound (serve_all requests db)
unfolding serve_all
serve_all-IsSound [] db s = s
serve_all-IsSound (r ∷ requests) db s =
    serve_all-IsSound requests (serve r db) (serve-IsSound r db s)
