-- ===== src/Wallet/Funding/Start.antt =====
-- The start of a transfer is idempotent: one transfer for a sponsor's key, also when requests race.
use ufirst_backend.Base.{
  ◌≡◌, ◌≢◌, inl, inr, Option, some, none, List, [], ◌∷◌, arith, false, ◌||◌, eq_iff, Bool-cases,
  Option-cases, ap, subst, ==_refl,
}
use ufirst_backend.Base.Int.{leb_ℤ, pos}
use ufirst_backend.Base.Table.{get, find}
use ufirst_backend.Core.Errors.{
  Error, Result, ok, err, integrity_error, idempotency_conflict, validation_error, not_found,
  invalid_state_transition,
}
use ufirst_backend.Db.{Db, Context}
use ufirst_backend.Wallet.Models.{FundingTransfer, WalletStatus, wallet_status_eq, method_index}
use ufirst_backend.Wallet.Repository.{
  FundingRequest, wallet_key, transfer_key, has_key, new_transfer,
}
use ufirst_backend.Wallet.Funding.{initiate_funding, differs}

-- The transfer of the request's key.
abbrev pub keyed : FundingRequest → Db → Option FundingTransfer
keyed r db = find (has_key r.sponsor_id r.idempotency_key) db.funding_transfers

-- The database with one transfer more.
abbrev pub started : Context → FundingRequest → Db → Db
started ctx r db = record db { funding_transfers = new_transfer ctx r ∷ db.funding_transfers }

-- The ways a start can end.
pub data Start (ctx : Context) (others : Db → Db) (r : FundingRequest) (db : Db) : Type 0 where
  -- Refused before anything is tried: bad amounts, a conflict, no wallet or no active one.
  refused :
      (e : Error)
      → e ≢ integrity_error
      → initiate_funding ctx others r db ≡ (err e, db)
      → Start ctx others r db
  -- The key was used before, with the same parameters.
  known :
      (t : FundingTransfer)
      → keyed r db ≡ some t
      → differs t r ≡ false
      → initiate_funding ctx others r db ≡ (ok t, db)
      → Start ctx others r db
  -- Another request took the key meanwhile, with the same parameters.
  raced :
      (t : FundingTransfer)
      → keyed r (others db) ≡ some t
      → differs t r ≡ false
      → initiate_funding ctx others r db ≡ (ok t, others db)
      → Start ctx others r db
  -- Another request took the key meanwhile, with other parameters.
  conflicted :
      initiate_funding ctx others r db ≡ (err idempotency_conflict, others db)
      → Start ctx others r db
  -- The new id is taken.
  clashed :
      (t : FundingTransfer)
      → get transfer_key ctx.new_id (others db).funding_transfers ≡ some t
      → initiate_funding ctx others r db ≡ (err integrity_error, others db)
      → Start ctx others r db
  -- A new transfer.
  fresh :
      keyed r (others db) ≡ none
      → initiate_funding ctx others r db ≡ (ok (new_transfer ctx r), started ctx r (others db))
      → Start ctx others r db

pub initiate-Start :
    (ctx : Context) (others : Db → Db) (r : FundingRequest) (db : Db) → Start ctx others r db
unfolding initiate_funding
initiate-Start ctx others r db =
    elim (Bool-cases (leb_ℤ r.source_amount (pos 0) || leb_ℤ r.dest_amount (pos 0))) [
      | inl bad ↦ refused validation_error (λ x. cc) (ground arith)
      | inr good ↦ elim (Option-cases (keyed r db)) [
        | inr (t, e) ↦ elim (Bool-cases (differs t r)) [
          | inl other ↦ refused idempotency_conflict (λ x. cc) (ground arith)
          | inr same ↦ known t e same (ground arith)
        ]
        | inl new ↦ elim (Option-cases (get wallet_key r.wallet_id db.wallets)) [
          | inl missing ↦ refused not_found (λ x. cc) (ground arith)
          | inr (w, here) ↦ elim (Bool-cases (wallet_status_eq w.status WalletStatus.active)) [
            | inr inactive ↦ refused invalid_state_transition (λ x. cc) (ground arith)
            | inl active ↦ elim (Option-cases (keyed r (others db))) [
              | inr (t, e) ↦ elim (Bool-cases (differs t r)) [
                | inl other ↦ conflicted (ground arith)
                | inr same ↦ raced t e same (ground arith)
              ]
              | inl none_yet ↦
                  elim (Option-cases (get transfer_key ctx.new_id (others db).funding_transfers)) [
                    | inr (t, taken) ↦ clashed t taken (ground arith)
                    | inl free ↦ fresh none_yet (ground arith)
                  ]
            ]
          ]
        ]
      ]
    ]

-- The request that a transfer was made for is the one that it does not differ from.
differs-new_transfer : (ctx : Context) (r : FundingRequest) → differs (new_transfer ctx r) r ≡ false
differs-new_transfer ctx r =
    ground
      (arith, eq_iff r.source_currency r.source_currency, ==_refl (method_index r.payment_method))

keyed-started :
    (ctx : Context) (r : FundingRequest) (db : Db)
    → keyed r (started ctx r db) ≡ some (new_transfer ctx r)
keyed-started ctx r db = ground (arith, eq_iff r.idempotency_key r.idempotency_key)

-- A request whose key is known, with the same parameters, is answered by the known transfer.
again :
    (ctx : Context) (others : Db → Db) (r : FundingRequest) (db : Db) (t : FundingTransfer)
    → (leb_ℤ r.source_amount (pos 0) || leb_ℤ r.dest_amount (pos 0)) ≡ false
    → keyed r db ≡ some t
    → differs t r ≡ false
    → initiate_funding ctx others r db ≡ (ok t, db)
unfolding initiate_funding
again ctx others r db t good here same = ground arith

-- A request that succeeded has positive amounts.
pub amounts-positive :
    (ctx : Context) (others : Db → Db) (r : FundingRequest) (db : Db) {t : FundingTransfer}
    {db' : Db}
    → initiate_funding ctx others r db ≡ (ok t, db')
    → (leb_ℤ r.source_amount (pos 0) || leb_ℤ r.dest_amount (pos 0)) ≡ false
unfolding initiate_funding
amounts-positive ctx others r db h = ground arith

-- What a start promises when it succeeds.
abbrev pub Answers : FundingRequest → Result FundingTransfer × Db → Type 0
Answers r (ok t, db) = (keyed r db ≡ some t) × (differs t r ≡ false)
Answers r (err e, db) = Unit

-- A start that succeeds, whatever other requests commit while it runs, returns the transfer that the sponsor's key has in the database that it leaves, and that transfer has the request's wallet, source amount, source currency and payment method.
pub initiate-Answers :
    (ctx : Context) (others : Db → Db) (r : FundingRequest) (db : Db)
    → Answers r (initiate_funding ctx others r db)
initiate-Answers ctx others r db = elim (initiate-Start ctx others r db) [
  | refused e _ x ↦ rw x tt
  | known t here same x ↦ rw x (here, same)
  | raced t here same x ↦ rw x (here, same)
  | conflicted x ↦ rw x tt
  | clashed t taken x ↦ rw x tt
  | fresh none_yet x ↦ rw x (keyed-started ctx r (others db), differs-new_transfer ctx r)
]

-- After a start that succeeded, the same request, whenever it comes and whatever else is committed while it runs, is answered by the same transfer and changes nothing.
pub initiate_replay :
    (ctx later : Context) (others others' : Db → Db) (r : FundingRequest) (db : Db)
    (t : FundingTransfer) (db' : Db)
    → initiate_funding ctx others r db ≡ (ok t, db')
    → initiate_funding later others' r db' ≡ (ok t, db')
initiate_replay ctx later others others' r db t db' h =
    let good = amounts-positive ctx others r db h in
    let promise : Answers r (ok t, db') = subst (Answers r) h (initiate-Answers ctx others r db) in
    again later others' r db' t good promise.0 promise.1

-- A start never fails for losing the race for its key: if the new id is free in what the others commit, the IntegrityError of the database does not reach the caller.
pub initiate_survives_race :
    (ctx : Context) (others : Db → Db) (r : FundingRequest) (db : Db)
    → get transfer_key ctx.new_id (others db).funding_transfers ≡ none
    → (initiate_funding ctx others r db).0 ≢ err integrity_error
initiate_survives_race ctx others r db free h = elim (initiate-Start ctx others r db) [
  | refused e other x ↦ other (cc (h, ap (λ p. p.0) x))
  | known t here same x ↦ cc (h, ap (λ p. p.0) x)
  | raced t here same x ↦ cc (h, ap (λ p. p.0) x)
  | conflicted x ↦ cc (h, ap (λ p. p.0) x)
  | clashed t taken x ↦ cc (free, taken)
  | fresh none_yet x ↦ cc (h, ap (λ p. p.0) x)
]

-- No two transfers have one sponsor and one key: the unique constraint of the table.
abbrev pub HasUniqueKeys : List FundingTransfer → Type 0
HasUniqueKeys [] = Unit
HasUniqueKeys (t ∷ ts) =
    (find (has_key t.sponsor_id t.idempotency_key) ts ≡ none) × HasUniqueKeys ts

-- A start keeps the keys unique if the requests that run beside it do.
pub initiate-HasUniqueKeys :
    (ctx : Context) (others : Db → Db) (r : FundingRequest) (db : Db)
    → HasUniqueKeys db.funding_transfers
    → HasUniqueKeys (others db).funding_transfers
    → HasUniqueKeys (initiate_funding ctx others r db).1.funding_transfers
initiate-HasUniqueKeys ctx others r db before beside = elim (initiate-Start ctx others r db) [
  | refused e _ x ↦ rw x before
  | known t here same x ↦ rw x before
  | raced t here same x ↦ rw x beside
  | conflicted x ↦ rw x beside
  | clashed t taken x ↦ rw x beside
  | fresh none_yet x ↦ rw x (none_yet, beside)
]
