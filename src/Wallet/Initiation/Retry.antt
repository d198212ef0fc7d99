-- ===== src/Wallet/Initiation/Retry.antt =====
-- The retry of a payment whose aggregator was called (app/modules/wallet/openbanking/payments.py).
use ufirst_backend.Base.{
  ℕ, ◌≡◌, inl, inr, ◌⊎◌, String, Option, none, some, true, ◌||◌, is_some, arith, refl, sym, ap, ◌∙◌,
  subst, Bool-cases, Option-cases, if◌then◌else◌, ==_refl, ◌==◌, ◌&&◌, not, str_eq,
}
use ufirst_backend.Base.Table.{find, get}
use ufirst_backend.Core.Errors.{Error, ok, err, integrity_error}
use ufirst_backend.Db.{Db, Context, ◌>>◌, pure}
use ufirst_backend.Db.Keeps.{Keeps, returns->>=}
use ufirst_backend.Wallet.Models.{PaymentMethod, method_eq, PaymentState}
use ufirst_backend.Wallet.PaymentRecords.{
  create_open_banking_payment, create_card_payment, of_transfer, has_payment_id,
}
use ufirst_backend.Wallet.ConnectionRecords.{connection_key}
use ufirst_backend.Wallet.Funding.{advance_funding_state}
use ufirst_backend.Wallet.Funding.Outcomes.{advance_outcome}
use ufirst_backend.Wallet.Initiation.{
  PaymentRequest, Initiate, InitiationResult, existing_link, aggregator_bank_id, persist,
  with_aggregator, without_aggregator, await_authorization, record_payment, call_bank,
  start_payment, resume_payment, has_aggregator, tell_initiated, is_card, provider_or,
  call_aggregator,
}

-- The link that a retry finds.
abbrev Linked : ℕ → PaymentMethod → String → Db → Type 0
Linked k method link db = existing_link k method db ≡ some link

module _ (uuid_of : String → Option ℕ) (aggregator : String) (initiate : Initiate)
    (ctx : Context) where
  bank_id_lem :
      (method : PaymentMethod) (o : Option String) (db : Db)
      → ((b : Option String) × (aggregator_bank_id uuid_of aggregator initiate ctx method o db
            ≡ (ok b, db)))
  bank_id_lem method none db = (none, refl)
  bank_id_lem method (some id) db =
      elim (Bool-cases (method_eq method PaymentMethod.open_banking && not (str_eq id ""))) [
        | inr plain ↦ (some id, rw plain refl)
        | inl bank ↦ elim (Option-cases (uuid_of id)) [
          | inl text ↦ (some id, rw (bank, text) refl)
          | inr (uuid, e) ↦ (
            some (provider_or id (get connection_key uuid db.bank_connections)),
            rw (bank, e) refl,
          )
        ]
      ]

  persist-Linked :
      (method : PaymentMethod) (k : ℕ) (result : InitiationResult) (db : Db)
      → ((e : Error) × (persist uuid_of aggregator initiate ctx method k result db ≡ (err e, db)))
        ⊎ ((persist uuid_of aggregator initiate ctx method k result db).0 ≡ ok tt)
          × Linked k method result.auth_link
              (persist uuid_of aggregator initiate ctx method k result db).1
  unfolding create_open_banking_payment create_card_payment
  persist-Linked method k result db = elim (Bool-cases (is_card method)) [
    | inl card ↦
        elim (Bool-cases (
          is_some (find (λ p. p.funding_transfer_id == k) db.card_payments)
          || is_some
              (find (λ p. str_eq p.stripe_payment_intent_id result.payment_id) db.card_payments))) [
                | inl taken ↦ inl (integrity_error, ground arith)
                | inr free ↦ inr (ground arith, ground (arith, ==_refl k))
              ]
    | inr bank ↦
        elim (Bool-cases (
          is_some (find (of_transfer k) db.open_banking_payments)
          || is_some (find (has_payment_id result.payment_id) db.open_banking_payments))) [
            | inl taken ↦ inl (integrity_error, ground arith)
            | inr free ↦ inr (ground arith, ground (arith, ==_refl k))
          ]
  ]

  advance-Linked :
      (method : PaymentMethod) (k : ℕ) (link : String) (s : PaymentState)
      (ref reason : Option String)
      → Keeps (Linked k method link) (advance_funding_state ctx k s ref reason)
  advance-Linked method k link s ref reason db h = elim (advance_outcome ctx k db s ref reason) [
    | inl (e, r) ↦ rw r h
    | inr (t, r, _, _) ↦ rw r h
  ]

  await_authorization-Linked :
      (p : PaymentRequest) (k : ℕ) (result : InitiationResult) (db db' : Db) (x : ℕ × Option String)
      → Linked k p.payment_method result.auth_link db
      → await_authorization uuid_of aggregator initiate ctx p k result db ≡ (ok x, db')
      → (x ≡ (k, some result.auth_link)) × Linked k p.payment_method result.auth_link db'
  unfolding await_authorization
  await_authorization-Linked p k result db db' x linked run =
      let advance =
        advance_funding_state ctx k PaymentState.awaiting_authorization (some result.payment_id)
          none in
      let (t, _, rest) =
        returns->>= advance (λ _. tell_initiated k p >> pure (k, some result.auth_link)) x db db'
          run in
      (
        cc rest,
        subst (Linked k p.payment_method result.auth_link) (ap (λ y. y.1) rest) (
            advance-Linked p.payment_method k result.auth_link PaymentState.awaiting_authorization
              (some result.payment_id) none db linked),
      )

  record_payment-Linked :
      (p : PaymentRequest) (k : ℕ) (result : InitiationResult) (db db' : Db) (x : ℕ × Option String)
      → record_payment uuid_of aggregator initiate ctx p k result db ≡ (ok x, db')
      → (x ≡ (k, some result.auth_link)) × Linked k p.payment_method result.auth_link db'
  unfolding record_payment
  record_payment-Linked p k result db db' x run =
      let store = persist uuid_of aggregator initiate ctx p.payment_method k result in
      let (u, stored, rest) =
        returns->>= store (λ u. await_authorization uuid_of aggregator initiate ctx p k result) x db
          db' run in
      elim (persist-Linked p.payment_method k result db) [
        | inl (e, failed) ↦ cc (failed, stored)
        | inr (_, linked) ↦ await_authorization-Linked p k result (store db).1 db' x linked rest
      ]

  -- What a call of the aggregator that is answered leaves.
  with_aggregator-Linked :
      (p : PaymentRequest) (k : ℕ) (db db' : Db) (x : ℕ × Option String)
      → with_aggregator uuid_of aggregator initiate ctx p k db ≡ (ok x, db')
      → (link : String) × (x ≡ (k, some link)) × Linked k p.payment_method link db'
  unfolding with_aggregator
  with_aggregator-Linked p k db db' x run =
      let bank =
        aggregator_bank_id uuid_of aggregator initiate ctx p.payment_method p.bank_account_id in
      let (b, _, rest) =
        returns->>= bank (call_bank uuid_of aggregator initiate ctx p k) x db db' run in
      let (result, _, last) =
        returns->>= (call_aggregator uuid_of aggregator initiate ctx p b)
          (record_payment uuid_of aggregator initiate ctx p k) x (bank db).1 db' rest in
      let done = record_payment-Linked p k result (bank db).1 db' x last in
      (result.auth_link, done.0, done.1)

-- A payment whose aggregator was called is not given to an aggregator again: if an attempt for a transfer returns, a retry returns the same transfer and the same link and changes nothing, at any later time and whatever aggregators there are then.
pub resume_payment_again :
    (uuid_of uuid_of' : String → Option ℕ) (aggregator aggregator' : String)
    (initiate initiate' : Initiate) (ctx later : Context) (p : PaymentRequest) (k : ℕ) (db db' : Db)
    (x : ℕ × Option String)
    → has_aggregator p.payment_method ≡ true
    → resume_payment uuid_of aggregator initiate ctx p k db ≡ (ok x, db')
    → resume_payment uuid_of' aggregator' initiate' later p k db' ≡ (ok x, db')
unfolding resume_payment start_payment
resume_payment_again uuid_of uuid_of' aggregator aggregator' initiate initiate' ctx later p k db db'
      x called run =
    elim (Option-cases (existing_link k p.payment_method db)) [
      | inr (link, cached) ↦
          let first : resume_payment uuid_of aggregator initiate ctx p k db
              ≡ (ok (k, some link), db) =
            rw (resume_payment, cached) refl in
          let both = sym first ∙ run in
          again link (cc both) (subst (Linked k p.payment_method link) (ap (λ y. y.1) both) cached)
      | inl absent ↦
          let fresh : start_payment uuid_of aggregator initiate ctx p k none db ≡ (ok x, db') =
            subst (λ o. start_payment uuid_of aggregator initiate ctx p k o db ≡ (ok x, db')) absent
              run in
          let second : with_aggregator uuid_of aggregator initiate ctx p k db ≡ (ok x, db') =
            subst
              (λ b.
                (if b
                    then with_aggregator uuid_of aggregator initiate ctx p k
                    else without_aggregator uuid_of aggregator initiate ctx p k)
                  db
                ≡ (ok x, db'))
              called fresh in
          let (link, e, linked) =
            with_aggregator-Linked uuid_of aggregator initiate ctx p k db db' x second in
          again link (sym e) linked
    ]
  where
    again :
        (link : String)
        → (k, some link) ≡ x
        → Linked k p.payment_method link db'
        → resume_payment uuid_of' aggregator' initiate' later p k db' ≡ (ok x, db')
    again link e linked = rw (← e, linked) refl
