-- ===== src/Wallet/Tasks/Redelivery.antt =====
-- The second delivery of a bank's event (app/modules/wallet/tasks.py).
use ufirst_backend.Base.{
  ℕ, ◌≡◌, inl, inr, String, none, some, List, [], ◌∷◌, Bool, true, arith, refl, sym, ap, subst, ◌∙◌,
  Bool-cases, str_eq, eq_iff, if◌then◌else◌,
}
use ufirst_backend.Base.Table.{find}
use ufirst_backend.Core.Errors.{Result, ok, err}
use ufirst_backend.Db.{Db, Context, pure}
use ufirst_backend.Wallet.Models.{OpenBankingPayment}
use ufirst_backend.Wallet.PaymentRecords.{has_payment_id, replace_payment, updated_payment}
use ufirst_backend.Wallet.Funding.Outcomes.{advance_outcome}
use ufirst_backend.Wallet.Tasks.{
  WebhookEvent, Handled, apply_event, handle_bank, handle_found, handle_event, session_end,
  process_payment_webhook, is_duplicate,
}
use ufirst_backend.Wallet.Tasks.Steps.{apply_event-Keeps}

str_eq_refl : (s : String) → str_eq s s ≡ true
str_eq_refl s = (eq_iff s s).1 refl

has_payment_id-find :
    (id : String) (rows : List OpenBankingPayment) (p : OpenBankingPayment)
    → find (has_payment_id id) rows ≡ some p
    → p.aggregator_payment_id ≡ id
has_payment_id-find id [] p e = cc
has_payment_id-find id (x ∷ rows) p e = elim (Bool-cases (has_payment_id id x)) [
  | inl hit ↦ ground (arith, (eq_iff x.aggregator_payment_id id).0 hit)
  | inr miss ↦ has_payment_id-find id rows p (ground arith)
]

find-replace_payment :
    (changed p : OpenBankingPayment) (rows : List OpenBankingPayment)
    → find (has_payment_id changed.aggregator_payment_id) rows ≡ some p
    → (find (has_payment_id changed.aggregator_payment_id) (replace_payment changed rows)
        ≡ some changed)
find-replace_payment changed p [] e = cc
find-replace_payment changed p (x ∷ rows) e =
    elim (Bool-cases (has_payment_id changed.aggregator_payment_id x)) [
      | inl hit ↦ rw (hit, str_eq_refl changed.aggregator_payment_id) refl
      | inr miss ↦ rw (miss, miss) (find-replace_payment changed p rows (ground arith))
    ]

module _ (ctx : Context) where
  -- The steps of an event leave the records of the payments alone.
  apply_event-payments :
      (event : WebhookEvent) (k : ℕ) (db : Db)
      → (apply_event ctx event k db).1.open_banking_payments ≡ db.open_banking_payments
  apply_event-payments event k db =
      apply_event-Keeps ctx (λ x. x.open_banking_payments ≡ db.open_banking_payments)
        (λ x events h. h)
        (λ id s x h. elim (advance_outcome ctx id x s none none) [
          | inl (e, r) ↦ rw r h
          | inr (t, r, _, _) ↦ rw r h
        ])
        event k db refl

  committed :
      (before db' : Db) (r : Result Handled × Db)
      → session_end ctx before r ≡ (ok Handled.processed, db')
      → r ≡ (ok Handled.processed, db')
  committed before db' (ok Handled.processed, db) e = e
  committed before db' (ok Handled.ignored, db) e = cc e
  committed before db' (err x, db) e = cc e

  -- What a processed event leaves under its payment id.
  marked :
      (event : WebhookEvent) (p : OpenBankingPayment) (db db' : Db)
      → find (has_payment_id event.payment_id) db.open_banking_payments ≡ some p
      → handle_found ctx event (some p) db ≡ (ok Handled.processed, db')
      → find (has_payment_id event.payment_id) db'.open_banking_payments
        ≡ some (updated_payment ctx p event.bank_status event.failure_reason)
  marked event p db db' there done = elim (Bool-cases (is_duplicate event p)) [
    | inl e ↦ cc (run e)
    | inr e ↦
        let changed : OpenBankingPayment =
          updated_payment ctx p event.bank_status event.failure_reason in
        let rows : db'.open_banking_payments ≡ replace_payment changed db.open_banking_payments =
          sym (ap (λ x. x.1.open_banking_payments) (run e))
          ∙ apply_event-payments event p.funding_transfer_id (record db {
            open_banking_payments = replace_payment changed db.open_banking_payments;
          }) in
        let own : p.aggregator_payment_id ≡ event.payment_id =
          has_payment_id-find event.payment_id db.open_banking_payments p there in
        rw rows (
          subst
            (λ id.
              find (has_payment_id id) (replace_payment changed db.open_banking_payments)
              ≡ some changed)
            own
            (find-replace_payment changed p db.open_banking_payments (
              subst (λ id. find (has_payment_id id) db.open_banking_payments ≡ some p) (sym own)
                there)))
  ]
    where
      run :
          {b : Bool}
          → is_duplicate event p ≡ b
          → (if b then pure Handled.ignored else handle_bank ctx event p) db
            ≡ (ok Handled.processed, db')
      run e =
          subst
            (λ b.
              (if b then pure Handled.ignored else handle_bank ctx event p) db
              ≡ (ok Handled.processed, db'))
            e done

  -- A bank's event that was processed is ignored when it is delivered again, and then changes nothing, however the database has changed meanwhile, so long as the record of its payment is as the first delivery left it.
  pub process_payment_webhook_redelivered :
      (again : Context) (event : WebhookEvent) (p : OpenBankingPayment) (db db' later : Db)
      → find (has_payment_id event.payment_id) db.open_banking_payments ≡ some p
      → process_payment_webhook ctx event db ≡ (ok Handled.processed, db')
      → (find (has_payment_id event.payment_id) later.open_banking_payments
          ≡ find (has_payment_id event.payment_id) db'.open_banking_payments)
      → process_payment_webhook again event later ≡ (ok Handled.ignored, later)
  unfolding process_payment_webhook handle_event
  process_payment_webhook_redelivered again event p db db' later there done kept =
      let run : handle_found ctx event (some p) db ≡ (ok Handled.processed, db') =
        subst (λ o. handle_found ctx event o db ≡ (ok Handled.processed, db')) there
          (committed db db' (handle_event ctx event db) done) in
      rw (kept ∙ marked event p db db' there run, str_eq_refl event.bank_status) refl
