-- ===== src/Transaction/Cover.antt =====
-- The money behind a hold is there: no clearing within its amount and no reversal fails for it.
use ufirst_backend.Base.{
  ℕ, ◌≡◌, inl, inr, String, none, some, List, [], ◌∷◌, arith, true, sym, ap, ◌∙◌, subst, Bool,
  Bool-cases, ◌==◌, ==_refl,
}
use ufirst_backend.Base.Int.{ℤ, pos, ◌+ℤ◌, ◌≤ℤ◌, ◌<ℤ◌, int_laws}
use ufirst_backend.Base.Table.{get, find, All-find, key-get}
use ufirst_backend.Core.Errors.{ok}
use ufirst_backend.Db.{Db, Context, in_transaction}
use ufirst_backend.Wallet.Models.{Wallet}
use ufirst_backend.Wallet.Repository.{wallet_key}
use ufirst_backend.Wallet.Outcomes.{Holds}
use ufirst_backend.Transaction.Models.{Authorization, AuthorizationStatus, ClearingPayload}
use ufirst_backend.Transaction.Repository.{has_ref}
use ufirst_backend.Transaction.Service.{process_clearing, process_reversal}
use ufirst_backend.Transaction.Service.Settlement.{
  IsHold, clearing_for, after_clearing, after_reversal,
}
use ufirst_backend.Transaction.Holds.{IsHeld, held_total, holds_on}
use ufirst_backend.Transaction.Safety.{HasPositiveHolds}
use ufirst_backend.Transaction.Settling.{process_clearing_settles, process_reversal_releases}

-- A row adds nothing, or a positive amount.
held_total-grows :
    (k : ℕ) (x : Authorization) (rows : List Authorization)
    → (x.status ≡ AuthorizationStatus.authorized → pos 0 <ℤ x.amount)
    → held_total k rows ≤ℤ held_total k (x ∷ rows)
held_total-grows k x rows positive = elim (Bool-cases (holds_on k x)) [
  | inl counts ↦ let more = positive (ground arith) in rw counts (omega int_laws)
  | inr idle ↦ rw idle (omega arith)
]

held_total_nonneg :
    (k : ℕ) (rows : List Authorization) → HasPositiveHolds rows → pos 0 ≤ℤ held_total k rows
held_total_nonneg k [] h = omega arith
held_total_nonneg k (x ∷ rows) h =
    let rest = held_total_nonneg k rows h.1 in
    let grown = held_total-grows k x rows h.0 in omega arith

-- A hold is a part of the sum.
held_total-covers :
    (p : Authorization → Bool) (rows : List Authorization) (a : Authorization)
    → HasPositiveHolds rows
    → find p rows ≡ some a
    → a.status ≡ AuthorizationStatus.authorized
    → a.amount ≤ℤ held_total a.wallet_id rows
held_total-covers p [] a h found held = cc
held_total-covers p (x ∷ rows) a h found held = elim (Bool-cases (p x)) [
  | inl hit ↦
      let same : x ≡ a = ground arith in
      let rest = held_total_nonneg a.wallet_id rows h.1 in
      let counts : holds_on a.wallet_id x ≡ true =
        subst (λ y. holds_on a.wallet_id y ≡ true) (sym same)
          (ground (arith, ==_refl a.wallet_id)) in
      rw counts (
        subst (λ y. a.amount ≤ℤ held_total a.wallet_id rows +ℤ y.amount) (sym same)
          (omega int_laws))
  | inr miss ↦
      let rest = held_total-covers p rows a h.1 (ground arith) held in
      let grown = held_total-grows a.wallet_id x rows h.0 in omega arith
]

-- The wallet of a hold holds back its amount.
IsHold-Holds :
    (ref : String) (db : Db) (a : Authorization) (w : Wallet) (m : ℤ)
    → IsHeld db
    → HasPositiveHolds db.authorizations
    → IsHold ref db a
    → get wallet_key a.wallet_id db.wallets ≡ some w
    → m ≤ℤ a.amount
    → Holds a.wallet_id m db w
IsHold-Holds ref db a w m h positive hold here within =
    let part = held_total-covers (has_ref ref) db.authorizations a positive hold.found hold.held in
    let sum : w.reserved_balance ≡ held_total a.wallet_id db.authorizations =
      All-find _ _ db.wallets w h here
      ∙ ap (λ i. held_total i db.authorizations)
          (key-get wallet_key a.wallet_id db.wallets w here) in
    let enough : m ≤ℤ held_total a.wallet_id db.authorizations = omega arith in
    record { found = here; held = subst (λ r. m ≤ℤ r) (sym sum) enough }

-- Where every wallet holds back the sum of its holds and holds are positive, a reversal of a hold on a wallet of the table always succeeds: it gives the amount back and ends the hold.
pub process_reversal_succeeds :
    (ctx : Context) (ref : String) (db : Db) (a : Authorization) (w : Wallet)
    → IsHeld db
    → HasPositiveHolds db.authorizations
    → IsHold ref db a
    → get wallet_key a.wallet_id db.wallets ≡ some w
    → in_transaction (process_reversal ctx ref) db ≡ (ok tt, after_reversal ctx ref db a w)
process_reversal_succeeds ctx ref db a w h positive hold here =
    process_reversal_releases ctx ref db a w hold
      (IsHold-Holds ref db a w a.amount h positive hold here (omega arith))

-- Where every wallet holds back the sum of its holds and holds are positive, a clearing of at most the amount of a hold, on a wallet of the table, succeeds if the hold has no clearing yet and the id of the new one is free.
pub process_clearing_succeeds :
    (ctx : Context) (payload : ClearingPayload) (db : Db) (a : Authorization) (w : Wallet)
    → IsHeld db
    → HasPositiveHolds db.authorizations
    → IsHold payload.processor_auth_ref db a
    → get wallet_key a.wallet_id db.wallets ≡ some w
    → payload.cleared_amount ≤ℤ a.amount
    → find (λ c. c.authorization_id == a.id) db.clearings ≡ none
    → find (λ c. c.id == ctx.new_id) db.clearings ≡ none
    → in_transaction (process_clearing ctx payload) db
      ≡ (ok (clearing_for ctx payload db a), after_clearing ctx payload db a w)
process_clearing_succeeds ctx payload db a w h positive hold here within first free =
    process_clearing_settles ctx payload db a w hold
      (IsHold-Holds payload.processor_auth_ref db a w payload.cleared_amount h positive hold here
        within)
      first free
