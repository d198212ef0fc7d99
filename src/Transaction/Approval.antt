-- ===== src/Transaction/Approval.antt =====
-- Which payments `authorize` approves, and what an approval leaves.
use ufirst_backend.Base.{
  ℕ, ◌≡◌, inl, inr, String, Option, none, some, List, ◌∷◌, arith, true, false, refl, sym, ap, ◌∙◌,
  subst, Option-cases, ==_refl, leb,
}
use ufirst_backend.Base.Int.{ℤ, ◌+ℤ◌, ◌≤ℤ◌}
use ufirst_backend.Base.Table.{get, filter, replace}
use ufirst_backend.Core.Errors.{ok}
use ufirst_backend.Db.{Db, Context}
use ufirst_backend.Card.Models.{Card, CardStatus}
use ufirst_backend.Wallet.Models.{Wallet}
use ufirst_backend.Wallet.Repository.{wallet_key}
use ufirst_backend.Wallet.Service.{reserve_balance, spendable_wallet}
use ufirst_backend.Wallet.Outcomes.{Spends, reserved, with_wallet}
use ufirst_backend.Transaction.Models.{
  Authorization, AuthorizationPayload, AuthorizationStatus, Decision, Verdict,
}
use ufirst_backend.Transaction.Repository.{
  sum_amounts, counts_today, today_start, create_authorization,
}
use ufirst_backend.Transaction.Service.{
  authorize, refusal, controls_of, contains, over_limit, category_refused, merchant_refused,
}
use ufirst_backend.Transaction.Service.Outcomes.{
  decided, failed, refused, downgraded, approved, hold_for, carded, IsNew, with_authorization,
}

-- The holds that a card made today.
abbrev pub spent_today : Context → Card → List Authorization → ℤ
spent_today ctx card auths = sum_amounts (filter (counts_today card.id ctx.now) auths)

-- What the card's controls ask of a payment, after the holds of today.
pub record Obeys (card : Card) (payload : AuthorizationPayload) (spent : ℤ) : Type 0 where
  pub active : card.status ≡ CardStatus.active
  pub limit : (l : ℤ) → (controls_of card).daily_limit ≡ some l → spent +ℤ payload.amount ≤ℤ l
  pub category :
      (allowed : List String) (code : String)
      → (controls_of card).categories ≡ some allowed
      → payload.merchant_category_code ≡ some code
      → contains code allowed ≡ true
  pub merchant :
      (allowed : List String)
      → (controls_of card).merchant_allowlist ≡ some allowed
      → contains payload.merchant_name allowed ≡ true

-- No refusal: the payment obeys the controls, and the wallet covers it.
refusal-Obeys :
    (card : Card) (payload : AuthorizationPayload) (spent : ℤ) (w : Option Wallet)
    → refusal card payload spent w ≡ none
    → Obeys card payload spent
unfolding refusal
refusal-Obeys card payload spent w free = record {
  active = ground arith;
  limit = λ l is. ground arith;
  category = λ allowed code is here. ground arith;
  merchant = λ allowed is. ground arith;
}

-- The three tests of the controls, for a payment that obeys them.
module _ (card : Card) (payload : AuthorizationPayload) (spent : ℤ)
    (o : Obeys card payload spent) where
  Obeys-over_limit : over_limit (controls_of card).daily_limit spent payload.amount ≡ false
  Obeys-over_limit = elim (Option-cases (controls_of card).daily_limit) [
    | inl unlimited ↦ ground arith
    | inr (l, limited) ↦ ground (arith, o.limit l limited)
  ]

  Obeys-category_refused :
      category_refused (controls_of card).categories payload.merchant_category_code ≡ false
  Obeys-category_refused = elim (Option-cases (controls_of card).categories) [
    | inl any ↦ ground arith
    | inr (allowed, listed) ↦ elim (Option-cases payload.merchant_category_code) [
      | inl uncoded ↦ ground arith
      | inr (code, coded) ↦ ground (arith, o.category allowed code listed coded)
    ]
  ]

  Obeys-merchant_refused :
      merchant_refused (controls_of card).merchant_allowlist payload.merchant_name ≡ false
  Obeys-merchant_refused = elim (Option-cases (controls_of card).merchant_allowlist) [
    | inl any ↦ ground arith
    | inr (allowed, listed) ↦ ground (arith, o.merchant allowed listed)
  ]

  -- Such a payment, on a wallet that covers it, is not refused.
  Obeys-refusal :
      (w : Wallet)
      → payload.amount ≤ℤ w.available_balance
      → refusal card payload spent (some w) ≡ none
  unfolding refusal
  Obeys-refusal w covered =
      let active = o.active in
      ground (arith, Obeys-over_limit, Obeys-category_refused, Obeys-merchant_refused)

-- A reservation that can be made is made.
reserve_balance_lem :
    (ctx : Context) (k : ℕ) (amount : ℤ) (rt : String) (rid : ℕ) (db : Db) (w : Wallet)
    → Spends k amount db w
    → reserve_balance ctx k amount rt rid db
      ≡ (ok (reserved amount w), with_wallet (reserved amount w) db)
unfolding reserve_balance spendable_wallet
reserve_balance_lem ctx k amount rt rid db w spends =
    let here = spends.found in
    let active = spends.active in
    let positive = spends.positive in let covered = spends.covered in ground arith

module _ (ctx : Context) (payload : AuthorizationPayload) (db : Db) where
  -- A payment that is approved is of a known card that is active and whose controls it obeys, today's holds counted; its amount is positive, and its wallet is active and covered it. The approval moves the amount from what the wallet can spend to what is held back, and records the hold.
  pub authorize-Obeys :
      (d : Decision) (db' : Db)
      → authorize ctx payload db ≡ (ok d, db')
      → d.decision ≡ Verdict.approved
      → (card : Card) × (w : Wallet) × (carded payload db ≡ some card)
        × Obeys card payload (spent_today ctx card db.authorizations)
        × Spends card.wallet_id payload.amount db w
        × (db'.wallets ≡ replace wallet_key (reserved payload.amount w) db.wallets)
        × (db'.authorizations ≡ hold_for ctx payload db card ∷ db.authorizations)
  authorize-Obeys d db' done approval = elim (decided ctx payload db) [
    | failed e r ↦ cc (done, r)
    | refused card_id wallet_id reason events new r ↦ cc (done, r, approval)
    | downgraded card new r ↦ cc (done, r, approval)
    | approved card w known free new spends r ↦
        let last = ap (λ p. p.1) (sym done ∙ r) in
        (
          card,
          w,
          known,
          refusal-Obeys card payload (spent_today ctx card db.authorizations)
              (get wallet_key card.wallet_id db.wallets) free,
          spends,
          ap (λ x. x.wallets) last,
          ap (λ x. x.authorizations) last,
        )
  ]

  -- A new hold counts today.
  spent_today-hold :
      (card : Card)
      → spent_today ctx card (hold_for ctx payload db card ∷ db.authorizations)
        ≡ spent_today ctx card db.authorizations +ℤ payload.amount
  spent_today-hold card =
      let started : leb (today_start ctx.now) ctx.now ≡ true = ground arith in
      rw (==_refl card.id, started) refl

  -- After an approval, the holds that the card made today, the new one counted, are within its daily limit, if it has one.
  pub authorize-within_limit :
      (d : Decision) (db' : Db) (card : Card) (l : ℤ)
      → authorize ctx payload db ≡ (ok d, db')
      → d.decision ≡ Verdict.approved
      → carded payload db ≡ some card
      → (controls_of card).daily_limit ≡ some l
      → spent_today ctx card db'.authorizations ≤ℤ l
  authorize-within_limit d db' card l done approval known limited =
      let (card', w, known', obeys, spends, wallets, auths) = authorize-Obeys d db' done approval in
      let same : card' ≡ card = cc (known, known') in
      let before =
        (subst (λ c. Obeys c payload (spent_today ctx c db.authorizations)) same obeys).limit l
          limited in
      subst (λ x. spent_today ctx card x ≤ℤ l)
        (sym (auths ∙ ap (λ c. hold_for ctx payload db c ∷ db.authorizations) same))
        (subst (λ x. x ≤ℤ l) (sym (spent_today-hold card)) before)

  new_authorization_lem :
      (card : Card)
      → IsNew ctx payload db
      → create_authorization ctx card.id card.wallet_id payload AuthorizationStatus.authorized none
          db
        ≡ (ok (hold_for ctx payload db card), with_authorization (hold_for ctx payload db card) db)
  unfolding create_authorization
  new_authorization_lem card new =
      let ref_free = new.free_ref in let id_free = new.free_id in ground arith

  -- A payment that is new, of a known card whose controls it obeys, of a positive amount, on an active wallet that covers it, is approved.
  pub authorize_approves :
      (card : Card) (w : Wallet)
      → IsNew ctx payload db
      → carded payload db ≡ some card
      → Obeys card payload (spent_today ctx card db.authorizations)
      → Spends card.wallet_id payload.amount db w
      → (authorize ctx payload db).0
        ≡ ok (record {
          decision = Verdict.approved;
          reason = none;
          authorization_id = some ctx.new_id;
        })
  unfolding authorize
  authorize_approves card w new known obeys spends =
      let free =
        Obeys-refusal card payload (spent_today ctx card db.authorizations) obeys w
          spends.covered in
      let here = spends.found in
      let created = new_authorization_lem card new in
      let held =
        reserve_balance_lem ctx card.wallet_id payload.amount "authorization" ctx.new_id
          (with_authorization (hold_for ctx payload db card) db) w
          (record {
            found = spends.found;
            active = spends.active;
            positive = spends.positive;
            covered = spends.covered;
          }) in
      ground arith
