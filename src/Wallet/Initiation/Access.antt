-- ===== src/Wallet/Initiation/Access.antt =====
-- Who may start a payment (app/modules/wallet/openbanking/payments.py).
use ufirst_backend.Base.{ℕ, ◌≡◌, String, Option, some, false, arith, ap, sym, subst}
use ufirst_backend.Base.Table.{get}
use ufirst_backend.Core.Errors.{err, permission_denied}
use ufirst_backend.Db.{Db, Context, ◌>>=◌}
use ufirst_backend.Identity.Service.{verify_sponsor_beneficiary_link}
use ufirst_backend.Identity.Links.{view}
use ufirst_backend.Wallet.Models.{Wallet}
use ufirst_backend.Wallet.Repository.{wallet_key}
use ufirst_backend.Wallet.Service.{get_wallet}
use ufirst_backend.Wallet.Initiation.{PaymentRequest, Initiate, funded_wallet, initiate_payment}

funded_wallet-denied :
    (p : PaymentRequest) (k : ℕ) (w : Wallet) (db : Db)
    → get wallet_key k db.wallets ≡ some w
    → view db p.sponsor_id w.owner_id ≡ false
    → funded_wallet p (some k) db ≡ (err permission_denied, db)
unfolding funded_wallet get_wallet verify_sponsor_beneficiary_link
funded_wallet-denied p k w db there unlinked = ground arith

module _ (uuid_of : String → Option ℕ) (aggregator : String) (initiate : Initiate)
    (ctx : Context) where
  -- A sponsor that has no active link to the owner of the beneficiary's wallet is denied, and nothing changes: no transfer is made and no aggregator is called, whatever the amounts, the keys used before and the other requests are.
  pub initiate_payment-denied :
      (upper : String → String) (others : Db → Db) (p : PaymentRequest) (k : ℕ) (w : Wallet)
      (db : Db)
      → p.beneficiary_wallet_id ≡ some k
      → get wallet_key k db.wallets ≡ some w
      → view db p.sponsor_id w.owner_id ≡ false
      → initiate_payment uuid_of aggregator initiate ctx upper others p db
        ≡ (err permission_denied, db)
  unfolding initiate_payment
  initiate_payment-denied upper others p k w db asked there unlinked =
      let denied : funded_wallet p p.beneficiary_wallet_id db ≡ (err permission_denied, db) =
        subst (λ o. funded_wallet p o db ≡ (err permission_denied, db)) (sym asked)
          (funded_wallet-denied p k w db there unlinked) in
      rw (initiate_payment, ◌>>=◌, denied) (ap (λ x. (err permission_denied, x.1)) denied)
