-- ===== src/Wallet/Handlers.antt =====
-- The wallet of a new user (app/modules/wallet/handlers.py). Python's `upper` is a parameter. The
-- handler runs in a session of its own, and what it raises is logged.
use ufirst_backend.Base.{
  ℕ, ◌≡◌, inl, inr, ◌⊎◌, String, Option, none, some, List, [], ◌∷◌, arith, Option-cases,
}
use ufirst_backend.Base.Table.{find, get}
use ufirst_backend.Core.Json.{entry_or}
use ufirst_backend.Db.{Db, Context, in_transaction}
use ufirst_backend.Identity.Models.{UserRole}
use ufirst_backend.Wallet.Models.{Wallet}
use ufirst_backend.Wallet.Repository.{wallet_key}
use ufirst_backend.Wallet.Service.{create_wallet}
use ufirst_backend.Wallet.Outcomes.{opened, owned_by}

-- `_COUNTRY_CURRENCY`
abbrev pub country_currency : List (String × String)
country_currency =
    ("NG", "NGN")
    ∷ ("GH", "GHS")
    ∷ ("KE", "KES")
    ∷ ("ZA", "ZAR")
    ∷ ("UG", "UGX")
    ∷ ("TZ", "TZS")
    ∷ ("SN", "XOF")
    ∷ ("CI", "XOF")
    ∷ []

module _ (upper : String → String) where
  unfoldable pub beneficiary_currency : Option String → String
  beneficiary_currency none = "NGN"
  beneficiary_currency (some country) = entry_or "NGN" (upper country) country_currency

  -- The currency of the wallet, for the roles that get one.
  unfoldable pub wallet_currency : Option UserRole → Option String → Option String
  unfolding beneficiary_currency
  wallet_currency (some UserRole.sponsor) country = some "GBP"
  wallet_currency (some UserRole.beneficiary) country = some (beneficiary_currency country)
  wallet_currency _ country = none

  unfoldable pub on_user_created : Context → ℕ → Option UserRole → Option String → Db → Db
  unfolding wallet_currency
  on_user_created ctx user_id role country db = elim (wallet_currency role country) [
    | none ↦ db
    | some currency ↦ (in_transaction (create_wallet ctx user_id currency) db).1
  ]

  -- The user has a wallet.
  abbrev pub HasWallet : ℕ → Db → Type 0
  HasWallet user_id db = (w : Wallet) × (find (owned_by user_id) db.wallets ≡ some w)

  abbrev opens : Context → ℕ → String → Db → Db
  opens ctx user_id currency db = (in_transaction (create_wallet ctx user_id currency) db).1

  opens-HasWallet :
      (ctx : Context) (user_id : ℕ) (currency : String) (db : Db)
      → get wallet_key ctx.new_id db.wallets ≡ none
      → HasWallet user_id (opens ctx user_id currency db)
  unfolding create_wallet
  opens-HasWallet ctx user_id currency db free =
      elim (Option-cases (find (owned_by user_id) db.wallets)) [
        | inr (w, there) ↦
            let run : opens ctx user_id currency db ≡ db = ground arith in (w, rw run there)
        | inl absent ↦ (opened ctx user_id currency, ground (arith, absent, free))
      ]

  opens-again :
      (ctx : Context) (user_id : ℕ) (currency : String) (db : Db)
      → HasWallet user_id db
      → opens ctx user_id currency db ≡ db
  unfolding create_wallet
  opens-again ctx user_id currency db (w, there) = ground (arith, there)

  -- After a new sponsor or beneficiary has been announced, the user has a wallet, if the id of the new wallet is free; and a second announcement of the user, with whatever country, changes nothing.
  pub on_user_created-HasWallet :
      (ctx ctx' : Context) (user_id : ℕ) (role : UserRole) (country country' : Option String)
      (db : Db)
      → (role ≡ UserRole.sponsor) ⊎ (role ≡ UserRole.beneficiary)
      → get wallet_key ctx.new_id db.wallets ≡ none
      → HasWallet user_id (on_user_created ctx user_id (some role) country db)
        × (on_user_created ctx' user_id
              (some role)
              country'
              (on_user_created ctx user_id (some role) country db)
            ≡ on_user_created ctx user_id (some role) country db)
  unfolding on_user_created wallet_currency
  on_user_created-HasWallet ctx ctx' user_id UserRole.sponsor country country' db entitled free =
      let has = opens-HasWallet ctx user_id "GBP" db free in
      (has, opens-again ctx' user_id "GBP" (opens ctx user_id "GBP" db) has)
  on_user_created-HasWallet ctx ctx' user_id UserRole.beneficiary country country' db entitled
        free =
      let first = beneficiary_currency country in
      let has = opens-HasWallet ctx user_id first db free in
      (
        has,
        opens-again ctx' user_id (beneficiary_currency country') (opens ctx user_id first db) has,
      )
  on_user_created-HasWallet ctx ctx' user_id role country country' db (inl e) free = cc e
  on_user_created-HasWallet ctx ctx' user_id role country country' db (inr e) free = cc e
