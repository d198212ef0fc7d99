-- ===== src/Wallet/Connections/Revocation.antt =====
-- What the revocation of a bank connection (app/modules/wallet/openbanking/connections.py) leaves.
use ufirst_backend.Base.{
  ℕ, ◌≡◌, inl, inr, ◌⊎◌, String, some, arith, refl, ◌∙◌, sym, ap, subst, Bool-cases, Option-cases,
  ◌==◌, ◌∷◌,
}
use ufirst_backend.Base.Table.{get, replace, get-replace_self, key-get, get-key}
use ufirst_backend.Core.Errors.{Error, Result, ok, err, not_found, permission_denied}
use ufirst_backend.Db.{Db, wallet}
use ufirst_backend.Wallet.Models.{SponsorBankConnection, BankConnectionStatus, connection_status_eq}
use ufirst_backend.Wallet.Events.{bank_connection_revoked}
use ufirst_backend.Wallet.ConnectionRecords.{
  connection_key, with_status, update_bank_connection_status,
}
use ufirst_backend.Wallet.Connections.{revoke_connection}

module _ (revoke_consent : String → Result (Unit {0})) (id sponsor : ℕ) where
  -- The call raises, or finds the sponsor's own connection, and that is revoked then.
  revoke_outcome :
      (db : Db)
      → ((e : Error) × (revoke_connection revoke_consent id sponsor db ≡ (err e, db)))
        ⊎ ((c : SponsorBankConnection) × (get connection_key id db.bank_connections ≡ some c)
            × (c.sponsor_id ≡ sponsor)
            × (c.status ≡ BankConnectionStatus.revoked)
            × (revoke_connection revoke_consent id sponsor db ≡ (ok tt, db)))
        ⊎ ((c : SponsorBankConnection) × (get connection_key id db.bank_connections ≡ some c)
            × (c.sponsor_id ≡ sponsor)
            × (c.status ≡ BankConnectionStatus.active)
            × (revoke_connection revoke_consent id sponsor db ≡ (
              ok tt,
              record db {
                bank_connections =
                    replace connection_key
                      (with_status BankConnectionStatus.revoked c)
                      db.bank_connections;
                published = wallet (bank_connection_revoked id sponsor) ∷ db.published;
              },
            )))
  unfolding revoke_connection update_bank_connection_status
  revoke_outcome db = elim (Option-cases (get connection_key id db.bank_connections)) [
    | inl absent ↦ inl (not_found, ground arith)
    | inr (c, there) ↦ elim (Bool-cases (c.sponsor_id == sponsor)) [
      | inr foreign ↦ inl (not_found, ground arith)
      | inl own ↦ elim (Bool-cases (connection_status_eq c.status BankConnectionStatus.revoked)) [
        | inl done ↦ inr (inl (c, there, ground arith, ground arith, ground arith))
        | inr unrevoked ↦
            elim (Bool-cases (connection_status_eq c.status BankConnectionStatus.active)) [
              | inr expired ↦ inl (permission_denied, ground arith)
              | inl live ↦ inr (inr (c, there, ground arith, ground arith, ground arith))
            ]
      ]
    ]
  ]

  revoked_again :
      (db : Db) (c : SponsorBankConnection)
      → get connection_key id db.bank_connections ≡ some c
      → c.sponsor_id ≡ sponsor
      → c.status ≡ BankConnectionStatus.revoked
      → revoke_connection revoke_consent id sponsor db ≡ (ok tt, db)
  unfolding revoke_connection
  revoked_again db c there own done = ground arith

  -- If a revocation returns, whatever the aggregator answered to it, the connection is the sponsor's and is revoked, and revoking it again returns and changes nothing.
  pub revoke_connection_revokes :
      (db db' : Db)
      → revoke_connection revoke_consent id sponsor db ≡ (ok tt, db')
      → ((c : SponsorBankConnection) × (get connection_key id db'.bank_connections ≡ some c)
          × (c.sponsor_id ≡ sponsor)
          × (c.status ≡ BankConnectionStatus.revoked))
        × (revoke_connection revoke_consent id sponsor db' ≡ (ok tt, db'))
  revoke_connection_revokes db db' run = elim (revoke_outcome db) [
    | inl (e, failed) ↦ cc (failed, run)
    | inr (inl (c, there, own, done, r)) ↦
        let same : db ≡ db' = ap (λ x. x.1) (sym r ∙ run) in
        subst
          (λ x.
            ((c : SponsorBankConnection) × (get connection_key id x.bank_connections ≡ some c)
              × (c.sponsor_id ≡ sponsor)
              × (c.status ≡ BankConnectionStatus.revoked))
            × (revoke_connection revoke_consent id sponsor x ≡ (ok tt, x)))
          same ((c, there, own, done), revoked_again db c there own done)
    | inr (inr (c, there, own, live, r)) ↦
        let v : SponsorBankConnection = with_status BankConnectionStatus.revoked c in
        let now : get connection_key id db'.bank_connections ≡ some v =
          ap (λ x. get connection_key id x.1.bank_connections) (sym run ∙ r)
          ∙ subst
              (λ k. get connection_key k (replace connection_key v db.bank_connections) ≡ some v)
              (key-get connection_key id db.bank_connections c there)
              (get-replace_self connection_key v db.bank_connections c
                (get-key connection_key id db.bank_connections c there)) in
        ((v, now, own, refl), revoked_again db' v now own refl)
  ]
