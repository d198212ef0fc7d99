-- ===== src/Identity/Routes/Kyc.antt =====
-- What the webhook of the KYC provider can do (app/modules/identity/routes.py).
use ufirst_backend.Base.{
  ℕ, ◌≡◌, inl, inr, ◌⊎◌, String, Option, some, ◌∷◌, ◌||◌, false, not, arith, refl, Bool-cases,
  Option-cases, str_eq, eq_iff, append, ap, sym, ◌∙◌,
}
use ufirst_backend.Base.Table.{get, replace}
use ufirst_backend.Core.Errors.{Error, Result-cases, ok, err, http_error, value_error, not_found}
use ufirst_backend.Core.Json as json
use ufirst_backend.Core.Json.{Json, truthy}
use ufirst_backend.Db.{Db, identity}
use ufirst_backend.Identity.Models.{User, KycStatus, kyc_status_changed}
use ufirst_backend.Identity.Repository.{
  user_key, with_kyc, update_kyc_status as repo_update_kyc_status,
}
use ufirst_backend.Identity.Service.{update_kyc_status}
use ufirst_backend.Identity.Routes.{
  KycWebhook, kyc_status_of, apply_kyc_result, kyc_provider_webhook, verify_kyc_signature,
  verify_hmac_sha256,
}
use ufirst_backend.Wallet.Outcomes.{Refuses}

-- The header is the signature of the body under the secret, and there is a secret.
abbrev pub IsSigned : KycWebhook → String → Option String → Type 0
IsSigned env raw_body signature =
    (str_eq env.kyc_webhook_secret "" ≡ false)
    × (signature ≡ some (append "sha256=" (env.hmac_sha256 env.kyc_webhook_secret raw_body)))

-- The user and the status that a payload names.
abbrev pub Names : KycWebhook → Json → ℕ → KycStatus → Type 0
Names env body k s =
    (user_id : Json) × (status : Json) × (json.get "user_id" body ≡ ok user_id)
    × (json.get "status" body ≡ ok status)
    × (env.uuid_of (env.str user_id) ≡ some k)
    × (kyc_status_of status ≡ some s)

-- The database with the status of one user changed.
abbrev pub with_status : ℕ → KycStatus → User → Db → Db
with_status k s u db = record db {
  users = replace user_key (with_kyc s u) db.users;
  published = identity (kyc_status_changed k u.kyc_status s) ∷ db.published;
}

update_lem :
    (k : ℕ) (s : KycStatus) (ref : Option String) (db : Db)
    → Refuses (update_kyc_status k s ref) db
      ⊎ ((u : User) × (get user_key k db.users ≡ some u)
          × (update_kyc_status k s ref db ≡ (ok (with_kyc s u), with_status k s u db)))
unfolding update_kyc_status repo_update_kyc_status
update_lem k s ref db = elim (Option-cases (get user_key k db.users)) [
  | inl absent ↦ inl (not_found, ground arith)
  | inr (u, there) ↦ inr (u, there, ground arith)
]

module _ (env : KycWebhook) (raw_body : String) (signature : Option String) where
  -- Without the dev mode, the check passes what is signed.
  signature_lem :
      (o : Option String)
      → env.dev_mode ≡ false
      → ((e : Error) × (verify_kyc_signature env.hmac_sha256 env.dev_mode env.kyc_webhook_secret
              raw_body o
            ≡ err e))
        ⊎ IsSigned env raw_body o
  unfolding verify_kyc_signature verify_hmac_sha256
  signature_lem o production = elim (Bool-cases (str_eq env.kyc_webhook_secret "")) [
    | inl unset ↦ inl (http_error 500, ground arith)
    | inr set ↦ elim (Option-cases o) [
      | inl missing ↦ inl (http_error 401, ground arith)
      | inr (given, e) ↦ elim (Bool-cases (str_eq given "")) [
        | inl empty ↦ inl (http_error 401, ground arith)
        | inr some_text ↦
            elim (Bool-cases
              (str_eq (append "sha256=" (env.hmac_sha256 env.kyc_webhook_secret raw_body)) given)) [
                | inr wrong ↦ inl (http_error 401, ground arith)
                | inl right ↦ inr (
                  set,
                  e
                      ∙ ap some (
                          sym (
                            (eq_iff
                                (append "sha256=" (env.hmac_sha256 env.kyc_webhook_secret raw_body))
                                given).0
                              right)),
                )
              ]
      ]
    ]
  ]

  apply_lem :
      (body : Json) (db : Db)
      → Refuses (apply_kyc_result env body) db
        ⊎ ((k : ℕ) × (s : KycStatus) × (u : User) × Names env body k s
            × (get user_key k db.users ≡ some u)
            × (apply_kyc_result env body db ≡ (ok (with_kyc s u), with_status k s u db)))
  unfolding apply_kyc_result
  apply_lem body db = elim (Result-cases (json.get "user_id" body)) [
    | inr (e, f) ↦ inl (e, ground arith)
    | inl (i, has_id) ↦ elim (Result-cases (json.get "status" body)) [
      | inr (e, f) ↦ inl (e, ground arith)
      | inl (st, has_status) ↦ elim (Bool-cases (not (truthy i) || not (truthy st))) [
        | inl missing ↦ inl (http_error 422, ground arith)
        | inr full ↦ elim (Option-cases (kyc_status_of st)) [
          | inl unknown ↦ inl (http_error 422, ground arith)
          | inr (s, named) ↦ elim (Option-cases (env.uuid_of (env.str i))) [
            | inl no_uuid ↦ inl (value_error, ground arith)
            | inr (k, uuid) ↦ elim (Result-cases (json.get "provider_ref" body)) [
              | inr (e, f) ↦ inl (e, ground arith)
              | inl (ref, has_ref) ↦ elim (update_lem k s (json.text_of ref) db) [
                | inl (e, run) ↦ inl (e, ground arith)
                | inr (u, there, run) ↦
                    inr (k, s, u, (i, st, has_id, has_status, uuid, named), there, ground arith)
              ]
            ]
          ]
        ]
      ]
    ]
  ]

  -- What the webhook does when it does not refuse.
  abbrev pub Applied : Db → Type 0
  Applied db =
      (body : Json) × (k : ℕ) × (s : KycStatus) × (u : User) × (env.loads raw_body ≡ some body)
      × Names env body k s
      × (get user_key k db.users ≡ some u)
      × (kyc_provider_webhook env raw_body signature db ≡ (ok (with_kyc s u), with_status k s u db))

  -- Outside the dev mode, the webhook of the KYC provider raises and changes nothing, or its header is the signature of the body under a secret that is set, and it does one thing: the user whom the body names gets the status that the body names, and the change is published.
  pub kyc_provider_webhook-IsSigned :
      (db : Db)
      → env.dev_mode ≡ false
      → Refuses (kyc_provider_webhook env raw_body signature) db
        ⊎ (IsSigned env raw_body signature × Applied db)
  unfolding kyc_provider_webhook
  kyc_provider_webhook-IsSigned db production = elim (signature_lem signature production) [
    | inl (e, f) ↦ inl (e, rw f refl)
    | inr signed ↦
        elim (Result-cases (
          verify_kyc_signature env.hmac_sha256 env.dev_mode env.kyc_webhook_secret raw_body
            signature)) [
              | inr (e, f) ↦ inl (e, rw f refl)
              | inl (u, good) ↦ elim (Option-cases (env.loads raw_body)) [
                | inl unreadable ↦ inl (value_error, rw (good, unreadable) refl)
                | inr (body, read) ↦ elim (apply_lem body db) [
                  | inl (e, run) ↦ inl (e, rw (good, read) run)
                  | inr (k, s, u, named, there, run) ↦
                      inr (signed, (body, k, s, u, read, named, there, rw (good, read) run))
                ]
              ]
            ]
  ]
