-- ===== src/Tests/Fundings.antt =====
-- The theorems on funding transfers, applied.
use ufirst_backend.Base.{◌≤◌, ◌≡◌, ◌≢◌, refl, inl, none, some, List, [], ◌∷◌}
use ufirst_backend.Base.Table.{get}
use ufirst_backend.Core.Errors.{ok, err, integrity_error}
use ufirst_backend.Wallet.Models.{FundingTransfer, PaymentState, state_index}
use ufirst_backend.Wallet.Repository.{transfer_key, new_transfer}
use ufirst_backend.Wallet.Funding.{initiate_funding}
use ufirst_backend.Wallet.Funding.Machine.{FundingStep, perform_all, IsFinal, perform_all-Follows}
use ufirst_backend.Wallet.Funding.Once.{PaidOnce, perform_all-PaidOnce}
use ufirst_backend.Wallet.Funding.Start.{
  Answers, started, initiate-Answers, initiate_replay, initiate_survives_race,
}
use ufirst_backend.Tests.Data.{ctx, later, gift, request, database}

-- Two credits, the second one refused, and a late failure, refused as well.
abbrev steps : List FundingStep
steps =
    FundingStep.credit ctx 21
    ∷ FundingStep.credit later 21
    ∷ FundingStep.advance later 21 PaymentState.failed none (some "late")
    ∷ []

perform_all-PaidOnce_example : PaidOnce 21 (perform_all steps database)
perform_all-PaidOnce_example = perform_all-PaidOnce steps database 21 (inl refl)

perform_all-Follows_example :
    (u : FundingTransfer) × (get transfer_key 21 (perform_all steps database).funding_transfers
      ≡ some u)
    × (state_index PaymentState.awaiting_settlement ≤ state_index u.payment_state)
    × (IsFinal PaymentState.awaiting_settlement → u ≡ gift)
perform_all-Follows_example = perform_all-Follows steps database 21 gift refl

initiate-Answers_example :
    Answers request (initiate_funding ctx (started later request) request database)
initiate-Answers_example = initiate-Answers ctx (started later request) request database

initiate_request :
    initiate_funding ctx (λ db. db) request database
    ≡ (ok (new_transfer ctx request), started ctx request database)
unfolding initiate_funding
initiate_request = refl

initiate_replay_example :
    initiate_funding later (λ db. db) request (started ctx request database)
    ≡ (ok (new_transfer ctx request), started ctx request database)
initiate_replay_example =
    initiate_replay ctx later (λ db. db) (λ db. db) request database (new_transfer ctx request)
      (started ctx request database) initiate_request

-- Another request takes the key between the look-up and the insert.
initiate_survives_race_example :
    (initiate_funding ctx (started later request) request database).0 ≢ err integrity_error
initiate_survives_race_example =
    initiate_survives_race ctx (started later request) request database refl
