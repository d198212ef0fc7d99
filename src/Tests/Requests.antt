-- ===== src/Tests/Requests.antt =====
-- A history of requests, served.
use ufirst_backend.Base.{arith, none, List, [], ◌∷◌}
use ufirst_backend.Base.Int.{pos}
use ufirst_backend.Wallet.Models.{PaymentState}
use ufirst_backend.History.{Request, serve_all}
use ufirst_backend.History.Soundness.{IsSound, serve_all-IsSound}
use ufirst_backend.Tests.Data.{ctx, later, request, payment, clearing_of, database}
use ufirst_backend.Tests.Payments.{database-IsSafe}

abbrev requests : List Request
requests =
    Request.create_wallet ctx 8 "GHS"
    ∷ Request.initiate_funding ctx request
    ∷ Request.credit_from_funding ctx 21
    ∷ Request.authorize ctx payment
    ∷ Request.process_clearing later (clearing_of (pos 200))
    ∷ Request.process_reversal later "ref-2"
    ∷ Request.advance_funding_state later 90 PaymentState.cancelled none none
    ∷ Request.debit_wallet later 1 (pos 100) "fee" 1 none
    ∷ []

serve_all-IsSound_example : IsSound (serve_all requests database)
serve_all-IsSound_example =
    serve_all-IsSound requests database
      (record { safe = database-IsSafe; payable = (omega arith, tt) })
