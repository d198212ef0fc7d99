-- ===== src/Wallet/Aggregators/Http.antt =====
-- The requests of the clients with retries: `_request` of YapilyClient and of TrueLayerClient
-- (app/modules/wallet/openbanking/yapily_client.py and client.py), which have the same loop. The
-- network is a parameter, which may answer each attempt differently. A body is
-- decoded JSON. Times are in milliseconds.
use ufirst_backend.Base.{
  ℕ, zero, suc, ◌*◌, String, Option, none, some, List, [], ◌∷◌, ltb, ◌==◌, if◌then◌else◌,
}
use ufirst_backend.Core.Errors.{Result, ok, err, aggregator_error}
use ufirst_backend.Core.Json.{Json}

-- A request, with the header that the caller adds.
pub record HttpRequest : Type 0 where
  pub method : String
  pub path : String
  pub json_body : Option Json
  pub extra_header : Option (String × String)

pub record Response : Type 0 where
  pub status_code : ℕ
  pub json : Json

-- What an attempt ends in; `transport_error` is `httpx.TransportError`.
pub data Attempt : Type 0 where
  response : Response → Attempt
  transport_error : Attempt

abbrev pub Network : Type 0
Network = HttpRequest → (attempt : ℕ) → Attempt

-- The answer of an attempt that the loop returns: server errors are retried.
unfoldable pub answer : Attempt → Option Response
answer (response r) = if ltb r.status_code 500 then some r else none
answer transport_error = none

-- The result of the loop, with what it did: the calls of the network, and the pauses.
pub record Run : Type 0 where
  pub result : Result Response
  pub calls : ℕ
  pub sleeps : List ℕ

-- `min(delay * 2, 10.0)`
unfoldable pub next_delay : ℕ → ℕ
next_delay delay = if ltb (delay * 2) 10_000 then delay * 2 else 10_000

abbrev pub after_sleep : ℕ → Run → Run
after_sleep delay r = record { result = r.result; calls = suc r.calls; sleeps = delay ∷ r.sleeps }

abbrev pub failed : ℕ → Run
failed calls = record { result = err aggregator_error; calls = calls; sleeps = [] }

module _ (network : Network) (request : HttpRequest) where
  -- The rounds of the loop that are left, from an attempt on. No pause follows the last one.
  unfoldable pub rounds : (left attempt delay : ℕ) → Run
  unfolding answer next_delay
  rounds zero attempt delay = failed 0
  rounds (suc left) attempt delay =
      let rest = rounds left (suc attempt) (next_delay delay) in
      elim (answer (network request attempt)) [
        | some r ↦ record { result = ok r; calls = 1; sleeps = [] }
        | none ↦ if left == 0 then failed 1 else after_sleep delay rest
      ]

  unfoldable pub run_request : (retries : ℕ) → Run
  unfolding rounds
  run_request retries = rounds retries 0 1_000

-- `await self._request(...)`, with the default of three attempts.
unfoldable pub send : Network → HttpRequest → Result Response
unfolding run_request
send network request = (run_request network request 3).result
