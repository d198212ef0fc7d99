-- ===== src/Tests/Cores.antt =====
-- The theorems on the shared parts, applied: kept responses, pages and amounts.
use ufirst_backend.Base.{
  ℕ, ◌+◌, ◌≤◌, ◌≡◌, refl, String, none, some, List, [], ◌∷◌, arith, if◌then◌else◌, str_eq,
}
use ufirst_backend.Base.Int.{negsuc}
use ufirst_backend.Core.Middleware.{
  Request, Response, Entry, Arrival, Verdict, Redis, redis_set, fingerprint, reserve, look_up,
  complete,
}
use ufirst_backend.Core.Middleware.Steps.{System, Step, step, run, count, calm_all}
use ufirst_backend.Core.Middleware.Once.{run_executes_once}
use ufirst_backend.Core.Middleware.Replay.{kept_response_replayed}
use ufirst_backend.Core.Pagination.{length, first_pages, total_pages, first_pages-total_pages}
use ufirst_backend.Core.Money.{
  Money, Decimal, make, as_decimal, from_decimal, minor_units, fits, from_decimal-as_decimal,
}

-- A hash that tells the test's requests apart.
abbrev last_part : List String → String
last_part [] = ""
last_part (s ∷ []) = s
last_part (s ∷ t ∷ parts) = last_part (t ∷ parts)

abbrev post : Request
post = record {
  method = "POST";
  path = "/cards";
  query = "";
  actor_scope = "7";
  idempotency_key = some "k1";
  content_type = "application/json";
  body = "{}";
}

abbrev other_body : Request
other_body = record post { body = "{1}" }

abbrev created : Response
created = record { status_code = 201; content_type = "application/json"; body = "done" }

abbrev empty : Redis
empty k = none

abbrev idle : System
idle = record { redis = empty; waiting = []; running = []; executed = [] }

abbrev steps : List Step
steps =
    Step.comes post
    ∷ Step.ends 0 none
    ∷ Step.comes post
    ∷ Step.comes post
    ∷ Step.ends 0 (some created)
    ∷ Step.looks 0
    ∷ Step.comes other_body
    ∷ Step.expires "k2"
    ∷ []

run_executes_once_example :
    count last_part "k1" (run last_part steps idle).running
      + count last_part "k1" (run last_part steps idle).executed
    ≤ 1
unfolding calm_all step
run_executes_once_example = run_executes_once last_part "k1" steps idle (refl, refl, refl) refl

-- A handler that fails between the two calls of another request: two handlers of the key run.
abbrev uncalm : List Step
uncalm = Step.comes post ∷ Step.comes post ∷ Step.ends 0 none ∷ Step.looks 0 ∷ Step.comes post ∷ []

two_handlers_run : count last_part "k1" (run last_part uncalm idle).running ≡ 2
unfolding run step reserve look_up complete
two_handlers_run = refl

abbrev one_runs : System
one_runs = record {
  redis = redis_set "k1" (Entry.in_progress (fingerprint last_part post)) empty;
  waiting = post ∷ [];
  running = post ∷ [];
  executed = [];
}

abbrev others : List Step
others = Step.looks 0 ∷ Step.comes other_body ∷ Step.expires "k2" ∷ []

kept_response_replayed_example :
    (reserve last_part other_body
        (run last_part (Step.ends 0 (some created) ∷ others) one_runs).redis
      ≡ (Arrival.taken, (run last_part (Step.ends 0 (some created) ∷ others) one_runs).redis))
    × (look_up last_part other_body
          (run last_part (Step.ends 0 (some created) ∷ others) one_runs).redis
        ≡ (if str_eq (fingerprint last_part post) (fingerprint last_part other_body)
            then Verdict.replayed created
            else Verdict.conflict))
kept_response_replayed_example =
    kept_response_replayed last_part "k1" 0 post other_body created others one_runs (refl, refl)
      refl refl refl refl refl

abbrev numbers : List ℕ
numbers = 1 ∷ 2 ∷ 3 ∷ 4 ∷ 5 ∷ []

first_pages-total_pages_example : first_pages numbers 2 (total_pages (length numbers) 2) ≡ numbers
first_pages-total_pages_example = first_pages-total_pages numbers 2 (omega arith)

abbrev debt : Money
debt = record { amount = negsuc 12_344; currency = "GHS" }

from_decimal-as_decimal_example :
    (d : Decimal) × (as_decimal debt ≡ some d) × (from_decimal d "GHS" ≡ some debt)
unfolding make minor_units fits
from_decimal-as_decimal_example = from_decimal-as_decimal (negsuc 12_344) "GHS" debt refl refl
