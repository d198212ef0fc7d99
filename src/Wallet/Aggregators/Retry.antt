-- ===== src/Wallet/Aggregators/Retry.antt =====
-- How long a request to an aggregator can take, and what it gives
-- (app/modules/wallet/openbanking/yapily_client.py and client.py, `_request`).
use ufirst_backend.Base.{
  ℕ, zero, suc, ◌+◌, ◌≤◌, ◌<◌, ◌≡◌, inl, inr, none, some, List, [], ◌∷◌, arith, refl, sym, subst,
  ◌∙◌, Option-cases,
}
use ufirst_backend.Core.Errors.{Result, ok, err, aggregator_error}
use ufirst_backend.Wallet.Aggregators.Http.{
  HttpRequest, Response, Network, answer, Run, next_delay, after_sleep, failed, rounds, run_request,
}

-- The first answer of the attempts, or the error.
unfoldable pub first_answer : Network → HttpRequest → (count attempt : ℕ) → Result Response
first_answer network request zero attempt = err aggregator_error
first_answer network request (suc count) attempt = elim (answer (network request attempt)) [
  | some r ↦ ok r
  | none ↦ first_answer network request count (suc attempt)
]

abbrev pub length : List ℕ → ℕ
length [] = 0
length (n ∷ ns) = length ns + 1

-- Every pause is that short.
abbrev pub AtMost : ℕ → List ℕ → Type 0
AtMost most [] = Unit {0}
AtMost most (n ∷ ns) = (n ≤ most) × AtMost most ns

module _ (network : Network) (request : HttpRequest) where
  -- What is promised of a run of so many rounds.
  abbrev pub Bounded : (left attempt : ℕ) → Run → Type 0
  Bounded left attempt r =
      (r.calls ≤ left)
      × (r.result ≡ first_answer network request left attempt)
      × AtMost 10_000 r.sleeps
      × (length r.sleeps + 1 ≤ left)

  next_delay-le : (delay : ℕ) → next_delay delay ≤ 10_000
  unfolding next_delay
  next_delay-le delay = ground arith

  -- The rounds that are left, by what the next attempt ends in.
  rounds-some :
      (left attempt delay : ℕ) (r : Response)
      → answer (network request attempt) ≡ some r
      → rounds network request (suc left) attempt delay
        ≡ record { result = ok r; calls = 1; sleeps = [] }
  unfolding rounds
  rounds-some left attempt delay r done = ground (arith, done)

  rounds-none_last :
      (attempt delay : ℕ)
      → answer (network request attempt) ≡ none
      → rounds network request 1 attempt delay ≡ failed 1
  unfolding rounds
  rounds-none_last attempt delay again = ground (arith, again)

  rounds-none :
      (left attempt delay : ℕ)
      → answer (network request attempt) ≡ none
      → rounds network request (suc (suc left)) attempt delay
        ≡ after_sleep delay (rounds network request (suc left) (suc attempt) (next_delay delay))
  unfolding rounds
  rounds-none left attempt delay again = ground (arith, again)

  first_answer-some :
      (left attempt : ℕ) (r : Response)
      → answer (network request attempt) ≡ some r
      → first_answer network request (suc left) attempt ≡ ok r
  unfolding first_answer
  first_answer-some left attempt r done = ground (arith, done)

  first_answer-none :
      (left attempt : ℕ)
      → answer (network request attempt) ≡ none
      → first_answer network request (suc left) attempt
        ≡ first_answer network request left (suc attempt)
  unfolding first_answer
  first_answer-none left attempt again = ground (arith, again)

  no_attempt : (attempt : ℕ) → first_answer network request zero attempt ≡ err aggregator_error
  unfolding first_answer
  no_attempt attempt = refl

  answered :
      (left attempt delay : ℕ) (r : Response)
      → answer (network request attempt) ≡ some r
      → Bounded (suc left) attempt (rounds network request (suc left) attempt delay)
  answered left attempt delay r done =
      subst (Bounded (suc left) attempt) (sym (rounds-some left attempt delay r done))
        (omega arith, sym (first_answer-some left attempt r done), tt, omega arith)

  rounds_lem :
      (left attempt delay : ℕ)
      → delay ≤ 10_000
      → Bounded (suc left) attempt (rounds network request (suc left) attempt delay)
  rounds_lem zero attempt delay short = elim (Option-cases (answer (network request attempt))) [
    | inr (r, done) ↦ answered zero attempt delay r done
    | inl again ↦ subst (Bounded 1 attempt) (sym (rounds-none_last attempt delay again)) (
      omega arith,
      sym (first_answer-none 0 attempt again ∙ no_attempt (suc attempt)),
      tt,
      omega arith,
    )
  ]
  rounds_lem (suc left) attempt delay short =
      let rest = rounds_lem left (suc attempt) (next_delay delay) (next_delay-le delay) in
      elim (Option-cases (answer (network request attempt))) [
        | inr (r, done) ↦ answered (suc left) attempt delay r done
        | inl again ↦
            subst (Bounded (suc (suc left)) attempt) (sym (rounds-none left attempt delay again)) (
              omega (arith, rest.0),
              rest.1 ∙ sym (first_answer-none (suc left) attempt again),
              (short, rest.2),
              omega (arith, rest.3),
            )
      ]

  -- A request with retries ends, after at most as many calls of the network as it may make and with at least one pause fewer than that, of at most ten seconds each; it gives the first answer that is no server error and no failure of the transport, if one of its attempts gets one, and it raises AggregatorError otherwise.
  pub run_request-Bounded :
      (retries : ℕ) → 0 < retries → Bounded retries 0 (run_request network request retries)
  unfolding run_request
  run_request-Bounded zero h = absurd (omega arith)
  run_request-Bounded (suc left) h = rounds_lem left 0 1_000 (omega arith)
