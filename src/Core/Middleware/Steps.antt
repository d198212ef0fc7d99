-- ===== src/Core/Middleware/Steps.antt =====
-- Requests that come in and handlers that end, in any interleaving (app/core/middleware.py).
use ufirst_backend.Base.{
  ℕ, zero, suc, ◌+◌, String, Option, none, some, List, [], ◌∷◌, Bool, true, false, not, ◌||◌, ◌&&◌,
  ◌==◌, str_eq, if◌then◌else◌,
}
use ufirst_backend.Core.Middleware.{
  Request, Response, Redis, Arrival, Verdict, usable_key, cache_key, reserve, look_up, complete,
  is_success, redis_delete,
}

-- The kept responses, the requests that have found their key taken and not looked it up yet, those
-- whose handlers run with a key, and those whose handlers ended with success.
pub record System : Type 0 where
  pub redis : Redis
  pub waiting : List Request
  pub running : List Request
  pub executed : List Request

abbrev pub nth : ℕ → List Request → Option Request
nth n [] = none
nth zero (r ∷ rs) = some r
nth (suc n) (r ∷ rs) = nth n rs

abbrev pub without : ℕ → List Request → List Request
without n [] = []
without zero (r ∷ rs) = rs
without (suc n) (r ∷ rs) = r ∷ without n rs

-- A request comes in, the n-th waiting request looks its key up, the handler of the n-th running
-- request ends, or an entry expires.
pub data Step : Type 0 where
  comes : Request → Step
  looks : ℕ → Step
  ends : ℕ → Option Response → Step
  expires : (key : String) → Step

abbrev pub succeeded : Option Response → Bool
succeeded none = false
succeeded (some response) = is_success response

module _ (hash : List String → String) where
  abbrev admit : Request → Arrival × Redis → System → System
  admit r (Arrival.passed, redis) s = record s { redis = redis }
  admit r (Arrival.reserved, redis) s = record s { redis = redis; running = r ∷ s.running }
  admit r (Arrival.taken, redis) s = record s { redis = redis; waiting = r ∷ s.waiting }

  abbrev tell : Request → Verdict → System → System
  tell r Verdict.started s = record s { running = r ∷ s.running }
  tell r v s = s

  abbrev pub look_of : Option Request → ℕ → System → System
  look_of none n s = s
  look_of (some r) n s =
      tell r (look_up hash r s.redis) (record s { waiting = without n s.waiting })

  abbrev pub end_of : Option Request → ℕ → Option Response → System → System
  end_of none n outcome s = s
  end_of (some r) n outcome s = record {
    redis = complete hash r outcome s.redis;
    waiting = s.waiting;
    running = without n s.running;
    executed = if succeeded outcome then r ∷ s.executed else s.executed;
  }

  unfoldable pub step : Step → System → System
  unfolding reserve look_up complete
  step (Step.comes r) s = admit r (reserve hash r s.redis) s
  step (Step.looks n) s = look_of (nth n s.waiting) n s
  step (Step.ends n outcome) s = end_of (nth n s.running) n outcome s
  step (Step.expires key) s = record s { redis = redis_delete key s.redis }

  unfoldable pub run : List Step → System → System
  run [] s = s
  run (x ∷ steps) s = run steps (step x s)

  abbrev pub under : String → Request → Bool
  under c r = elim (usable_key r) [ none ↦ false | some key ↦ str_eq c (cache_key hash r key) ]

  abbrev pub count : String → List Request → ℕ
  count c [] = 0
  count c (r ∷ rs) = count c rs + (if under c r then 1 else 0)

  abbrev belongs : String → Option Request → Bool
  belongs c none = false
  belongs c (some r) = under c r

  -- The entry of a key stays while requests rely on it: it does not expire, and no handler of the
  -- key fails between the two calls of another request.
  abbrev pub calm : String → Step → System → Bool
  calm c (Step.comes r) s = true
  calm c (Step.looks n) s = true
  calm c (Step.ends n outcome) s =
      succeeded outcome || (not (belongs c (nth n s.running)) || count c s.waiting == 0)
  calm c (Step.expires key) s = not (str_eq c key)

  unfoldable pub calm_all : String → List Step → System → Bool
  unfolding step
  calm_all c [] s = true
  calm_all c (x ∷ steps) s = let rest = calm_all c steps (step x s) in calm c x s && rest

abbrev pub unexpired : String → List Step → Bool
unexpired c [] = true
unexpired c (Step.expires key ∷ steps) = not (str_eq c key) && unexpired c steps
unexpired c (x ∷ steps) = unexpired c steps
