-- ===== src/Core/Middleware.antt =====
-- `IdempotencyMiddleware` (app/core/middleware.py): responses of mutating requests are kept under
-- the key of the request. Redis is a map of the entries that are there; the hash is a parameter, of
-- the parts that the source joins. `reserve`, `look_up` and `complete` are the calls of Redis of one
-- request, between which other requests come, and entries expire after their 24 hours.
pub mod Steps
pub mod Once
pub mod Replay
use ufirst_backend.Base.{
  ℕ, String, Option, none, some, List, [], ◌∷◌, Bool, true, false, not, ◌&&◌, ◌||◌, str_eq, is_some,
  leb, ltb, if◌then◌else◌,
}
use ufirst_backend.Base.Table.{find}

pub record Request : Type 0 where
  pub method : String
  pub path : String
  pub query : String
  pub actor_scope : String
  pub idempotency_key : Option String
  pub content_type : String
  pub body : String

pub record Response : Type 0 where
  pub status_code : ℕ
  pub content_type : String
  pub body : String

-- What is kept under a key: a reservation, or a response, each with the fingerprint of the request.
pub data Entry : Type 0 where
  in_progress : (fingerprint : String) → Entry
  completed : (fingerprint : String) → Response → Entry

abbrev pub fingerprint_of : Entry → String
fingerprint_of (Entry.in_progress f) = f
fingerprint_of (Entry.completed f r) = f

-- Redis.

abbrev pub Redis : Type 0
Redis = String → Option Entry

abbrev pub redis_set : String → Entry → Redis → Redis
redis_set key e redis k = if str_eq k key then some e else redis k

abbrev pub redis_delete : String → Redis → Redis
redis_delete key redis k = if str_eq k key then none else redis k

-- What `set(nx=True)` finds.
pub data Arrival : Type 0 where
  -- The request needs no key: the handler runs, and nothing is kept.
  passed : Arrival
  -- The key was free: the handler runs under its reservation.
  reserved : Arrival
  -- There is an entry under the key, to be looked up.
  taken : Arrival

-- What the look-up after it gives.
pub data Verdict : Type 0 where
  -- The entry has gone meanwhile: the handler runs, with no reservation.
  started : Verdict
  -- The kept response is returned.
  replayed : Response → Verdict
  -- IdempotencyConflict, and DuplicateIdempotencyKey.
  conflict : Verdict
  duplicate : Verdict

abbrev pub is_idempotent_method : String → Bool
is_idempotent_method m = str_eq m "POST" || (str_eq m "PUT" || str_eq m "PATCH")

-- The key of the request, where it has one that is not empty and its method is one of the three.
abbrev pub usable_key : Request → Option String
usable_key r = elim r.idempotency_key [
  | none ↦ none
  | some k ↦ if is_idempotent_method r.method && not (str_eq k "") then some k else none
]

abbrev pub is_success : Response → Bool
is_success response = leb 200 response.status_code && ltb response.status_code 300

-- The response of a handler, or none where it raised.
abbrev pub Outcome : Type 0
Outcome = Option Response

module _ (hash : List String → String) where
  abbrev pub cache_key : Request → String → String
  cache_key r key = hash (r.method ∷ r.path ∷ r.query ∷ r.actor_scope ∷ key ∷ [])

  abbrev pub fingerprint : Request → String
  fingerprint r = hash (r.content_type ∷ r.body ∷ [])

  -- The answer from what is kept.
  unfoldable pub answer : Request → Entry → Verdict
  answer r (Entry.in_progress f) =
      if str_eq f (fingerprint r) then Verdict.duplicate else Verdict.conflict
  answer r (Entry.completed f response) =
      if str_eq f (fingerprint r) then Verdict.replayed response else Verdict.conflict

  abbrev set_nx : Request → String → Option Entry → Redis → Arrival × Redis
  set_nx r key none redis =
      (Arrival.reserved, redis_set key (Entry.in_progress (fingerprint r)) redis)
  set_nx r key (some e) redis = (Arrival.taken, redis)

  abbrev reserve_under : Request → Option String → Redis → Arrival × Redis
  reserve_under r none redis = (Arrival.passed, redis)
  reserve_under r (some key) redis = set_nx r (cache_key r key) (redis (cache_key r key)) redis

  -- `dispatch` up to `redis.set(..., nx=True)`.
  unfoldable pub reserve : Request → Redis → Arrival × Redis
  reserve r redis = reserve_under r (usable_key r) redis

  abbrev verdict : Request → Option Entry → Verdict
  verdict r none = Verdict.started
  verdict r (some e) = answer r e

  abbrev look_under : Request → Option String → Redis → Verdict
  look_under r none redis = Verdict.started
  look_under r (some key) redis = verdict r (redis (cache_key r key))

  -- `redis.get` of a request whose key was taken.
  unfoldable pub look_up : Request → Redis → Verdict
  unfolding answer
  look_up r redis = look_under r (usable_key r) redis

  abbrev keep : Request → String → Outcome → Redis → Redis
  keep r key none redis = redis_delete key redis
  keep r key (some response) redis =
      if is_success response
      then redis_set key (Entry.completed (fingerprint r) response) redis
      else redis_delete key redis

  abbrev complete_under : Request → Option String → Outcome → Redis → Redis
  complete_under r none outcome redis = redis
  complete_under r (some key) outcome redis = keep r (cache_key r key) outcome redis

  -- `dispatch` from the handler's end on.
  unfoldable pub complete : Request → Outcome → Redis → Redis
  complete r outcome redis = complete_under r (usable_key r) outcome redis
