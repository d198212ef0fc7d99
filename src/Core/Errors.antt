-- ===== src/Core/Errors.antt =====
-- What an operation raises: the classes of app/core/exceptions.py with their HTTP status,
-- FastAPI's HTTPException, and the errors of the database layer and of Python that the modelled
-- code can meet.
use ufirst_backend.Base.{ℕ, ◌≡◌, refl, ◌⊎◌, inl, inr}

pub data Error : Type 0 where
  validation_error : Error
  idempotency_conflict : Error
  invalid_state_transition : Error
  insufficient_balance : Error
  duplicate_idempotency_key : Error
  authentication_error : Error
  permission_denied : Error
  not_found : Error
  aggregator_error : Error
  card_processor_error : Error
  webhook_signature_invalid : Error
  -- SQLAlchemy's IntegrityError: a unique constraint refuses a row.
  integrity_error : Error
  -- SQLAlchemy's MultipleResultsFound, of `scalar_one_or_none`.
  multiple_results_found : Error
  -- Python's AttributeError, ValueError, KeyError and TypeError.
  attribute_error : Error
  value_error : Error
  key_error : Error
  type_error : Error
  -- PostgreSQL's refusal of SET TRANSACTION after a query.
  active_sql_transaction : Error
  -- SQLAlchemy's refusal of a query after a rollback inside `session.begin()`.
  invalid_request : Error
  -- `HTTPException(status_code=...)`
  http_error : (status_code : ℕ) → Error

-- `exc.http_status`, and 500 for what is not a UFirstError and no HTTPException.
unfoldable pub http_status : Error → ℕ
http_status validation_error = 422
http_status idempotency_conflict = 409
http_status invalid_state_transition = 409
http_status insufficient_balance = 422
http_status duplicate_idempotency_key = 409
http_status authentication_error = 401
http_status permission_denied = 403
http_status not_found = 404
http_status aggregator_error = 502
http_status card_processor_error = 502
http_status webhook_signature_invalid = 401
http_status (http_error status_code) = status_code
http_status _ = 500

-- A call returns a value or raises.
pub data Result (A : Type 0) : Type 0 where
  ok : A → Result A
  err : Error → Result A

pub Result-cases :
    {A : Type 0} (r : Result A) → ((a : A) × (r ≡ ok a)) ⊎ ((e : Error) × (r ≡ err e))
Result-cases (ok a) = inl (a, refl)
Result-cases (err e) = inr (e, refl)
