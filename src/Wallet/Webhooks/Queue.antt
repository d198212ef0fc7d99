-- ===== src/Wallet/Webhooks/Queue.antt =====
-- What reaches the queue of tasks (app/modules/wallet/openbanking/webhooks.py).
use ufirst_backend.Base.{
  ℕ, ◌≡◌, inl, inr, ◌⊎◌, String, Option, none, some, List, [], ◌∷◌, Bool, true, arith, refl, sym,
  subst,
}
use ufirst_backend.Core.Errors.{Error, Result, Result-cases, ok, err, value_error}
use ufirst_backend.Core.Json as json
use ufirst_backend.Core.Json.{Json, get_or, text_of}
use ufirst_backend.Wallet.Webhooks.{
  WebhookLog, Task, process_payment_webhook, process_connect_callback, Inbox, Incoming, Reception,
  Receive, lift, ◌>>=◌, rejected, rejected_unlogged, log_webhook, dispatch, log_and_dispatch,
  accept_payment, accept_connection, accept_stripe, or_raise, openbanking_payment_status,
  openbanking_connect_callback, stripe_payment_status, check_replay,
}

abbrev pub payload_of : Task → Json
payload_of (process_payment_webhook payload aggregator) = payload
payload_of (process_connect_callback payload) = payload

-- The adapter that checks the signature of the request behind a task.
abbrev pub method_of : Task → String
method_of (process_payment_webhook payload aggregator) = aggregator
method_of (process_connect_callback payload) = "open_banking"

-- The log has an entry of this payload that says that its signature is valid.
unfoldable pub IsLogged : Json → List WebhookLog → Type 0
IsLogged payload [] = ⊥
IsLogged payload (l ∷ logs) =
    ((l.payload ≡ payload) × (l.signature_valid ≡ true)) ⊎ IsLogged payload logs

-- A request with a valid signature has this payload.
abbrev pub IsGenuine : Reception → Task → Type 0
IsGenuine env t =
    (request : Incoming) × (env.verify (method_of t) request ≡ ok tt)
    × (env.loads request.raw_body ≡ some (payload_of t))

unfoldable pub AreAccounted : Reception → List Task → List WebhookLog → Type 0
AreAccounted env [] logs = Unit {0}
AreAccounted env (t ∷ tasks) logs =
    IsGenuine env t × IsLogged (payload_of t) logs × AreAccounted env tasks logs

-- Every task has a genuine payload, which the log has too.
abbrev pub IsAccounted : Reception → Inbox → Type 0
IsAccounted env inbox = AreAccounted env inbox.tasks inbox.logs

module _ (env : Reception) where
  AreAccounted-log :
      (l : WebhookLog) (tasks : List Task) (logs : List WebhookLog)
      → AreAccounted env tasks logs
      → AreAccounted env tasks (l ∷ logs)
  unfolding AreAccounted IsLogged
  AreAccounted-log l [] logs h = tt
  AreAccounted-log l (t ∷ tasks) logs (genuine, logged, rest) =
      (genuine, inr logged, AreAccounted-log l tasks logs rest)

  abbrev Keeps : {A : Type 0} → Receive A → Type 0
  Keeps m = (inbox : Inbox) → IsAccounted env inbox → IsAccounted env (m inbox).1

  Keeps-log :
      (aggregator : String) (event_type payload : Json) (valid : Bool)
      → Keeps (log_webhook env aggregator event_type payload valid)
  unfolding log_webhook
  Keeps-log aggregator (Json.text type) payload valid inbox h =
      AreAccounted-log _ inbox.tasks inbox.logs h
  Keeps-log aggregator _ payload valid inbox h = h

  -- A genuine task that the log has.
  Keeps-dispatch :
      (t : Task) (inbox : Inbox)
      → IsGenuine env t
      → IsLogged (payload_of t) inbox.logs
      → IsAccounted env inbox
      → IsAccounted env (dispatch env t inbox).1
  unfolding dispatch AreAccounted
  Keeps-dispatch t inbox genuine logged h = elim (Result-cases (env.send_task t)) [
    | inr (e, down) ↦
        let run : dispatch env t inbox ≡ (err e, inbox) = ground arith in
        subst (λ r. IsAccounted env r.1) (sym run) h
    | inl (u, sent) ↦
        let run : dispatch env t inbox ≡ (ok tt, record inbox { tasks = t ∷ inbox.tasks }) =
          ground arith in
        subst (λ r. IsAccounted env r.1) (sym run) (genuine, logged, h)
  ]

  Keeps-log_and_dispatch :
      (aggregator : String) (event_type : Json) (t : Task)
      → IsGenuine env t
      → Keeps (log_and_dispatch env aggregator event_type (payload_of t) t)
  unfolding log_and_dispatch log_webhook IsLogged
  Keeps-log_and_dispatch aggregator (Json.text type) t genuine inbox h =
      Keeps-dispatch t _ genuine (inl (refl, refl)) (AreAccounted-log _ inbox.tasks inbox.logs h)
  Keeps-log_and_dispatch aggregator _ t genuine inbox h = h

  -- A step that can only raise, before another.
  Keeps-lift :
      {A B : Type 0}
      → (r : Result A) (f : A → Receive B) → ((a : A) → r ≡ ok a → Keeps (f a))
      → Keeps (lift r >>= f)
  Keeps-lift (ok a) f kept = kept a refl
  Keeps-lift (err e) f kept = λ inbox h. h

  Keeps-rejected :
      {B : Type 0}
      → (request : Incoming) (r : Result (Unit {0})) (f : Unit {0} → Receive B)
      → (r ≡ ok tt → Keeps (f tt))
      → Keeps (rejected env request r >>= f)
  unfolding log_webhook
  Keeps-rejected request (ok u) f kept = kept refl
  Keeps-rejected request (err Error.aggregator_error) f kept =
      λ inbox h. AreAccounted-log _ inbox.tasks inbox.logs h
  Keeps-rejected request (err e) f kept = λ inbox h. h

  Keeps-rejected_unlogged :
      {B : Type 0}
      → (r : Result (Unit {0})) (f : Unit {0} → Receive B) → (r ≡ ok tt → Keeps (f tt))
      → Keeps (rejected_unlogged env r >>= f)
  Keeps-rejected_unlogged (ok u) f kept = kept refl
  Keeps-rejected_unlogged (err Error.aggregator_error) f kept = λ inbox h. h
  Keeps-rejected_unlogged (err e) f kept = λ inbox h. h

  -- The three ways in which a genuine payload goes on.
  Keeps-accept_payment :
      (payload : Json)
      → IsGenuine env (process_payment_webhook payload "open_banking")
      → Keeps (accept_payment env payload)
  unfolding accept_payment
  Keeps-accept_payment payload genuine = Keeps-lift (json.get "timestamp" payload) _ λ timestamp e.
      Keeps-lift (check_replay env timestamp) _ λ fresh f.
        Keeps-lift (get_or "type" (Json.text "unknown") payload) _ λ event_type g.
          Keeps-log_and_dispatch "truelayer" event_type
            (process_payment_webhook payload "open_banking") genuine

  Keeps-accept_connection :
      (payload : Json)
      → IsGenuine env (process_connect_callback payload)
      → Keeps (accept_connection env payload)
  unfolding accept_connection
  Keeps-accept_connection payload genuine =
      Keeps-lift (json.get "timestamp" payload) _ λ timestamp e.
        Keeps-lift (check_replay env timestamp) _ λ fresh f.
          Keeps-lift (get_or "type" (Json.text "connect") payload) _ λ event_type g.
            Keeps-log_and_dispatch "truelayer" event_type (process_connect_callback payload) genuine

  Keeps-accept_stripe :
      (payload : Json)
      → IsGenuine env (process_payment_webhook payload "card")
      → Keeps (accept_stripe env payload)
  unfolding accept_stripe
  Keeps-accept_stripe payload genuine =
      Keeps-lift (get_or "type" (Json.text "unknown") payload) _ λ event_type g.
        Keeps-log_and_dispatch "stripe" event_type (process_payment_webhook payload "card") genuine

  read_lem : (o : Option Json) (p : Json) → or_raise o value_error ≡ ok p → o ≡ some p
  read_lem none p h = cc h
  read_lem (some x) p h = cc h

-- A request to one of the three endpoints.
pub data WebhookCall : Type 0 where
  payment_status connect_callback stripe_status : Incoming → WebhookCall

unfoldable pub receive : Reception → WebhookCall → Receive (Unit {0})
receive env (payment_status request) = openbanking_payment_status env request
receive env (connect_callback request) = openbanking_connect_callback env request
receive env (stripe_status request) = stripe_payment_status env request

module _ (env : Reception) where
  abbrev loaded : Incoming → (Json → Receive (Unit {0})) → Receive (Unit {0})
  loaded request accept = lift (or_raise (env.loads request.raw_body) value_error) >>= accept

  receive-IsAccounted :
      (call : WebhookCall) (inbox : Inbox)
      → IsAccounted env inbox
      → IsAccounted env (receive env call inbox).1
  unfolding receive openbanking_payment_status openbanking_connect_callback stripe_payment_status
  receive-IsAccounted (payment_status request) =
      Keeps-rejected env request (env.verify "open_banking" request)
        (λ u. loaded request (accept_payment env))
        λ valid.
          Keeps-lift env (or_raise (env.loads request.raw_body) value_error) (accept_payment env)
            λ payload read.
              Keeps-accept_payment env payload
                (request, valid, read_lem env (env.loads request.raw_body) payload read)
  receive-IsAccounted (connect_callback request) =
      Keeps-rejected_unlogged env (env.verify "open_banking" request)
        (λ u. loaded request (accept_connection env))
        λ valid.
          Keeps-lift env (or_raise (env.loads request.raw_body) value_error) (accept_connection env)
            λ payload read.
              Keeps-accept_connection env payload
                (request, valid, read_lem env (env.loads request.raw_body) payload read)
  receive-IsAccounted (stripe_status request) =
      Keeps-rejected_unlogged env (env.verify "card" request)
        (λ u. loaded request (accept_stripe env))
        λ valid.
          Keeps-lift env (or_raise (env.loads request.raw_body) value_error) (accept_stripe env)
            λ payload read.
              Keeps-accept_stripe env payload
                (request, valid, read_lem env (env.loads request.raw_body) payload read)

-- When a request comes, and what the queue does with a task then.
pub record Moment : Type 0 where
  pub now : ℕ
  pub send_task : Task → Result (Unit {0})

abbrev pub at : Reception → Moment → Reception
at env m = record env { now = m.now; send_task = m.send_task }

unfoldable pub receive_all : Reception → List (Moment × WebhookCall) → Inbox → Inbox
receive_all env [] inbox = inbox
receive_all env ((m, call) ∷ calls) inbox = receive_all env calls (receive (at env m) call inbox).1

at-AreAccounted :
    (env : Reception) (m : Moment) (tasks : List Task) (logs : List WebhookLog)
    → (AreAccounted env tasks logs → AreAccounted (at env m) tasks logs)
      × (AreAccounted (at env m) tasks logs → AreAccounted env tasks logs)
unfolding AreAccounted
at-AreAccounted env m [] logs = (λ h. h, λ h. h)
at-AreAccounted env m (t ∷ tasks) logs =
    let both = at-AreAccounted env m tasks logs in
    (λ h. (h.0, h.1, both.0 h.2), λ h. (h.0, h.1, both.1 h.2))

-- Whatever requests come to the endpoints of the aggregators, at whatever times, and whether the queue takes a task or not: each task in the queue has the payload of a request whose signature is valid, and the log has an entry of this payload that says so. It holds after the requests if it held before them, as it does of empty tables.
pub receive_all-IsAccounted :
    (env : Reception) (calls : List (Moment × WebhookCall)) (inbox : Inbox)
    → IsAccounted env inbox
    → IsAccounted env (receive_all env calls inbox)
unfolding receive_all
receive_all-IsAccounted env [] inbox h = h
receive_all-IsAccounted env ((m, call) ∷ calls) inbox h =
    let after = (receive (at env m) call inbox).1 in
    receive_all-IsAccounted env calls after (
      (at-AreAccounted env m after.tasks after.logs).1 (
        receive-IsAccounted (at env m) call inbox
          ((at-AreAccounted env m inbox.tasks inbox.logs).0 h)))
