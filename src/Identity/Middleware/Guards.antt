-- ===== src/Identity/Middleware/Guards.antt =====
-- What the check of the role in front of a route does (app/core/auth.py, `require_roles`).
use ufirst_backend.Base.{◌≡◌, inl, inr, ◌⊎◌, String, List, true, arith, ap, Bool-cases}
use ufirst_backend.Core.Errors.{err, http_error}
use ufirst_backend.Core.Auth.{CurrentUser, require_roles, role_in}
use ufirst_backend.Db.{Db, Action, ◌>>=◌}
use ufirst_backend.Identity.Middleware.{guarded}
use ufirst_backend.Wallet.Outcomes.{Refuses}

-- What the first of two actions refuses, both refuse.
pub Refuses->>= :
    {A B : Type 0} (m : Action A) (f : A → Action B) (db : Db) → Refuses m db → Refuses (m >>= f) db
Refuses->>= m f db (e, run) = (e, rw (◌>>=◌, run) (ap (λ r. (err e, r.1)) run))

-- A route lets the request pass, or its check of the role refuses it.
pub guarded_lem :
    {A : Type 0}
    → (roles : List String) (handler : CurrentUser → Action A) (user : CurrentUser) (db : Db)
    → Refuses (guarded roles handler user) db
      ⊎ ((role_in user.role roles ≡ true) × (guarded roles handler user db ≡ handler user db))
unfolding require_roles
guarded_lem roles handler user db = elim (Bool-cases (role_in user.role roles)) [
  | inr stranger ↦ inl (http_error 403, ground arith)
  | inl fine ↦ inr (fine, ground arith)
]
