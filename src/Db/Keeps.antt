-- ===== src/Db/Keeps.antt =====
-- What an action keeps, whatever it returns or raises, put together the way actions are.
use ufirst_backend.Base.{◌≡◌, subst, inl, inr, Option, none, some, Bool, true, false, if◌then◌else◌}
use ufirst_backend.Core.Errors.{Error, Result, ok, err, Result-cases}
use ufirst_backend.Db.{Db, Action, or_raise, in_transaction, in_transaction-keeps, ◌>>=◌}

module _ {ℓ} (P : Db → Type ℓ) where
  -- The action keeps the property.
  abbrev pub Keeps : {A : Type 0} → Action A → Type ℓ
  Keeps m = (db : Db) → P db → P (m db).1

  -- From where the first action leaves the database on.
  pub after->>= :
      {A B : Type 0} (m : Action A) (f : A → Action B) (db : Db)
      → P (m db).1
      → ((a : A) → Keeps (f a))
      → P ((m >>= f) db).1
  after->>= m f db first second = elim (Result-cases (m db).0) [
    | inl (a, e) ↦ rw (◌>>=◌, e) (second a (m db).1 first)
    | inr (e, x) ↦ rw (◌>>=◌, x) first
  ]

  pub Keeps->>= :
      {A B : Type 0} (m : Action A) (f : A → Action B)
      → Keeps m
      → ((a : A) → Keeps (f a))
      → Keeps (m >>= f)
  Keeps->>= m f first second db h = after->>= m f db (first db h) second

  pub Keeps-if :
      {A : Type 0} (b : Bool) (m k : Action A) → Keeps m → Keeps k → Keeps (if b then m else k)
  Keeps-if true m k first second = first
  Keeps-if false m k first second = second

  pub Keeps-or_raise : {A : Type 0} (o : Option A) (e : Error) → Keeps (or_raise o e)
  Keeps-or_raise none e db h = h
  Keeps-or_raise (some a) e db h = h

  -- A transaction keeps what its action keeps, if the property does not look at the events.
  pub Keeps-in_transaction :
      {A : Type 0} (m : Action A)
      → ((db db' : Db) → P db → P (record db { published = db'.published }))
      → Keeps m
      → Keeps (in_transaction m)
  Keeps-in_transaction m blind kept db h =
      in_transaction-keeps P m db (λ db'. blind db db' h) (kept db h)

-- How a composed action goes on.
abbrev pub next : {A B : Type 0} → (A → Action B) → Db → Result A → Result B × Db
next f db (ok a) = f a db
next f db (err e) = (err e, db)

-- What a composed action that returns went through.
pub returns->>= :
    {A B : Type 0} (m : Action A) (f : A → Action B) (b : B) (db db' : Db)
    → (m >>= f) db ≡ (ok b, db')
    → (a : A) × ((m db).0 ≡ ok a) × (f a (m db).1 ≡ (ok b, db'))
returns->>= m f b db db' run = elim (Result-cases (m db).0) [
  | inl (a, e) ↦ (a, e, subst (λ r. next f (m db).1 r ≡ (ok b, db')) e run)
  | inr (e, x) ↦ cc (subst (λ r. next f (m db).1 r ≡ (ok b, db')) x run)
]
