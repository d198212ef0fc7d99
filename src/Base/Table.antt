-- ===== src/Base/Table.antt =====
-- A table of the database as the list of its rows: `select ... where key = k` and `update`.
use Prim.Native.Nat.{ℕ, zero, suc}
use mathlib.Core.Path.{◌≡◌, refl, sym, subst}
use mathlib.Core.Logic.{◌≢◌, inl, inr}
use mathlib.Core.Bool.{Bool}
use mathlib.Core.Option.{Option, none, some}
use mathlib.Core.List.{List, [], ◌∷◌}
use native.Mathlib.Omega.{arith}
use ufirst_backend.Base.Tests.{◌==◌, if◌then◌else◌, Bool-cases}

module _ {ℓ} {R : Type ℓ} where
  -- The first row that passes the test.
  abbrev pub find : (R → Bool) → List R → Option R
  find p [] = none
  find p (r ∷ rows) = if p r then some r else find p rows

  -- The rows that pass the test.
  abbrev pub filter : (R → Bool) → List R → List R
  filter p [] = []
  filter p (r ∷ rows) = if p r then r ∷ filter p rows else filter p rows

module _ {ℓ} {R : Type ℓ} where
  abbrev pub take : ℕ → List R → List R
  take zero rows = []
  take (suc n) [] = []
  take (suc n) (r ∷ rows) = r ∷ take n rows

  abbrev pub drop : ℕ → List R → List R
  drop zero rows = rows
  drop (suc n) [] = []
  drop (suc n) (r ∷ rows) = drop n rows

module _ {ℓ} {R : Type ℓ} (key : R → ℕ) where
  abbrev pub get : ℕ → List R → Option R
  get k = find (λ r. key r == k)

  -- `update ... where key = key r`
  abbrev pub replace : R → List R → List R
  replace r [] = []
  replace r (x ∷ rows) = (if key x == key r then r else x) ∷ replace r rows

  -- The row under a key, as an update of the row under another key leaves it.
  pub get-replace_ne :
      (k : ℕ) (r : R) (rows : List R) → key r ≢ k → get k (replace r rows) ≡ get k rows
  get-replace_ne k r [] h = refl
  get-replace_ne k r (x ∷ rows) h = ground (arith, get-replace_ne k r rows h)

  pub get-replace_self :
      (r : R) (rows : List R) (old : R)
      → get (key r) rows ≡ some old
      → get (key r) (replace r rows) ≡ some r
  get-replace_self r [] old h = cc
  get-replace_self r (x ∷ rows) old h = ground (arith, get-replace_self r rows old)

  pub key-get : (k : ℕ) (rows : List R) (r : R) → get k rows ≡ some r → key r ≡ k
  key-get k [] r h = cc
  key-get k (x ∷ rows) r h = ground (arith, key-get k rows r)

  pub get-key : (k : ℕ) (rows : List R) (r : R) → get k rows ≡ some r → get (key r) rows ≡ some r
  get-key k rows r h = subst (λ i. get i rows ≡ some r) (sym (key-get k rows r h)) h

  pub replace-absent : (r : R) (rows : List R) → get (key r) rows ≡ none → replace r rows ≡ rows
  replace-absent r [] h = refl
  replace-absent r (x ∷ rows) h = ground (arith, replace-absent r rows)

-- A predicate on every row, by recursion, so that the tactics read it.
module _ {ℓ κ} {R : Type ℓ} where
  abbrev pub All : (R → Type κ) → List R → Type κ
  All P [] = Unit
  All P (r ∷ rows) = P r × All P rows

  pub All-find :
      (P : R → Type κ) (p : R → Bool) (rows : List R) (r : R)
      → All P rows
      → find p rows ≡ some r
      → P r
  All-find P p [] r h e = cc
  All-find P p (x ∷ rows) r h e = elim (Bool-cases (p x)) [
    | inl hit ↦ subst P (ground arith) h.0
    | inr miss ↦ All-find P p rows r h.1 (ground arith)
  ]

  -- An update keeps what holds of the new row, and of every old row under another key.
  pub All-replace :
      (P Q : R → Type κ) (key : R → ℕ) (r : R) (rows : List R)
      → Q r
      → ((x : R) → key x ≢ key r → P x → Q x)
      → All P rows
      → All Q (replace key r rows)
  All-replace P Q key r [] q keep h = tt
  All-replace P Q key r (x ∷ rows) q keep h = elim (Bool-cases (key x == key r)) [
    | inl hit ↦ rw hit (q, All-replace P Q key r rows q keep h.1)
    | inr miss ↦ rw miss (keep x (ground arith) h.0, All-replace P Q key r rows q keep h.1)
  ]
