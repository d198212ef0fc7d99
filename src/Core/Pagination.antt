-- ===== src/Core/Pagination.antt =====
-- Pages of a query's rows (app/core/pagination.py).
use ufirst_backend.Base.{
  ℕ, zero, suc, ◌+◌, ◌-◌, ◌*◌, ◌/◌, ◌≤◌, ◌<◌, ◌≡◌, Option, none, some, List, [], ◌∷◌, ◌++◌, ◌==◌,
  arith, refl, sym, ap, ◌∙◌, false, ◌&&◌, not, if◌then◌else◌,
}
use native.Mathlib.Nat.{suc-mul, lt-div-mul-add}
use ufirst_backend.Base.Table.{take, drop}

module _ {ℓ} {A : Type ℓ} where
  abbrev pub length : List A → ℕ
  length [] = 0
  length (x ∷ xs) = length xs + 1

  -- The rows of a page and the number of all rows; the database refuses a negative offset.
  unfoldable pub paginate : List A → (page per_page : ℕ) → Option (List A × ℕ)
  paginate query page per_page =
      if page == 0 && not (per_page == 0)
      then none
      else some (take per_page (drop ((page - 1) * per_page) query), length query)
  -- `PaginationMeta.total_pages`

unfoldable pub total_pages : (total per_page : ℕ) → ℕ
total_pages total per_page = if per_page == 0 then 0 else (total + per_page - 1) / per_page

zero_plus : (n : ℕ) → 0 + n ≡ n
zero_plus n = omega arith

suc_plus : (m n : ℕ) → suc m + n ≡ suc (m + n)
suc_plus m n = omega arith

-- That many pages have room for all rows.
total_pages-room :
    (total per_page : ℕ) → 0 < per_page → total ≤ total_pages total per_page * per_page
unfolding total_pages
total_pages-room total per_page positive =
    let some_rows : (per_page == 0) ≡ false = ground (arith, positive) in
    let below : total + per_page - 1 < (total + per_page - 1) / per_page * per_page + per_page =
      lt-div-mul-add positive in
    rw some_rows (room total per_page ((total + per_page - 1) / per_page * per_page) positive below)
  where
    room : (t p q : ℕ) → 0 < p → t + p - 1 < q + p → t ≤ q
    room t p q h below = omega arith

module _ {ℓ} {A : Type ℓ} where
  abbrev rows_of : Option (List A × ℕ) → List A
  rows_of none = []
  rows_of (some (rows, total)) = rows

  -- The rows of the first pages, one after another.
  abbrev pub first_pages : List A → (per_page count : ℕ) → List A
  first_pages query per_page zero = []
  first_pages query per_page (suc n) =
      first_pages query per_page n ++ rows_of (paginate query (suc n) per_page)

  take-+ : (a b : ℕ) (xs : List A) → take (a + b) xs ≡ take a xs ++ take b (drop a xs)
  take-+ zero b xs = ap (λ n. take n xs) (zero_plus b)
  take-+ (suc a) zero [] = ap (λ n. take n []) (suc_plus a 0)
  take-+ (suc a) (suc b) [] = ap (λ n. take n []) (suc_plus a (suc b))
  take-+ (suc a) b (x ∷ xs) =
      ap (λ n. take n (x ∷ xs)) (suc_plus a b) ∙ ap (λ ys. x ∷ ys) (take-+ a b xs)

  take-all : (n : ℕ) (xs : List A) → length xs ≤ n → take n xs ≡ xs
  take-all zero [] h = refl
  take-all (suc n) [] h = refl
  take-all zero (x ∷ xs) h = absurd (omega (arith, h))
  take-all (suc n) (x ∷ xs) h = ap (λ ys. x ∷ ys) (take-all n xs (omega (arith, h)))

  first_pages-take :
      (query : List A) (per_page n : ℕ) → first_pages query per_page n ≡ take (n * per_page) query
  unfolding paginate
  first_pages-take query per_page zero = ap (λ n. take n query) none_yet
    where
      none_yet : 0 ≡ 0 * per_page
      none_yet = omega arith
  first_pages-take query per_page (suc n) =
      let here : suc n - 1 ≡ n = omega arith in
      let counted : (suc n == 0) ≡ false = ground arith in
      let more : n * per_page + per_page ≡ suc n * per_page = sym (suc-mul n per_page) in
      rw (paginate, counted, here)
        (ap (λ xs. xs ++ take per_page (drop (n * per_page) query))
            (first_pages-take query per_page n)
          ∙ sym (take-+ (n * per_page) per_page query)
          ∙ ap (λ m. take m query) more)

  -- The pages together are all rows of the query, each once and in their order: that many pages as `total_pages` says, if a page has at least one row.
  pub first_pages-total_pages :
      (query : List A) (per_page : ℕ)
      → 0 < per_page
      → first_pages query per_page (total_pages (length query) per_page) ≡ query
  unfolding total_pages
  first_pages-total_pages query per_page positive =
      first_pages-take query per_page (total_pages (length query) per_page)
      ∙ take-all (total_pages (length query) per_page * per_page) query
          (total_pages-room (length query) per_page positive)
