-- ===== src/Identity/Links.antt =====
-- The links of sponsors and beneficiaries as a relation: what each operation of the service does to
-- the pairs whose link is active.
use ufirst_backend.Base.{
  ℕ, ◌≡◌, inl, inr, ◌⊎◌, String, Option, none, some, List, [], ◌∷◌, Bool, not, arith, refl, ◌∙◌, ap,
  Bool-cases, Option-cases, ◌==◌, ◌&&◌, ◌||◌, if◌then◌else◌, is_some,
}
use ufirst_backend.Base.Table.{find, get}
use ufirst_backend.Core.Errors.{
  Error, Result, ok, err, permission_denied, validation_error, integrity_error, not_found,
}
use ufirst_backend.Db.{Db, Context}
use ufirst_backend.Identity.Models.{LinkStatus, SponsorBeneficiaryLink, CreateBeneficiaryRequest}
use ufirst_backend.Identity.Repository.{
  user_key, has_email, email_taken, is_link, set_status, create_link, update_link_status,
}
use ufirst_backend.Identity.Service.{
  is_active, is_sponsor, not_suspended, free_email, given_email, create_beneficiary,
  remove_beneficiary_link, verify_sponsor_beneficiary_link, beneficiary_of,
}

-- The abstract view: a relation between sponsors and beneficiaries.
abbrev pub Relation : Type 0
Relation = ℕ → ℕ → Bool

abbrev pub granted : ℕ → ℕ → Relation → Relation
granted s b r s' b' = (s == s' && b == b') || r s' b'

abbrev pub revoked : ℕ → ℕ → Relation → Relation
revoked s b r s' b' = not (s == s' && b == b') && r s' b'

abbrev pub view_of : List SponsorBeneficiaryLink → Relation
view_of links s b = is_active (find (is_link s b) links)

abbrev pub view : Db → Relation
view db = view_of db.links

view-set_status :
    (s b s' b' : ℕ) (links : List SponsorBeneficiaryLink)
    → view_of (set_status s b LinkStatus.suspended links) s' b' ≡ revoked s b (view_of links) s' b'
view-set_status s b s' b' [] = ground arith
view-set_status s b s' b' (l ∷ links) = ground (arith, view-set_status s b s' b' links)

abbrev new_link : ℕ → ℕ → SponsorBeneficiaryLink
new_link s b = record { sponsor_id = s; beneficiary_id = b; status = LinkStatus.active }

free_email_lem :
    (o : Option String) (db : Db)
    → (free_email o db ≡ (ok tt, db)) ⊎ (free_email o db ≡ (err validation_error, db))
free_email_lem none db = inl refl
free_email_lem (some e) db = elim (Bool-cases (is_some (find (has_email e) db.users))) [
  | inl taken ↦ inr (rw taken refl)
  | inr free ↦ inl (rw free refl)
]

module _ (ctx : Context) (s : ℕ) (request : CreateBeneficiaryRequest) (db : Db) where
  create_outcome :
      ((e : Error) × ((create_beneficiary ctx s request db).0 ≡ err e)
        × ((create_beneficiary ctx s request db).1.links ≡ db.links))
      ⊎ (((create_beneficiary ctx s request db).0 ≡ ok (beneficiary_of ctx request))
          × ((create_beneficiary ctx s request db).1.links ≡ new_link s ctx.new_id ∷ db.links))
  unfolding create_beneficiary create_link
  create_outcome = elim (Bool-cases (is_sponsor (get user_key s db.users))) [
    | inr stranger ↦ inl (permission_denied, ground arith, ground arith)
    | inl sponsor ↦ elim (free_email_lem (given_email request.email) db) [
      | inr bad ↦ inl (validation_error, ground arith, ground arith)
      | inl good ↦
          elim (Bool-cases (
            is_some (get user_key ctx.new_id db.users)
            || email_taken ctx.new_id (given_email request.email) db.users)) [
              | inl taken ↦ inl (validation_error, ground arith, ground arith)
              | inr free ↦ elim (Option-cases (find (is_link s ctx.new_id) db.links)) [
                | inr (l, twice) ↦ inl (integrity_error, ground arith, ground arith)
                | inl once ↦ inr (ground arith, ground arith)
              ]
            ]
    ]
  ]

remove_outcome :
    (s b : ℕ) (db : Db)
    → ((e : Error) × (remove_beneficiary_link s b db ≡ (err e, db)))
      ⊎ (remove_beneficiary_link s b db
          ≡ (ok tt, record db { links = set_status s b LinkStatus.suspended db.links }))
unfolding remove_beneficiary_link update_link_status
remove_outcome s b db = elim (Bool-cases (is_sponsor (get user_key s db.users))) [
  | inr stranger ↦ inl (permission_denied, ground arith)
  | inl sponsor ↦ elim (Option-cases (find (is_link s b) db.links)) [
    | inl absent ↦ inl (not_found, ground arith)
    | inr (l, there) ↦ elim (Bool-cases (not_suspended (some l))) [
      | inl live ↦ inr (ground arith)
      | inr gone ↦ inl (not_found, ground arith)
    ]
  ]
]

-- A call of one of the operations that change links.
pub data LinkStep : Type 0 where
  create : Context → (sponsor_id : ℕ) → CreateBeneficiaryRequest → LinkStep
  remove : (sponsor_id beneficiary_id : ℕ) → LinkStep

unfoldable pub step : LinkStep → Db → Db
step (LinkStep.create ctx s request) db = (create_beneficiary ctx s request db).1
step (LinkStep.remove s b) db = (remove_beneficiary_link s b db).1

unfoldable pub step_all : List LinkStep → Db → Db
step_all [] db = db
step_all (l ∷ steps) db = step_all steps (step l db)

-- What a call means for the relation, by what it answers.
abbrev if_ok : {A : Type 0} → Result A → (A → Relation → Relation) → Relation → Relation
if_ok (ok a) change = change a
if_ok (err e) change = λ r. r

unfoldable pub meaning : LinkStep → Db → Relation → Relation
meaning (LinkStep.create ctx s request) db =
    if_ok (create_beneficiary ctx s request db).0 (λ u. granted s u.id)
meaning (LinkStep.remove s b) db = if_ok (remove_beneficiary_link s b db).0 (λ _. revoked s b)

unfoldable pub meaning_all : List LinkStep → Db → Relation → Relation
meaning_all [] db r = r
meaning_all (l ∷ steps) db r = meaning_all steps (step l db) (meaning l db r)

step-refines :
    (l : LinkStep) (db : Db) (s b : ℕ) → view (step l db) s b ≡ meaning l db (view db) s b
unfolding step meaning
step-refines (LinkStep.create ctx sponsor request) db s b =
    elim (create_outcome ctx sponsor request db) [
      | inl (e, failed, same) ↦ rw (step, meaning, failed, same) refl
      | inr (made, links) ↦ rw (step, meaning, made, links) (ground arith)
    ]
step-refines (LinkStep.remove sponsor beneficiary) db s b =
    elim (remove_outcome sponsor beneficiary db) [
      | inl (e, r) ↦ rw (step, meaning, r) refl
      | inr r ↦ rw (step, meaning, r) (view-set_status sponsor beneficiary s b db.links)
    ]

step_all-refines :
    (steps : List LinkStep) (db : Db) → view (step_all steps db) ≡ meaning_all steps db (view db)
unfolding step_all meaning_all
step_all-refines [] db = refl
step_all-refines (l ∷ steps) db =
    step_all-refines steps (step l db)
    ∙ ap (meaning_all steps (step l db)) (λ i s b. step-refines l db s b i)

-- The check that other modules call refines the relation of sponsors and beneficiaries: after any sequence of creations and removals, it passes exactly the pairs that were active at first or were made by a creation that succeeded, and were not removed since by a removal that succeeded; to every other pair it answers PermissionDenied. It changes nothing.
pub verify_sponsor_beneficiary_link_refines :
    (steps : List LinkStep) (db : Db) (s b : ℕ)
    → verify_sponsor_beneficiary_link s b (step_all steps db) ≡ (
      if meaning_all steps db (view db) s b then ok tt else err permission_denied,
      step_all steps db,
    )
unfolding verify_sponsor_beneficiary_link
verify_sponsor_beneficiary_link_refines steps db s b =
    let same : view (step_all steps db) s b ≡ meaning_all steps db (view db) s b =
      ap (λ r. r s b) (step_all-refines steps db) in
    elim (Bool-cases (view (step_all steps db) s b)) [
      | inl active ↦ rw (← same, active) refl
      | inr inactive ↦ rw (← same, inactive) refl
    ]
