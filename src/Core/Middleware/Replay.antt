-- ===== src/Core/Middleware/Replay.antt =====
-- What comes back from the responses that are kept (app/core/middleware.py).
use ufirst_backend.Base.{
  ℕ, ◌+◌, ◌≡◌, inl, inr, Option, some, String, List, [], ◌∷◌, true, false, not, arith, refl, ap,
  subst, ◌∙◌, Bool-cases, Option-cases, str_eq, eq_iff, if◌then◌else◌,
}
use ufirst_backend.Core.Middleware.{
  Request, Response, Entry, Arrival, Verdict, usable_key, cache_key, fingerprint, answer, reserve,
  look_up, complete, is_success,
}
use ufirst_backend.Core.Middleware.Steps.{
  System, Step, step, run, nth, without, under, count, unexpired,
}
use ufirst_backend.Core.Middleware.Once.{
  Phase, IsExclusive, Phase-running, count-nth, complete_elsewhere, and_true,
}

module _ (hash : List String → String) (c : String) (fingerprint' : String)
    (response : Response) where
  -- The response is kept under the key, and no handler of the key runs.
  abbrev pub IsKept : System → Type 0
  IsKept s =
      (s.redis c ≡ some (Entry.completed fingerprint' response)) × (count hash c s.running ≡ 0)

  comes-IsKept : (r : Request) (s : System) → IsKept s → IsKept (step hash (Step.comes r) s)
  unfolding step reserve
  comes-IsKept r s h = elim (Option-cases (usable_key r)) [
    | inl bare ↦ rw (step, reserve, bare) h
    | inr (key, e) ↦ elim (Option-cases (s.redis (cache_key hash r key))) [
      | inr (x, there) ↦ rw (step, reserve, e, there) h
      | inl free ↦ elim (Bool-cases (str_eq c (cache_key hash r key))) [
        | inl hit ↦ cc (h.0, ap s.redis ((eq_iff c (cache_key hash r key)).0 hit), free)
        | inr miss ↦
            let counted : under hash c r ≡ false = rw (under, e, miss) refl in
            rw (step, reserve, e, free, miss) (h.0, ground (arith, counted, h.1))
      ]
    ]
  ]

  looks-IsKept : (n : ℕ) (s : System) → IsKept s → IsKept (step hash (Step.looks n) s)
  unfolding step look_up answer
  looks-IsKept n s h = elim (Option-cases (nth n s.waiting)) [
    | inl gone ↦ rw (step, gone) h
    | inr (r, here) ↦ elim (Option-cases (usable_key r)) [
      | inl bare ↦
          let counted : under hash c r ≡ false = rw (under, bare) refl in
          rw (step, here, look_up, bare) (h.0, ground (arith, counted, h.1))
      | inr (key, k) ↦ elim (Option-cases (s.redis (cache_key hash r key))) [
        | inl gone ↦ elim (Bool-cases (str_eq c (cache_key hash r key))) [
          | inl hit ↦ cc (h.0, ap s.redis ((eq_iff c (cache_key hash r key)).0 hit), gone)
          | inr miss ↦
              let counted : under hash c r ≡ false = rw (under, k, miss) refl in
              rw (step, here, look_up, k, gone) (h.0, ground (arith, counted, h.1))
        ]
        | inr (Entry.in_progress f, there) ↦ elim (Bool-cases (str_eq f (fingerprint hash r))) [
          | inl same ↦ rw (step, here, look_up, k, there, same) h
          | inr other ↦ rw (step, here, look_up, k, there, other) h
        ]
        | inr (Entry.completed f x, there) ↦ elim (Bool-cases (str_eq f (fingerprint hash r))) [
          | inl same ↦ rw (step, here, look_up, k, there, same) h
          | inr other ↦ rw (step, here, look_up, k, there, other) h
        ]
      ]
    ]
  ]

  ends-IsKept :
      (n : ℕ) (outcome : Option Response) (s : System)
      → IsKept s
      → IsKept (step hash (Step.ends n outcome) s)
  unfolding step
  ends-IsKept n outcome s h = elim (Option-cases (nth n s.running)) [
    | inl gone ↦ rw (step, gone) h
    | inr (r, there) ↦ elim (Bool-cases (under hash c r)) [
      | inl own ↦ absurd (ground (arith, count-nth hash c n s.running r there, own, h.1))
      | inr miss ↦
          rw (step, there)
            (
              complete_elsewhere hash c r outcome s.redis miss ∙ h.0,
              ground (arith, count-nth hash c n s.running r there, miss, h.1),
            )
    ]
  ]

  run-IsKept :
      (steps : List Step) (s : System)
      → unexpired c steps ≡ true
      → IsKept s
      → IsKept (run hash steps s)
  unfolding run step
  run-IsKept [] s fresh h = h
  run-IsKept (Step.comes r ∷ steps) s fresh h = run-IsKept steps _ fresh (comes-IsKept r s h)
  run-IsKept (Step.looks n ∷ steps) s fresh h = run-IsKept steps _ fresh (looks-IsKept n s h)
  run-IsKept (Step.ends n outcome ∷ steps) s fresh h =
      run-IsKept steps _ fresh (ends-IsKept n outcome s h)
  run-IsKept (Step.expires key ∷ steps) s fresh h =
      let (other, rest) = and_true (not (str_eq c key)) (unexpired c steps) fresh in
      let miss : str_eq c key ≡ false = ground (arith, other) in
      run-IsKept steps _ rest (rw (step, miss) h)

module _ (hash : List String → String) where
  -- The end of the one handler of a key, with success.
  success-IsKept :
      (c : String) (n : ℕ) (first : Request) (response : Response) (s : System)
      → IsExclusive hash c s
      → nth n s.running ≡ some first
      → under hash c first ≡ true
      → is_success response ≡ true
      → IsKept hash c (fingerprint hash first) response (step hash (Step.ends n (some response)) s)
  unfolding step complete
  success-IsKept c n first response s h there own good = elim (Option-cases (usable_key first)) [
    | inl bare ↦ absurd (ground (arith, own, bare))
    | inr (key, e) ↦
        let hit : str_eq c (cache_key hash first key) ≡ true = ground (arith, own, e) in
        let all : count hash c s.running ≡ count hash c (without n s.running) + 1 =
          ground (arith, count-nth hash c n s.running first there, own) in
        let alone =
          Phase-running hash (s.redis c) (count hash c s.waiting)
            (count hash c (without n s.running)) (count hash c s.executed)
            (subst
              (λ m. Phase hash (s.redis c) (count hash c s.waiting) m (count hash c s.executed)) all
              h) in
        rw (step, there, complete, e, good, hit) (refl, alone.0)
  ]

  -- A response that a handler ended with, with success, as the one that runs under its key, comes back: after any further steps, of this key and of others, as long as the entry does not expire, a request of the key finds it taken, and its look-up gives this response if its fingerprint is that of the first request, and IdempotencyConflict if it is not. Its handler does not run.
  pub kept_response_replayed :
      (c : String) (n : ℕ) (first later : Request) (response : Response) (steps : List Step)
      (s : System)
      → IsExclusive hash c s
      → nth n s.running ≡ some first
      → under hash c first ≡ true
      → under hash c later ≡ true
      → is_success response ≡ true
      → unexpired c steps ≡ true
      → (reserve hash later (run hash (Step.ends n (some response) ∷ steps) s).redis
          ≡ (Arrival.taken, (run hash (Step.ends n (some response) ∷ steps) s).redis))
        × (look_up hash later (run hash (Step.ends n (some response) ∷ steps) s).redis ≡ (
            if str_eq (fingerprint hash first) (fingerprint hash later)
            then Verdict.replayed response
            else Verdict.conflict))
  unfolding run reserve look_up answer
  kept_response_replayed c n first later response steps s h there own own' good fresh =
      elim (Option-cases (usable_key later)) [
        | inl bare ↦ absurd (ground (arith, own', bare))
        | inr (key, e) ↦
            let hit : c ≡ cache_key hash later key =
              (eq_iff c (cache_key hash later key)).0 (ground (arith, own', e)) in
            let kept =
              run-IsKept hash c (fingerprint hash first) response steps
                (step hash (Step.ends n (some response)) s) fresh
                (success-IsKept c n first response s h there own good) in
            let found : (run hash steps (step hash (Step.ends n (some response)) s)).redis
                  (cache_key hash later key)
                ≡ some (Entry.completed (fingerprint hash first) response) =
              subst
                (λ k.
                  (run hash steps (step hash (Step.ends n (some response)) s)).redis k
                  ≡ some (Entry.completed (fingerprint hash first) response))
                hit kept.0 in
            (rw (reserve, e, found) refl, rw (look_up, e, found) refl)
      ]
