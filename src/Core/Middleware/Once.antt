-- ===== src/Core/Middleware/Once.antt =====
-- The handlers under one cache key exclude each other (app/core/middleware.py).
use ufirst_backend.Base.{
  ℕ, zero, suc, ◌+◌, ◌≤◌, ◌≡◌, inl, inr, String, Option, none, some, List, [], ◌∷◌, true, false,
  arith, refl, sym, ap, subst, ◌∙◌, Bool-cases, Option-cases, Bool, ◌&&◌, ◌||◌, ◌==◌, ==_iff,
  str_eq, eq_iff, if◌then◌else◌,
}
use ufirst_backend.Core.Middleware.{
  Request, Response, Entry, Redis, usable_key, cache_key, fingerprint, answer, reserve, look_up,
  complete, is_success,
}
use ufirst_backend.Core.Middleware.Steps.{
  System, Step, step, run, nth, without, succeeded, end_of, under, count, calm, calm_all,
}

pub and_true : (a b : Bool) → (a && b) ≡ true → (a ≡ true) × (b ≡ true)
and_true true b h = (refl, h)
and_true false b h = cc h

module _ (hash : List String → String) where
  -- What is kept under a key tells how many of its handlers run and how many succeeded; where
  -- nothing is kept, no request waits to look it up.
  abbrev pub Phase : Option Entry → (waiting running executed : ℕ) → Type 0
  Phase none waiting running executed = (waiting ≡ 0) × (running ≡ 0) × (executed ≡ 0)
  Phase (some (Entry.in_progress f)) waiting running executed = (running ≡ 1) × (executed ≡ 0)
  Phase (some (Entry.completed f r)) waiting running executed = (running ≡ 0) × (executed ≡ 1)

  abbrev pub IsExclusive : String → System → Type 0
  IsExclusive c s =
      Phase (s.redis c) (count hash c s.waiting) (count hash c s.running) (count hash c s.executed)

  -- Where something is kept, more or fewer requests may wait.
  Phase-waiting :
      (o : Option Entry) (e : Entry) (w w' a b : ℕ) → o ≡ some e → Phase o w a b → Phase o w' a b
  Phase-waiting none e w w' a b there h = cc there
  Phase-waiting (some (Entry.in_progress f)) e w w' a b there h = h
  Phase-waiting (some (Entry.completed f r)) e w w' a b there h = h

  -- Equal counts.
  Phase-same :
      (o : Option Entry) (b : ℕ) {w w' a a' : ℕ} → w' ≡ w → a' ≡ a → Phase o w a b → Phase o w' a' b
  Phase-same o b {w} {w'} {a} {a'} x y h =
      subst (λ n. Phase o n a' b) (sym x) (subst (λ n. Phase o w n b) (sym y) h)

  pub count-nth :
      (c : String) (n : ℕ) (rs : List Request) (r : Request)
      → nth n rs ≡ some r
      → count hash c rs ≡ count hash c (without n rs) + (if under hash c r then 1 else 0)
  count-nth c n [] r e = cc e
  count-nth c zero (x ∷ rs) r e = ground arith
  count-nth c (suc n) (x ∷ rs) r e = ground (arith, count-nth c n rs r e)

  taken-IsExclusive :
      (c : String) (r : Request) (key : String) (e : Entry) (s : System)
      → usable_key r ≡ some key
      → s.redis (cache_key hash r key) ≡ some e
      → IsExclusive c s
      → IsExclusive c (record s { waiting = r ∷ s.waiting })
  taken-IsExclusive c r key e s k there h = elim (Bool-cases (str_eq c (cache_key hash r key))) [
    | inl hit ↦
        Phase-waiting (s.redis c) e (count hash c s.waiting) (count hash c (r ∷ s.waiting))
          (count hash c s.running) (count hash c s.executed)
          (ap s.redis ((eq_iff c (cache_key hash r key)).0 hit) ∙ there) h
    | inr miss ↦
        let counted : under hash c r ≡ false = rw (under, k, miss) refl in
        Phase-same (s.redis c) (count hash c s.executed) {a' = count hash c s.running}
          (ground (arith, counted)) refl h
  ]

  comes-IsExclusive :
      (c : String) (r : Request) (s : System)
      → IsExclusive c s
      → IsExclusive c (step hash (Step.comes r) s)
  unfolding step reserve
  comes-IsExclusive c r s h = elim (Option-cases (usable_key r)) [
    | inl bare ↦ rw (step, reserve, bare) h
    | inr (key, e) ↦ elim (Option-cases (s.redis (cache_key hash r key))) [
      | inl free ↦ elim (Bool-cases (str_eq c (cache_key hash r key))) [
        | inl hit ↦
            let same : c ≡ cache_key hash r key = (eq_iff c (cache_key hash r key)).0 hit in
            let before : Phase none (count hash c s.waiting) (count hash c s.running)
                (count hash c s.executed) =
              subst
                (λ o.
                  Phase o (count hash c s.waiting) (count hash c s.running)
                    (count hash c s.executed))
                (ap s.redis same ∙ free) h in
            let counted : under hash c r ≡ true = rw (under, e, hit) refl in
            rw (step, reserve, e, free, hit) (ground (arith, counted, before.1), before.2)
        | inr miss ↦
            let counted : under hash c r ≡ false = rw (under, e, miss) refl in
            rw (step, reserve, e, free, miss)
              (Phase-same (s.redis c) (count hash c s.executed) {w' = count hash c s.waiting} refl
                (ground (arith, counted)) h)
      ]
      | inr (x, there) ↦ rw (step, reserve, e, there) (taken-IsExclusive c r key x s e there h)
    ]
  ]

  -- A request that waited goes away, with an answer.
  answered-IsExclusive :
      (c : String) (r : Request) (n : ℕ) (key : String) (e : Entry) (s : System)
      → nth n s.waiting ≡ some r
      → usable_key r ≡ some key
      → s.redis (cache_key hash r key) ≡ some e
      → IsExclusive c s
      → IsExclusive c (record s { waiting = without n s.waiting })
  answered-IsExclusive c r n key e s here k there h =
      elim (Bool-cases (str_eq c (cache_key hash r key))) [
        | inl hit ↦
            Phase-waiting (s.redis c) e (count hash c s.waiting)
              (count hash c (without n s.waiting)) (count hash c s.running)
              (count hash c s.executed)
              (ap s.redis ((eq_iff c (cache_key hash r key)).0 hit) ∙ there) h
        | inr miss ↦
            let counted : under hash c r ≡ false = rw (under, k, miss) refl in
            Phase-same (s.redis c) (count hash c s.executed) {a' = count hash c s.running}
              (ground (arith, counted, count-nth c n s.waiting r here)) refl h
      ]

  -- A request that finds no entry any more runs: under another key than this one.
  gone-IsExclusive :
      (c : String) (r : Request) (n : ℕ) (key : String) (s : System)
      → nth n s.waiting ≡ some r
      → usable_key r ≡ some key
      → s.redis (cache_key hash r key) ≡ none
      → IsExclusive c s
      → IsExclusive c (record s { waiting = without n s.waiting; running = r ∷ s.running })
  gone-IsExclusive c r n key s here k gone h = elim (Bool-cases (str_eq c (cache_key hash r key))) [
    | inl hit ↦
        let before : Phase none (count hash c s.waiting) (count hash c s.running)
            (count hash c s.executed) =
          subst
            (λ o.
              Phase o (count hash c s.waiting) (count hash c s.running) (count hash c s.executed))
            (ap s.redis ((eq_iff c (cache_key hash r key)).0 hit) ∙ gone) h in
        let counted : under hash c r ≡ true = rw (under, k, hit) refl in
        absurd (ground (arith, counted, count-nth c n s.waiting r here, before.0))
    | inr miss ↦
        let counted : under hash c r ≡ false = rw (under, k, miss) refl in
        Phase-same (s.redis c) (count hash c s.executed)
          (ground (arith, counted, count-nth c n s.waiting r here)) (ground (arith, counted)) h
  ]

  looks-IsExclusive :
      (c : String) (n : ℕ) (s : System)
      → IsExclusive c s
      → IsExclusive c (step hash (Step.looks n) s)
  unfolding step look_up answer
  looks-IsExclusive c n s h = elim (Option-cases (nth n s.waiting)) [
    | inl gone ↦ rw (step, gone) h
    | inr (r, here) ↦ elim (Option-cases (usable_key r)) [
      | inl bare ↦
          rw (step, here, look_up, bare)
            (let counted : under hash c r ≡ false = rw (under, bare) refl in
              Phase-same (s.redis c) (count hash c s.executed)
                (ground (arith, counted, count-nth c n s.waiting r here)) (ground (arith, counted))
                h)
      | inr (key, k) ↦ elim (Option-cases (s.redis (cache_key hash r key))) [
        | inl gone ↦ rw (step, here, look_up, k, gone) (gone-IsExclusive c r n key s here k gone h)
        | inr (Entry.in_progress f, there) ↦
            let rest = answered-IsExclusive c r n key (Entry.in_progress f) s here k there h in
            elim (Bool-cases (str_eq f (fingerprint hash r))) [
              | inl same ↦ rw (step, here, look_up, k, there, same) rest
              | inr other ↦ rw (step, here, look_up, k, there, other) rest
            ]
        | inr (Entry.completed f x, there) ↦
            let rest = answered-IsExclusive c r n key (Entry.completed f x) s here k there h in
            elim (Bool-cases (str_eq f (fingerprint hash r))) [
              | inl same ↦ rw (step, here, look_up, k, there, same) rest
              | inr other ↦ rw (step, here, look_up, k, there, other) rest
            ]
      ]
    ]
  ]

  -- The one running handler of a key, and nothing else.
  pub Phase-running :
      (o : Option Entry) (waiting running executed : ℕ)
      → Phase o waiting (running + 1) executed
      → (running ≡ 0) × (executed ≡ 0)
  Phase-running none waiting running executed h = absurd (omega (arith, h.1))
  Phase-running (some (Entry.in_progress f)) waiting running executed h = (omega (arith, h.0), h.1)
  Phase-running (some (Entry.completed f r)) waiting running executed h =
      absurd (omega (arith, h.0))

  count-executed :
      (c : String) (r : Request) (outcome : Option Response) (rs : List Request)
      → under hash c r ≡ false
      → count hash c (if succeeded outcome then r ∷ rs else rs) ≡ count hash c rs
  count-executed c r outcome rs counted = elim (Bool-cases (succeeded outcome)) [
    | inl good ↦ rw good (ground (arith, counted))
    | inr bad ↦ rw bad refl
  ]

  -- A handler that is not under the key ends.
  elsewhere :
      (c : String) (r : Request) (n : ℕ) (outcome : Option Response) (s : System)
      → nth n s.running ≡ some r
      → under hash c r ≡ false
      → complete hash r outcome s.redis c ≡ s.redis c
      → IsExclusive c s
      → IsExclusive c (end_of hash (some r) n outcome s)
  elsewhere c r n outcome s there counted kept h =
      let fewer : count hash c (without n s.running) ≡ count hash c s.running =
        ground (arith, count-nth c n s.running r there, counted) in
      rw (kept, fewer, count-executed c r outcome s.executed counted) h

  pub complete_elsewhere :
      (c : String) (r : Request) (outcome : Option Response) (redis : Redis)
      → under hash c r ≡ false
      → complete hash r outcome redis c ≡ redis c
  unfolding complete
  complete_elsewhere c r outcome redis counted = elim (Option-cases (usable_key r)) [
    | inl bare ↦ rw (complete, bare) refl
    | inr (key, e) ↦
        let miss : str_eq c (cache_key hash r key) ≡ false =
          subst (λ o. under_key c r o ≡ false) e counted in
        kept key e miss outcome
  ]
    where
      under_key : String → Request → Option String → Bool
      under_key c r o = elim o [ none ↦ false | some key ↦ str_eq c (cache_key hash r key) ]

      kept :
          (key : String)
          → usable_key r ≡ some key
          → str_eq c (cache_key hash r key) ≡ false
          → (outcome : Option Response) → complete hash r outcome redis c ≡ redis c
      kept key e miss none = rw (complete, e, miss) refl
      kept key e miss (some response) = elim (Bool-cases (is_success response)) [
        | inl good ↦ rw (complete, e, good, miss) refl
        | inr bad ↦ rw (complete, e, bad, miss) refl
      ]

  -- The handler of the key ends.
  complete_here :
      (c : String) (r : Request) (key : String) (n : ℕ) (outcome : Option Response) (s : System)
      → usable_key r ≡ some key
      → str_eq c (cache_key hash r key) ≡ true
      → (count hash c (without n s.running) ≡ 0) × (count hash c s.executed ≡ 0)
      → (succeeded outcome || count hash c s.waiting == 0) ≡ true
      → IsExclusive c (end_of hash (some r) n outcome s)
  unfolding complete
  complete_here c r key n none s e hit alone quiet =
      rw (complete, e, hit) ((==_iff (count hash c s.waiting) 0).0 quiet, alone.0, alone.1)
  complete_here c r key n (some response) s e hit alone quiet =
      elim (Bool-cases (is_success response)) [
        | inl good ↦
            let counted : under hash c r ≡ true = rw (under, e, hit) refl in
            rw (complete, e, good, hit) (alone.0, ground (arith, counted, alone.1))
        | inr bad ↦
            let none_wait : count hash c s.waiting ≡ 0 = ground (arith, quiet, bad) in
            rw (complete, e, bad, hit) (none_wait, alone.0, alone.1)
      ]

  ends-IsExclusive :
      (c : String) (n : ℕ) (outcome : Option Response) (s : System)
      → calm hash c (Step.ends n outcome) s ≡ true
      → IsExclusive c s
      → IsExclusive c (step hash (Step.ends n outcome) s)
  unfolding step complete
  ends-IsExclusive c n outcome s quiet h = elim (Option-cases (nth n s.running)) [
    | inl gone ↦ rw (step, gone) h
    | inr (r, there) ↦ elim (Bool-cases (under hash c r)) [
      | inr miss ↦
          rw (step, there)
            (elsewhere c r n outcome s there miss (complete_elsewhere c r outcome s.redis miss) h)
      | inl own ↦ elim (Option-cases (usable_key r)) [
        | inl bare ↦ absurd (ground (arith, own, bare))
        | inr (key, e) ↦
            let hit : str_eq c (cache_key hash r key) ≡ true = ground (arith, own, e) in
            let all : count hash c s.running ≡ count hash c (without n s.running) + 1 =
              ground (arith, count-nth c n s.running r there, own) in
            let steady : (succeeded outcome || count hash c s.waiting == 0) ≡ true =
              ground (arith, quiet, there, own) in
            rw (step, there)
              (complete_here c r key n outcome s e hit
                (Phase-running (s.redis c) (count hash c s.waiting)
                  (count hash c (without n s.running)) (count hash c s.executed)
                  (subst
                    (λ m. Phase (s.redis c) (count hash c s.waiting) m (count hash c s.executed))
                    all h))
                steady)
      ]
    ]
  ]

  step-IsExclusive :
      (c : String) (x : Step) (s : System)
      → calm hash c x s ≡ true
      → IsExclusive c s
      → IsExclusive c (step hash x s)
  unfolding step
  step-IsExclusive c (Step.comes r) s quiet h = comes-IsExclusive c r s h
  step-IsExclusive c (Step.looks n) s quiet h = looks-IsExclusive c n s h
  step-IsExclusive c (Step.ends n outcome) s quiet h = ends-IsExclusive c n outcome s quiet h
  step-IsExclusive c (Step.expires key) s quiet h =
      let miss : str_eq c key ≡ false = ground (arith, quiet) in rw (step, miss) h

  run-IsExclusive :
      (c : String) (steps : List Step) (s : System)
      → calm_all hash c steps s ≡ true
      → IsExclusive c s
      → IsExclusive c (run hash steps s)
  unfolding run calm_all
  run-IsExclusive c [] s quiet h = h
  run-IsExclusive c (x ∷ steps) s quiet h =
      let (now, later) = and_true (calm hash c x s) (calm_all hash c steps (step hash x s)) quiet in
      run-IsExclusive c steps (step hash x s) later (step-IsExclusive c x s now h)

  Phase-le : (o : Option Entry) (w a b : ℕ) → Phase o w a b → a + b ≤ 1
  Phase-le none w a b h = omega (arith, h.1, h.2)
  Phase-le (some (Entry.in_progress f)) w a b h = omega (arith, h.0, h.1)
  Phase-le (some (Entry.completed f r)) w a b h = omega (arith, h.0, h.1)

  -- However the steps of requests and the ends of handlers interleave, of the handlers under one cache key at most one runs or has succeeded, if that is so at first and Redis says which, so long as the entry of the key does not expire and no handler of the key fails while another request of the key stands between its set and its look-up.
  pub run_executes_once :
      (c : String) (steps : List Step) (s : System)
      → IsExclusive c s
      → calm_all hash c steps s ≡ true
      → count hash c (run hash steps s).running + count hash c (run hash steps s).executed ≤ 1
  run_executes_once c steps s h quiet =
      let end = run hash steps s in
      Phase-le (end.redis c) (count hash c end.waiting) (count hash c end.running)
        (count hash c end.executed) (run-IsExclusive c steps s quiet h)
