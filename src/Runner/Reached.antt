-- ===== src/Runner/Reached.antt =====
-- The states that the rounds of the loop reach.
use mathlib.Core.Path.{subst}
use re_takehome_submission.Common.{
  ℕ, zero, suc, ◌+◌, ◌≤◌, ◌≡◌, refl, Bool, true, ◌&&◌, Option, none, some, List, [], ◌∷◌, ◌++◌, ltb,
  if◌then◌else◌, length, length-append, is_empty, arith, map, Bool-cases, inl, inr,
}
use re_takehome_submission.Common.Text.{Text, text_eq}
use re_takehome_submission.Common.Results.{
  Result, ok, OnOk, OnOk-if, OnOk-map, OnOk-and_then, OnOk-apply, Result-cases,
}
use re_takehome_submission.Runner.{
  RunError, ResultFile, RunningWorker, World, RunnerState, start_workers, poll_worker, poll_workers,
  keep_or_finish, outcome, turn, run_loop, start_state,
}

-- How often a problem stands in a list.
abbrev pub occurrences : Text → List Text → ℕ
occurrences t [] = 0
occurrences t (p ∷ ps) = (if text_eq t p then 1 else 0) + occurrences t ps

abbrev pub workers_of : List RunningWorker → List Text
workers_of = map (λ k. k.id)

abbrev pub problems_of : List (Text × ResultFile) → List Text
problems_of = map (λ x. x.0)

abbrev pub is_idle : RunnerState → Bool
is_idle s = is_empty s.pending && is_empty s.running

occurrences-append :
    (t : Text) (xs ys : List Text) → occurrences t (xs ++ ys) ≡ occurrences t xs + occurrences t ys
occurrences-append t [] ys = omega arith
occurrences-append t (x ∷ xs) ys = omega (arith, occurrences-append t xs ys)

workers-append :
    (t : Text) (xs ys : List RunningWorker)
    → occurrences t (workers_of (xs ++ ys))
      ≡ occurrences t (workers_of xs) + occurrences t (workers_of ys)
workers-append t [] ys = omega arith
workers-append t (x ∷ xs) ys = omega (arith, workers-append t xs ys)

problems-append :
    (t : Text) (xs ys : List (Text × ResultFile))
    → occurrences t (problems_of (xs ++ ys))
      ≡ occurrences t (problems_of xs) + occurrences t (problems_of ys)
problems-append t [] ys = omega arith
problems-append t (x ∷ xs) ys = omega (arith, problems-append t xs ys)

module _ (w : World) (n time_limit : ℕ) (limit_text : Text) where
  -- The rounds from the start on: `r` of them have led to the state.
  pub data Reach (ps : List Text) : ℕ → RunnerState → Type 0 where
    here : Reach ps 0 (start_state ps)
    next :
        {r : ℕ} {s t : RunnerState}
        → Reach ps r s
        → turn w n time_limit limit_text r s ≡ ok t
        → Reach ps (suc r) t

  pub record IsSound (ps : List Text) (s : RunnerState) : Type 0 where
    pub few : length s.running ≤ n
    pub counted : s.completed ≡ length s.results
    pub once :
        (t : Text)
        → occurrences t s.pending
            + occurrences t (workers_of s.running)
            + occurrences t (problems_of s.results)
          ≡ occurrences t ps

  start_workers-once :
      (t : Text) (r : ℕ) (ks : List RunningWorker) (ps : List Text)
      → OnOk
          (λ x.
            occurrences t x.0 + occurrences t (workers_of x.1)
            ≡ occurrences t ps + occurrences t (workers_of ks))
          (start_workers w n time_limit limit_text r ks ps)
  unfolding start_workers
  start_workers-once t r ks [] = refl
  start_workers-once t r ks (p ∷ ps) =
      let k : RunningWorker = record { id = p; started = w.started_at r p } in
      let Q : List Text × List RunningWorker → Type 0 = λ x.
        occurrences t x.0 + occurrences t (workers_of x.1)
        ≡ occurrences t (p ∷ ps) + occurrences t (workers_of ks) in
      let added = workers-append t ks (k ∷ []) in
      OnOk-if Q (ltb (length ks) n) _ _
        (λ _.
          OnOk-if Q (w.artifacts_ok r p) _ _
            (λ _. OnOk-map _ Q _ (λ x h. omega arith) (start_workers-once t r (ks ++ k ∷ []) ps))
            (λ _. tt))
        (λ _. refl)

  start_workers-few :
      (r : ℕ) (ks : List RunningWorker) (ps : List Text)
      → length ks ≤ n
      → OnOk (λ x. length x.1 ≤ n) (start_workers w n time_limit limit_text r ks ps)
  unfolding start_workers
  start_workers-few r ks [] h = h
  start_workers-few r ks (p ∷ ps) h =
      let k : RunningWorker = record { id = p; started = w.started_at r p } in
      let Q : List Text × List RunningWorker → Type 0 = λ x. length x.1 ≤ n in
      let longer = length-append ks (k ∷ []) in
      OnOk-if Q (ltb (length ks) n) _ _
        (λ j.
          OnOk-if Q (w.artifacts_ok r p) _ _
            (λ _. start_workers-few r (ks ++ k ∷ []) ps (ground arith)) (λ _. tt))
        (λ j. h)

  poll_workers-once :
      (t : Text) (r : ℕ) (ks : List RunningWorker)
      → OnOk
          (λ x.
            (occurrences t (workers_of x.0) + occurrences t (problems_of x.1)
              ≡ occurrences t (workers_of ks))
            × (length x.0 ≤ length ks))
          (poll_workers w n time_limit limit_text r ks)
  unfolding poll_workers
  poll_workers-once t r [] = (refl, omega arith)
  poll_workers-once t r (k ∷ ks) =
      OnOk-and_then _ (poll_worker w n time_limit limit_text r k) _ (λ f _.
        OnOk-and_then _ (poll_workers w n time_limit limit_text r ks) _
          (λ x e. kept f x (OnOk-apply _ _ x (poll_workers-once t r ks) e)))
    where
      kept :
          (f : Option ResultFile) (x : List RunningWorker × List (Text × ResultFile))
          → (occurrences t (workers_of x.0) + occurrences t (problems_of x.1)
              ≡ occurrences t (workers_of ks))
            × (length x.0 ≤ length ks)
          → OnOk
              (λ y.
                (occurrences t (workers_of y.0) + occurrences t (problems_of y.1)
                  ≡ occurrences t (workers_of (k ∷ ks)))
                × (length y.0 ≤ length (k ∷ ks)))
              (keep_or_finish w n time_limit limit_text k f x)
      kept none x h = (omega (arith, h.0), omega (arith, h.1))
      kept (some f) x h =
          OnOk-and_then _ (outcome f) _ (λ a e. (omega (arith, h.0), omega (arith, h.1)))

  turn-IsSound :
      (ps : List Text) (r : ℕ) (s : RunnerState)
      → IsSound ps s
      → OnOk (IsSound ps) (turn w n time_limit limit_text r s)
  unfolding turn
  turn-IsSound ps r s h =
      OnOk-and_then _ (start_workers w n time_limit limit_text r s.running s.pending) _ (λ x e.
        OnOk-and_then _ (poll_workers w n time_limit limit_text r x.1) _ (λ y e'. record {
          few =
              let a = OnOk-apply _ _ x (start_workers-few r s.running s.pending h.few) e in
              let b = OnOk-apply _ _ y (poll_workers-once [] r x.1) e' in omega (arith, b.1);
          counted = omega (arith, h.counted, length-append s.results y.1);
          once = λ t.
              let a = OnOk-apply _ _ x (start_workers-once t r s.running s.pending) e in
              let b = OnOk-apply _ _ y (poll_workers-once t r x.1) e' in
              omega (arith, a, b.0, h.once t, problems-append t s.results y.1);
        }))

  -- In every state that the rounds reach, at most as many workers run as are allowed, the count of
  -- completed problems is that of the results, and each problem is pending, running or completed as
  -- often as it was given.
  pub Reach-IsSound : {ps : List Text} {r : ℕ} {s : RunnerState} → Reach ps r s → IsSound ps s
  Reach-IsSound here = record { few = omega arith; counted = refl; once = λ t. omega arith }
  Reach-IsSound {ps} (next {r} {s} {t} h e) =
      OnOk-apply _ _ t (turn-IsSound ps r s (Reach-IsSound h)) e

  same :
      (s t : RunnerState)
      → Path (Option (Result RunError RunnerState)) (some (ok s)) (some (ok t))
      → s ≡ t
  same s t e = cc

  pub run_loop-Reach :
      {ps : List Text} (fuel r : ℕ) (s t : RunnerState)
      → Reach ps r s
      → run_loop w n time_limit limit_text fuel r s ≡ some (ok t)
      → (r' : ℕ) × Reach ps r' t × (is_idle t ≡ true)
  unfolding run_loop
  run_loop-Reach zero r s t h e = elim (Bool-cases (is_idle s)) [
    | inl i ↦
        let k : s ≡ t = let e' = rw i at e in same s t e' in
        (r, subst (Reach _ r) k h, subst (λ u. is_idle u ≡ true) k i)
    | inr i ↦ let e' = rw i at e in absurd (cc)
  ]
  run_loop-Reach (suc fuel) r s t h e = elim (Bool-cases (is_idle s)) [
    | inl i ↦
        let k : s ≡ t = let e' = rw i at e in same s t e' in
        (r, subst (Reach _ r) k h, subst (λ u. is_idle u ≡ true) k i)
    | inr i ↦ elim (Result-cases (turn w n time_limit limit_text r s)) [
      | inl (s', e') ↦ let e'' = rw (i, e') at e in run_loop-Reach fuel (suc r) s' t (next h e') e''
      | inr (x, e') ↦ let e'' = rw (i, e') at e in absurd (cc)
    ]
  ]
