-- ===== src/Runner/Ending.antt =====
-- The rounds of the loop until every worker has ended.
use re_takehome_submission.Common.{
  ℕ, zero, suc, ◌+◌, ◌-◌, ◌*◌, ◌≤◌, ◌<◌, ◌≡◌, refl, true, false, ◌&&◌, Option, none, some, List, [],
  ◌∷◌, ◌++◌, ltb, leb, length, length-append, is_empty, arith, Bool-cases, leb→le, inl, inr,
}
use re_takehome_submission.Common.Int.{ℤ, pos, negsuc}
use re_takehome_submission.Common.Text.{Text}
use re_takehome_submission.Common.Results.{
  Result, ok, err, and_then, OnOk, OnOk-if, OnOk-map, OnOk-and_then, OnOk-apply, Result-cases,
}
use re_takehome_submission.Runner.{
  RunError, ResultFile, RunningWorker, World, RunnerState, start_workers, poll_worker, poll_workers,
  keep_or_finish, outcome, is_absent, turn, run_loop, start_state, time_out,
}
use re_takehome_submission.Runner.Reached.{Reach, here, next}

not_idle :
    (ps : List Text) (ks : List RunningWorker)
    → is_empty ps && is_empty ks ≡ false
    → 1 ≤ length ps + length ks
not_idle [] [] h = absurd (cc)
not_idle [] (k ∷ ks) h = omega arith
not_idle (p ∷ ps) ks h = omega arith

-- `now r` lies between the starts and the polls of round `r`.
abbrev pub IsClock : World → (now : ℕ → ℕ) → Type 0
IsClock w now =
    ((r : ℕ) (p : Text) → w.started_at r p ≤ now r) × ((r : ℕ) (p : Text) → now r ≤ w.polled_at r p)

module _ (w : World) (n time_limit : ℕ) (limit_text : Text) (now : ℕ → ℕ) where
  -- A round that leaves a worker running sleeps for a tenth of a second.
  abbrev pub Sleeps : List Text → Type 0
  Sleeps ps =
      (r : ℕ) (s : RunnerState)
      → Reach w n time_limit limit_text ps (suc r) s
      → is_empty s.running ≡ false
      → now r + 100 ≤ now (suc r)

  -- One more than what is left of a worker's time.
  abbrev pub weight : ℕ → RunningWorker → ℕ
  weight r k = suc ((suc time_limit + k.started) - now r)

  abbrev pub load : ℕ → List RunningWorker → ℕ
  load r [] = 0
  load r (k ∷ ks) = weight r k + load r ks

  abbrev pub left : ℕ → List Text → List RunningWorker → ℕ
  left r ps ks = (time_limit + 2) * length ps + load r ks

  load-append : (r : ℕ) (ks ls : List RunningWorker) → load r (ks ++ ls) ≡ load r ks + load r ls
  load-append r [] ls = omega arith
  load-append r (k ∷ ks) ls = omega (arith, load-append r ks ls)

  length-load : (r : ℕ) (ks : List RunningWorker) → length ks ≤ load r ks
  length-load r [] = omega arith
  length-load r (k ∷ ks) = omega (arith, length-load r ks)

  module _ (clock : IsClock w now) where
    start_workers-left :
        (r : ℕ) (ks : List RunningWorker) (ps : List Text)
        → OnOk
            (λ x. left r x.0 x.1 ≤ left r ps ks)
            (start_workers w n time_limit limit_text r ks ps)
    unfolding start_workers
    start_workers-left r ks [] = omega arith
    start_workers-left r ks (p ∷ ps) =
        let k : RunningWorker = record { id = p; started = w.started_at r p } in
        let Q : List Text × List RunningWorker → Type 0 =
          λ x. left r x.0 x.1 ≤ left r (p ∷ ps) ks in
        let added = load-append r ks (k ∷ []) in
        let later = clock.0 r p in
        OnOk-if Q (ltb (length ks) n) _ _
          (λ _.
            OnOk-if Q (w.artifacts_ok r p) _ _
              (λ _. OnOk-map _ Q _ (λ x h. omega arith) (start_workers-left r (ks ++ k ∷ []) ps))
              (λ _. tt))
          (λ _. omega arith)

    poll_worker-kept :
        (r : ℕ) (k : RunningWorker)
        → now r + 100 ≤ now (suc r)
        → OnOk
            (λ (f : Option ResultFile). f ≡ none → weight (suc r) k < weight r k)
            (poll_worker w n time_limit limit_text r k)
    unfolding poll_worker
    poll_worker-kept r k q = polled (w.poll r k.id) refl
      where
        Shorter : Option ResultFile → Type 0
        Shorter f = f ≡ none → weight (suc r) k < weight r k

        found : (x : Result RunError ResultFile) → OnOk Shorter (and_then x (λ f. ok (some f)))
        found (ok f) = λ e. absurd (cc)
        found (err e) = tt

        polled :
            (o : Option ℤ)
            → w.poll r k.id ≡ o
            → OnOk Shorter (poll_worker w n time_limit limit_text r k)
        polled none e =
            rw (e, poll_worker)
              (OnOk-if Shorter (leb (w.polled_at r k.id - k.started) time_limit) _ _
                (λ h _. let j = leb→le _ _ h in omega (arith, j, clock.1 r k.id))
                (λ _. found (time_out w n time_limit limit_text r k)))
        polled (some (pos zero)) e = rw (e, poll_worker) (λ j. absurd (cc))
        polled (some (pos (suc c))) e =
            rw (e, poll_worker)
              (OnOk-if Shorter (is_absent (w.result_file r k.id)) _ _ (λ _. found _)
                (λ _ j. absurd (cc)))
        polled (some (negsuc c)) e =
            rw (e, poll_worker)
              (OnOk-if Shorter (is_absent (w.result_file r k.id)) _ _ (λ _. found _)
                (λ _ j. absurd (cc)))

    poll_workers-load :
        (r : ℕ) (ks : List RunningWorker)
        → now r + 100 ≤ now (suc r)
        → OnOk
            (λ x. load (suc r) x.0 + length ks ≤ load r ks)
            (poll_workers w n time_limit limit_text r ks)
    unfolding poll_workers
    poll_workers-load r [] q = omega arith
    poll_workers-load r (k ∷ ks) q =
        OnOk-and_then _ (poll_worker w n time_limit limit_text r k) _ (λ f e.
          OnOk-and_then _ (poll_workers w n time_limit limit_text r ks) _ (λ x e'.
            kept f x (OnOk-apply _ _ f (poll_worker-kept r k q) e)
              (OnOk-apply _ _ x (poll_workers-load r ks q) e')))
      where
        kept :
            (f : Option ResultFile) (x : List RunningWorker × List (Text × ResultFile))
            → (f ≡ none → weight (suc r) k < weight r k)
            → load (suc r) x.0 + length ks ≤ load r ks
            → OnOk
                (λ y. load (suc r) y.0 + length (k ∷ ks) ≤ load r (k ∷ ks))
                (keep_or_finish w n time_limit limit_text k f x)
        kept none x h j = omega (arith, h refl)
        kept (some f) x h j =
            OnOk-and_then (λ y. load (suc r) y.0 + length (k ∷ ks) ≤ load r (k ∷ ks)) (outcome f) _
              (λ a e. omega arith)

    start_workers-some :
        (r : ℕ) (ks : List RunningWorker) (ps : List Text)
        → 1 ≤ n
        → 1 ≤ length ps + length ks
        → OnOk (λ x. 1 ≤ length x.1) (start_workers w n time_limit limit_text r ks ps)
    unfolding start_workers
    start_workers-some r ks [] h e = omega arith
    start_workers-some r ks (p ∷ ps) h e =
        let k : RunningWorker = record { id = p; started = w.started_at r p } in
        let Q : List Text × List RunningWorker → Type 0 = λ x. 1 ≤ length x.1 in
        let longer = length-append ks (k ∷ []) in
        OnOk-if Q (ltb (length ks) n) _ _
          (λ _.
            OnOk-if Q (w.artifacts_ok r p) _ _
              (λ _. start_workers-some r (ks ++ k ∷ []) ps h (omega arith)) (λ _. tt))
          (λ j. ground arith)

    load_empty : (r : ℕ) (ks : List RunningWorker) → is_empty ks ≡ true → load r ks ≡ 0
    load_empty r [] e = refl
    load_empty r (k ∷ ks) e = absurd (cc)

    turn-left :
        (r : ℕ) (s : RunnerState)
        → 1 ≤ n
        → 1 ≤ length s.pending + length s.running
        → OnOk
            (λ s'.
              (is_empty s'.running ≡ false → now r + 100 ≤ now (suc r))
              → left (suc r) s'.pending s'.running < left r s.pending s.running)
            (turn w n time_limit limit_text r s)
    unfolding turn
    turn-left r s h e =
        OnOk-and_then _ (start_workers w n time_limit limit_text r s.running s.pending) _ (λ x e1.
          OnOk-and_then _ (poll_workers w n time_limit limit_text r x.1) _ (λ y e2 sleeps.
            let a = OnOk-apply _ _ x (start_workers-left r s.running s.pending) e1 in
            let b = OnOk-apply _ _ x (start_workers-some r s.running s.pending h e) e1 in
            elim (Bool-cases (is_empty y.0)) [
              | inl i ↦ omega (arith, a, b, length-load r x.1, load_empty (suc r) y.0 i)
              | inr i ↦
                  let c = OnOk-apply _ _ y (poll_workers-load r x.1 (sleeps i)) e2 in omega arith
            ]))

    run_loop-left :
        (ps : List Text)
        → Sleeps ps
        → (fuel r : ℕ) (s : RunnerState) → 1 ≤ n
        → Reach w n time_limit limit_text ps r s
        → left r s.pending s.running ≤ fuel
        → (x : Result RunError RunnerState) × (run_loop w n time_limit limit_text fuel r s ≡ some x)
    unfolding run_loop
    run_loop-left ps sleeps zero r s h p j =
        elim (Bool-cases (is_empty s.pending && is_empty s.running)) [
          | inl e ↦ (ok s, rw e refl)
          | inr e ↦
              let busy = not_idle s.pending s.running e in
              let some_load = length-load r s.running in absurd (omega arith)
        ]
    run_loop-left ps sleeps (suc fuel) r s h p j =
        elim (Bool-cases (is_empty s.pending && is_empty s.running)) [
          | inl e ↦ (ok s, rw e refl)
          | inr e ↦ elim (Result-cases (turn w n time_limit limit_text r s)) [
            | inl (s', e') ↦
                let reached = next p e' in
                let smaller =
                  OnOk-apply _ _ s' (turn-left r s h (not_idle s.pending s.running e)) e'
                    (sleeps r s' reached) in
                let (x, k) = run_loop-left ps sleeps fuel (suc r) s' h reached (omega arith) in
                (x, rw (e, e') k)
            | inr (x, e') ↦ (err x, rw (e, e') refl)
          ]
        ]

    -- With at least one worker at a time, the loop ends within as many rounds as there are problems
    -- times two more than the time limit in milliseconds: it completes or raises.
    pub run_loop-ends :
        (ps : List Text) (fuel : ℕ)
        → Sleeps ps
        → 1 ≤ n
        → (time_limit + 2) * length ps ≤ fuel
        → (x : Result RunError RunnerState) × (run_loop w n time_limit limit_text fuel 0
              (start_state ps)
            ≡ some x)
    run_loop-ends ps fuel sleeps h j =
        run_loop-left ps sleeps fuel 0 (start_state ps) h here (omega arith)
