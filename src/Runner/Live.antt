-- ===== src/Runner/Live.antt =====
-- A world in which nothing fails outside the loop.
use re_takehome_submission.Common.{
  ℕ, zero, suc, ◌+◌, ◌*◌, ◌-◌, ◌≤◌, ◌≡◌, ◌≢◌, refl, true, ◌&&◌, Option, none, some, List, [], ◌∷◌,
  ◌++◌, ltb, leb, if◌then◌else◌, length, is_empty, arith, Bool-cases, inl, inr,
}
use re_takehome_submission.Common.Int.{ℤ, pos, negsuc}
use re_takehome_submission.Common.Text.{Text, codes, text_eq}
use re_takehome_submission.Common.Json.{get}
use re_takehome_submission.Common.Results.{
  Result, ok, err, and_then, Result-cases, Yields, Yields-if, Yields-and_then,
}
use re_takehome_submission.Runner.{
  RunError, ResultFile, RunningWorker, World, RunnerState, StopOutcome, terminated, killed, stuck,
  start_workers, poll_worker, poll_workers, keep_or_finish, outcome, turn, run_loop, start_state,
  time_out, recover, is_absent,
}
use re_takehome_submission.Runner.Recovery.{Event, recovered_result}
use re_takehome_submission.Runner.Ending.{IsClock, Sleeps, run_loop-ends}
use re_takehome_submission.Runner.Reached.{
  occurrences, problems_of, here, IsSound, Reach-IsSound, run_loop-Reach, is_idle,
}

-- What is left when the loop returns `s`.
abbrev pub IsComplete : List Text → RunnerState → Type 0
IsComplete ps s =
    (s.pending ≡ [])
    × (s.running ≡ [])
    × (s.completed ≡ length s.results)
    × ((t : Text) → occurrences t (problems_of s.results) ≡ occurrences t ps)

-- The artifacts of an earlier run are files, a killed process ends, the event log can be read, and
-- the status of a result that a worker writes can be read.
abbrev pub IsWorking : World → Type 0
IsWorking w =
    ((r : ℕ) (p : Text) → w.artifacts_ok r p ≡ true)
    × ((r : ℕ) (p : Text) → w.stop r p ≢ stuck)
    × ((r : ℕ) (p : Text) → (es : List Event) × (w.events r p ≡ some es))
    × ((r : ℕ) (p : Text) → Yields (λ _. Unit) (outcome (w.result_file r p)))

module _ (w : World) (n time_limit : ℕ) (limit_text : Text) (works : IsWorking w) where
  Returns {ℓ} : {A : Type ℓ} → Result RunError A → Type 0
  Returns = Yields (λ _. Unit)

  HasStatus : ResultFile → Type 0
  HasStatus f = Yields (λ _. Unit) (outcome f)

  -- What a poll leaves has a status that can be read.
  MayHaveStatus : Option ResultFile → Type 0
  MayHaveStatus none = Unit
  MayHaveStatus (some f) = HasStatus f

  start_workers-Yields :
      (r : ℕ) (ks : List RunningWorker) (ps : List Text)
      → Yields (λ _. Unit) (start_workers w n time_limit limit_text r ks ps)
  unfolding start_workers
  start_workers-Yields r ks [] = tt
  start_workers-Yields r ks (p ∷ ps) =
      Yields-if _ (ltb (length ks) n) _ _
        (λ _.
          rw (works.0 r p)
            (start_workers-Yields r (ks ++ record { id = p; started = w.started_at r p } ∷ []) ps))
        (λ _. tt)

  recover-Yields :
      (r : ℕ) (k : RunningWorker) (status message : Text)
      → Yields HasStatus (recover w n time_limit limit_text r k status message)
  unfolding recover outcome recovered_result get text_eq HasStatus
  recover-Yields r k status message = let (es, e) = works.2 r k.id in rw (e, recover) tt

  time_out-Yields :
      (r : ℕ) (k : RunningWorker) → Yields HasStatus (time_out w n time_limit limit_text r k)
  unfolding time_out
  time_out-Yields r k = ended (w.stop r k.id) refl
    where
      ended :
          (o : StopOutcome)
          → w.stop r k.id ≡ o
          → Yields HasStatus (time_out w n time_limit limit_text r k)
      ended stuck e = absurd (works.1 r k.id e)
      ended terminated e = rw (e, time_out) (recover-Yields r k _ _)
      ended killed e = rw (e, time_out) (recover-Yields r k _ _)

  poll_worker-Yields :
      (r : ℕ) (k : RunningWorker) → Yields MayHaveStatus (poll_worker w n time_limit limit_text r k)
  unfolding poll_worker MayHaveStatus HasStatus
  poll_worker-Yields r k = polled (w.poll r k.id) refl
    where
      completed :
          (x : Result RunError ResultFile)
          → Yields HasStatus x
          → Yields MayHaveStatus (and_then x (λ f. ok (some f)))
      completed x h = Yields-and_then HasStatus MayHaveStatus x _ h (λ f j. j)

      crashed :
          (message : Text)
          → Yields MayHaveStatus (
              if is_absent (w.result_file r k.id)
              then and_then
                  (recover w n time_limit limit_text r k (codes "harness_error") message)
                  (λ f. ok (some f))
              else ok (some (w.result_file r k.id)))
      crashed message =
          Yields-if MayHaveStatus (is_absent (w.result_file r k.id)) _ _
            (λ _. completed _ (recover-Yields r k _ _)) (λ _. works.3 r k.id)

      polled :
          (o : Option ℤ)
          → w.poll r k.id ≡ o
          → Yields MayHaveStatus (poll_worker w n time_limit limit_text r k)
      polled none e =
          rw (e, poll_worker)
            (Yields-if MayHaveStatus (leb (w.polled_at r k.id - k.started) time_limit) _ _ (λ _. tt)
              (λ _. completed _ (time_out-Yields r k)))
      polled (some (pos zero)) e = rw (e, poll_worker) (works.3 r k.id)
      polled (some (pos (suc c))) e = rw (e, poll_worker) (crashed _)
      polled (some (negsuc c)) e = rw (e, poll_worker) (crashed _)

  poll_workers-Yields :
      (r : ℕ) (ks : List RunningWorker)
      → Yields (λ _. Unit) (poll_workers w n time_limit limit_text r ks)
  unfolding poll_workers MayHaveStatus HasStatus
  poll_workers-Yields r [] = tt
  poll_workers-Yields r (k ∷ ks) =
      Yields-and_then MayHaveStatus _ (poll_worker w n time_limit limit_text r k) _
        (poll_worker-Yields r k)
        (λ f h.
          Yields-and_then (λ _. Unit) _ (poll_workers w n time_limit limit_text r ks) _
            (poll_workers-Yields r ks) (λ x _. kept f x h))
    where
      kept :
          (f : Option ResultFile) (x : List RunningWorker × List (Text × ResultFile))
          → MayHaveStatus f
          → Yields (λ _. Unit) (keep_or_finish w n time_limit limit_text k f x)
      kept none x h = tt
      kept (some f) x h = Yields-and_then (λ _. Unit) (λ _. Unit) (outcome f) _ h (λ _ _. tt)

  turn-Yields : (r : ℕ) (s : RunnerState) → Yields (λ _. Unit) (turn w n time_limit limit_text r s)
  unfolding turn
  turn-Yields r s =
      Yields-and_then (λ _. Unit) _ (start_workers w n time_limit limit_text r s.running s.pending)
        _ (start_workers-Yields r s.running s.pending)
        (λ x _.
          Yields-and_then (λ _. Unit) _ (poll_workers w n time_limit limit_text r x.1) _
            (poll_workers-Yields r x.1) (λ _ _. tt))

  never_raises :
      (fuel r : ℕ) (s : RunnerState) (x : RunError)
      → run_loop w n time_limit limit_text fuel r s ≢ some (err x)
  unfolding run_loop
  never_raises zero r s x e = elim (Bool-cases (is_idle s)) [
    | inl i ↦ let e' = rw i at e in absurd (cc)
    | inr i ↦ let e' = rw i at e in absurd (cc)
  ]
  never_raises (suc fuel) r s x e = elim (Bool-cases (is_idle s)) [
    | inl i ↦ let e' = rw i at e in absurd (cc)
    | inr i ↦ elim (Result-cases (turn w n time_limit limit_text r s)) [
      | inl (s', e') ↦ let e'' = rw (i, e') at e in never_raises fuel (suc r) s' x e''
      | inr (y, e') ↦ let h = turn-Yields r s in absurd (rw e' at h)
    ]
  ]

  idle-IsComplete :
      (ps : List Text) (s : RunnerState)
      → is_idle s ≡ true
      → IsSound w n time_limit limit_text ps s
      → IsComplete ps s
  idle-IsComplete ps s i h =
      let (e, e') = idle s.pending s.running i in
      (e, e', h.counted, λ t. let k = rw (e, e') at h.once t in omega (arith, k))
    where
      idle :
          (qs : List Text) (ks : List RunningWorker)
          → is_empty qs && is_empty ks ≡ true
          → (qs ≡ []) × (ks ≡ [])
      idle [] [] i = (refl, refl)
      idle [] (k ∷ ks) i = absurd (cc)
      idle (q ∷ qs) ks i = absurd (cc)

  -- If nothing outside the loop fails, at least one worker may run, and each round that leaves a worker
  -- running takes a tenth of a second, the loop returns, within as many rounds as there are problems times two more than the time limit in
  -- milliseconds; nothing is pending or running then, and each problem has been completed as often as
  -- it was given.
  pub run_loop-completes :
      (now : ℕ → ℕ)
      → IsClock w now
      → (ps : List Text) (fuel : ℕ) → Sleeps w n time_limit limit_text now ps
      → 1 ≤ n
      → (time_limit + 2) * length ps ≤ fuel
      → (s : RunnerState) × (run_loop w n time_limit limit_text fuel 0 (start_state ps)
          ≡ some (ok s))
        × IsComplete ps s
  run_loop-completes now clock ps fuel sleeps h j =
      let (x, e) = run_loop-ends w n time_limit limit_text now clock ps fuel sleeps h j in
      completes x e
    where
      completes :
          (x : Result RunError RunnerState)
          → run_loop w n time_limit limit_text fuel 0 (start_state ps) ≡ some x
          → (s : RunnerState) × (run_loop w n time_limit limit_text fuel 0 (start_state ps)
              ≡ some (ok s))
            × IsComplete ps s
      completes (ok s) e =
          let (r, reached, i) =
            run_loop-Reach w n time_limit limit_text fuel 0 (start_state ps) s here e in
          (s, e, idle-IsComplete ps s i (Reach-IsSound w n time_limit limit_text reached))
      completes (err x) e = absurd (never_raises fuel 0 (start_state ps) x e)
