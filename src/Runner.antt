-- ===== src/Runner.antt =====
-- src/re_harness/runner.py: the scheduler of `run`. Processes, files and clocks are outside the
-- model: what they show in each round is an argument, the `World`. The progress bar is left out but
-- for the exception of its status. Times are in milliseconds.
pub mod Recovery
pub mod Ending
pub mod Reached
pub mod Live
pub mod Naming
pub mod Slug
pub mod Below
mod Tests
use re_takehome_submission.Common.{
  ℕ, zero, suc, ◌+◌, ◌-◌, Bool, true, false, not, ◌&&◌, ◌||◌, Option, none, some, List, [], ◌∷◌,
  ◌++◌, ltb, leb, if◌then◌else◌, length, is_empty,
}
use re_takehome_submission.Common.Int.{ℤ, pos, negsuc}
use re_takehome_submission.Common.Text.{Text, codes, text_eq}
use re_takehome_submission.Common.Json.{Json, Fields, null, boolean, int, float, str, arr, obj, get}
use re_takehome_submission.Common.Results.{Result, ok, err, and_then}
use Recovery.{Event, recovered_result, exit_message}

-- What raises: an output artifact that is no file, a process that outlives `kill`, an event log that
-- cannot be read, a result that is no object.
pub data RunError : Type 0 where
  artifact_not_a_file kill_timed_out events_unreadable result_not_an_object : RunError

-- A result file: not there, not JSON, or a value.
pub data ResultFile : Type 0 where
  absent malformed : ResultFile
  recorded : Json → ResultFile

pub record RunningWorker : Type 0 where
  pub id : Text
  pub started : ℕ

-- How a worker that is told to stop ends.
pub data StopOutcome : Type 0 where
  terminated killed stuck : StopOutcome

-- What round `r` of the loop shows for a problem.
pub record World : Type 0 where
  pub artifacts_ok : (r : ℕ) → Text → Bool
  pub started_at : (r : ℕ) → Text → ℕ
  -- `process.poll()`, and the clock behind it.
  pub poll : (r : ℕ) → Text → Option ℤ
  pub polled_at : (r : ℕ) → Text → ℕ
  pub stop : (r : ℕ) → Text → StopOutcome
  pub recovered_at : (r : ℕ) → Text → ℕ
  pub events : (r : ℕ) → Text → Option (List Event)
  pub result_file : (r : ℕ) → Text → ResultFile

pub record RunnerState : Type 0 where
  pub pending : List Text
  pub running : List RunningWorker
  pub completed : ℕ
  -- The problems that are completed, in that order, each with its result file.
  pub results : List (Text × ResultFile)

-- `existing.get("problem_id") == spec.id and isinstance(existing.get("status"), str)`
unfoldable pub is_result_of : Text → Fields → Bool
unfolding get text_eq
is_result_of id f = elim (get (codes "problem_id") f) [
  | some (str t) ↦ text_eq t id && elim (get (codes "status") f) [ some (str s) ↦ true | _ ↦ false ]
  | _ ↦ false
]

-- Whether a problem of a resumed run is skipped.
unfoldable pub is_finished : Text → ResultFile → Result RunError Bool
unfolding is_result_of
is_finished id absent = ok false
is_finished id malformed = ok false
is_finished id (recorded (obj f)) = ok (is_result_of id f)
is_finished id (recorded _) = err result_not_an_object

-- The loop that fills `pending` and counts what is skipped.
unfoldable pub select :
    (resume : Bool) → (file : Text → ResultFile) → List Text → Result RunError (List Text × ℕ)
unfolding is_finished
select resume file [] = ok ([], 0)
select resume file (p ∷ ps) =
    let rest = select resume file ps in
    and_then (if resume then is_finished p (file p) else ok false) (λ skip.
      and_then rest (λ found. ok (if skip then (found.0, suc found.1) else (p ∷ found.0, found.1))))

-- The status that the progress bar reads from the result file.
unfoldable pub outcome : ResultFile → Result RunError Json
unfolding get
outcome absent = ok (str (codes "unknown"))
outcome malformed = ok (str (codes "invalid-result"))
outcome (recorded (obj f)) = elim (get (codes "status") f) [
  | none ↦ ok (str (codes "unknown"))
  | some v ↦ ok v
]
outcome (recorded _) = err result_not_an_object

abbrev pub is_absent : ResultFile → Bool
is_absent absent = true
is_absent _ = false

module _ (w : World) (n_workers time_limit : ℕ) (limit_text : Text) where
  -- The inner loop that starts workers.
  unfoldable pub start_workers :
      (r : ℕ) → List RunningWorker → List Text → Result RunError (List Text × List RunningWorker)
  start_workers r running [] = ok ([], running)
  start_workers r running (p ∷ ps) =
      let worker : RunningWorker = record { id = p; started = w.started_at r p } in
      let rest = start_workers r (running ++ worker ∷ []) ps in
      if ltb (length running) n_workers
      then (if w.artifacts_ok r p then rest else err artifact_not_a_file)
      else ok (p ∷ ps, running)

  -- `_recover_worker`
  unfoldable pub recover :
      (r : ℕ) → RunningWorker → (status message : Text) → Result RunError ResultFile
  unfolding recovered_result
  recover r k status message = elim (w.events r k.id) [
    | none ↦ err events_unreadable
    | some es ↦
        ok (recorded (recovered_result k.id status message es (w.recovered_at r k.id - k.started)))
  ]

  -- `process.terminate()`, and `process.kill()` if that is not enough.
  unfoldable pub time_out : (r : ℕ) → RunningWorker → Result RunError ResultFile
  unfolding recover
  time_out r k = elim (w.stop r k.id) [
    | stuck ↦ err kill_timed_out
    | _ ↦
        recover r k (codes "timed_out")
          (codes "problem exceeded " ++ (limit_text ++ codes "s wall-clock limit"))
  ]

  -- One worker of the loop over those that run: `none` if it is still running, or the result file
  -- that it leaves.
  unfoldable pub poll_worker : (r : ℕ) → RunningWorker → Result RunError (Option ResultFile)
  unfolding time_out recover exit_message
  poll_worker r k = elim (w.poll r k.id) [
    | none ↦
        if leb (w.polled_at r k.id - k.started) time_limit
        then ok none
        else and_then (time_out r k) (λ f. ok (some f))
    | some (pos zero) ↦ ok (some (w.result_file r k.id))
    | some code ↦
        if is_absent (w.result_file r k.id)
        then and_then (recover r k (codes "harness_error") (exit_message code)) (λ f. ok (some f))
        else ok (some (w.result_file r k.id))
  ]

  -- A worker that is still running stays in the list, another one is completed.
  abbrev pub keep_or_finish :
      RunningWorker
      → Option ResultFile
      → List RunningWorker × List (Text × ResultFile)
      → Result RunError (List RunningWorker × List (Text × ResultFile))
  keep_or_finish k none rest = ok (k ∷ rest.0, rest.1)
  keep_or_finish k (some f) rest = and_then (outcome f) (λ status. ok (rest.0, (k.id, f) ∷ rest.1))

  -- The loop over `list(running)`: those that still run, and the results of the others.
  unfoldable pub poll_workers :
      (r : ℕ) → List RunningWorker → Result RunError (List RunningWorker × List (Text × ResultFile))
  unfolding poll_worker outcome
  poll_workers r [] = ok ([], [])
  poll_workers r (k ∷ ks) =
      let rest = poll_workers r ks in
      and_then (poll_worker r k) (λ f. and_then rest (keep_or_finish k f))

  -- One round of the loop.
  unfoldable pub turn : (r : ℕ) → RunnerState → Result RunError RunnerState
  unfolding start_workers poll_workers
  turn r s = and_then (start_workers r s.running s.pending) (λ filled.
      and_then (poll_workers r filled.1) (λ polled. ok (record {
        pending = filled.0;
        running = polled.0;
        completed = s.completed + length polled.1;
        results = s.results ++ polled.1;
      })))

  -- `while pending or running`, with `none` where the fuel is used up.
  unfoldable pub run_loop :
      (fuel : ℕ) → (r : ℕ) → RunnerState → Option (Result RunError RunnerState)
  unfolding turn
  run_loop zero r s = if is_empty s.pending && is_empty s.running then some (ok s) else none
  run_loop (suc fuel) r s =
      if is_empty s.pending && is_empty s.running
      then some (ok s)
      else elim (turn r s) [ err e ↦ some (err e) | ok s' ↦ run_loop fuel (suc r) s' ]

abbrev pub start_state : List Text → RunnerState
start_state ps = record { pending = ps; running = []; completed = 0; results = [] }
