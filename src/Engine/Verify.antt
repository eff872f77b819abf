-- ===== src/Engine/Verify.antt =====
-- The verification queue of collaboration_engine_v2/agent.py: one verification runs, and at most one
-- candidate waits, the latest. `services.verify` is outside the model: its outcome is an argument.
-- The task and the job of the running verification are set and cleared together, so `active` stands
-- for both.
pub mod Keys
pub mod Flight
use re_takehome_submission.Common.{
  ℕ, ◌+◌, Bool, true, false, Option, none, some, List, [], ◌∷◌, ◌++◌, ◌==◌, if◌then◌else◌, take,
  is_empty,
}
use re_takehome_submission.Common.Int.{ℤ, pos, negsuc}
use re_takehome_submission.Common.Text.{Text, codes, text_eq, decimal}
use re_takehome_submission.Engine.State.{AttemptRecord, TrackState, update_track, update_at}

-- `VerificationJob`; the record is the attempt at `place` on the model's track.
pub record VerificationJob : Type 0 where
  pub source : Text
  pub candidate_sha256 : Text
  pub model : Text
  pub place : ℕ
  pub call_round : ℕ

-- The dictionary that a verification returns; `none` for a missing key or `None`.
pub record Verdict : Type 0 where
  pub passed : Bool
  pub verification_error : Option Text
  pub answer_shape_passed : Option Bool
  pub comparator_passed : Option Bool
  pub comparator_timed_out : Option Bool
  pub comparator_exit_code : Option ℤ

-- `services.verify` returns a dictionary, or raises; the text is the class and the message.
pub data VerifyOutcome : Type 0 where
  returned : Verdict → VerifyOutcome
  raised : Text → VerifyOutcome

-- `_verify_if_promising` on an accepted proposal.
unfoldable pub verdict_of : VerifyOutcome → Verdict
verdict_of (returned v) = v
verdict_of (raised message) = record {
  passed = false;
  verification_error = some (take 1000 message);
  answer_shape_passed = none;
  comparator_passed = none;
  comparator_timed_out = none;
  comparator_exit_code = none;
}

pub data EventKind : Type 0 where
  started deduplicated_active deduplicated_queued superseded queued completed completed_cached
        superseded_by_verified_success :
      EventKind

pub record VerificationEvent : Type 0 where
  pub kind : EventKind
  pub candidate_sha256 : Text
  pub model : Text
  pub call : ℕ
  pub passed : Option Bool

pub data CheckpointStatus : Type 0 where
  provisional_lean_failure provisional_warm_lean_passed fresh_comparator_passed : CheckpointStatus

-- A call of `services.checkpoint`.
pub record Checkpoint : Type 0 where
  pub source : Text
  pub status : CheckpointStatus

pub record Desk : Type 0 where
  pub tracks : List TrackState
  pub active : Option VerificationJob
  pub waiting : Option VerificationJob
  pub results : List (Text × Verdict)
  pub events : List VerificationEvent
  pub checkpoints : List Checkpoint

show_bool : Option Bool → Text
show_bool none = codes "None"
show_bool (some true) = codes "True"
show_bool (some false) = codes "False"

show_int : Option ℤ → Text
unfolding decimal
show_int none = codes "None"
show_int (some (pos n)) = decimal n
show_int (some (negsuc n)) = codes "-" ++ decimal (n + 1)

verdict_detail : Verdict → Text
unfolding show_bool show_int
verdict_detail v =
    codes "answer_shape_passed="
    ++ (show_bool v.answer_shape_passed
        ++ (codes "; comparator_passed="
            ++ (show_bool v.comparator_passed
                ++ (codes "; comparator_timed_out="
                    ++ (show_bool v.comparator_timed_out
                        ++ (codes "; comparator_exit_code=" ++ show_int v.comparator_exit_code))))))

error_detail : Option Text → Text → Text
error_detail none d = d
error_detail (some e) d = if is_empty e then d else e

-- `_compatibility_diagnostic`
unfoldable pub compatibility_diagnostic : Verdict → Text
unfolding verdict_detail error_detail
compatibility_diagnostic v =
    codes "Warm Lean accepted this proposal, but fresh holdout-style verification did not: "
    ++ (error_detail v.verification_error (verdict_detail v)
        ++ codes
            ". Continue from it only as an untrusted local repair state; it cannot stop the run or become a trusted checkpoint.")

abbrev event_for : EventKind → VerificationJob → Option Bool → VerificationEvent
event_for k j p = record {
  kind = k;
  candidate_sha256 = j.candidate_sha256;
  model = j.model;
  call = j.call_round;
  passed = p;
}

abbrev pub log : EventKind → VerificationJob → Option Bool → Desk → Desk
log k j p d = record d { events = d.events ++ event_for k j p ∷ [] }

-- `verification_results.get(sha)`
unfoldable pub find_result : Text → List (Text × Verdict) → Option Verdict
find_result h [] = none
find_result h ((k, v) ∷ r) = if text_eq k h then some v else find_result h r

-- `verification_results[sha] = verdict`
unfoldable pub set_result : Text → Verdict → List (Text × Verdict) → List (Text × Verdict)
set_result h v [] = (h, v) ∷ []
set_result h v ((k, w) ∷ r) = if text_eq k h then (k, v) ∷ r else (k, w) ∷ set_result h v r

-- `start_verification`
unfoldable pub start_verification : VerificationJob → Desk → Desk
start_verification j d = log started j none (record d { active = some j })

abbrev pub is_job : Text → Option VerificationJob → Bool
is_job h none = false
is_job h (some j) = text_eq j.candidate_sha256 h

-- The job takes the waiting place; the one that stood there is superseded.
unfoldable pub take_place : VerificationJob → Desk → Desk
take_place j d = elim d.waiting [
  | none ↦ log queued j none (record d { waiting = some j })
  | some old ↦ log queued j none (record (log superseded old none d) { waiting = some j })
]

-- `advance_verification_queue`
unfoldable pub advance : Desk → Desk
advance d = elim d.active [
  | some j ↦ d
  | none ↦ elim d.waiting [ none ↦ d | some j ↦ start_verification j (record d { waiting = none }) ]
]

-- A verified success drops the candidate that waits.
unfoldable pub drop_waiting : Desk → Desk
drop_waiting d = elim d.waiting [
  | none ↦ d
  | some j ↦ log superseded_by_verified_success j none (record d { waiting = none })
]

module _ (sha256 : Text → Text) where
  -- What a verdict writes into the attempt.
  unfoldable pub note_verdict : Verdict → AttemptRecord → AttemptRecord
  unfolding compatibility_diagnostic
  note_verdict v r =
      if v.passed
      then record r {
        compatibility_checked = true;
        compatibility_passed = true;
        accepted = true;
        checkpoint_saved = true;
      }
      else record r {
        compatibility_checked = true;
        compatibility_passed = false;
        accepted = false;
        diagnostic_excerpt = compatibility_diagnostic v;
        error_signature_sha256 = sha256 (compatibility_diagnostic v);
        raw_diagnostic_count = 1;
      }

  -- `_apply_verification`
  unfoldable pub apply_verification : EventKind → VerificationJob → Verdict → Desk → Bool × Desk
  apply_verification kind j v d =
      let d' : Desk = record d {
        tracks =
            update_track j.model
              (λ t. record t { attempts = update_at j.place (note_verdict v) t.attempts }) d.tracks;
        checkpoints =
            if v.passed
            then d.checkpoints
              ++ record { source = j.source; status = fresh_comparator_passed } ∷ []
            else d.checkpoints;
      } in
      (v.passed, log kind j (some v.passed) d')

  -- `enqueue_verification`; the Boolean tells that a cached verdict has passed.
  unfoldable pub enqueue_verification : VerificationJob → Desk → Bool × Desk
  enqueue_verification j d = elim (find_result j.candidate_sha256 d.results) [
    | some v ↦ apply_verification completed_cached j v d
    | none ↦
        if is_job j.candidate_sha256 d.active
        then (false, log deduplicated_active j none d)
        else if is_job j.candidate_sha256 d.waiting
        then (false, log deduplicated_queued j none d)
        else (false, take_place j d)
  ]

  -- The running verification has ended; the Boolean tells whether its candidate has passed.
  unfoldable pub finish_verification : VerificationJob → VerifyOutcome → Desk → Bool × Desk
  finish_verification j o d =
      let v = verdict_of o in
      let d₁ : Desk = record d { results = set_result j.candidate_sha256 v d.results } in
      let (passed, d₂) = apply_verification completed j v d₁ in
      let d₃ : Desk = record d₂ { active = none } in
      (passed, if passed then drop_waiting d₃ else advance d₃)
