-- ===== src/Engine/Finish/Track.antt =====
-- What a finished call writes into its track: the errors, the attempt's record, the salvage, the
-- observation and the feedback.
use re_takehome_submission.Common.{
  ℕ, ◌+◌, ◌-◌, Bool, true, false, not, ◌&&◌, Option, none, some, List, [], ◌∷◌, ◌++◌, if◌then◌else◌,
  length, is_empty, any,
}
use re_takehome_submission.Common.Text.{Text, codes, text_eq}
use re_takehome_submission.Salvage.{Mode, diagnostic_span, failing_suffix, whole_proof_body}
use re_takehome_submission.Salvage.Source.{contains_sorry}
use re_takehome_submission.Strategies.{TrackObservation}
use re_takehome_submission.Engine.State.{
  Phase, AttemptRecord, CallError, TrackState, Settings, SalvageEvent, update_at,
}
use re_takehome_submission.Engine.Schedule.{PendingCall}
use re_takehome_submission.Engine.Salvaging.{Skeleton, Python, digest}
use re_takehome_submission.Engine.Observe.{Proposal, Finding}

abbrev call_error : ℕ → Phase → Bool → Text → CallError
call_error call phase dispatched message = record {
  call = call;
  phase = phase;
  dispatched = dispatched;
  message = message;
}

-- The ledger refused the call: it is not counted, and the track makes no more calls.
unfoldable pub refuse : Phase → Text → TrackState → TrackState
refuse phase message t = record t {
  calls = t.calls - 1;
  active = false;
  call_errors = t.call_errors ++ call_error (t.calls - 1 + 1) phase false message ∷ [];
}

-- Any other exception: the call is counted, and the track may go on.
unfoldable pub fail_call : Phase → Text → TrackState → TrackState
fail_call phase message t = record t {
  call_errors = t.call_errors ++ call_error t.calls phase true message ∷ [];
  restart_pending = false;
}

-- `candidate_hash in track.seen_candidates`
unfoldable pub is_repeated : Text → TrackState → Bool
unfolding text_eq
is_repeated h t = any (text_eq h) t.seen_candidates

abbrev has_packet : PendingCall → Bool
has_packet c = elim c.packet [ none ↦ false | some p ↦ true ]

-- `AttemptRecord(...)`; `accepted` is false until a verification has passed.
unfoldable pub attempt_record :
    Python → PendingCall → Proposal → Finding → (saved : Bool) → TrackState → AttemptRecord
attempt_record py c p f saved t = record {
  attempt = length t.attempts + 1;
  call = t.calls;
  round = c.call_round;
  phase = c.phase;
  candidate_sha256 = digest py p.source;
  error_signature_sha256 = f.signature;
  lean_accepted = f.lean_accepted;
  accepted = false;
  compatibility_checked = false;
  compatibility_passed = false;
  timed_out = f.timed_out;
  raw_diagnostic_count = f.raw_count;
  diagnostic_excerpt = f.diagnostic_text;
  checkpoint_saved = saved;
  peer_packet_used = has_packet c;
  required_declarations_present = p.declarations_ok;
  original_imports_unchanged = p.original_imports_ok;
  imports_normalized = p.imports_normalized;
  proposal_committed = p.declarations_ok;
  restart_reason = none;
  salvage_attempted = false;
  salvage_compiled = false;
  salvage_mode = none;
  salvage_sha256 = none;
  salvage_retained_lines = 0;
}

-- The track behind the record: its candidate, what it has seen, and its attempts.
unfoldable pub commit :
    Python → PendingCall → Proposal → Finding → (saved : Bool) → TrackState → TrackState
unfolding attempt_record is_repeated
commit py c p f saved t = record t {
  candidate = if p.declarations_ok then p.source else t.candidate;
  seen_candidates =
      if is_repeated (digest py p.source) t
      then t.seen_candidates
      else digest py p.source ∷ t.seen_candidates;
  attempts = t.attempts ++ attempt_record py c p f saved t ∷ [];
}

-- The guard of the salvage.
unfoldable pub may_salvage : Python → Settings → Proposal → Finding → Bool
unfolding contains_sorry
may_salvage py s p f =
    s.enable_salvage
    && (p.declarations_ok
        && (not f.lean_accepted
            && (not f.timed_out && not (contains_sorry py.unicode_word p.source))))

abbrev mode_text : Mode → Text
mode_text diagnostic_span = codes "diagnostic_span"
mode_text failing_suffix = codes "failing_suffix"
mode_text whole_proof_body = codes "whole_proof_body"

abbrev note_skeleton : Option Skeleton → AttemptRecord → AttemptRecord
note_skeleton none r = record r { salvage_attempted = true }
note_skeleton (some k) r = record r {
  salvage_attempted = true;
  salvage_compiled = true;
  salvage_mode = some (mode_text k.mode);
  salvage_sha256 = some k.sha256;
  salvage_retained_lines = k.retained_lines;
}

abbrev resume_from : Option Skeleton → Text → Text
resume_from none candidate = candidate
resume_from (some k) candidate = k.source

-- What the salvage writes into the track; the attempt stands at `place`.
unfoldable pub note_salvage :
    (place : ℕ) → List SalvageEvent × Option Skeleton → TrackState → TrackState
unfolding update_at
note_salvage place (events, skeleton) t = record t {
  attempts = update_at place (note_skeleton skeleton) t.attempts;
  salvage_events = t.salvage_events ++ events;
  candidate = resume_from skeleton t.candidate;
}

abbrev skeleton_source : Option Skeleton → Option Text
skeleton_source none = none
skeleton_source (some k) = some k.source

abbrev skeleton_sha256 : Option Skeleton → Option Text
skeleton_sha256 none = none
skeleton_sha256 (some k) = some k.sha256

abbrev skeleton_goals : Option Skeleton → Text
skeleton_goals none = []
skeleton_goals (some k) = k.residual_goals

-- `TrackObservation(...)`, with the candidate from before the salvage.
unfoldable pub observe : PendingCall → Finding → Option Skeleton → TrackState → TrackObservation
observe c f skeleton t = record {
  model = t.model;
  round = c.call_round;
  call = t.calls;
  candidate = t.candidate;
  diagnostics = f.diagnostic_text;
  accepted = false;
  timed_out = f.timed_out;
  progress_candidate = skeleton_source skeleton;
  residual_goals = skeleton_goals skeleton;
  progress_sha256 = skeleton_sha256 skeleton;
}

abbrev pending_feedback : Text
pending_feedback =
    codes
      "Warm Lean accepted this complete proposal and fresh verification is pending. Continue with an independent complete alternative; do not assume the pending candidate is holdout-compatible."

abbrev skeleton_feedback : Text
skeleton_feedback =
    codes
      "Warm Lean validated the current file up to explicit `sorry` holes. Preserve its compiling structure and replace every `sorry` with a complete proof. Residual goals:\n"

abbrev diagnostic_feedback : Finding → Text
diagnostic_feedback f =
    if is_empty f.diagnostic_text
    then (if f.timed_out
        then codes "Lean timed out while checking the candidate."
        else codes "Lean rejected the candidate without a diagnostic message.")
    else f.diagnostic_text

-- `track.feedback`
unfoldable pub feedback_for : Finding → Option Skeleton → Text
feedback_for f skeleton = if f.lean_accepted then pending_feedback else elim skeleton [
  | some k ↦ skeleton_feedback ++ k.residual_goals
  | none ↦ diagnostic_feedback f
]
