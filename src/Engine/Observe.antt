-- ===== src/Engine/Observe.antt =====
-- The check of a proposal, its rank, its checkpoint, and the best candidate. `Proposal` holds what
-- tactics.py says of the extracted proposal; Lean's answer is an argument.
pub mod Writing
pub mod Keeping
use re_takehome_submission.Common.{
  ℕ, ◌+◌, ◌-◌, Bool, true, false, not, ◌&&◌, ◌||◌, Option, none, some, List, [], ◌∷◌, ◌++◌, ltb,
  ◌==◌, if◌then◌else◌, length, is_empty, any,
}
use re_takehome_submission.Common.Text.{Text, codes, text_eq}
use re_takehome_submission.Salvage.{Mode, diagnostic_span, failing_suffix, whole_proof_body}
use re_takehome_submission.Salvage.Source.{contains_sorry}
use re_takehome_submission.Strategies.{TrackObservation}
use re_takehome_submission.Uplift.{diagnostics_text, signature_of}
use re_takehome_submission.Engine.State.{
  Phase, AttemptRecord, CallError, TrackState, Settings, SalvageEvent, update_track, update_at,
}
use re_takehome_submission.Engine.Schedule.{PendingCall}
use re_takehome_submission.Engine.Verify.{
  VerificationJob, VerifyOutcome, verdict_of, Desk, Checkpoint, CheckpointStatus,
  provisional_lean_failure, provisional_warm_lean_passed, enqueue_verification, finish_verification,
}
use re_takehome_submission.Engine.Salvaging.{LeanCheck, Skeleton, Python, digest, attempt_salvage}
use re_takehome_submission.Engine.Decompose.{update_decomposition}

-- The proposal that was extracted from an answer.
pub record Proposal : Type 0 where
  pub source : Text
  pub declarations_ok : Bool
  pub original_imports_ok : Bool
  pub imports_normalized : Bool

-- What is known of a proposal behind its check.
pub record Finding : Type 0 where
  pub lean_accepted : Bool
  pub timed_out : Bool
  pub raw_count : ℕ
  pub diagnostic_text : Text
  pub signature : Text

abbrev pub Rank : Type 0
Rank = ℕ × ℕ × ℕ

-- `rank < best_rank`
unfoldable pub rank_ltb : Rank → Rank → Bool
rank_ltb (a, b, c) (d, e, f) = ltb a d || ((a == d) && (ltb b e || ((b == e) && ltb c f)))

pub record Best : Type 0 where
  pub candidate : Text
  pub model : Option Text
  pub rank : Option Rank

-- The desk of the verifications, with the tracks and the checkpoints, and the best candidate.
pub record Floor : Type 0 where
  pub desk : Desk
  pub best : Best
  pub verified_success : Bool

abbrev pub contract_rejected : Text
contract_rejected =
    codes
      "Candidate contract rejected before Lean: missing, duplicated, or incompatibly declared a required name. Return a complete file containing every required declaration once; additional helper declarations are allowed. Imports are normalized by the harness."

-- The check of the proposal, or its rejection before Lean.
unfoldable pub examine : Python → Settings → Proposal → LeanCheck → Finding
unfolding diagnostics_text signature_of
examine py s p check =
    if p.declarations_ok
    then record {
      lean_accepted = check.accepted;
      timed_out = check.timed_out;
      raw_count = length check.messages;
      diagnostic_text = diagnostics_text py.str_of py.lower check.messages s.diagnostic_chars;
      signature = signature_of py.str_of py.lower py.sha256 check.messages;
    }
    else record {
      lean_accepted = false;
      timed_out = false;
      raw_count = 1;
      diagnostic_text = contract_rejected;
      signature = py.sha256 contract_rejected;
    }

unfoldable pub rank_of : Bool → Finding → Rank
rank_of contract_ok f = (
  if f.lean_accepted then 1 else if contract_ok then 2 else 3,
  if f.timed_out then 1 else 0,
  f.raw_count,
)

unfoldable pub improves : Rank → Option Rank → Bool
unfolding rank_ltb
improves r none = true
improves r (some b) = rank_ltb r b

-- `checkpoint_saved`
unfoldable pub is_saved : Python → Proposal → Finding → Best → Bool
unfolding contains_sorry rank_of improves
is_saved py p f b =
    p.declarations_ok
    && (not (contains_sorry py.unicode_word p.source)
        && improves (rank_of p.declarations_ok f) b.rank)

abbrev pub provisional : Bool → CheckpointStatus
provisional true = provisional_warm_lean_passed
provisional false = provisional_lean_failure

-- The proposal becomes the best candidate and the checkpoint, if it is saved.
unfoldable pub save : Python → Text → Proposal → Finding → Floor → Floor
unfolding is_saved rank_of
save py model p f h =
    if is_saved py p f h.best
    then record h {
      best = record {
        candidate = p.source;
        model = some model;
        rank = some (rank_of p.declarations_ok f);
      };
      desk = record h.desk {
        checkpoints =
            h.desk.checkpoints
            ++ record { source = p.source; status = provisional f.lean_accepted } ∷ [];
      };
    }
    else h

-- A verified proposal is the best candidate.
abbrev pub crown : Text → Text → Best
crown source model = record { candidate = source; model = some model; rank = some (0, 0, 0) }

-- The proposal's verification is enqueued, if Lean has accepted it.
unfoldable pub enqueue : Python → VerificationJob → Finding → Floor → Floor
unfolding enqueue_verification
enqueue py j f h =
    if f.lean_accepted
    then (let (won, d) = enqueue_verification py.sha256 j h.desk in
        if won
        then record { desk = d; best = crown j.source j.model; verified_success = true }
        else record h { desk = d })
    else h

-- The end of the running verification.
unfoldable pub end_verification : Python → VerificationJob → VerifyOutcome → Floor → Floor
unfolding finish_verification
end_verification py j o h =
    let (won, d) = finish_verification py.sha256 j o h.desk in
    if won || h.verified_success
    then record { desk = d; best = crown j.source j.model; verified_success = true }
    else record h { desk = d }
