-- ===== src/Uplift/Track.antt =====
-- uplift_pilot/agent.py: the variables of the one-model agent, the check of a candidate, and the
-- restarts of the policy D.
use re_takehome_submission.Common.{
  ℕ, ◌+◌, ◌-◌, ◌*◌, ◌/◌, Bool, true, false, Option, none, some, List, [], ◌∷◌, ◌++◌, ltb, leb,
  if◌then◌else◌, length, take, is_empty, any, max,
}
use re_takehome_submission.Common.Text.{Text, codes, text_eq, join, decimal}
use re_takehome_submission.Uplift.{bounded_excerpt, diagnostics_text, signature_of}
use re_takehome_submission.Engine.Decompose.{trim_memory}
use re_takehome_submission.Engine.Salvaging.{LeanCheck, Python, digest}
use re_takehome_submission.Engine.State.{RestartReason, repeated_candidate, unchanged_signature}
use re_takehome_submission.Engine.Observe.{Rank}
use re_takehome_submission.Baseline.{Problem}
use re_takehome_submission.Uplift.Prompts.{Policy, Phase, direct, restart, repair}
use re_takehome_submission.Collaboration.Track.{Exception}
use re_takehome_submission.Collaboration.{rank_of, improves}

pub record AttemptRecord : Type 0 where
  pub attempt : ℕ
  pub call : ℕ
  pub phase : Phase
  pub candidate_sha256 : Text
  pub error_signature_sha256 : Text
  pub accepted : Bool
  pub timed_out : Bool
  pub raw_diagnostic_count : ℕ
  pub diagnostic_excerpt : Text
  pub checkpoint_saved : Bool
  pub restart_reason : Option RestartReason

-- `dispatched` is false or missing.
pub record CallError : Type 0 where
  pub call : ℕ
  pub phase : Phase
  pub dispatched : Option Bool
  pub type_name : Text
  pub message : Text

-- What the constructor sets.
pub record Settings : Type 0 where
  pub policy : Policy
  pub max_calls : ℕ
  pub max_restarts : ℕ
  pub diagnostic_chars : ℕ
  pub failure_memory_chars : ℕ

-- The variables of `solve`, and all that was checkpointed.
pub record State : Type 0 where
  pub calls : ℕ
  pub candidate : Text
  pub best_candidate : Text
  pub best_rank : Option Rank
  pub feedback : Text
  pub memo : Text
  pub planning_fired : Bool
  pub restarts : ℕ
  pub restart_pending : Bool
  pub failure_memory : List Text
  pub seen_candidates : List Text
  pub signature_run : ℕ
  pub previous_signature : Option Text
  pub attempts : List AttemptRecord
  pub call_errors : List CallError
  pub checkpoints : List Text

abbrev pub start_state : Problem → State
start_state p = record {
  calls = 0;
  candidate = p.challenge;
  best_candidate = p.challenge;
  best_rank = none;
  feedback = [];
  memo = [];
  planning_fired = false;
  restarts = 0;
  restart_pending = false;
  failure_memory = [];
  seen_candidates = [];
  signature_run = 0;
  previous_signature = none;
  attempts = [];
  call_errors = [];
  checkpoints = [];
}

abbrev memory_labels : Text
memory_labels = codes "\nfailed Lean candidate excerpt:\n\nLean diagnostics:\n"

-- `_failed_approach_memory`
unfoldable pub failed_approach_memory :
    (trajectory : ℕ) → (candidate feedback candidate_hash signature : Text) → (limit : ℕ) → Text
unfolding join decimal
failed_approach_memory trajectory candidate feedback candidate_hash signature limit =
    let header =
      codes "trajectory "
      ++ (decimal trajectory
          ++ (codes ": candidate "
              ++ (take 12 candidate_hash ++ (codes ", error " ++ take 12 signature)))) in
    let available = limit - length header - length memory_labels in
    let candidate_limit = max 1 (available * 2 / 3) in
    let feedback_limit = max 1 (available - candidate_limit) in
    take limit (
      join (codes "\n") (
        header
        ∷ codes "failed Lean candidate excerpt:"
        ∷ bounded_excerpt candidate candidate_limit
        ∷ codes "Lean diagnostics:"
        ∷ bounded_excerpt feedback feedback_limit
        ∷ []))

unfoldable pub phase_of : State → Phase
phase_of s = if is_empty s.attempts then direct else if s.restart_pending then restart else repair

abbrev same_signature : Text → Option Text → Bool
same_signature s none = false
same_signature s (some p) = text_eq s p

abbrev pub set_last_reason : RestartReason → List AttemptRecord → List AttemptRecord
set_last_reason r [] = []
set_last_reason r (a ∷ []) = record a { restart_reason = some r } ∷ []
set_last_reason r (a ∷ b ∷ l) = a ∷ set_last_reason r (b ∷ l)

unfoldable pub reason_for : (repeated : Bool) → (signature_run : ℕ) → Option RestartReason
reason_for repeated run =
    if repeated
    then some repeated_candidate
    else if leb 3 run
    then some unchanged_signature
    else none

unfoldable pub call_error : Exception → (call : ℕ) → Phase → (dispatched : Option Bool) → CallError
call_error e call phase dispatched = record {
  call = call;
  phase = phase;
  dispatched = dispatched;
  type_name = e.type_name;
  message = take 1000 e.message;
}

module _ (py : Python) (s : Settings) (check : Text → LeanCheck) (p : Problem) where
  -- The restart behind a reason.
  unfoldable pub restarted : RestartReason → (signature : Text) → State → State
  unfolding failed_approach_memory trim_memory
  restarted reason signature v =
      let entry =
        failed_approach_memory (v.restarts + 1) v.candidate v.feedback (digest py v.candidate)
          signature (max 1 (s.failure_memory_chars / s.max_restarts)) in
      record v {
        restarts = v.restarts + 1;
        attempts = set_last_reason reason v.attempts;
        failure_memory = trim_memory s.failure_memory_chars (v.failure_memory ++ entry ∷ []);
        candidate = p.challenge;
        feedback = [];
        previous_signature = none;
        signature_run = 0;
        restart_pending = true;
      }

  unfoldable pub maybe_restart : Option RestartReason → (signature : Text) → State → State
  unfolding restarted
  maybe_restart none signature v = v
  maybe_restart (some reason) signature v =
      if ltb v.restarts s.max_restarts then restarted reason signature v else v

  -- `if self.policy == "D":`
  unfoldable pub diversify : (repeated : Bool) → (signature : Text) → State → State
  unfolding text_eq reason_for maybe_restart
  diversify repeated signature v =
      let run = if same_signature signature v.previous_signature then v.signature_run + 1 else 1 in
      maybe_restart (reason_for repeated run) signature
        (record v { signature_run = run; previous_signature = some signature })

  -- The check of a candidate, the checkpoint and the attempt.
  unfoldable pub checked : (candidate : Text) → Phase → State → State
  unfolding text_eq diagnostics_text signature_of improves
  checked candidate phase v =
      let c = check candidate in
      let hash = digest py candidate in
      let saved = improves (rank_of c) v.best_rank in
      record v {
        candidate = candidate;
        seen_candidates =
            if any (text_eq hash) v.seen_candidates
            then v.seen_candidates
            else hash ∷ v.seen_candidates;
        best_rank = if saved then some (rank_of c) else v.best_rank;
        best_candidate = if saved then candidate else v.best_candidate;
        checkpoints = if saved then v.checkpoints ++ candidate ∷ [] else v.checkpoints;
        attempts =
            v.attempts
            ++ record {
              attempt = length v.attempts + 1;
              call = v.calls;
              phase = phase;
              candidate_sha256 = hash;
              error_signature_sha256 = signature_of py.str_of py.lower py.sha256 c.messages;
              accepted = c.accepted;
              timed_out = c.timed_out;
              raw_diagnostic_count = length c.messages;
              diagnostic_excerpt =
                  diagnostics_text py.str_of py.lower c.messages s.diagnostic_chars;
              checkpoint_saved = saved;
              restart_reason = none;
            }
              ∷ [];
        restart_pending = false;
      }
