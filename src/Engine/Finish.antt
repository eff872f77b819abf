-- ===== src/Engine/Finish.antt =====
-- The rest of what `solve` does with a finished call: the error paths, the attempt's record, the
-- salvage, the observation for the strategy and its packets, the feedback and the restart. A call
-- that is running has been counted, so the subtraction of one call is exact.
pub mod Track
pub mod Keeps
mod Tests
use re_takehome_submission.Common.{
  ℕ, ◌+◌, ◌-◌, Bool, true, false, not, ◌&&◌, ◌||◌, Option, none, some, List, [], ◌∷◌, ◌++◌,
  if◌then◌else◌, length, is_empty, any,
}
use re_takehome_submission.Common.Text.{Text, codes, text_eq}
use re_takehome_submission.Salvage.{Mode, diagnostic_span, failing_suffix, whole_proof_body}
use re_takehome_submission.Salvage.Source.{contains_sorry}
use re_takehome_submission.Strategies.{TrackObservation, Strategy, after_observation}
use re_takehome_submission.Engine.State.{
  Phase, AttemptRecord, CallError, TrackState, PacketEvent, Settings, SalvageEvent, update_track,
  update_at,
}
use re_takehome_submission.Engine.Packets.{PacketError, Mail, install_packets}
use re_takehome_submission.Engine.Schedule.{PendingCall}
use re_takehome_submission.Engine.Verify.{VerificationJob, Desk}
use re_takehome_submission.Engine.Salvaging.{LeanCheck, Skeleton, Python, digest, attempt_salvage}
use re_takehome_submission.Engine.Decompose.{update_decomposition}
use re_takehome_submission.Engine.Observe.{
  Proposal, Finding, Best, Floor, examine, is_saved, save, enqueue,
}
use Track.{refuse, fail_call, is_repeated, commit, may_salvage, note_salvage, observe, feedback_for}

-- What the loop of `solve` keeps, with every observation so far.
pub record Hall : Type 0 where
  pub floor : Floor
  pub packet_events : List PacketEvent
  pub strategy : Strategy
  pub observations : List TrackObservation

abbrev pub on_track : Text → (TrackState → TrackState) → Floor → Floor
on_track m g h = record h { desk = record h.desk { tracks = update_track m g h.desk.tracks } }

abbrev pub job_of : Python → PendingCall → Proposal → TrackState → VerificationJob
job_of py c p t = record {
  source = p.source;
  candidate_sha256 = digest py p.source;
  model = t.model;
  place = length t.attempts;
  call_round = c.call_round;
}

-- The check, the record, the checkpoint and the verification of the proposal.
unfoldable pub settle_proposal :
    Python → PendingCall → Proposal → Finding → TrackState → Floor → Floor
unfolding save enqueue commit is_saved update_track
settle_proposal py c p f t h =
    let saved = is_saved py p f h.best in
    enqueue py (job_of py c p t) f
      (on_track t.model (commit py c p f saved) (save py t.model p f h))

-- The events and the skeleton of the salvage, if it is tried.
unfoldable pub salvage_for :
    Python
    → Settings
    → (salvage_check : Text → LeanCheck) → Proposal
    → Finding
    → LeanCheck
    → List SalvageEvent × Option Skeleton
unfolding may_salvage attempt_salvage
salvage_for py s salvage_check p f answer =
    if may_salvage py s p f
    then attempt_salvage py s.diagnostic_chars salvage_check p.source answer.messages
    else ([], none)

-- The track behind the salvage; a restart is no longer due.
unfoldable pub after_salvage :
    Python
    → Settings
    → Proposal
    → Finding
    → (place : ℕ) → List SalvageEvent × Option Skeleton
    → TrackState
    → TrackState
unfolding may_salvage note_salvage
after_salvage py s p f place k t =
    let t' = record t { restart_pending = false } in
    if may_salvage py s p f then note_salvage place k t' else t'

-- The packets that the strategy sends at once.
unfoldable pub send_packets :
    Settings → (elapsed : ℕ) → PendingCall → TrackObservation → Hall → Option PacketError × Hall
unfolding after_observation install_packets
send_packets s elapsed c o h =
    let (ps, strategy) = after_observation h.strategy o in
    let (e, m) =
      install_packets s.peer_packet_chars c.call_round true (some elapsed) [] ps
        (record { tracks = h.floor.desk.tracks; events = h.packet_events }) in
    (
      e,
      record {
        floor = record h.floor { desk = record h.floor.desk { tracks = m.tracks } };
        packet_events = m.events;
        strategy = strategy;
        observations = h.observations ++ o ∷ [];
      },
    )

-- The feedback and the restart of a track whose proposal has not been accepted yet.
unfoldable pub close_attempt :
    Settings
    → (challenge : Text) → Finding
    → Option Skeleton
    → (repeated : Bool) → TrackState
    → TrackState
unfolding feedback_for update_decomposition
close_attempt s challenge f skeleton repeated t =
    update_decomposition s (record t { feedback = feedback_for f skeleton }) f.signature repeated
      challenge

-- An answered call of the track `t`; the packets of the strategy may be refused, which raises.
unfoldable pub finish_answered :
    Python
    → Settings
    → (check salvage_check : Text → LeanCheck) → (challenge : Text) → (elapsed : ℕ) → PendingCall
    → Proposal
    → TrackState
    → Hall
    → Option PacketError × Hall
unfolding examine settle_proposal salvage_for after_salvage observe send_packets close_attempt
    commit is_repeated update_track
finish_answered py s check salvage_check challenge elapsed c p t h =
    let answer = check p.source in
    let f = examine py s p answer in
    let settled = settle_proposal py c p f t h.floor in
    let k = salvage_for py s salvage_check p f answer in
    let o = observe c f k.1 (commit py c p f false t) in
    let salvaged = on_track t.model (after_salvage py s p f (length t.attempts) k) settled in
    let (e, h') = send_packets s elapsed c o (record h { floor = salvaged }) in
    elim e [
      | some error ↦ (some error, h')
      | none ↦
          let repeated = is_repeated (digest py p.source) t in
          (
            none,
            record h' {
              floor = on_track t.model (close_attempt s challenge f k.1 repeated) h'.floor;
            },
          )
    ]

-- How a call's task ends: an exception of the ledger, another one, or an answer.
pub data CallOutcome : Type 0 where
  budget_refused : Text → CallOutcome
  call_raised : Text → CallOutcome
  answered : Proposal → CallOutcome

-- One round of the loop over the completed tasks. The Boolean tells that the track is ready for its
-- next call.
unfoldable pub finish_call :
    Python
    → Settings
    → (check salvage_check : Text → LeanCheck) → (challenge : Text) → (elapsed : ℕ) → PendingCall
    → CallOutcome
    → TrackState
    → Hall
    → Option PacketError × Bool × Hall
unfolding refuse fail_call finish_answered update_track
finish_call py s check salvage_check challenge elapsed c (budget_refused e) t h =
    (none, false, record h { floor = on_track t.model (refuse c.phase e) h.floor })
finish_call py s check salvage_check challenge elapsed c (call_raised e) t h =
    (none, true, record h { floor = on_track t.model (fail_call c.phase e) h.floor })
finish_call py s check salvage_check challenge elapsed c (answered p) t h =
    let (e, h') = finish_answered py s check salvage_check challenge elapsed c p t h in
    (e, true, h')
