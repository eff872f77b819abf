-- ===== src/Engine/Tests.antt =====
-- The engine on two models.
use re_takehome_submission.Common.{
  ◌⊎◌, ℕ, ◌≤◌, ◌≡◌, refl, none, some, List, [], ◌∷◌, true, false, arith,
}
use re_takehome_submission.Common.Text.{Text, codes, join}
use re_takehome_submission.Common.Int.{pos}
use re_takehome_submission.Common.Results.{ok, err}
use re_takehome_submission.Strategies.{
  TrackObservation, PeerPacket, Progress, Cadence, reciprocal, after_round,
}
use re_takehome_submission.Engine.State.{TrackState, Settings, cutoff_at, fresh_track, has_track}
use re_takehome_submission.Engine.Packets.{Mail, install_packets}
use re_takehome_submission.Engine.Packets.Accepted.{cadence_round-Accepts}
use re_takehome_submission.Engine.Schedule.{
  Board, Readings, Crash, has_capacity, at_reserve, reserved_call, schedule, schedule_track,
}
use re_takehome_submission.Engine.Schedule.Limits.{
  CallsWithin, schedule-CallsWithin, IsNearCutoff, IsDone, schedule_track-reserve,
}
use re_takehome_submission.Engine.Decompose.{update_decomposition}
use re_takehome_submission.Engine.Decompose.Bounds.{MemoryFits, update_decomposition-bounded}
use re_takehome_submission.Engine.Verify.{VerificationJob, Verdict, Desk, returned}
use re_takehome_submission.Engine.Verify.Keys.{Distinct, started_in}
use re_takehome_submission.Engine.Verify.Flight.{
  IsSingleFlight, Move, enqueuing, advancing, finishing, moves, moves-started_once,
}

abbrev settings_of : List Text → Settings
settings_of models = record {
  models = models;
  max_calls_per_model = some 3;
  max_restarts = 2;
  diagnostic_chars = 6000;
  failure_memory_chars = 3000;
  peer_packet_chars = 6000;
  dispatch_cutoff = cutoff_at 960000000;
  max_cost_free_429_retries = 2;
  enable_salvage = true;
  model_call_wall_timeout = 420000000;
  fast_track_reserved_calls = 1;
  reserve_release_margin = 120000000;
}

abbrev settings : Settings
settings = settings_of (codes "a" ∷ codes "b" ∷ [])

-- A track with a number of calls.
abbrev track : Text → ℕ → TrackState
track m n = record (fresh_track m (codes "theorem x")) { calls = n }

abbrev tracks : List TrackState
tracks = track (codes "a") 2 ∷ track (codes "b") 1 ∷ []

abbrev mail : Mail
mail = record { tracks = tracks; events = [] }

abbrev board : Board
board = record { tracks = tracks; events = []; pending = []; cutoff_reached = false }

abbrev readings : Readings
readings = record { release = 900000000; cutoff = 900000001; used = 900000002 }

abbrev observed : Text → TrackObservation
observed m = record {
  model = m;
  round = 1;
  call = 1;
  candidate = codes "theorem x := by simp";
  diagnostics = codes "unsolved goals";
  accepted = false;
  timed_out = false;
  progress_candidate = some (codes "theorem x := by sorry");
  residual_goals = codes "⊢ x";
  progress_sha256 = some (codes "12ab");
}

abbrev skeletons : Progress
skeletons = record { packet_chars = 600; models = settings.models; sent = []; fill = true }

abbrev turns : Cadence
turns = record { packet_chars = 600; repeat = false; exchanges = 0 }

cadence_round-Accepts_example :
    (install_packets 6000 1 false none []
      (after_round (reciprocal turns) (observed (codes "b") ∷ observed (codes "a") ∷ [])).0
      mail).0
    ≡ none
unfolding has_track fresh_track
cadence_round-Accepts_example =
    cadence_round-Accepts 6000 1 none mail turns (observed (codes "b")) (observed (codes "a")) refl
      refl refl (ground arith) (ground arith)

schedule-CallsWithin_example :
    CallsWithin 3 (schedule settings true readings (codes "b") board).1.tracks
unfolding fresh_track
schedule-CallsWithin_example =
    schedule-CallsWithin settings 3 refl true readings (codes "b") board
      (ground arith, (ground arith, tt))

-- At the reserve, the call starts as the deadline is near.
starts : (schedule_track settings true readings (track (codes "a") 2) board).0 ≡ ok true
unfolding schedule_track fresh_track
starts = refl

schedule_track-reserve_example : IsNearCutoff settings 900000000 ⊎ IsDone settings (codes "b") board
unfolding fresh_track at_reserve
schedule_track-reserve_example =
    schedule_track-reserve settings true readings (track (codes "a") 2) board (codes "b") refl refl
      starts

-- A single model with a ceiling and a reserve.
crashes :
    schedule_track (settings_of (codes "a" ∷ [])) true readings (track (codes "a") 2) board
    ≡ (err Crash.index_error, board)
unfolding schedule_track reserved_call fresh_track at_reserve has_capacity
crashes = refl

update_decomposition-bounded_example :
    let t' =
      update_decomposition settings (track (codes "a") 2) (codes "sig") true (codes "theorem x") in
    (t'.restarts ≤ 2) × MemoryFits settings t'.failure_memory
unfolding fresh_track join
update_decomposition-bounded_example =
    update_decomposition-bounded settings (ground arith) (ground arith) (track (codes "a") 2)
      (codes "sig") true (codes "theorem x") (ground arith)
      (record { entries = tt; total = ground arith })

abbrev packet_to_b : PeerPacket
packet_to_b = record {
  target_model = codes "b";
  source_model = codes "a";
  content = codes "news";
  kind = codes "k";
}

abbrev job : VerificationJob
job = record {
  source = codes "theorem x := by simp";
  candidate_sha256 = codes "12ab";
  model = codes "a";
  place = 0;
  call_round = 1;
}

abbrev refusal : Verdict
refusal = record {
  passed = false;
  verification_error = none;
  answer_shape_passed = some true;
  comparator_passed = some false;
  comparator_timed_out = some false;
  comparator_exit_code = some (pos 1);
}

abbrev desk : Desk
desk = record {
  tracks = tracks;
  active = none;
  waiting = none;
  results = [];
  events = [];
  checkpoints = [];
}

abbrev some_moves : List Move
some_moves =
    enqueuing job
    ∷ advancing
    ∷ enqueuing job
    ∷ finishing (returned refusal)
    ∷ enqueuing job
    ∷ advancing
    ∷ []

abbrev digest : Text → Text
digest t = t

starts_empty : IsSingleFlight desk
starts_empty = record { accounted = refl; once = tt; ahead = λ j e. absurd (cc) }

moves-started_once_example : Distinct (started_in (moves digest some_moves desk).events)
moves-started_once_example = moves-started_once digest some_moves desk starts_empty
