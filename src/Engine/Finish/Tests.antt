-- ===== src/Engine/Finish/Tests.antt =====
-- A call that answers with a proposal that Lean accepts.
use re_takehome_submission.Common.{true, false, none, some, List, [], ◌∷◌}
use re_takehome_submission.Common.Text.{Text, codes}
use re_takehome_submission.Common.Json.{Json, str}
use re_takehome_submission.Strategies.{no_collaboration}
use re_takehome_submission.Engine.State.{TrackState, Settings, cutoff_at, fresh_track, direct}
use re_takehome_submission.Engine.Schedule.{PendingCall}
use re_takehome_submission.Engine.Verify.{VerificationJob, raised}
use re_takehome_submission.Engine.Salvaging.{LeanCheck, Python}
use re_takehome_submission.Engine.Observe.{Proposal, Finding, Floor}
use re_takehome_submission.Engine.Observe.Keeping.{
  IsKept, NotWorse, Step, saving, enqueuing, ending, steps, steps-IsKept, steps-NotWorse,
}
use re_takehome_submission.Engine.Finish.{Hall, answered, finish_call}
use re_takehome_submission.Engine.Finish.Keeps.{finish_call-Kept}

abbrev text_of : Json → Text
text_of (str t) = t
text_of _ = []

abbrev python : Python
python = record { unicode_word = λ c. false; str_of = text_of; lower = λ t. t; sha256 = λ t. t }

abbrev settings : Settings
settings = record {
  models = codes "a" ∷ codes "b" ∷ [];
  max_calls_per_model = some 3;
  max_restarts = 2;
  diagnostic_chars = 6000;
  failure_memory_chars = 3000;
  peer_packet_chars = 6000;
  dispatch_cutoff = cutoff_at 960000000;
  max_cost_free_429_retries = 2;
  enable_salvage = false;
  model_call_wall_timeout = 420000000;
  fast_track_reserved_calls = 0;
  reserve_release_margin = 120000000;
}

abbrev accepts : Text → LeanCheck
accepts t = record { accepted = true; timed_out = false; messages = [] }

abbrev proposal : Proposal
proposal = record {
  source = codes "theorem x := by simp";
  declarations_ok = true;
  original_imports_ok = true;
  imports_normalized = false;
}

abbrev track : TrackState
track = fresh_track (codes "a") (codes "theorem x := sorry")

abbrev floor : Floor
floor = record {
  desk = record {
    tracks = track ∷ [];
    active = none;
    waiting = none;
    results = [];
    events = [];
    checkpoints = [];
  };
  best = record { candidate = codes "theorem x := sorry"; model = none; rank = none };
  verified_success = false;
}

abbrev hall : Hall
hall = record { floor = floor; packet_events = []; strategy = no_collaboration; observations = [] }

abbrev call : PendingCall
call = record { model = codes "a"; phase = direct; packet = none; event = none; call_round = 1 }

abbrev finding : Finding
finding = record {
  lean_accepted = true;
  timed_out = false;
  raw_count = 0;
  diagnostic_text = [];
  signature = codes "s";
}

abbrev job : VerificationJob
job = record {
  source = proposal.source;
  candidate_sha256 = codes "12ab";
  model = codes "a";
  place = 0;
  call_round = 1;
}

abbrev some_steps : List Step
some_steps =
    saving (codes "a") proposal finding
    ∷ enqueuing job finding
    ∷ ending job (raised (codes "E"))
    ∷ []

unranked : IsKept floor
unranked r e = absurd (cc)

steps-IsKept_example : IsKept (steps python some_steps floor)
steps-IsKept_example = steps-IsKept python some_steps floor unranked

steps-NotWorse_example : NotWorse none (steps python some_steps floor).best.rank
steps-NotWorse_example = steps-NotWorse python some_steps floor

finish_call-Kept_example :
    let after =
      (finish_call python settings accepts accepts
        (codes "theorem x := sorry")
        5
        call
        (answered proposal)
        track
        hall).2.floor in
    NotWorse none after.best.rank × (IsKept floor → IsKept after)
finish_call-Kept_example =
    finish_call-Kept python settings accepts accepts (codes "theorem x := sorry") 5 call
      (answered proposal) track hall
