-- ===== src/Engine/Create/Tests.antt =====
-- The constructor on the arguments of a run.
use re_takehome_submission.Common.{◌≡◌, refl, true, some, [], ◌∷◌}
use re_takehome_submission.Common.Int.{pos}
use re_takehome_submission.Common.Text.{codes}
use re_takehome_submission.Common.Results.{ok, err}
use re_takehome_submission.Engine.State.{Settings, cutoff_at, nan_cutoff}
use re_takehome_submission.Engine.Create.{
  Arguments, micros, not_a_number, create, check_reserve, reserve_above_ceiling,
}
use re_takehome_submission.Engine.Create.Checked.{AreValid, create-AreValid}

abbrev arguments : Arguments
arguments = record {
  models = codes "a" ∷ codes "b" ∷ [];
  max_calls_per_model = some (pos 25);
  max_restarts = pos 2;
  diagnostic_chars = 6000;
  failure_memory_chars = 3000;
  peer_packet_chars = 6000;
  dispatch_cutoff = micros (pos 960000000);
  max_cost_free_429_retries = pos 2;
  enable_salvage = true;
  model_call_wall_timeout = micros (pos 420000000);
  fast_track_reserved_calls = pos 4;
  reserve_release_margin = micros (pos 120000000);
}

abbrev settings : Settings
settings = record {
  models = codes "a" ∷ codes "b" ∷ [];
  max_calls_per_model = some 25;
  max_restarts = 2;
  diagnostic_chars = 6000;
  failure_memory_chars = 3000;
  peer_packet_chars = 6000;
  dispatch_cutoff = cutoff_at 960000000;
  max_cost_free_429_retries = 2;
  enable_salvage = true;
  model_call_wall_timeout = 420000000;
  fast_track_reserved_calls = 4;
  reserve_release_margin = 120000000;
}

created : create arguments ≡ ok settings
unfolding create check_reserve
created = refl

refused :
    create (record arguments { max_calls_per_model = some (pos 4) }) ≡ err reserve_above_ceiling
unfolding create check_reserve
refused = refl

-- What is no number is accepted.
accepts_nan :
    create (record arguments { dispatch_cutoff = not_a_number })
    ≡ ok (record settings { dispatch_cutoff = nan_cutoff })
unfolding create check_reserve
accepts_nan = refl

create-AreValid_example : AreValid settings
create-AreValid_example = create-AreValid arguments settings created
