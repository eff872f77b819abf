-- ===== src/Collaboration/Tests.antt =====
-- Two models in a run of the first version: a refused call, and an answer that Lean accepts.
use re_takehome_submission.Common.{
  ℕ, ◌≡◌, refl, Bool, true, false, Option, none, some, List, [], ◌∷◌, if◌then◌else◌, map, arith,
}
use re_takehome_submission.Common.Text.{Text, codes, text_eq, strip, lstrip, rstrip}
use re_takehome_submission.Common.Results.{Result, ok}
use re_takehome_submission.Strategies.{TrackObservation, cadence_round}
use re_takehome_submission.Engine.Salvaging.{LeanCheck, Python}
use re_takehome_submission.Baseline.{Problem, Message}
use re_takehome_submission.Collaboration.Sharing.{cross_repair, cross_repair_round}
use re_takehome_submission.Collaboration.Track.{Settings, PacketError, Exception, fresh_track}
use re_takehome_submission.Collaboration.{
  Response, budget_refused, answered, Board, start, solve, rounds, play, dispatch, finish_slots,
  finish, save, improves, rejected, attempted,
}
use re_takehome_submission.Baseline.Extract.{extract_lean, last_block, block_at, from_first}
use re_takehome_submission.Collaboration.Rounds.{solve-ends}
use re_takehome_submission.Collaboration.Solved.{IsSolved, solve-IsSolved}
use re_takehome_submission.Collaboration.Same.{
  once, unnamed, first_view, cadence_round-cross_repair_round,
}

abbrev python : Python
python = record { unicode_word = λ c. false; str_of = λ v. []; lower = λ t. t; sha256 = λ t. t }

abbrev settings : Settings
settings = record {
  max_calls_per_model = 2;
  max_restarts = 2;
  diagnostic_chars = 500;
  failure_memory_chars = 500;
  peer_packet_chars = 600;
}

abbrev problem : Problem
problem = record { id = codes "p1"; description = codes "d"; challenge = codes "c" }

abbrev check : Text → LeanCheck
check t = record { accepted = text_eq t (codes "import A\n"); timed_out = false; messages = [] }

abbrev exception : Exception
exception = record { type_name = codes "BudgetExceeded"; message = [] }

-- The second model is refused; the first answers with a good file.
abbrev llm : ℕ → Text → List Message → Response
llm round m ms =
    if text_eq m (codes "b") then budget_refused exception else answered (codes "import A")

abbrev models : List Text
models = codes "b" ∷ codes "a" ∷ []

solve-ends_example :
    (x : Result PacketError (Bool × Board)) × (solve python settings check problem llm
        (cross_repair 600)
        4
        models
      ≡ some x)
solve-ends_example =
    solve-ends python settings check problem llm (cross_repair 600) models 4 (omega arith)

abbrev result_of : Option (Result PacketError (Bool × Board)) → Bool × Board
result_of (some (ok x)) = x
result_of _ = (false, start python settings check problem llm models)

abbrev result : Bool × Board
result = result_of (solve python settings check problem llm (cross_repair 600) 4 models)

returns : solve python settings check problem llm (cross_repair 600) 4 models ≡ some (ok result)
unfolding solve rounds play dispatch finish_slots finish save improves attempted rejected
    fresh_track extract_lean last_block block_at from_first strip lstrip rstrip text_eq
returns = refl

accepts : (result.0 ≡ true) × (result.1.best.candidate ≡ codes "import A\n")
unfolding solve rounds play dispatch finish_slots finish save improves attempted rejected
    fresh_track extract_lean last_block block_at from_first strip lstrip rstrip text_eq
accepts = (refl, refl)

solve-IsSolved_example : IsSolved python settings check problem llm (cross_repair 600) result
solve-IsSolved_example =
    solve-IsSolved python settings check problem llm (cross_repair 600) models 4 result returns

abbrev seen_by : Text → TrackObservation
seen_by m = record {
  model = m;
  round = 1;
  call = 1;
  candidate = codes "import B";
  diagnostics = codes "error";
  accepted = false;
  timed_out = false;
  progress_candidate = none;
  residual_goals = [];
  progress_sha256 = none;
}

cadence_round-cross_repair_round_example :
    map unnamed (cadence_round (once 600) (seen_by (codes "b") ∷ seen_by (codes "a") ∷ [])).0
    ≡ map unnamed
        (cross_repair_round 600 (map first_view (seen_by (codes "b") ∷ seen_by (codes "a") ∷ [])))
cadence_round-cross_repair_round_example =
    cadence_round-cross_repair_round 600 (seen_by (codes "b") ∷ seen_by (codes "a") ∷ [])
      (refl, (refl, tt))
