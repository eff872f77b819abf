-- ===== src/Uplift/Loop/Tests.antt =====
-- A run of the policy P: a rejected candidate, the plan, and an accepted candidate.
use re_takehome_submission.Common.{
  ℕ, ◌≡◌, refl, false, Option, none, some, List, [], ◌==◌, if◌then◌else◌, arith,
}
use re_takehome_submission.Common.Text.{Text, codes, text_eq, strip, lstrip, rstrip}
use re_takehome_submission.Engine.Salvaging.{LeanCheck, Python}
use re_takehome_submission.Baseline.{Problem, Message}
use re_takehome_submission.Baseline.Extract.{extract_lean, last_block, block_at, from_first}
use re_takehome_submission.Collaboration.{Response, answered, improves}
use re_takehome_submission.Uplift.Prompts.{policy_p}
use re_takehome_submission.Uplift.Track.{Settings, State, checked}
use re_takehome_submission.Uplift.Loop.{
  solve, turns, turn, after_call, answer, after_rejection, plan, after_plan,
}
use re_takehome_submission.Uplift.Loop.Ended.{IsEnd, solve-IsCoherent}

abbrev python : Python
python = record { unicode_word = λ c. false; str_of = λ v. []; lower = λ t. t; sha256 = λ t. t }

abbrev settings : Settings
settings = record {
  policy = policy_p;
  max_calls = 5;
  max_restarts = 2;
  diagnostic_chars = 500;
  failure_memory_chars = 500;
}

abbrev problem : Problem
problem = record { id = codes "p1"; description = codes "d"; challenge = codes "c" }

abbrev check : Text → LeanCheck
check t = record { accepted = text_eq t (codes "import B\n"); timed_out = false; messages = [] }

abbrev llm : ℕ → List Message → Response
llm call ms = answered (if call == 3 then codes "import B" else codes "import A")

abbrev calls_of : Option State → ℕ
calls_of none = 0
calls_of (some v) = v.calls

three_calls : calls_of (solve python settings check problem llm 5) ≡ 3
unfolding solve turns turn after_call answer after_rejection plan after_plan checked improves
    extract_lean last_block block_at from_first strip lstrip rstrip text_eq
three_calls = refl

solve-IsCoherent_example :
    (u : State) × (solve python settings check problem llm 5 ≡ some u)
    × IsEnd python settings check problem llm u
solve-IsCoherent_example = solve-IsCoherent python settings check problem llm 5 (omega arith)
