-- ===== src/Submission/Tests.antt =====
-- Two agents of two turns each: the first never succeeds, the second one at its second turn.
use re_takehome_submission.Common.{
  ℕ, ◌≡◌, refl, true, false, Option, none, some, List, [], ◌∷◌, if◌then◌else◌, map, length, ◌==◌,
}
use re_takehome_submission.Common.Text.{Text, codes, text_eq, strip, lstrip, rstrip}
use re_takehome_submission.Common.Json.{Json}
use re_takehome_submission.Common.Results.{Result, ok, err}
use re_takehome_submission.Engine.Salvaging.{LeanCheck}
use re_takehome_submission.Collaboration.Track.{Exception}
use re_takehome_submission.Baseline.{Problem, Message, accepted_by_repl, Attempt}
use re_takehome_submission.Baseline as BaselineLoop
use re_takehome_submission.Baseline.Extract.{extract_lean, last_block, block_at, from_first}
use re_takehome_submission.Submission.{
  Reply, replied, Ending, first_accepted, fallback, fresh_track, is_active, receive, proposed,
  checked, check_all, play, rounds, solve,
}
use re_takehome_submission.Submission.Alone.{lone, IsAnswer, solve-IsAlone}
use re_takehome_submission.Submission.Implements.{track_with, lone-solve}

abbrev problem : Problem
problem = record { id = codes "p1"; description = codes "d"; challenge = codes "c" }

abbrev str_of : Json → Text
str_of v = []

abbrev exception : Exception
exception = record { type_name = codes "TimeoutError"; message = [] }

-- The first agent's candidate makes Lean raise.
abbrev check : (turn : ℕ) → Text → Result Exception LeanCheck
check turn t =
    if text_eq t (codes "import A\n")
    then err exception
    else ok (record { accepted = true; timed_out = false; messages = [] })

abbrev reply : (turn : ℕ) → Text → List Message → Reply
reply turn m ms = replied (if text_eq m (codes "a") then codes "import A" else codes "import B")

abbrev agents : List (Text × ℕ)
agents = (codes "a", 2) ∷ (codes "b", 2) ∷ []

abbrev nothing : Ending
nothing = record {
  selected = none;
  selection = fallback;
  rounds_started = 0;
  tracks = [];
  checkpoints = [];
}

abbrev ending_of : Option Ending → Ending
ending_of none = nothing
ending_of (some e) = e

abbrev ending : Ending
ending = ending_of (solve false str_of check problem reply 3 agents)

returns : solve false str_of check problem reply 3 agents ≡ some ending
unfolding solve rounds play proposed is_active receive check_all checked fresh_track extract_lean
    last_block block_at from_first strip lstrip rstrip text_eq
returns = refl

selects : ending.selection ≡ first_accepted
unfolding solve rounds play proposed is_active receive check_all checked fresh_track extract_lean
    last_block block_at from_first strip lstrip rstrip text_eq
selects = refl

solve-IsAlone_example :
    IsAnswer false str_of check problem reply 2
      (map (λ a. fresh_track problem a.1 a.0) agents)
      (solve false str_of check problem reply 2 agents)
solve-IsAlone_example = solve-IsAlone false str_of check problem reply 2 agents

-- Lean rejects in the first turn and accepts in the second.
abbrev verdict : (turn : ℕ) → Text → LeanCheck
verdict turn t = record { accepted = turn == 2; timed_out = true; messages = [] }

abbrev answer : List Message → Text
answer ms = codes "import A"

accepts :
    (BaselineLoop.solve str_of (λ ms. ok (answer ms)) (λ turn c. ok (verdict turn c)) problem 3).1
    ≡ accepted_by_repl
unfolding BaselineLoop.solve BaselineLoop.turns
accepts = refl

lone-solve_example :
    lone false str_of
      (λ turn c. ok (verdict turn c))
      problem
      (λ turn m ms. replied (answer ms))
      (length
        (BaselineLoop.solve str_of
          (λ ms. ok (answer ms))
          (λ turn c. ok (verdict turn c))
          problem
          3).0.attempts)
      1
      (fresh_track problem 3 (codes "a"))
    ≡ track_with
        (codes "a")
        3
        (BaselineLoop.solve str_of
          (λ ms. ok (answer ms))
          (λ turn c. ok (verdict turn c))
          problem
          3).0
lone-solve_example =
    lone-solve str_of (λ turn c. ok (verdict turn c)) problem (λ turn m ms. replied (answer ms))
      (codes "a") 3 answer verdict (λ turn ms. refl) (λ turn c. refl)
