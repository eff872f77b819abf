-- ===== src/Baseline/Tests.antt =====
-- A run of two turns, and answers with and without a fenced block.
use re_takehome_submission.Common.{ℕ, ◌≡◌, refl, false, not, List, [], is_empty}
use re_takehome_submission.Common.Text.{Text, codes, strip, lstrip, rstrip, starts_with}
use re_takehome_submission.Common.Json.{Json}
use re_takehome_submission.Common.Results.{Result, ok, err}
use re_takehome_submission.Common.Lines.{split_once}
use re_takehome_submission.Engine.Salvaging.{LeanCheck}
use re_takehome_submission.Baseline.{Problem, Message, accepted_by_repl, check_raised, solve, turns}
use re_takehome_submission.Baseline.Extract.{
  extract_lean, last_block, block_at, skip_line, skip_language, starts_with_word, from_first,
}
use re_takehome_submission.Baseline.Solving.{IsEnd, solve-IsEnd}

abbrev problem : Problem
problem = record { id = codes "p1"; description = codes "d"; challenge = codes "import M" }

abbrev str_of : Json → Text
str_of v = []

abbrev llm : List Message → Result Text Text
llm m = ok (codes "see\n```lean\nimport M\n```")

abbrev check : (turn : ℕ) → Text → Result Text LeanCheck
check turn t = ok (record { accepted = not (is_empty t); timed_out = false; messages = [] })

abbrev broken : (turn : ℕ) → Text → Result Text LeanCheck
broken turn t = err (codes "container is gone")

fenced : extract_lean (codes "a ```Lean4 \n x ``` b ```\ny\n```") [] ≡ codes "y\n"
unfolding extract_lean last_block block_at skip_line skip_language starts_with_word split_once strip
    lstrip rstrip starts_with
fenced = refl

bare : extract_lean (codes "so: import M ") [] ≡ codes "import M\n"
unfolding extract_lean last_block block_at from_first strip lstrip rstrip starts_with
bare = refl

no_lean : extract_lean (codes "no") (codes "old") ≡ codes "old"
unfolding extract_lean last_block block_at from_first strip lstrip rstrip starts_with
no_lean = refl

run : (solve str_of llm check problem 3).1 ≡ accepted_by_repl
unfolding solve turns
run = refl

lean_is_gone : (solve str_of llm broken problem 3).1 ≡ check_raised (codes "container is gone")
unfolding solve turns
lean_is_gone = refl

solve-IsEnd_example : IsEnd str_of llm check problem 3 (solve str_of llm check problem 3)
solve-IsEnd_example = solve-IsEnd str_of llm check problem 3
