-- ===== src/Scoring/Rescored.antt =====
-- A result of the worker, scored again.
use re_takehome_submission.Common.{
  ℕ, ◌≡◌, refl, Bool, true, false, ◌&&◌, Option, none, some, leb, ◌==◌,
}
use re_takehome_submission.Common.Int.{Amount}
use re_takehome_submission.Common.Text.{Text, codes, text_eq}
use re_takehome_submission.Common.Json.{Json, Items, Fields, boolean, obj, get, truthy}
use re_takehome_submission.Common.Results.{Result, ok, err}
use re_takehome_submission.Budget.{BudgetSnapshot, within_limit}
use re_takehome_submission.Worker.{AgentOutcome, compared, conclude, comparator_passed}
use re_takehome_submission.Worker.Writing.{Reports, result_json}
use re_takehome_submission.Scoring.{
  ScoreError, Verdict, rescore, is_budget_ok, to_float, is_at_most, update, put,
}

-- The field `passed` of a result.
abbrev pub passed_field : Result ScoreError Fields → Option Json
passed_field (ok f) = get (codes "passed") f
passed_field (err e) = none

abbrev pub snapshot_of : (limit spent reserved : ℕ) → (complete : Bool) → BudgetSnapshot
snapshot_of limit spent reserved complete = record {
  limit_usd = limit;
  spent_usd = spent;
  reserved_usd = reserved;
  accounting_complete = complete;
}

both : (a b c d e : Bool) → a && (b && ((c && d) && e)) ≡ (a && (b && (d && e))) && c
both true true true true true = refl
both true true true true false = refl
both true true true false e = refl
both true true false true true = refl
both true true false true false = refl
both true true false false e = refl
both true false c d e = refl
both false b c d e = refl

neither : (a b c : Bool) → a && (b && false) ≡ (a && (b && false)) && c
neither true true c = refl
neither true false c = refl
neither false b c = refl

module _ (float_of_text : Text → Option Amount) (r : Reports) (agent : AgentOutcome)
    (wall time_limit : ℕ) where
  -- A result that the worker wrote is scored again, with the limit of its ledger and the same verdict
  -- and answers: this does not raise, and the problem passed in the worker exactly if it passes now
  -- and no money was reserved when the worker ended.
  pub rescore-result_json :
      (limit spent reserved : ℕ) (complete : Bool) (v : Verdict) (answer_ok : Bool) (errors : Items)
      → (now : Bool) × (passed_field (
            rescore float_of_text limit r.problem_id v answer_ok errors (
              obj (
                result_json r agent
                  (compared v.passed)
                  answer_ok
                  (snapshot_of limit spent reserved complete)
                  wall
                  time_limit)))
          ≡ some (boolean now))
        × ((conclude agent
              (compared v.passed)
              answer_ok
              (snapshot_of limit spent reserved complete)
              wall
              time_limit).1
            ≡ now && (reserved == 0))
  unfolding rescore is_budget_ok to_float is_at_most update put result_json get text_eq conclude
      within_limit comparator_passed truthy
  rescore-result_json limit spent reserved true v answer_ok errors = (
    v.passed && (answer_ok && (leb spent limit && leb wall time_limit)),
    refl,
    both v.passed answer_ok (reserved == 0) (leb spent limit) (leb wall time_limit),
  )
  rescore-result_json limit spent reserved false v answer_ok errors =
      (v.passed && (answer_ok && false), refl, neither v.passed answer_ok (reserved == 0))
