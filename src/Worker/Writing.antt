-- ===== src/Worker/Writing.antt =====
-- src/re_harness/worker.py: the value of `result.json` at the end of a run. What the Comparator, the
-- agent and the event log give is passed on as JSON.
use re_takehome_submission.Common.{ℕ, ◌*◌, Bool, leb}
use re_takehome_submission.Common.Int.{pos, finite}
use re_takehome_submission.Common.Text.{Text, codes}
use re_takehome_submission.Common.Json.{
  Json, Items, Fields, boolean, int, float, str, arr, obj, end, field,
}
use re_takehome_submission.Budget.{BudgetSnapshot}
use re_takehome_submission.Worker.{
  Status, failed, completed, agent_timeout, harness_error, over_budget, cost_unknown, timed_out,
  passed, AgentOutcome, ComparatorOutcome, conclude,
}

-- Money, in 10^-10 dollars.
abbrev pub dollars : ℕ → Json
dollars n = float (finite (pos n))

abbrev status_text : Status → Text
status_text failed = codes "failed"
status_text completed = codes "completed"
status_text agent_timeout = codes "agent_timeout"
status_text harness_error = codes "harness_error"
status_text over_budget = codes "over_budget"
status_text cost_unknown = codes "cost_unknown"
status_text timed_out = codes "timed_out"
status_text passed = codes "passed"

-- `snapshot.__dict__`
abbrev pub snapshot_fields : BudgetSnapshot → Fields
snapshot_fields s = field (codes "limit_usd") (dollars s.limit_usd) (
    field (codes "spent_usd") (dollars s.spent_usd) (
      field (codes "reserved_usd") (dollars s.reserved_usd)
        (field (codes "accounting_complete") (boolean s.accounting_complete) end)))

abbrev pub answer_shape : Bool → Items → Json
answer_shape ok errors =
    obj (field (codes "passed") (boolean ok) (field (codes "errors") (arr errors) end))

-- What the other components put into the result.
pub record Reports : Type 0 where
  pub problem_id : Text
  pub comparator : Json
  pub answer_errors : Items
  pub models_used : Items
  pub both_models : Bool
  pub agent_error : Json
  pub agent_metadata : Json

-- `result_json`, whose fields are the end of the run.
unfoldable pub result_json :
    Reports
    → AgentOutcome
    → ComparatorOutcome
    → (answer_ok : Bool) → BudgetSnapshot
    → (wall time_limit : ℕ) → Fields
unfolding conclude
result_json r agent comparator answer_ok snap wall time_limit =
    let (status, won, points) = conclude agent comparator answer_ok snap wall time_limit in
    field (codes "schema_version") (int (pos 1)) (
      field (codes "problem_id") (str r.problem_id) (
        field (codes "status") (str (status_text status)) (
          field (codes "passed") (boolean won) (
            field (codes "points") (int (pos points)) (
              field (codes "comparator") r.comparator (
                field (codes "answer_shape") (answer_shape answer_ok r.answer_errors) (
                  field (codes "budget") (obj (snapshot_fields snap)) (
                    field (codes "within_time") (boolean (leb wall time_limit)) (
                      field (codes "wall_s") (dollars (wall * 10_000_000)) (
                        field (codes "models_used") (arr r.models_used) (
                          field (codes "both_required_models_used") (boolean r.both_models) (
                            field (codes "agent_error") r.agent_error
                              (field (codes "agent_metadata") r.agent_metadata end)))))))))))))
