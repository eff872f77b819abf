-- ===== src/Worker.antt =====
-- src/re_harness/worker.py: how a problem's run ends. The agent, the Comparator and the files are
-- outside the model: their outcomes are arguments. Times are in milliseconds, as `wall_s` is rounded
-- to three places, and the quarter of the time limit is rounded down.
pub mod Passing
pub mod Unknown
pub mod Writing
mod Tests
use re_takehome_submission.Common.{
  ℕ, ◌+◌, ◌*◌, ◌/◌, ◌-◌, Bool, true, false, not, ◌&&◌, min, max, ltb, leb, if◌then◌else◌,
}
use re_takehome_submission.Budget.{BudgetSnapshot, within_limit}

pub data Status : Type 0 where
  failed completed agent_timeout harness_error over_budget cost_unknown timed_out passed : Status

-- How the block around `agent.solve` ends.
pub data AgentOutcome : Type 0 where
  finished : AgentOutcome
  ran_out_of_time : AgentOutcome
  raised : AgentOutcome

-- `compare_solution` gives a verdict or raises.
pub data ComparatorOutcome : Type 0 where
  compared : (accepted : Bool) → ComparatorOutcome
  comparator_raised : ComparatorOutcome

-- `_verification_reserve`
unfoldable pub verification_reserve : (verify_reserve comparator_timeout time_limit : ℕ) → ℕ
verification_reserve v c t = min (max v (c + 30000)) (t / 4)

-- The time that `asyncio.wait_for` gives to the agent.
unfoldable pub agent_time : (verify_reserve comparator_timeout time_limit : ℕ) → ℕ
unfolding verification_reserve
agent_time v c t = max 1000 (t - verification_reserve v c t)

-- The status behind the block around `agent.solve`.
unfoldable pub agent_status : AgentOutcome → Status
agent_status finished = completed
agent_status ran_out_of_time = agent_timeout
agent_status raised = harness_error

-- `comparator["passed"]`
unfoldable pub comparator_passed : ComparatorOutcome → Bool
comparator_passed (compared accepted) = accepted
comparator_passed comparator_raised = false

-- The status behind the block around `compare_solution`.
unfoldable pub compared_status : ComparatorOutcome → Status → Status
compared_status comparator_raised completed = harness_error
compared_status comparator_raised s = s
compared_status (compared accepted) s = s

-- `if status == "completed": status = "failed"`
unfoldable pub without_pass : Status → Status
without_pass completed = failed
without_pass s = s

-- The end of `_run`: the status of the result file, whether the problem has passed, and the points.
unfoldable pub conclude :
    AgentOutcome
    → ComparatorOutcome
    → (answer_ok : Bool) → BudgetSnapshot
    → (wall time_limit : ℕ) → Status × Bool × ℕ
unfolding agent_status comparator_passed compared_status without_pass within_limit
conclude agent comparator answer_ok snap wall time_limit =
    let status = compared_status comparator (agent_status agent) in
    let within_time = leb wall time_limit in
    let won = comparator_passed comparator && (answer_ok && (within_limit snap && within_time)) in
    let points : ℕ = if won then 1 else 0 in
    let last =
      if ltb snap.limit_usd snap.spent_usd
      then over_budget
      else if not snap.accounting_complete
      then cost_unknown
      else if not within_time
      then timed_out
      else if won
      then passed
      else without_pass status in
    (last, won, points)
