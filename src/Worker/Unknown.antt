-- ===== src/Worker/Unknown.antt =====
-- A run in which the cost of a call has become unknown.
use re_takehome_submission.Common.{ℕ, ◌≡◌, refl, ◌⊎◌, Bool, false, List, arith}
use re_takehome_submission.Budget.{
  BudgetLedger, BudgetSnapshot, Call, snapshot, within_limit, mark_unknown, run_calls,
}
use re_takehome_submission.Budget.Closed.{run_calls-incomplete}
use re_takehome_submission.Worker.{
  over_budget, cost_unknown, AgentOutcome, ComparatorOutcome, conclude,
}

incomplete_fails :
    (a : AgentOutcome) (c : ComparatorOutcome) (ok : Bool) (s : BudgetSnapshot) (wall limit : ℕ)
    → s.accounting_complete ≡ false
    → let (status, _, points) = conclude a c ok s wall limit in
      (points ≡ 0) × ((status ≡ over_budget) ⊎ (status ≡ cost_unknown))
unfolding conclude within_limit
incomplete_fails a c ok s wall limit h = ground arith

-- If a reservation has been marked unknown, then whatever calls follow and however the agent and the
-- Comparator end, the problem gets no point, and its status is that of an exceeded budget or of an
-- unknown cost.
pub mark_unknown-conclude :
    (id : ℕ) (cs : List Call) (l : BudgetLedger) (a : AgentOutcome) (c : ComparatorOutcome)
    (ok : Bool) (wall limit : ℕ)
    → let (status, _, points) =
        conclude a c ok (snapshot (run_calls cs (mark_unknown id l).1)) wall limit in
      (points ≡ 0) × ((status ≡ over_budget) ⊎ (status ≡ cost_unknown))
unfolding snapshot
mark_unknown-conclude id cs l a c ok wall limit =
    incomplete_fails a c ok (snapshot (run_calls cs (mark_unknown id l).1)) wall limit
      (run_calls-incomplete cs (mark_unknown id l).1 (unfold mark_unknown in refl))
