-- ===== src/Worker/Tests.antt =====
-- The end of a run on concrete outcomes.
use re_takehome_submission.Common.{◌⊎◌, [], ◌∷◌, ◌≡◌, refl, ◌↔◌, true, false}
use re_takehome_submission.Budget.{
  BudgetSnapshot, BudgetLedger, snapshot, run_calls, mark_unknown, reserving,
}
use re_takehome_submission.Common.Int.{pos, finite}
use re_takehome_submission.Worker.{
  over_budget, cost_unknown, conclude, finished, ran_out_of_time, compared, passed,
  comparator_raised, harness_error,
}
use re_takehome_submission.Worker.Unknown.{mark_unknown-conclude}
use re_takehome_submission.Worker.Passing.{HasPassed, conclude-HasPassed}

abbrev snap : BudgetSnapshot
snap = record { limit_usd = 100; spent_usd = 60; reserved_usd = 0; accounting_complete = true }

-- A checkpoint that the Comparator accepts counts although the agent ran out of time.
timeout_passes : conclude ran_out_of_time (compared true) true snap 900 1000 ≡ (passed, true, 1)
unfolding conclude
timeout_passes = refl

raise_fails : conclude finished comparator_raised true snap 900 1000 ≡ (harness_error, false, 0)
unfolding conclude
raise_fails = refl

conclude-HasPassed_example :
    (((conclude finished (compared true) true snap 900 1000).0 ≡ passed)
      ↔ HasPassed (compared true) true snap 900 1000)
    × (((conclude finished (compared true) true snap 900 1000).2 ≡ 1)
        ↔ HasPassed (compared true) true snap 900 1000)
conclude-HasPassed_example = conclude-HasPassed finished (compared true) true snap 900 1000

abbrev ledger : BudgetLedger
ledger = record { limit_usd = 100; spent = 60; reservations = (1, 20) ∷ []; complete = true }

mark_unknown-conclude_example :
    let (status, _, points) =
      conclude finished
        (compared true)
        true
        (snapshot (run_calls (reserving 2 (finite (pos 10)) ∷ []) (mark_unknown 1 ledger).1))
        900
        1000 in
    (points ≡ 0) × ((status ≡ over_budget) ⊎ (status ≡ cost_unknown))
mark_unknown-conclude_example =
    mark_unknown-conclude 1 (reserving 2 (finite (pos 10)) ∷ []) ledger finished (compared true)
      true 900 1000
