-- ===== src/Budget/Tests.antt =====
-- The ledger on concrete calls.
use re_takehome_submission.Common.{◌≡◌, refl, true, false, [], ◌∷◌, arith}
use re_takehome_submission.Common.Int.{pos, finite}
use re_takehome_submission.Common.Results.{ok, err}
use re_takehome_submission.Budget.{
  BudgetLedger, accounting_error, reserved, insert, reserve, reserve_locked, mark_unknown, snapshot,
  within_limit, lookup, reserving, settling, releasing, run_calls, step,
}
use re_takehome_submission.Budget.Solvency.{IsSolvent, run_calls-IsSolvent}
use re_takehome_submission.Budget.Closed.{mark_unknown-fails_closed}

abbrev empty : BudgetLedger
empty = record { limit_usd = 100; spent = 0; reservations = []; complete = true }

abbrev holding : BudgetLedger
holding = record { limit_usd = 100; spent = 0; reservations = (1, 60) ∷ []; complete = true }

run_calls-IsSolvent_example : IsSolvent (
    run_calls
      (reserving 1 (finite (pos 60))
        ∷ reserving 2 (finite (pos 50))
        ∷ settling 1 (finite (pos 40))
        ∷ [])
      empty)
unfolding step reserve reserve_locked lookup insert
run_calls-IsSolvent_example =
    run_calls-IsSolvent
      (reserving 1 (finite (pos 60))
        ∷ reserving 2 (finite (pos 50))
        ∷ settling 1 (finite (pos 40))
        ∷ [])
      empty (ground arith) (tt, (tt, ((λ n m a b. ground arith), tt)))

mark_unknown-fails_closed_example :
    let l' =
      run_calls (settling 1 (finite (pos 5)) ∷ releasing 2 ∷ []) (mark_unknown 1 holding).1 in
    (within_limit (snapshot l') ≡ false)
    × (reserve 3 (finite (pos 10)) l' ≡ (err accounting_error, l'))
mark_unknown-fails_closed_example =
    mark_unknown-fails_closed 1 (settling 1 (finite (pos 5)) ∷ releasing 2 ∷ []) holding 3 10

reserves : reserve 1 (finite (pos 60)) empty ≡ (ok 1, holding)
unfolding reserve reserve_locked insert reserved
reserves = refl
