-- ===== src/Budget/Closed.antt =====
-- `BudgetLedger` behind `mark_unknown`.
use re_takehome_submission.Common.{ℕ, ◌≡◌, refl, false, List, [], ◌∷◌, arith}
use re_takehome_submission.Common.Int.{pos, negsuc, finite, infinite, nan}
use re_takehome_submission.Common.Results.{err}
use re_takehome_submission.Budget.{
  BudgetLedger, accounting_error, reserve, reserve_locked, settle, settle_locked, release,
  mark_unknown, snapshot, within_limit, Call, reserving, settling, releasing, marking, step,
  run_calls,
}

settle_locked-complete :
    (id n : ℕ) (l : BudgetLedger) → (settle_locked id n l).1.complete ≡ l.complete
unfolding settle_locked
settle_locked-complete id n l = ground arith

step-incomplete : (c : Call) (l : BudgetLedger) → l.complete ≡ false → (step c l).complete ≡ false
unfolding step reserve reserve_locked settle release mark_unknown
step-incomplete (reserving id (finite (pos n))) l h = ground arith
step-incomplete (reserving id (finite (negsuc n))) l h = h
step-incomplete (reserving id infinite) l h = h
step-incomplete (reserving id nan) l h = h
step-incomplete (settling id (finite (pos n))) l h = cc (settle_locked-complete id n l)
step-incomplete (settling id (finite (negsuc n))) l h = h
step-incomplete (settling id infinite) l h = h
step-incomplete (settling id nan) l h = h
step-incomplete (releasing id) l h = h
step-incomplete (marking id) l h = refl

pub run_calls-incomplete :
    (cs : List Call) (l : BudgetLedger) → l.complete ≡ false → (run_calls cs l).complete ≡ false
unfolding run_calls
run_calls-incomplete [] l h = h
run_calls-incomplete (c ∷ cs) l h = run_calls-incomplete cs (step c l) (step-incomplete c l h)

-- Once a reservation has been marked unknown, then after any further calls the ledger is not within
-- its limit, and every reservation of an admissible amount is refused with an accounting error and
-- changes nothing.
pub mark_unknown-fails_closed :
    (id : ℕ) (cs : List Call) (l : BudgetLedger) (fresh n : ℕ)
    → let l' = run_calls cs (mark_unknown id l).1 in
      (within_limit (snapshot l') ≡ false)
      × (reserve fresh (finite (pos n)) l' ≡ (err accounting_error, l'))
mark_unknown-fails_closed id cs l fresh n =
    let h = run_calls-incomplete cs (mark_unknown id l).1 (unfold mark_unknown in refl) in
    (unfold within_limit snapshot in rw h, unfold reserve reserve_locked in rw h)
