-- ===== src/Worker/Passing.antt =====
-- When a problem's run passes.
use re_takehome_submission.Common.{
  ℕ, ◌≤◌, ◌≡◌, refl, ap, inl, inr, ◌↔◌, Bool, true, ◌&&◌, leb, arith, Bool-cases,
}
use re_takehome_submission.Budget.{BudgetSnapshot, within_limit}
use re_takehome_submission.Worker.{
  AgentOutcome, ComparatorOutcome, compared, comparator_raised, agent_status, compared_status,
  without_pass, comparator_passed, finished, ran_out_of_time, raised, passed, conclude,
}

-- What a passed run has shown.
pub record HasPassed (c : ComparatorOutcome) (answer_ok : Bool) (s : BudgetSnapshot)
    (wall limit : ℕ) : Type 0 where
  pub comparator : c ≡ compared true
  pub answer : answer_ok ≡ true
  pub accounted : s.accounting_complete ≡ true
  pub settled : s.reserved_usd ≡ 0
  pub affordable : s.spent_usd ≤ s.limit_usd
  pub in_time : wall ≤ limit

unpassed :
    (a : AgentOutcome) (c : ComparatorOutcome)
    → without_pass (compared_status c (agent_status a)) ≡ passed
    → ⊥
unfolding without_pass compared_status agent_status
unpassed finished (compared b) h = absurd (cc)
unpassed finished comparator_raised h = absurd (cc)
unpassed ran_out_of_time (compared b) h = absurd (cc)
unpassed ran_out_of_time comparator_raised h = absurd (cc)
unpassed raised (compared b) h = absurd (cc)
unpassed raised comparator_raised h = absurd (cc)

comparator_was : (c : ComparatorOutcome) → comparator_passed c ≡ true → c ≡ compared true
unfolding comparator_passed
comparator_was (compared b) h = ap compared h
comparator_was comparator_raised h = absurd (cc)

-- The test of `passed`.
abbrev won : ComparatorOutcome → Bool → BudgetSnapshot → ℕ → ℕ → Bool
won c ok s wall limit = comparator_passed c && (ok && (within_limit s && leb wall limit))

won→HasPassed :
    (c : ComparatorOutcome) (ok : Bool) (s : BudgetSnapshot) (wall limit : ℕ)
    → won c ok s wall limit ≡ true
    → HasPassed c ok s wall limit
unfolding within_limit
won→HasPassed c ok s wall limit h = record {
  comparator = comparator_was c (ground arith);
  answer = ground arith;
  accounted = ground arith;
  settled = ground arith;
  affordable = ground arith;
  in_time = ground arith;
}

HasPassed→won :
    (c : ComparatorOutcome) (ok : Bool) (s : BudgetSnapshot) (wall limit : ℕ)
    → HasPassed c ok s wall limit
    → won c ok s wall limit ≡ true
unfolding within_limit comparator_passed
HasPassed→won c ok s wall limit h =
    let a = h.answer in
    let b = h.accounted in
    let d = h.settled in
    let e = h.affordable in let f = h.in_time in rw (h.comparator) (ground arith)

-- A run's status is `passed` exactly when its point is given, and both are exactly when
-- the Comparator has accepted the solution, the answers have their shape, every cost is known, no
-- reservation is left, the spending is within the limit and the time is too.
pub conclude-HasPassed :
    (a : AgentOutcome) (c : ComparatorOutcome) (ok : Bool) (s : BudgetSnapshot) (wall limit : ℕ)
    → let (status, _, points) = conclude a c ok s wall limit in
      ((status ≡ passed) ↔ HasPassed c ok s wall limit)
      × ((points ≡ 1) ↔ HasPassed c ok s wall limit)
unfolding conclude
conclude-HasPassed a c ok s wall limit = elim (Bool-cases (won c ok s wall limit)) [
  | inl e ↦
      let h = won→HasPassed c ok s wall limit e in
      let b = h.accounted in
      let d = h.affordable in
      let f = h.in_time in
      rw (e, conclude) (((λ _. h), (λ _. ground arith)), ((λ _. h), (λ _. refl)))
  | inr e ↦
      let no : HasPassed c ok s wall limit → ⊥ =
        λ h. (let k = HasPassed→won c ok s wall limit h in absurd (cc)) in
      rw (e, conclude)
        (
          ((λ q. absurd (ground (arith, unpassed a c))), (λ h. absurd (no h))),
          ((λ q. absurd (cc)), (λ h. absurd (no h))),
        )
]
