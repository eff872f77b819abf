-- ===== src/Budget/Solvency.antt =====
-- The sum of what is spent and what is reserved, under the methods of `BudgetLedger`.
use re_takehome_submission.Common.{
  ℕ, ◌+◌, ◌≤◌, ◌≡◌, refl, ◌⊎◌, true, none, some, List, [], ◌∷◌, arith, ltb, Option-cases,
  Bool-cases, inl, inr,
}
use re_takehome_submission.Common.Int.{pos, negsuc, Amount, finite, infinite, nan}
use re_takehome_submission.Common.Results.{ok, err}
use re_takehome_submission.Budget.{
  admissible, BudgetLedger, Reservations, BudgetError, value_error, accounting_error,
  budget_exceeded, reserved, lookup, insert, erase, reserve, reserve_locked, settle, settle_locked,
  release, mark_unknown, Call, reserving, settling, releasing, marking, step, run_calls,
}

-- What is spent and reserved does not exceed the limit.
abbrev pub IsSolvent : BudgetLedger → Type 0
IsSolvent l = l.spent + reserved l.reservations ≤ l.limit_usd

pub reserved-insert_le : (k v : ℕ) (r : Reservations) → reserved (insert k v r) ≤ reserved r + v
unfolding reserved insert
reserved-insert_le k v [] = omega arith
reserved-insert_le k v ((i, a) ∷ r) = ground (arith, reserved-insert_le k v r)

pub reserved-insert_fresh :
    (k v : ℕ) (r : Reservations) → lookup k r ≡ none → reserved (insert k v r) ≡ reserved r + v
unfolding reserved insert lookup
reserved-insert_fresh k v [] h = omega arith
reserved-insert_fresh k v ((i, a) ∷ r) h = ground (arith, reserved-insert_fresh k v r)

pub reserved-erase :
    (k : ℕ) (r : Reservations) {v : ℕ} → lookup k r ≡ some v → reserved (erase k r) + v ≡ reserved r
unfolding reserved erase lookup
reserved-erase k [] h = absurd (ground arith)
reserved-erase k ((i, a) ∷ r) {v} h = ground (arith, reserved-erase k r {v = v})

pub reserved-erase_le : (k : ℕ) (r : Reservations) → reserved (erase k r) ≤ reserved r
unfolding reserved erase
reserved-erase_le k [] = omega arith
reserved-erase_le k ((i, a) ∷ r) = ground (arith, reserved-erase_le k r)

pub erase-insert_fresh :
    (k v : ℕ) (r : Reservations) → lookup k r ≡ none → erase k (insert k v r) ≡ r
unfolding erase insert lookup
erase-insert_fresh k v [] h = ground arith
erase-insert_fresh k v ((i, a) ∷ r) h = ground (arith, erase-insert_fresh k v r)

pub lookup-insert_self : (k v : ℕ) (r : Reservations) → lookup k (insert k v r) ≡ some v
unfolding insert lookup
lookup-insert_self k v [] = ground arith
lookup-insert_self k v ((i, a) ∷ r) = ground (arith, lookup-insert_self k v r)

-- A reservation either raises and leaves the ledger as it was, or it is for an admissible amount,
-- on a complete ledger, under an id that is then looked up at that amount, and what is spent and
-- reserved with it included was within the limit.
pub reserve_outcome :
    (id : ℕ) (a : Amount) (l : BudgetLedger)
    → ((e : BudgetError) × (reserve id a l ≡ (err e, l)))
      ⊎ ((n : ℕ) × (admissible a ≡ some n)
          × (l.complete ≡ true)
          × (l.spent + reserved l.reservations + n ≤ l.limit_usd)
          × (reserve id a l ≡ (ok id, record l { reservations = insert id n l.reservations })))
unfolding reserve reserve_locked
reserve_outcome id infinite l = inl (value_error, refl)
reserve_outcome id nan l = inl (value_error, refl)
reserve_outcome id (finite (negsuc n)) l = inl (value_error, refl)
reserve_outcome id (finite (pos n)) l = elim (Bool-cases l.complete) [
  | inr c ↦ inl (accounting_error, ground arith)
  | inl c ↦ elim (Bool-cases (ltb l.limit_usd (l.spent + reserved l.reservations + n))) [
    | inl t ↦ inl (budget_exceeded, ground arith)
    | inr t ↦ inr (n, refl, c, ground arith, ground arith)
  ]
]

reserve-IsSolvent :
    (id : ℕ) (a : Amount) (l : BudgetLedger) → IsSolvent l → IsSolvent (reserve id a l).1
unfolding reserve reserve_locked
reserve-IsSolvent id (finite (pos n)) l h = ground (arith, reserved-insert_le id n l.reservations)
reserve-IsSolvent id (finite (negsuc n)) l h = h
reserve-IsSolvent id infinite l h = h
reserve-IsSolvent id nan l h = h

-- The provider bills no more than was reserved for the call.
abbrev pub IsBilledWithin : Call → BudgetLedger → Type 0
IsBilledWithin (reserving id a) l = Unit
IsBilledWithin (settling id a) l =
    (n m : ℕ) → admissible a ≡ some n → lookup id l.reservations ≡ some m → n ≤ m
IsBilledWithin (releasing id) l = Unit
IsBilledWithin (marking id) l = Unit

abbrev pub AllBilledWithin : List Call → BudgetLedger → Type 0
AllBilledWithin [] l = Unit
AllBilledWithin (c ∷ cs) l = IsBilledWithin c l × AllBilledWithin cs (step c l)

settle_locked-IsSolvent :
    (id n : ℕ) (l : BudgetLedger)
    → ((m : ℕ) → lookup id l.reservations ≡ some m → n ≤ m)
    → IsSolvent l
    → IsSolvent (settle_locked id n l).1
unfolding settle_locked
settle_locked-IsSolvent id n l b h = elim (Option-cases (lookup id l.reservations)) [
  | inl e ↦ rw (e, settle_locked) h
  | inr (m, e) ↦ rw (e, settle_locked) (omega (arith, b m e, reserved-erase id l.reservations e))
]

settle-IsSolvent :
    (id : ℕ) (a : Amount) (l : BudgetLedger)
    → IsBilledWithin (settling id a) l
    → IsSolvent l
    → IsSolvent (settle id a l).1
unfolding settle
settle-IsSolvent id (finite (pos n)) l b h = settle_locked-IsSolvent id n l (λ m. b n m refl) h
settle-IsSolvent id (finite (negsuc n)) l b h = h
settle-IsSolvent id infinite l b h = h
settle-IsSolvent id nan l b h = h

step-IsSolvent :
    (c : Call) (l : BudgetLedger) → IsBilledWithin c l → IsSolvent l → IsSolvent (step c l)
unfolding step release mark_unknown
step-IsSolvent (reserving id a) l b h = reserve-IsSolvent id a l h
step-IsSolvent (settling id a) l b h = settle-IsSolvent id a l b h
step-IsSolvent (releasing id) l b h = omega (arith, reserved-erase_le id l.reservations)
step-IsSolvent (marking id) l b h = omega (arith, reserved-erase_le id l.reservations)

-- From a solvent ledger, whatever methods the threads call and in whatever order, what is spent and
-- what is reserved never exceeds the limit, provided that no settled call bills more than was
-- reserved for it.
pub run_calls-IsSolvent :
    (cs : List Call) (l : BudgetLedger)
    → IsSolvent l
    → AllBilledWithin cs l
    → IsSolvent (run_calls cs l)
unfolding run_calls
run_calls-IsSolvent [] l h b = h
run_calls-IsSolvent (c ∷ cs) l h b =
    run_calls-IsSolvent cs (step c l) (step-IsSolvent c l b.0 h) b.1

pub reserve-eq_ok :
    (id : ℕ) (a : Amount) (l l' : BudgetLedger)
    → reserve id a l ≡ (ok id, l')
    → (n : ℕ) × (l' ≡ record l { reservations = insert id n l.reservations })
reserve-eq_ok id a l l' e = elim (reserve_outcome id a l) [
  | inl (x, r) ↦ absurd (cc)
  | inr (n, p, q, w, r) ↦ (n, cc)
]

-- Settling a fresh reservation at a cost `n` gives back the ledger from before it with `n` added to
-- what is spent, whatever else is reserved.
pub settle-reserve :
    (id : ℕ) (a : Amount) (n : ℕ) (l l' : BudgetLedger)
    → lookup id l.reservations ≡ none
    → reserve id a l ≡ (ok id, l')
    → (settle id (finite (pos n)) l').1 ≡ record l { spent = l.spent + n }
unfolding settle settle_locked
settle-reserve id a n l l' h e =
    let (m, q) = reserve-eq_ok id a l l' e in
    ground
      (arith, q, erase-insert_fresh id m l.reservations, lookup-insert_self id m l.reservations)

-- Releasing a fresh reservation gives back the ledger from before it.
pub release-reserve :
    (id : ℕ) (a : Amount) (l l' : BudgetLedger)
    → lookup id l.reservations ≡ none
    → reserve id a l ≡ (ok id, l')
    → release id l' ≡ l
unfolding release
release-reserve id a l l' h e =
    let (m, q) = reserve-eq_ok id a l l' e in
    ground (arith, q, erase-insert_fresh id m l.reservations)
