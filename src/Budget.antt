-- ===== src/Budget.antt =====
-- src/re_harness/budget.py: the spend ledger of one problem.
-- Every method of `BudgetLedger` takes the lock for its whole body, so each is one step on the
-- ledger. An amount of money is a whole number of 10^-10 dollars; the rounding of float sums is not
-- modelled. A reservation's id is only compared, so it is a number, and the fresh `uuid4` is an
-- argument of `reserve`.
pub mod Solvency
pub mod Closed
mod Tests
use re_takehome_submission.Common.{
  ℕ, ◌+◌, Bool, true, false, ◌&&◌, Option, none, some, List, [], ◌∷◌, leb, ltb, ◌==◌, if◌then◌else◌,
}
use re_takehome_submission.Common.Int.{pos, negsuc, Amount, finite, infinite, nan}
use re_takehome_submission.Common.Results.{Result, ok, err}

-- The value of an amount that is finite and not negative: `not math.isfinite(x) or x < 0` refuses
-- the others.
unfoldable pub admissible : Amount → Option ℕ
admissible (finite (pos n)) = some n
admissible (finite (negsuc n)) = none
admissible infinite = none
admissible nan = none

pub data BudgetError : Type 0 where
  value_error accounting_error budget_exceeded : BudgetError

abbrev pub Reservations : Type 0
Reservations = List (ℕ × ℕ)

pub record BudgetLedger : Type 0 where
  pub limit_usd : ℕ
  pub spent : ℕ
  pub reservations : Reservations
  pub complete : Bool

pub record BudgetSnapshot : Type 0 where
  pub limit_usd : ℕ
  pub spent_usd : ℕ
  pub reserved_usd : ℕ
  pub accounting_complete : Bool

unfoldable pub within_limit : BudgetSnapshot → Bool
within_limit s = s.accounting_complete && ((s.reserved_usd == 0) && leb s.spent_usd s.limit_usd)

-- `sum(self._reservations.values())`
unfoldable pub reserved : Reservations → ℕ
reserved [] = 0
reserved ((i, a) ∷ r) = a + reserved r

-- `id in self._reservations`, with the amount.
unfoldable pub lookup : ℕ → Reservations → Option ℕ
lookup k [] = none
lookup k ((i, a) ∷ r) = if k == i then some a else lookup k r

-- `self._reservations[id] = amount`
unfoldable pub insert : ℕ → ℕ → Reservations → Reservations
insert k v [] = (k, v) ∷ []
insert k v ((i, a) ∷ r) = if k == i then (k, v) ∷ r else (i, a) ∷ insert k v r

-- `self._reservations.pop(id, None)`
unfoldable pub erase : ℕ → Reservations → Reservations
erase k [] = []
erase k ((i, a) ∷ r) = if k == i then r else (i, a) ∷ erase k r

-- `BudgetLedger.__init__`
unfoldable pub init : Amount → Result BudgetError BudgetLedger
unfolding admissible
init limit = elim (admissible limit) [
  | none ↦ err value_error
  | some n ↦
      if n == 0
      then err value_error
      else ok (record { limit_usd = n; spent = 0; reservations = []; complete = true })
]

unfoldable pub snapshot : BudgetLedger → BudgetSnapshot
unfolding reserved
snapshot l = record {
  limit_usd = l.limit_usd;
  spent_usd = l.spent;
  reserved_usd = reserved l.reservations;
  accounting_complete = l.complete;
}

-- The part of `reserve` under the lock.
unfoldable pub reserve_locked :
    (fresh amount : ℕ) → BudgetLedger → Result BudgetError ℕ × BudgetLedger
unfolding reserved insert
reserve_locked fresh amount l =
    if l.complete
    then if ltb l.limit_usd (l.spent + reserved l.reservations + amount)
      then (err budget_exceeded, l)
      else (ok fresh, record l { reservations = insert fresh amount l.reservations })
    else (err accounting_error, l)

unfoldable pub reserve : ℕ → Amount → BudgetLedger → Result BudgetError ℕ × BudgetLedger
unfolding admissible reserve_locked
reserve fresh amount l = elim (admissible amount) [
  | none ↦ (err value_error, l)
  | some n ↦ reserve_locked fresh n l
]

-- The part of `settle` under the lock.
unfoldable pub settle_locked :
    (id actual : ℕ) → BudgetLedger → Result BudgetError BudgetSnapshot × BudgetLedger
unfolding lookup erase snapshot
settle_locked id actual l = elim (lookup id l.reservations) [
  | none ↦ (err accounting_error, l)
  | some _ ↦
      let l' : BudgetLedger = record l {
        reservations = erase id l.reservations;
        spent = l.spent + actual;
      } in
      (ok (snapshot l'), l')
]

unfoldable pub settle : ℕ → Amount → BudgetLedger → Result BudgetError BudgetSnapshot × BudgetLedger
unfolding admissible settle_locked
settle id actual l = elim (admissible actual) [
  | none ↦ (err accounting_error, l)
  | some n ↦ settle_locked id n l
]

unfoldable pub release : ℕ → BudgetLedger → BudgetLedger
unfolding erase
release id l = record l { reservations = erase id l.reservations }

unfoldable pub mark_unknown : ℕ → BudgetLedger → BudgetSnapshot × BudgetLedger
unfolding erase snapshot
mark_unknown id l =
    let l' : BudgetLedger = record l { reservations = erase id l.reservations; complete = false } in
    (snapshot l', l')

-- A call of one method, as the threads that share the ledger make them in some order.
pub data Call : Type 0 where
  reserving settling : ℕ → Amount → Call
  releasing marking : ℕ → Call

pub step : Call → BudgetLedger → BudgetLedger
unfolding reserve settle release mark_unknown
step (reserving id a) l = (reserve id a l).1
step (settling id a) l = (settle id a l).1
step (releasing id) l = release id l
step (marking id) l = (mark_unknown id l).1

pub run_calls : List Call → BudgetLedger → BudgetLedger
unfolding step
run_calls [] l = l
run_calls (c ∷ cs) l = run_calls cs (step c l)
