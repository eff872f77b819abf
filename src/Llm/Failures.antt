-- ===== src/Llm/Failures.antt =====
-- The exceptions that a chat call can end in: those that the client raises, those of the ledger,
-- and those of Python that it does not catch.
use re_takehome_submission.Budget.{BudgetError}

pub data Failure : Type 0 where
  policy call_error cost_free_rate_limit : Failure
  budget : BudgetError → Failure
  transport type_error attribute_error overflow_error : Failure
