-- ===== src/Llm.antt =====
-- src/re_harness/llm.py: one chat call, from admission to the settled cost.
-- `Asking` holds the checks and the body, `Answering` what is read from the provider's answer. The
-- provider and `json.dumps` are not modelled: the answer is an argument of `complete`, and so is
-- `encode`, the length in bytes of the encoded body, with `none` where encoding raises. The random
-- ids are arguments too. What is logged keeps the fields that the accounting reads.
pub mod Failures
pub mod Asking
pub mod Answering
pub mod Accounting
pub mod Reserve
mod Tests
use re_takehome_submission.Common.{
  ℕ, ◌+◌, ◌*◌, ◌/◌, ◌≡◌, Bool, true, false, ◌&&◌, Option, none, some, List, [], ◌∷◌, ◌++◌, leb, ltb,
  ◌==◌, if◌then◌else◌,
}
use re_takehome_submission.Common.Int.{pos, Amount, finite}
use re_takehome_submission.Common.Json.{Json, obj}
use re_takehome_submission.Common.Text.{Text, text_eq}
use re_takehome_submission.Common.Results.{Result, ok, err}
use re_takehome_submission.Budget.{
  BudgetLedger, BudgetSnapshot, BudgetError, reserve, settle, release, mark_unknown, snapshot,
}
use Failures.{Failure, policy, call_error, cost_free_rate_limit, budget, transport}
use Asking.{Request, Price, price_of, admit, body}
use Answering.{
  Response, Completion, Parsed, parsed, invalid, escaped, reported_cost, parse_success, build,
}

pub data CostStatus : Type 0 where
  no_cost billed unknown : CostStatus

pub data Event : Type 0 where
  llm_request : (call_id : ℕ) → Json → (reserved_cost : ℕ) → Event
  llm_error : (call_id : ℕ) → CostStatus → BudgetSnapshot → Event
  llm_response : (call_id : ℕ) → Json → (actual_cost : ℕ) → BudgetSnapshot → Event

-- The client's state: the shared ledger, the requests sent for each model, the event log.
pub record LlmClient : Type 0 where
  pub api_key : Text
  pub ledger : BudgetLedger
  pub dispatched : List (Text × ℕ)
  pub events : List Event

-- `counter[model] += 1`
unfoldable pub bump : Text → List (Text × ℕ) → List (Text × ℕ)
unfolding text_eq
bump m [] = (m, 1) ∷ []
bump m ((j, n) ∷ c) = if text_eq j m then (j, n + 1) ∷ c else (j, n) ∷ bump m c

unfoldable pub emit : Event → LlmClient → LlmClient
emit e c = record c { events = c.events ++ e ∷ [] }

-- What `post` does: it raises (an `httpx.HTTPError` or any other exception), or it responds.
pub data Reply : Type 0 where
  raised : (http_error : Bool) → Reply
  responded : Response → Reply

-- `len(encoded) * input / 10^6 + max_tokens * output / 10^6`, with ten per cent added. A price is
-- in 10^-10 dollars for a token, ten times, so that the result is exact.
unfoldable pub reserve_usd : Price → (bytes max_tokens : ℕ) → ℕ
reserve_usd p bytes max_tokens = (bytes * p.input + max_tokens * p.output) * 11 / 10

-- The call failed and nothing is known of its cost.
unfoldable pub fail_unknown : (id call_id : ℕ) → LlmClient → LlmClient
fail_unknown id call_id c =
    let (s, l) = mark_unknown id c.ledger in
    emit (llm_error call_id unknown s) (record c { ledger = l })

-- A status of 429: nothing is owed unless the answer reports a cost.
unfoldable pub refused :
    (id call_id : ℕ) → Response → LlmClient → Result Failure Completion × LlmClient
refused id call_id r c = elim (reported_cost r) [
  | err f ↦ (err f, c)
  | ok none ↦
      let l = release id c.ledger in
      (
        err cost_free_rate_limit,
        emit (llm_error call_id no_cost (snapshot l)) (record c { ledger = l }),
      )
  | ok (some cost) ↦
      let (s, l) = settle id (finite (pos cost)) c.ledger in
      elim s [
        | err e ↦ (err (budget e), record c { ledger = l })
        | ok shot ↦ (err call_error, emit (llm_error call_id billed shot) (record c { ledger = l }))
      ]
]

-- A status below 400: the cost is settled as soon as the usage and the first choice are read.
unfoldable pub succeeded :
    (id call_id : ℕ) → Response → LlmClient → Result Failure Completion × LlmClient
succeeded id call_id r c = elim (parse_success r) [
  | escaped f ↦ (err f, c)
  | invalid ↦ (err call_error, fail_unknown id call_id c)
  | parsed p ↦
      let (s, l) = settle id (finite (pos (p.cost))) c.ledger in
      elim s [
        | err e ↦ (err (budget e), record c { ledger = l })
        | ok shot ↦ (
          build p,
          emit (llm_response call_id (obj p.answer) p.cost shot) (record c { ledger = l }),
        )
      ]
]

-- What follows the request, on each reply.
unfoldable pub finish : (id call_id : ℕ) → Reply → LlmClient → Result Failure Completion × LlmClient
finish id call_id (raised http_error) c =
    (err (if http_error then call_error else transport), fail_unknown id call_id c)
finish id call_id (responded r) c =
    if leb 400 r.status_code
    then if r.status_code == 429
      then refused id call_id r c
      else (err call_error, fail_unknown id call_id c)
    else succeeded id call_id r c

module _ (encode : Json → Option ℕ) where
  -- `LLMClient.complete`
  pub complete :
      (id call_id : ℕ) → Request → Reply → LlmClient → Result Failure Completion × LlmClient
  complete id call_id q reply c = elim (admit encode c.api_key q) [
    | err f ↦ (err f, c)
    | ok (price, bytes, max_tokens) ↦
        let amount = reserve_usd price bytes max_tokens in
        let (r, l) = reserve id (finite (pos amount)) c.ledger in
        elim r [
          | err e ↦ (err (budget e), record c { ledger = l })
          | ok reservation ↦ finish reservation call_id reply (
              emit (llm_request call_id (body q price) amount)
                (record c { ledger = l; dispatched = bump q.model c.dispatched }))
        ]
  ]
