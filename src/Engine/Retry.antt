-- ===== src/Engine/Retry.antt =====
-- `_call`: a chat call that is tried again while the provider refuses it at no cost. `ids` and
-- `call_ids` give the random ids of each try, and `replies` the provider's answers; the waiting
-- between two tries is not modelled.
pub mod Tries
mod Tests
use re_takehome_submission.Common.{
  ℕ, zero, suc, ◌+◌, Bool, true, false, Option, List, [], ◌∷◌, if◌then◌else◌,
}
use re_takehome_submission.Common.Json.{Json}
use re_takehome_submission.Common.Results.{Result, ok, err}
use re_takehome_submission.Llm.{LlmClient, Reply, complete}
use re_takehome_submission.Llm.Failures.{Failure, cost_free_rate_limit}
use re_takehome_submission.Llm.Asking.{Request}
use re_takehome_submission.Llm.Answering.{Completion}

-- An entry of `retry_events`.
pub record RetryEvent : Type 0 where
  pub semantic_call : ℕ
  pub physical_attempt : ℕ

-- `except CostFreeRateLimitError`
unfoldable pub is_cost_free : Result Failure Completion → Bool
is_cost_free (ok a) = false
is_cost_free (err cost_free_rate_limit) = true
is_cost_free (err _) = false

module _ (encode : Json → Option ℕ) (ids call_ids : ℕ → ℕ) (replies : ℕ → Reply) (q : Request)
    (semantic_call : ℕ) where
  abbrev event_of : ℕ → RetryEvent
  event_of attempt = record { semantic_call = semantic_call; physical_attempt = attempt }

  abbrev pub try_once : ℕ → LlmClient → Result Failure Completion × LlmClient
  try_once attempt c = complete encode (ids attempt) (call_ids attempt) q (replies attempt) c

  -- The loop from a try on, with the number of tries that may follow it.
  unfoldable pub call_from :
      (attempt left : ℕ) → LlmClient → Result Failure Completion × LlmClient × List RetryEvent
  unfolding is_cost_free
  call_from attempt zero c =
      let (r, c') = try_once attempt c in
      (r, c', if is_cost_free r then event_of attempt ∷ [] else [])
  call_from attempt (suc left) c =
      let (r, c') = try_once attempt c in
      let rest = call_from (attempt + 1) left c' in
      if is_cost_free r then (rest.0, rest.1, event_of attempt ∷ rest.2) else (r, c', [])

  -- `_call`
  unfoldable pub call :
      (max_cost_free_429_retries : ℕ)
      → LlmClient
      → Result Failure Completion × LlmClient × List RetryEvent
  unfolding call_from
  call retries c = call_from 1 retries c
