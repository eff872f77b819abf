-- ===== src/Engine/Retry/Tests.antt =====
-- A provider that refuses every try.
use re_takehome_submission.Common.{ℕ, ◌≤◌, ◌≡◌, Option, none, some, [], ◌∷◌, true, false, length}
use re_takehome_submission.Common.Int.{pos}
use re_takehome_submission.Common.Text.{codes}
use re_takehome_submission.Common.Json.{Json, int, str, obj, end, field}
use re_takehome_submission.Llm.{LlmClient, Reply, responded}
use re_takehome_submission.Llm.Asking.{Request, model_a}
use re_takehome_submission.Engine.Retry.{is_cost_free, call}
use re_takehome_submission.Engine.Retry.Tries.{call-tries}

abbrev encode : Json → Option ℕ
encode j = some 50

abbrev request : Request
request = record {
  model = model_a;
  messages =
      obj (
        field (codes "role") (str (codes "user"))
          (field (codes "content") (str (codes "prove")) end))
      ∷ [];
  max_tokens = int (pos 10);
  temperature = none;
  top_p = none;
  seed = none;
  stop = none;
  reasoning = none;
  tools = none;
  tool_choice = none;
}

abbrev client : LlmClient
client = record {
  api_key = codes "key";
  ledger = record { limit_usd = 1000000; spent = 0; reservations = []; complete = true };
  dispatched = [];
  events = [];
}

abbrev refuses : ℕ → Reply
refuses n = responded (record { status_code = 429; json = none })

call-tries_example :
    (is_cost_free (call encode (λ n. n) (λ n. n) refuses request 1 2 client).0 ≡ true
      → length (call encode (λ n. n) (λ n. n) refuses request 1 2 client).2 ≡ 3)
    × (is_cost_free (call encode (λ n. n) (λ n. n) refuses request 1 2 client).0 ≡ false
        → length (call encode (λ n. n) (λ n. n) refuses request 1 2 client).2 ≤ 2)
call-tries_example = call-tries encode (λ n. n) (λ n. n) refuses request 1 2 client
