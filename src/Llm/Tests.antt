-- ===== src/Llm/Tests.antt =====
-- One call on a concrete request and concrete answers.
use re_takehome_submission.Common.{
  ℕ, ◌+◌, ◌*◌, ◌≤◌, ◌≡◌, refl, Option, none, some, [], ◌∷◌, true, arith, inl, inr,
}
use re_takehome_submission.Common.Int.{pos, finite}
use re_takehome_submission.Common.Text.{codes}
use re_takehome_submission.Common.Json.{Json, int, float, str, arr, obj, nil, cons, end, field}
use re_takehome_submission.Common.Results.{ok, err}
use re_takehome_submission.Budget.{BudgetLedger, reserve, reserve_locked, insert, reserved, lookup}
use re_takehome_submission.Llm.{LlmClient, responded, complete, reserve_usd}
use re_takehome_submission.Llm.Failures.{attribute_error}
use re_takehome_submission.Llm.Answering.{Response, parse_success, reported_cost}
use re_takehome_submission.Llm.Asking.{Price, Request, model_a, admit, price_of}
use re_takehome_submission.Llm.Accounting.{Escapes, Resolves, complete-Resolves, complete_escaped}
use re_takehome_submission.Llm.Reserve.{reserve_usd-covers}

abbrev price : Price
price = record { input = 3; output = 5 }

reserve_usd-covers_example : 90 * 2 + 400 * 5 ≤ reserve_usd price 100 500
reserve_usd-covers_example =
    reserve_usd-covers price 100 500 90 400 2 5 (ground arith) (ground arith) (ground arith)
      (ground arith)

-- A body takes fifty bytes.
abbrev encode : Json → Option ℕ
encode j = some 50

abbrev request : Request
request = record {
  model = model_a;
  messages =
      obj (
        field (codes "role") (str (codes "user"))
          (field (codes "content") (str (codes "prove")) end))
      ∷ [];
  max_tokens = int (pos 10);
  temperature = none;
  top_p = none;
  seed = none;
  stop = none;
  reasoning = none;
  tools = none;
  tool_choice = none;
}

abbrev ledger : BudgetLedger
ledger = record { limit_usd = 1000000; spent = 0; reservations = []; complete = true }

abbrev client : LlmClient
client = record { api_key = codes "key"; ledger = ledger; dispatched = []; events = [] }

-- The answer reports a cost of 700; its one choice is the given value.
abbrev answer : Json → Response
answer choice = record {
  status_code = 200;
  json = some (
      obj (
        field (codes "usage") (obj (field (codes "cost") (float (finite (pos 700))) end))
          (field (codes "choices") (arr (cons choice nil)) end)));
}

abbrev message : Json
message = obj (field (codes "message") (obj (field (codes "content") (str (codes "ok")) end)) end)

answers : ¬ Escapes (responded (answer message))
unfolding parse_success reported_cost
answers e = elim e [ inl (f, p) ↦ absurd (cc) | inr (f, p) ↦ absurd (cc) ]

complete-Resolves_example :
    Resolves ledger (complete encode 1 7 request (responded (answer message)) client).1.ledger
unfolding lookup
complete-Resolves_example =
    complete-Resolves encode 1 7 request (responded (answer message)) client refl answers

abbrev model_price : Price
model_price = record { input = 1500; output = 6000 }

admits : admit encode (codes "key") request ≡ ok (model_price, 50, 10)
unfolding admit price_of
admits = refl

abbrev held : BudgetLedger
held = record ledger { reservations = (1, reserve_usd model_price 50 10) ∷ [] }

holds : reserve 1 (finite (pos (reserve_usd model_price 50 10))) ledger ≡ (ok 1, held)
unfolding reserve reserve_locked insert reserved reserve_usd
holds = refl

-- The one choice is a text, and the reservation stays.
leaks :
    let (result, after) =
      complete encode 1 7 request (responded (answer (str (codes "ok")))) client in
    (result ≡ err attribute_error) × (after.ledger ≡ held)
unfolding parse_success
leaks =
    complete_escaped encode 1 7 request (answer (str (codes "ok"))) client (model_price, 50, 10)
      held attribute_error admits holds (ground arith) refl
