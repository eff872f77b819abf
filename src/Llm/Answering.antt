-- ===== src/Llm/Answering.antt =====
-- What is read from the provider's answer.
use re_takehome_submission.Common.{ℕ, Option, none, some, [], ◌∷◌, if◌then◌else◌}
use re_takehome_submission.Common.Int.{pos, negsuc, Amount, finite, infinite, nan}
use re_takehome_submission.Common.Json.{
  Json, boolean, int, float, str, arr, obj, nil, cons, Fields, end, get, truthy, float_of,
}
use re_takehome_submission.Common.Text.{codes}
use re_takehome_submission.Common.Results.{Result, ok, err}
use re_takehome_submission.Llm.Failures.{Failure, type_error, attribute_error, overflow_error}

-- `json` is what `response.json()` returns, `none` where it raises `ValueError`.
pub record Response : Type 0 where
  pub status_code : ℕ
  pub json : Option Json

-- `value if math.isfinite(value) and value >= 0 else None`
unfoldable pub nonnegative : Amount → Option ℕ
nonnegative (finite (pos n)) = some n
nonnegative (finite (negsuc n)) = none
nonnegative infinite = none
nonnegative nan = none

-- `_coerce_cost`; `float(value)` raises `OverflowError` for an integer beyond the floats.
unfoldable pub coerce_cost : Json → Result Failure (Option ℕ)
unfolding nonnegative float_of
coerce_cost (int z) = elim (float_of z) [ none ↦ err overflow_error | some a ↦ ok (nonnegative a) ]
coerce_cost (float a) = ok (nonnegative a)
coerce_cost _ = ok none

-- `data["usage"]["cost"]`; `none` for a `KeyError` or a `TypeError`.
unfoldable pub usage_cost : Json → Option Json
unfolding get
usage_cost (obj f) = elim (get (codes "usage") f) [ some (obj u) ↦ get (codes "cost") u | _ ↦ none ]
usage_cost _ = none

-- `_reported_cost`
unfoldable pub reported_cost : Response → Result Failure (Option ℕ)
unfolding usage_cost coerce_cost
reported_cost r = elim r.json [
  | none ↦ ok none
  | some answer ↦ elim (usage_cost answer) [ none ↦ ok none | some v ↦ coerce_cost v ]
]

-- `data["choices"][0]`; `none` for an exception that is caught. The first character of a text is a
-- text.
unfoldable pub first_choice : Json → Option Json
first_choice (arr (cons j i)) = some j
first_choice (str (c ∷ t)) = some (str (c ∷ []))
first_choice _ = none

-- What the block under `try` has read.
pub record Reading : Type 0 where
  pub answer : Fields
  pub usage : Json
  pub cost : ℕ
  pub choice : Fields
  pub message : Json

pub data Parsed : Type 0 where
  parsed : Reading → Parsed
  invalid : Parsed
  escaped : Failure → Parsed

-- `value or {}`
abbrev or_empty : Option Json → Json
or_empty none = obj end
or_empty (some v) = if truthy v then v else obj end

-- `choice.get("message") or {}`: anything but a dict has no `get`.
parse_choice : Fields → ℕ → Json → Parsed
unfolding get truthy
parse_choice f cost (obj c) = parsed (record {
  answer = f;
  usage = or_empty (get (codes "usage") f);
  cost = cost;
  choice = c;
  message = or_empty (get (codes "message") c);
})
parse_choice f cost _ = escaped attribute_error

parse_choices : Fields → ℕ → Parsed
unfolding get first_choice parse_choice
parse_choices f cost = elim (get (codes "choices") f) [
  | none ↦ invalid
  | some choices ↦ elim (first_choice choices) [
    | none ↦ invalid
    | some choice ↦ parse_choice f cost choice
  ]
]

parse_cost : Fields → Result Failure (Option ℕ) → Parsed
unfolding parse_choices
parse_cost f (err e) = escaped e
parse_cost f (ok none) = invalid
parse_cost f (ok (some cost)) = parse_choices f cost

parse_answer : Json → Parsed
unfolding usage_cost coerce_cost parse_cost
parse_answer (obj f) = elim (usage_cost (obj f)) [
  | none ↦ invalid
  | some v ↦ parse_cost f (coerce_cost v)
]
parse_answer _ = invalid

-- The block under `try` after a status below 400: `invalid` where an exception is caught, `escaped`
-- where one is not.
unfoldable pub parse_success : Response → Parsed
unfolding parse_answer
parse_success r = elim r.json [ none ↦ invalid | some answer ↦ parse_answer answer ]

-- `LLMResponse`; `str` is not applied yet to the first three values, where `none` is the default.
pub record Completion : Type 0 where
  pub id : Option Json
  pub model : Option Json
  pub content : Option Json
  pub reasoning : Option Json
  pub tool_calls : Json
  pub finish_reason : Option Json
  pub usage : Json

abbrev or_default : Option Json → Option Json
or_default none = none
or_default (some v) = if truthy v then some v else none

-- `list(value or [])` raises `TypeError` for a number or `true`.
listed : Option Json → Result Failure Json
listed none = ok (arr nil)
listed (some (boolean b)) = err type_error
listed (some (int z)) = err type_error
listed (some (float a)) = err type_error
listed (some v) = ok v

build_from : Reading → Json → Result Failure Completion
unfolding get truthy listed
build_from r (obj m) = elim (listed (or_default (get (codes "tool_calls") m))) [
  | err f ↦ err f
  | ok calls ↦ ok (record {
    id = get (codes "id") r.answer;
    model = get (codes "model") r.answer;
    content = or_default (get (codes "content") m);
    reasoning = get (codes "reasoning") m;
    tool_calls = calls;
    finish_reason = get (codes "finish_reason") r.choice;
    usage = r.usage;
  })
]
build_from r _ = err attribute_error

-- The construction of the result, after the cost is settled.
unfoldable pub build : Reading → Result Failure Completion
unfolding build_from
build r = build_from r r.message
