-- ===== src/Transcript.antt =====
-- src/re_harness/artifacts.py: the transcript of a problem's model calls. The events are objects whose
-- `event` is a text, as `emit` writes them. `str(value)` and the rounded sum of the costs are arguments.
pub mod Calls
mod Tests
use re_takehome_submission.Common.{
  Bool, true, false, ◌||◌, Option, none, some, List, [], ◌∷◌, ◌++◌, if◌then◌else◌, any, is_empty,
  map,
}
use re_takehome_submission.Common.Int.{ℤ, pos}
use re_takehome_submission.Common.Text.{Text, codes, text_eq}
use re_takehome_submission.Common.Json.{
  Json, Items, Fields, null, int, float, str, arr, obj, nil, cons, end, field, get, truthy,
}

-- `d[key] = value`
unfoldable pub put : Text → Json → Fields → Fields
unfolding text_eq
put k w end = field k w end
put k w (field j v f) = let rest = put k w f in if text_eq j k then field j w f else field j v rest

-- `event.get(key)`, which is `None` for a missing key.
unfoldable pub value_of : Text → Fields → Json
unfolding get
value_of k f = elim (get k f) [ none ↦ null | some v ↦ v ]

abbrev header_keys : List Text
header_keys =
    codes "schema_version"
    ∷ codes "seq"
    ∷ codes "timestamp"
    ∷ codes "problem_id"
    ∷ codes "event"
    ∷ codes "call_id"
    ∷ []

-- What an error event says of the error.
unfoldable pub details : Fields → Fields
unfolding text_eq
details end = end
details (field k v f) =
    let rest = details f in if any (text_eq k) header_keys then rest else field k v rest

pub data CallEvent : Type 0 where
  llm_request llm_response llm_error : CallEvent

unfoldable pub call_event_of : Option Json → Option CallEvent
unfolding text_eq
call_event_of (some (str s)) =
    if text_eq s (codes "llm_request")
    then some llm_request
    else if text_eq s (codes "llm_response")
    then some llm_response
    else if text_eq s (codes "llm_error")
    then some llm_error
    else none
call_event_of _ = none

-- What an event writes into the record of its call.
unfoldable pub record_event : CallEvent → Fields → Fields → Fields
unfolding put value_of details
record_event llm_request event r =
    put (codes "reserved_cost_usd") (value_of (codes "reserved_cost_usd") event) (
      put (codes "started_at") (value_of (codes "timestamp") event)
        (put (codes "request") (value_of (codes "request") event) r))
record_event llm_response event r = put (codes "status") (str (codes "ok")) (
    put (codes "latency_ms") (value_of (codes "latency_ms") event) (
      put (codes "actual_cost_usd") (value_of (codes "actual_cost_usd") event)
        (put (codes "response") (value_of (codes "response") event) r)))
record_event llm_error event r =
    put (codes "status") (str (codes "error")) (put (codes "error") (obj (details event)) r)

pub record Book : Type 0 where
  pub calls : List (Text × Fields)
  pub order : List Text

unfoldable pub has_call : Text → List (Text × Fields) → Bool
unfolding text_eq
has_call id [] = false
has_call id ((k, r) ∷ cs) = text_eq k id || has_call id cs

unfoldable pub update_call : Text → (Fields → Fields) → List (Text × Fields) → List (Text × Fields)
unfolding text_eq
update_call id f [] = []
update_call id f ((k, r) ∷ cs) =
    let rest = update_call id f cs in if text_eq k id then (k, f r) ∷ cs else (k, r) ∷ rest

unfoldable pub call_of : Text → List (Text × Fields) → Fields
unfolding text_eq
call_of id [] = end
call_of id ((k, r) ∷ cs) = if text_eq k id then r else call_of id cs

-- A call is opened by the first of its events.
unfoldable pub open_call : Text → Book → Book
unfolding has_call
open_call id b = if has_call id b.calls then b else record {
  calls = b.calls ++ (id, field (codes "call_id") (str id) end) ∷ [];
  order = b.order ++ id ∷ [];
}

unfoldable pub objects : List Fields → Items
objects [] = nil
objects (f ∷ fs) = cons (obj f) (objects fs)

-- `float(c.get("actual_cost_usd") or 0.0)` before the conversion.
unfoldable pub cost_of : Fields → Option Json
unfolding get truthy
cost_of c = elim (get (codes "actual_cost_usd") c) [
  | none ↦ none
  | some v ↦ if truthy v then some v else none
]

module _ (str_of : Json → Text) where
  -- `str(event.get("call_id", ""))`
  unfoldable pub call_id : Fields → Text
  unfolding get
  call_id event = elim (get (codes "call_id") event) [ none ↦ [] | some v ↦ str_of v ]

  -- One round of the loop over the events.
  unfoldable pub read_event : Fields → Book → Book
  unfolding call_event_of call_id open_call update_call record_event get
  read_event event b = elim (call_event_of (get (codes "event") event)) [
    | none ↦ b
    | some kind ↦
        if is_empty (call_id event)
        then b
        else (let opened = open_call (call_id event) b in
            record opened {
              calls = update_call (call_id event) (record_event kind event) opened.calls;
            })
  ]

  unfoldable pub read_all : List Fields → Book → Book
  unfolding read_event
  read_all [] b = b
  read_all (e ∷ es) b = read_all es (read_event e b)

  -- `build_transcript`
  unfoldable pub build_transcript :
      (rounded_sum : List (Option Json) → Json) → (problem_id : Text) → List Fields → Fields
  unfolding read_all objects cost_of call_of
  build_transcript rounded_sum problem_id events =
      let b = read_all events (record { calls = []; order = [] }) in
      field (codes "schema_version") (int (pos 1)) (
        field (codes "problem_id") (str problem_id) (
          field (codes "calls") (arr (objects (map (λ id. call_of id b.calls) b.order)))
            (field (codes "actual_cost_usd") (rounded_sum (map (λ c. cost_of c.1) b.calls)) end)))
