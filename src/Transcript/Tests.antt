-- ===== src/Transcript/Tests.antt =====
-- A run of the transcript, and the witness.
use re_takehome_submission.Common.{◌≡◌, refl, Option, some, List, [], ◌∷◌, any, map}
use re_takehome_submission.Common.Int.{pos}
use re_takehome_submission.Common.Text.{Text, codes, text_eq}
use re_takehome_submission.Common.Json.{
  Json, Fields, null, int, str, arr, obj, nil, cons, end, field, get,
}
use re_takehome_submission.Engine.Verify.Keys.{member, Distinct}
use re_takehome_submission.Transcript.{
  put, value_of, details, call_event_of, record_event, has_call, update_call, call_of, open_call,
  call_id, read_event, read_all, objects, cost_of, build_transcript,
}
use re_takehome_submission.Transcript.Calls.{is_of, own_record, build_transcript-own_record}

abbrev str_of : Json → Text
str_of (str s) = s
str_of _ = codes "None"

abbrev event : (kind id : Text) → Fields → Fields
event kind id payload = field (codes "event") (str kind) (field (codes "call_id") (str id) payload)

abbrev no_sum : List (Option Json) → Json
no_sum costs = null

-- Two calls whose events alternate, and an event without a call.
abbrev log : List Fields
log =
    event (codes "llm_request") (codes "a") end
    ∷ event (codes "llm_request") (codes "b") end
    ∷ event (codes "lean_check") (codes "a") end
    ∷ event (codes "llm_error") (codes "a") (field (codes "kind") (str (codes "http")) end)
    ∷ event (codes "llm_response") [] end
    ∷ []

failed :
    build_transcript str_of no_sum
      (codes "p")
      (event (codes "llm_error") (codes "a") (field (codes "kind") (str (codes "http")) end) ∷ [])
    ≡ field (codes "schema_version") (int (pos 1)) (
        field (codes "problem_id") (str (codes "p")) (
          field
            (codes "calls")
            (arr (
              cons
                (obj (
                  field (codes "call_id") (str (codes "a")) (
                    field
                      (codes "error")
                      (obj (field (codes "kind") (str (codes "http")) end))
                      (field (codes "status") (str (codes "error")) end))))
                nil))
            (field (codes "actual_cost_usd") null end)))
unfolding build_transcript read_all read_event objects cost_of call_of update_call has_call
    open_call call_id call_event_of record_event put value_of details get text_eq
failed = refl

build_transcript-own_record_example :
    (order : List Text) × Distinct order
    × ((id : Text) → member id order ≡ any (is_of str_of id) log)
    × (get (codes "calls") (build_transcript str_of no_sum (codes "p") log)
        ≡ some (arr (objects (map (λ id. own_record str_of id log) order))))
build_transcript-own_record_example = build_transcript-own_record str_of no_sum (codes "p") log
