-- ===== src/Runner/Recovery.antt =====
-- src/re_harness/runner.py: the result that `_recover_worker` writes for a worker without one. The
-- events are those that `read_events` gives, with the fields that are read here; costs are in 10^-10
-- dollars.
use re_takehome_submission.Common.{
  ℕ, suc, ◌+◌, ◌*◌, false, not, Option, none, some, List, [], ◌∷◌, ◌++◌, if◌then◌else◌,
}
use re_takehome_submission.Common.Int.{ℤ, pos, negsuc, finite}
use re_takehome_submission.Common.Text.{Text, codes, text_eq, text_ltb, decimal}
use re_takehome_submission.Common.Json.{
  Json, Items, null, boolean, int, float, str, arr, obj, nil, cons, end, field,
}

pub record Event : Type 0 where
  pub event : Text
  -- `none` stands for null and for a missing field.
  pub actual_cost_usd : Option ℕ
  pub request_model : Option Text

abbrev cost_of : Option ℕ → ℕ
cost_of none = 0
cost_of (some c) = c

-- The sum over the responses.
unfoldable pub actual_cost : List Event → ℕ
unfolding text_eq
actual_cost [] = 0
actual_cost (e ∷ es) =
    (if text_eq e.event (codes "llm_response") then cost_of e.actual_cost_usd else 0)
    + actual_cost es

-- A text is put in its place in a sorted list of different ones.
unfoldable pub insert_text : Text → List Text → List Text
unfolding text_eq text_ltb
insert_text t [] = t ∷ []
insert_text t (u ∷ us) =
    let rest = insert_text t us in
    if text_eq t u then u ∷ us else if text_ltb t u then t ∷ u ∷ us else u ∷ rest

-- `sorted({…})` over the models of the requests.
unfoldable pub models_used : List Event → List Text
unfolding insert_text text_eq
models_used [] = []
models_used (e ∷ es) =
    let rest = models_used es in
    if text_eq e.event (codes "llm_request")
    then elim e.request_model [
      | none ↦ rest
      | some [] ↦ rest
      | some (c ∷ m) ↦ insert_text (c ∷ m) rest
    ]
    else rest

-- `f"worker exited with status {return_code}"`
unfoldable pub exit_message : ℤ → Text
unfolding decimal
exit_message (pos n) = codes "worker exited with status " ++ decimal n
exit_message (negsuc n) = codes "worker exited with status " ++ (b'-' ∷ decimal (suc n))

abbrev texts : List Text → Items
texts [] = nil
texts (t ∷ ts) = cons (str t) (texts ts)

-- Seconds with three places, from milliseconds.
abbrev seconds : ℕ → Json
seconds ms = float (finite (pos (ms * 10_000_000)))

-- The value of `result.json`.
unfoldable pub recovered_result : (id status message : Text) → List Event → (elapsed : ℕ) → Json
unfolding actual_cost models_used text_eq
recovered_result id status message es elapsed = obj (
    field (codes "schema_version") (int (pos 1)) (
      field (codes "problem_id") (str id) (
        field (codes "status") (str status) (
          field (codes "passed") (boolean false) (
            field (codes "points") (int (pos 0)) (
              field (codes "comparator")
                (obj (
                  field (codes "passed") (boolean false)
                    (field (codes "output") (obj (field (codes "error") (str message) end)) end)))
                (field (codes "answer_shape")
                  (obj (
                    field (codes "passed") (boolean false) (
                      field (codes "errors")
                        (arr (cons (str (codes "worker did not finish grading")) nil)) end)))
                  (field (codes "budget")
                    (obj (
                      field (codes "limit_usd") null (
                        field (codes "spent_usd") (float (finite (pos (actual_cost es)))) (
                          field (codes "reserved_usd") (float (finite (pos 0)))
                            (field (codes "accounting_complete") (boolean false) end)))))
                    (field (codes "within_time")
                      (boolean (not (text_eq status (codes "timed_out"))))
                      (field (codes "wall_s") (seconds elapsed) (
                        field (codes "models_used") (arr (texts (models_used es))) (
                          field (codes "both_required_models_used") (boolean false) (
                            field (codes "agent_error")
                              (obj (
                                field (codes "type") (str status)
                                  (field (codes "message") (str message) end)))
                              (field (codes "agent_metadata") (obj end) end))))))))))))))
