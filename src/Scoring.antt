-- ===== src/Scoring.antt =====
-- src/re_harness/evaluator.py: `_rescore_one`, on the value of the result file, which is empty where
-- there is no file or no JSON. The check of the numeric answers, the Comparator and Python's `float` of
-- a text are arguments.
pub mod Rescored
mod Tests
use re_takehome_submission.Common.{
  ℕ, zero, suc, ◌*◌, Bool, true, false, ◌&&◌, Option, none, some, leb, if◌then◌else◌,
}
use re_takehome_submission.Common.Int.{ℤ, pos, negsuc, Amount, finite, infinite, nan}
use re_takehome_submission.Common.Text.{Text, codes, text_eq}
use re_takehome_submission.Common.Json.{
  Json, Items, Fields, null, boolean, int, float, str, arr, obj, end, field, get, truthy, float_of,
}
use re_takehome_submission.Common.Results.{Result, ok, err, and_then}
use re_takehome_submission.Worker.Writing.{answer_shape}

-- `d[key] = value`: in the place of the key, or at the end.
unfoldable pub put : Text → Json → Fields → Fields
unfolding text_eq
put k v end = field k v end
put k v (field j u f) = let rest = put k v f in if text_eq j k then field j v f else field j u rest

-- `d.update(new)`
unfoldable pub update : (new : Fields) → Fields → Fields
unfolding put
update end f = f
update (field k v new) f = update new (put k v f)

-- What raises: `get` of a value that is no object, `float` of a value that is no number.
pub data ScoreError : Type 0 where
  not_an_object not_a_number : ScoreError

pub record Verdict : Type 0 where
  pub passed : Bool
  pub exit_code : Json
  pub timed_out : Bool
  pub duration_ms : ℕ
  pub output : Json

-- `a <= b` for the float `a` and the amount `b`.
unfoldable pub is_at_most : Amount → ℕ → Bool
is_at_most (finite (pos n)) b = leb n b
is_at_most (finite (negsuc n)) b = true
is_at_most infinite b = false
is_at_most nan b = false

unfoldable pub amount_or_error : Option Amount → Result ScoreError Amount
amount_or_error none = err not_a_number
amount_or_error (some a) = ok a

-- `float(value)`, where a missing value is infinite.
unfoldable pub to_float :
    (float_of_text : Text → Option Amount) → Option Json → Result ScoreError Amount
unfolding amount_or_error float_of
to_float float_of_text none = ok infinite
to_float float_of_text (some (float x)) = ok x
to_float float_of_text (some (int z)) = amount_or_error (float_of z)
to_float float_of_text (some (boolean true)) = ok (finite (pos 10_000_000_000))
to_float float_of_text (some (boolean false)) = ok (finite (pos 0))
to_float float_of_text (some (str s)) = amount_or_error (float_of_text s)
to_float float_of_text (some _) = err not_a_number

abbrev is_true : Option Json → Bool
is_true none = false
is_true (some v) = truthy v

-- `budget_ok`
unfoldable pub is_budget_ok :
    (float_of_text : Text → Option Amount) → (limit : ℕ) → Option Json → Result ScoreError Bool
unfolding get truthy to_float is_at_most
is_budget_ok float_of_text limit none = ok false
is_budget_ok float_of_text limit (some (obj b)) =
    if is_true (get (codes "accounting_complete") b)
    then and_then (to_float float_of_text (get (codes "spent_usd") b))
        (λ spent. ok (is_at_most spent limit))
    else ok false
is_budget_ok float_of_text limit (some _) = err not_an_object

abbrev comparator_fields : Verdict → Json
comparator_fields v = obj (
    field (codes "passed") (boolean v.passed) (
      field (codes "exit_code") v.exit_code (
        field (codes "timed_out") (boolean v.timed_out) (
          field (codes "duration_ms") (int (pos v.duration_ms))
            (field (codes "output") v.output end)))))

-- `_rescore_one` of a problem with a solution.
unfoldable pub rescore :
    (float_of_text : Text → Option Amount)
    → (limit : ℕ) → (id : Text) → Verdict
    → (answer_ok : Bool) → (answer_errors : Items) → (previous : Json) → Result ScoreError Fields
unfolding get truthy is_budget_ok update
rescore float_of_text limit id v answer_ok answer_errors (obj f) =
    and_then (is_budget_ok float_of_text limit (get (codes "budget") f)) (λ budget_ok.
      let within_time = is_true (get (codes "within_time") f) in
      let passed = v.passed && (answer_ok && (budget_ok && within_time)) in
      ok (
        update
          (field (codes "schema_version") (int (pos 1)) (
            field (codes "problem_id") (str id) (
              field (codes "status") (str (if passed then codes "passed" else codes "failed")) (
                field (codes "passed") (boolean passed) (
                  field (codes "points") (int (pos (if passed then 1 else 0))) (
                    field (codes "comparator") (comparator_fields v) (
                      field (codes "answer_shape") (answer_shape answer_ok answer_errors) end)))))))
          f))
rescore float_of_text limit id v answer_ok answer_errors _ = err not_an_object

-- `_rescore_one` of a problem without a solution.
unfoldable pub rescore_missing : (previous : Json) → Result ScoreError Fields
unfolding update
rescore_missing (obj f) = ok (
    update
      (field (codes "status") (str (codes "missing"))
        (field (codes "passed") (boolean false) (field (codes "points") (int (pos 0)) end)))
      f)
rescore_missing _ = err not_an_object
