-- ===== src/Scoring/Tests.antt =====
-- A passed result, scored again, and one with money still reserved.
use re_takehome_submission.Common.{◌≡◌, refl, Bool, true, false, ◌&&◌, Option, none, some, ◌==◌}
use re_takehome_submission.Common.Int.{Amount}
use re_takehome_submission.Common.Text.{Text, codes, text_eq}
use re_takehome_submission.Common.Json.{boolean, null, obj, end, nil, get, truthy}
use re_takehome_submission.Worker.{finished, compared, conclude}
use re_takehome_submission.Worker.Writing.{Reports, result_json}
use re_takehome_submission.Scoring.{
  Verdict, rescore, is_budget_ok, to_float, is_at_most, update, put,
}
use re_takehome_submission.Scoring.Rescored.{passed_field, snapshot_of, rescore-result_json}

abbrev reports : Reports
reports = record {
  problem_id = codes "p1";
  comparator = null;
  answer_errors = nil;
  models_used = nil;
  both_models = true;
  agent_error = null;
  agent_metadata = obj end;
}

abbrev verdict : Verdict
verdict = record {
  passed = true;
  exit_code = null;
  timed_out = false;
  duration_ms = 10;
  output = obj end;
}

abbrev float_of_text : Text → Option Amount
float_of_text t = none

-- The worker gives no point, since money is reserved; the second scoring does.
reserved_passes :
    passed_field (
      rescore float_of_text 100
        (codes "p1")
        verdict
        true
        nil
        (obj (result_json reports finished (compared true) true (snapshot_of 100 60 40 true) 5 9)))
    ≡ some (boolean true)
unfolding rescore is_budget_ok to_float is_at_most update put result_json get text_eq truthy
reserved_passes = refl

rescore-result_json_example :
    (now : Bool) × (passed_field (
        rescore float_of_text 100 (codes "p1") verdict true nil (
          obj (result_json reports finished (compared true) true (snapshot_of 100 60 40 true) 5 9)))
      ≡ some (boolean now))
    × ((conclude finished (compared true) true (snapshot_of 100 60 40 true) 5 9).1
        ≡ now && (40 == 0))
rescore-result_json_example =
    rescore-result_json float_of_text reports finished 5 9 100 60 40 true verdict true nil
