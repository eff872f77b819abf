-- ===== src/Manifest/Tests.antt =====
-- A manifest with one problem.
use re_takehome_submission.Common.{Bool, true, ◌≡◌, refl, [], ◌∷◌}
use re_takehome_submission.Common.Int.{pos}
use re_takehome_submission.Common.Text.{Text, codes}
use re_takehome_submission.Common.Json.{
  Json, Fields, int, str, arr, obj, nil, cons, end, field, keys,
}
use re_takehome_submission.Common.Results.{ok}
use re_takehome_submission.Manifest.{
  ProblemSet, load_problem_set, load_problems, load_entries, load_entry, load_object, spec_of,
  close_spec, names, named, id_of, object_of, is_version, distinct, names_of,
}
use re_takehome_submission.Manifest.Sound.{IsSound, load_problem_set-IsSound}

abbrev files_ok : Text → Bool
files_ok t = true

abbrev entry : Fields
entry = field (codes "id") (str (codes "p1")) (
    field (codes "theorem_names") (arr (cons (str (codes "main")) nil)) (
      field (codes "definition_names") (arr (cons (str (codes "answer")) nil))
        (field (codes "numeric_answer_names") (arr (cons (str (codes "answer")) nil)) end)))

abbrev manifest : Json
manifest = obj (
    field (codes "schema_version") (int (pos 1))
      (field (codes "problems") (arr (cons (obj entry) nil)) end))

abbrev loaded : ProblemSet
loaded = record {
  name = codes "set";
  problems =
      record {
        id = codes "p1";
        theorem_names = codes "main" ∷ [];
        definition_names = codes "answer" ∷ [];
        numeric_answer_names = codes "answer" ∷ [];
        metadata = end;
      }
      ∷ [];
}

loads : load_problem_set files_ok (codes "set") manifest ≡ ok loaded
unfolding load_problem_set load_problems load_entries load_entry load_object spec_of close_spec
    names named id_of object_of is_version distinct names_of keys
loads = refl

load_problem_set-IsSound_example : IsSound files_ok loaded
load_problem_set-IsSound_example =
    load_problem_set-IsSound files_ok (codes "set") manifest loaded loads
