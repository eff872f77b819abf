-- ===== src/Manifest.antt =====
-- src/re_harness/manifest.py: the checks of a problem set's manifest, on the value that `json.loads`
-- gives for it. The file system is outside the model: `files_ok` tells whether the two files of a
-- problem are there. The loop raises at the first fault; the errors carry no text here.
pub mod Names
pub mod Sound
mod Tests
use re_takehome_submission.Common.{
  ℕ, zero, suc, ◌+◌, Bool, true, false, not, ◌&&◌, ◌||◌, Option, none, some, List, [], ◌∷◌, leb,
  ◌==◌, if◌then◌else◌, any, all, length, is_empty,
}
use re_takehome_submission.Common.Int.{pos, negsuc, finite}
use re_takehome_submission.Common.Text.{Text, codes, text_eq, strip}
use re_takehome_submission.Common.Lines.{is_letter, is_digit}
use re_takehome_submission.Common.Json.{
  Json, Items, Fields, null, boolean, int, float, str, arr, obj, nil, cons, end, field, get, keys,
}
use re_takehome_submission.Common.Results.{Result, ok, err}

pub data ManifestError : Type 0 where
  wrong_version no_problems not_an_object invalid_id duplicate_id not_names numeric_not_definitions
        metadata_not_object unknown_fields missing_file set_not_string :
      ManifestError

pub record ProblemSpec : Type 0 where
  pub id : Text
  pub theorem_names : List Text
  pub definition_names : List Text
  pub numeric_answer_names : List Text
  pub metadata : Fields

pub record ProblemSet : Type 0 where
  pub name : Text
  pub problems : List ProblemSpec

unfoldable pub is_name_char : ℕ → Bool
unfolding is_letter is_digit
is_name_char c = is_letter c || (is_digit c || ((c == b'_') || (c == b'-')))

-- `_ID_RE.fullmatch`
unfoldable pub is_problem_id : Text → Bool
unfolding is_letter is_digit is_name_char
is_problem_id [] = false
is_problem_id (c ∷ s) = (is_letter c || is_digit c) && (all is_name_char s && leb (length s) 99)

abbrev pub member : Text → List Text → Bool
member t = any (text_eq t)

-- `len(set(value)) == len(value)`
unfoldable pub distinct : List Text → Bool
unfolding text_eq
distinct [] = true
distinct (x ∷ xs) = not (member x xs) && distinct xs

abbrev with_text : Text → Option (List Text) → Option (List Text)
with_text t none = none
with_text t (some ts) = if is_empty (strip t) then none else some (t ∷ ts)

-- The items, if all of them are strings that are not blank.
unfoldable pub texts_of : Items → Option (List Text)
unfolding strip
texts_of nil = some []
texts_of (cons (str t) is) = with_text t (texts_of is)
texts_of (cons _ is) = none

-- The rest of `_names`, behind the test for a list.
unfoldable pub names_of : (may_be_empty : Bool) → Option (List Text) → Option (List Text)
names_of may none = none
names_of may (some ts) =
    if not may && is_empty ts then none else if distinct ts then some ts else none

-- `_names`
unfoldable pub names : (may_be_empty : Bool) → Option Json → Option (List Text)
unfolding names_of texts_of
names may (some (arr is)) = names_of may (texts_of is)
names may _ = none

-- `entry.get(key, default)`
abbrev pub get_or : Json → Text → Fields → Option Json
get_or d k f = elim (get k f) [ none ↦ some d | some v ↦ some v ]

-- `metadata` must be an object.
unfoldable pub object_of : Option Json → Option Fields
object_of (some (obj f)) = some f
object_of _ = none

unfoldable pub id_of : Option Json → Option Text
unfolding is_problem_id
id_of (some (str t)) = if is_problem_id t then some t else none
id_of _ = none

abbrev pub allowed_fields : List Text
allowed_fields =
    codes "id"
    ∷ codes "theorem_names"
    ∷ codes "definition_names"
    ∷ codes "numeric_answer_names"
    ∷ codes "metadata"
    ∷ []

-- `raw.get("schema_version") == 1`; Python's `True` and `1.0` are equal to 1.
unfoldable pub is_version : Option Json → Bool
is_version (some (int (pos n))) = n == 1
is_version (some (boolean b)) = b
is_version (some (float (finite (pos n)))) = n == 10_000_000_000
is_version _ = false

-- The other exception is an attribute error, for a manifest that is no object.
pub data LoadError : Type 0 where
  manifest_error : ManifestError → LoadError
  attribute_error : LoadError

module _ (files_ok : Text → Bool) where
  -- The checks behind those of the names.
  unfoldable pub close_spec :
      Text → (theorems definitions numeric : List Text) → Fields → Result ManifestError ProblemSpec
  unfolding get
  close_spec id ts ds ns e =
      if not (all (λ n. member n ds) ns)
      then err numeric_not_definitions
      else elim (object_of (get_or (obj end) (codes "metadata") e)) [
        | none ↦ err metadata_not_object
        | some m ↦
            if not (all (λ k. member k allowed_fields) (keys e))
            then err unknown_fields
            else if not (files_ok id)
            then err missing_file
            else ok (record {
              id = id;
              theorem_names = ts;
              definition_names = ds;
              numeric_answer_names = ns;
              metadata = m;
            })
      ]

  -- The checks of an entry behind those of its id.
  unfoldable pub spec_of : Text → Fields → Result ManifestError ProblemSpec
  unfolding get
  spec_of id e = elim (names false (get (codes "theorem_names") e)) [
    | none ↦ err not_names
    | some ts ↦ elim (names true (get_or (arr nil) (codes "definition_names") e)) [
      | none ↦ err not_names
      | some ds ↦ elim (names true (get_or (arr nil) (codes "numeric_answer_names") e)) [
        | none ↦ err not_names
        | some ns ↦ close_spec id ts ds ns e
      ]
    ]
  ]

  -- The loop's body for an entry that is an object; `seen` holds the ids so far.
  unfoldable pub load_object : (seen : List Text) → Fields → Result ManifestError ProblemSpec
  unfolding get
  load_object seen e = elim (id_of (get (codes "id") e)) [
    | none ↦ err invalid_id
    | some id ↦ if member id seen then err duplicate_id else spec_of id e
  ]

  unfoldable pub load_entry : (seen : List Text) → Json → Result ManifestError ProblemSpec
  load_entry seen (obj e) = load_object seen e
  load_entry seen _ = err not_an_object

  abbrev before :
      ProblemSpec
      → Result ManifestError (List ProblemSpec)
      → Result ManifestError (List ProblemSpec)
  before p (err x) = err x
  before p (ok ps) = ok (p ∷ ps)

  -- The loop over the entries; it ends at the first one that fails.
  unfoldable pub load_entries : (seen : List Text) → Items → Result ManifestError (List ProblemSpec)
  load_entries seen nil = ok []
  load_entries seen (cons j is) = elim (load_entry seen j) [
    | err x ↦ err x
    | ok p ↦ before p (load_entries (p.id ∷ seen) is)
  ]

  name_of : (root_name : Text) → Option Json → Option Text
  name_of root none = some root
  name_of root (some (str t)) = some t
  name_of root (some _) = none

  -- `set` is checked behind the entries.
  unfoldable pub named :
      Option Text → Result ManifestError (List ProblemSpec) → Result LoadError ProblemSet
  named n (err x) = err (manifest_error x)
  named none (ok ps) = err (manifest_error set_not_string)
  named (some n) (ok ps) = ok (record { name = n; problems = ps })

  unfoldable pub load_problems : Option Text → Option Json → Result LoadError ProblemSet
  load_problems n (some (arr (cons j is))) = named n (load_entries [] (cons j is))
  load_problems n _ = err (manifest_error no_problems)

  -- `load_problem_set`, given the parsed value of manifest.json.
  unfoldable pub load_problem_set : (root_name : Text) → Json → Result LoadError ProblemSet
  unfolding name_of is_version get
  load_problem_set root (obj f) =
      if not (is_version (get (codes "schema_version") f))
      then err (manifest_error wrong_version)
      else load_problems (name_of root (get (codes "set") f)) (get (codes "problems") f)
  load_problem_set root _ = err attribute_error
