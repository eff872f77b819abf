-- ===== src/Lean/Warm.antt =====
-- src/re_harness/lean.py: the import block, the body that the warm REPL is sent, and when its answer
-- accepts a file. The container with the REPL, and the length in UTF-8, are arguments.
use re_takehome_submission.Common.{
  ℕ, Bool, false, not, ◌&&◌, Option, none, some, List, [], ◌∷◌, ltb, if◌then◌else◌, any, keep,
}
use re_takehome_submission.Common.Text.{
  Text, codes, text_eq, starts_with, contains, lstrip, strip, join,
}
use re_takehome_submission.Common.Lines.{splitlines}
use re_takehome_submission.Common.Json.{Json, Fields, str, get}
use re_takehome_submission.Common.Results.{Result, ok, err}

-- `line.lstrip().startswith("import ")`
unfoldable pub is_import_line : Text → Bool
unfolding lstrip starts_with
is_import_line l = starts_with (codes "import ") (lstrip l)

-- `s or "import Mathlib"`
abbrev pub or_mathlib : Text → Text
or_mathlib [] = codes "import Mathlib"
or_mathlib (c ∷ s) = c ∷ s

-- `pristine_import_block`
unfoldable pub pristine_import_block : Text → Text
unfolding is_import_line join splitlines
pristine_import_block source =
    or_mathlib (join (codes "\n") (keep is_import_line (splitlines source)))

-- `self.base_imports`
unfoldable pub base_imports : Text → Text
unfolding strip
base_imports imports = or_mathlib (strip imports)

-- The lines of `_check_file_sync` that are sent.
unfoldable pub warm_body : Text → Text
unfolding is_import_line join splitlines
warm_body source = join (codes "\n") (keep (λ l. not (is_import_line l)) (splitlines source))

-- What the REPL answers.
pub record ReplAnswer : Type 0 where
  pub messages : List Fields
  pub timed_out : Bool

pub record LeanResult : Type 0 where
  pub accepted : Bool
  pub messages : List Fields
  pub has_sorry : Bool
  pub timed_out : Bool

abbrev data_text : (Json → Text) → Option Json → Text
data_text str_of none = []
data_text str_of (some v) = str_of v

abbrev names_error : Option Json → Bool
names_error (some (str s)) = text_eq s (codes "error")
names_error _ = false

pub data LeanRuntimeError : Type 0 where
  source_too_long : LeanRuntimeError
  repl_failed : LeanRuntimeError

module _ (str_of : Json → Text) (lower : Text → Text) (utf8_length : Text → ℕ) where
  -- `"sorry" in str(message.get("data", "")).lower()`
  unfoldable pub speaks_of_sorry : Fields → Bool
  unfolding get contains
  speaks_of_sorry m = contains (codes "sorry") (lower (data_text str_of (get (codes "data") m)))

  unfoldable pub is_error_message : Fields → Bool
  unfolding get text_eq
  is_error_message m = names_error (get (codes "severity") m)

  unfoldable pub result_of : ReplAnswer → LeanResult
  unfolding speaks_of_sorry is_error_message
  result_of a =
      let has_sorry = any speaks_of_sorry a.messages in
      record {
        accepted = not a.timed_out && (not has_sorry && not (any is_error_message a.messages));
        messages = a.messages;
        has_sorry = has_sorry;
        timed_out = a.timed_out;
      }

  -- `_check_file_sync`
  unfoldable pub check_file :
      (send : Text → Result LeanRuntimeError ReplAnswer) → Text → Result LeanRuntimeError LeanResult
  unfolding warm_body result_of
  check_file send source =
      if ltb 1_000_000 (utf8_length source)
      then err source_too_long
      else elim (send (warm_body source)) [ err e ↦ err e | ok a ↦ ok (result_of a) ]
