-- ===== src/Tactics/Tests.antt =====
-- Runs of the canonical candidate, and the witness.
use re_takehome_submission.Common.{◌≡◌, refl, keep, ◌∷◌, ◌++◌}
use re_takehome_submission.Common.Text.{Text, codes, join, lstrip, starts_with, is_space}
use re_takehome_submission.Common.Lines.{splitlines, lines_from, is_break, ends_with}
use re_takehome_submission.Lean.Warm.{is_import_line, pristine_import_block}
use re_takehome_submission.Tactics.{lstrip_newlines, body_of, canonicalize_imports}
use re_takehome_submission.Tactics.Content.{is_content, canonicalize_imports_lem}

abbrev challenge : Text
challenge = codes "import Mathlib.Tactic\n\ntheorem t : True := by\n  sorry\n"

abbrev candidate : Text
candidate = codes "import Mathlib\n  import Evil\n\ntheorem t : True := by\n  trivial"

canonicalized :
    canonicalize_imports candidate challenge
    ≡ codes "import Mathlib.Tactic\n\ntheorem t : True := by\n  trivial\n"
unfolding canonicalize_imports body_of lstrip_newlines is_import_line pristine_import_block
    splitlines lines_from is_break join lstrip starts_with is_space ends_with
canonicalized = refl

-- An import that is followed by a tab is not taken for one.
tab_left :
    canonicalize_imports (9 ∷ codes "import" ++ (9 ∷ codes "Evil")) challenge
    ≡ codes "import Mathlib.Tactic\n\n" ++ (9 ∷ codes "import" ++ (9 ∷ codes "Evil\n"))
unfolding canonicalize_imports body_of lstrip_newlines is_import_line pristine_import_block
    splitlines lines_from is_break join lstrip starts_with is_space ends_with
tab_left = refl

canonicalize_imports_lem_example :
    (pristine_import_block (canonicalize_imports candidate challenge)
      ≡ pristine_import_block challenge)
    × (keep is_content (splitlines (canonicalize_imports candidate challenge))
        ≡ keep is_content (splitlines candidate))
canonicalize_imports_lem_example = canonicalize_imports_lem candidate challenge
