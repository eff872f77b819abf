-- ===== src/Tactics.antt =====
-- collaboration_engine_v2/tactics.py: the imports of a candidate are replaced by the challenge's.
pub mod Imports
pub mod Content
mod Tests
use re_takehome_submission.Common.{
  Bool, true, false, not, ◌&&◌, List, [], ◌∷◌, ◌++◌, ◌==◌, if◌then◌else◌, keep, is_empty,
}
use re_takehome_submission.Common.Text.{Text, codes, join}
use re_takehome_submission.Common.Lines.{splitlines, ends_with}
use re_takehome_submission.Lean.Warm.{is_import_line, pristine_import_block}

-- `s.lstrip("\n")`
unfoldable pub lstrip_newlines : Text → Text
lstrip_newlines [] = []
lstrip_newlines (c ∷ s) = if c == 10 then lstrip_newlines s else c ∷ s

-- The candidate without its imports.
unfoldable pub body_of : Text → Text
unfolding lstrip_newlines is_import_line splitlines join
body_of source =
    lstrip_newlines (join (codes "\n") (keep (λ l. not (is_import_line l)) (splitlines source)))

-- `canonicalize_imports`
unfoldable pub canonicalize_imports : (source base : Text) → Text
unfolding body_of pristine_import_block ends_with
canonicalize_imports source base =
    let body = body_of source in
    pristine_import_block base
    ++ (10
        ∷ 10
        ∷ (body
            ++ (if not (is_empty body) && not (ends_with (codes "\n") body) then 10 ∷ [] else [])))
