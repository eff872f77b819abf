-- ===== src/Salvage/Tests.antt =====
-- A proof with a failing last line.
use re_takehome_submission.Common.{
  ℕ, ◌≤◌, ◌<◌, ◌≡◌, refl, some, List, [], ◌∷◌, false, Bool, length, All, arith,
}
use re_takehome_submission.Common.Int.{pos}
use re_takehome_submission.Common.Text.{Text, codes}
use re_takehome_submission.Common.Lines.{splitlines, unix_newlines}
use re_takehome_submission.Common.Json.{Json, Fields, int, str, obj, end, field}
use re_takehome_submission.Salvage.{
  Site, find_site, site_at, site_in, earliest_from, propose_sorrifications,
}
use re_takehome_submission.Salvage.Message.{
  error_messages, position_line, position_end_line, residual_goal_text,
}
use re_takehome_submission.Salvage.Source.{
  declaration_bounds, bounds_of, starts_from, is_declaration, contains_sorry, proof_body_line,
}
use re_takehome_submission.Salvage.Shape.{declaration_bounds_hold}
use re_takehome_submission.Salvage.Cuts.{IsPlaced, Cuts, propose_sorrifications-Cuts}

abbrev text_of : Json → Text
text_of (str t) = t
text_of _ = []

abbrev ascii : ℕ → Bool
ascii c = false

abbrev proof : Text
proof = codes "theorem x : 1 = 1 := by\n  have h := rfl\n  simp\n"

abbrev proof_lines : List Text
proof_lines = codes "theorem x : 1 = 1 := by" ∷ codes "  have h := rfl" ∷ codes "  simp" ∷ []

abbrev failure : Fields
failure = field (codes "severity") (str (codes "error")) (
    field (codes "pos") (obj (field (codes "line") (int (pos 3)) end))
      (field (codes "data") (str (codes "unsolved goals")) end))

found : declaration_bounds ascii proof_lines 2 ≡ some (0, 3)
unfolding declaration_bounds bounds_of starts_from is_declaration
found = refl

declaration_bounds_hold_example : (0 ≤ 2) × (2 < 3) × (3 ≤ length proof_lines)
declaration_bounds_hold_example =
    declaration_bounds_hold ascii proof_lines 2 0 3 (ground arith) found

abbrev site : Site
site = record {
  lines = proof_lines;
  error_index = 2;
  start = 0;
  stop = 3;
  body_line = 0;
  span_end = 2;
  residual = codes "unsolved goals";
}

site_found : find_site ascii text_of 600 proof (failure ∷ []) ≡ some site
unfolding find_site site_at site_in earliest_from declaration_bounds bounds_of starts_from
    is_declaration contains_sorry proof_body_line error_messages position_line position_end_line
    splitlines unix_newlines residual_goal_text
site_found = refl

propose_sorrifications-Cuts_example :
    IsPlaced site × All (Cuts site) (propose_sorrifications ascii text_of 600 proof (failure ∷ []))
propose_sorrifications-Cuts_example =
    propose_sorrifications-Cuts ascii text_of 600 proof (failure ∷ []) site site_found
