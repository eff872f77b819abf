-- ===== src/Engine/Salvaging/Tests.antt =====
-- A proof with a failing last line, and a Lean that compiles every skeleton.
use re_takehome_submission.Common.{◌≤◌, ◌≡◌, none, some, [], ◌∷◌, false}
use re_takehome_submission.Common.Int.{pos}
use re_takehome_submission.Common.Text.{Text, codes}
use re_takehome_submission.Common.Json.{Json, Fields, int, str, obj, end, field}
use re_takehome_submission.Engine.Salvaging.{
  LeanCheck, Skeleton, Python, meaningful, attempt_salvage,
}
use re_takehome_submission.Engine.Salvaging.Chosen.{
  Offers, Compiles, NoneCompiles, proposals, attempt_salvage-chosen,
}

abbrev text_of : Json → Text
text_of (str t) = t
text_of _ = []

abbrev python : Python
python = record { unicode_word = λ c. false; str_of = text_of; lower = λ t. t; sha256 = λ t. t }

abbrev compiles_all : Text → LeanCheck
compiles_all t = record { accepted = false; timed_out = false; messages = [] }

abbrev proof : Text
proof = codes "theorem x : 1 = 1 := by\n  have h := rfl\n  simp\n"

abbrev failure : Fields
failure = field (codes "severity") (str (codes "error")) (
    field (codes "pos") (obj (field (codes "line") (int (pos 3)) end))
      (field (codes "data") (str (codes "unsolved goals")) end))

attempt_salvage-chosen_example :
    ((s : Skeleton)
      → (attempt_salvage python 600 compiles_all proof (failure ∷ [])).1 ≡ some s
      → Offers s (proposals python 600 compiles_all proof (failure ∷ []))
        × (1 ≤ s.retained_lines)
        × Compiles python compiles_all s)
    × ((attempt_salvage python 600 compiles_all proof (failure ∷ [])).1 ≡ none
        → NoneCompiles python compiles_all
            (meaningful (proposals python 600 compiles_all proof (failure ∷ []))))
attempt_salvage-chosen_example = attempt_salvage-chosen python 600 compiles_all proof (failure ∷ [])
