-- ===== src/Engine/Salvaging.antt =====
-- `_attempt_salvage`: the first proposed skeleton with a retained proof line that the warm Lean
-- service compiles up to `sorry`. The service is outside the model: `check` gives its answer for a
-- source.
pub mod Chosen
mod Tests
use re_takehome_submission.Common.{
  ℕ, zero, suc, ◌+◌, Bool, true, false, not, ◌&&◌, Option, none, some, List, [], ◌∷◌, ◌++◌, ltb,
  if◌then◌else◌, keep, any, is_empty,
}
use re_takehome_submission.Common.Text.{Text}
use re_takehome_submission.Common.Json.{Json, Fields}
use re_takehome_submission.Salvage.{SorrificationCandidate, Mode, propose_sorrifications}
use re_takehome_submission.Salvage.Message.{is_error}
use re_takehome_submission.Salvage.Source.{contains_sorry}
use re_takehome_submission.Uplift.{normalized_candidate}
use re_takehome_submission.Engine.State.{SalvageEvent, no_transformation, no_structure, checked}

-- `LeanCheck`, the part that the engine reads.
pub record LeanCheck : Type 0 where
  pub accepted : Bool
  pub timed_out : Bool
  pub messages : List Fields

pub record Skeleton : Type 0 where
  pub source : Text
  pub mode : Mode
  pub retained_lines : ℕ
  pub residual_goals : Text
  pub sha256 : Text

-- What the code outside the repository provides: `\w` beyond ASCII, `str`, `str.lower`, the digest.
pub record Python : Type 0 where
  pub unicode_word : ℕ → Bool
  pub str_of : Json → Text
  pub lower : Text → Text
  pub sha256 : Text → Text

abbrev pub digest : Python → Text → Text
digest py s = py.sha256 (normalized_candidate s)

-- `compiles_with_sorry` of collaboration_engine_v2/salvage.py
unfoldable pub compiles_with_sorry : Python → Text → LeanCheck → Bool
compiles_with_sorry py source c =
    contains_sorry py.unicode_word source && (not c.timed_out && not (any is_error c.messages))

abbrev skeleton_of : Python → SorrificationCandidate → Skeleton
skeleton_of py c = record {
  source = c.source;
  mode = c.mode;
  retained_lines = c.retained_lines;
  residual_goals = c.residual_goals;
  sha256 = digest py c.source;
}

-- The loop over the candidates: the events, and the first that compiles.
unfoldable pub try_candidates :
    Python
    → (check : Text → LeanCheck) → (index : ℕ) → List SorrificationCandidate
    → List SalvageEvent × Option Skeleton
try_candidates py check i [] = ([], none)
try_candidates py check i (c ∷ cs) =
    let answer = check c.source in
    let compiled = compiles_with_sorry py c.source answer in
    let event = checked i compiled answer.timed_out (digest py c.source) in
    let rest = try_candidates py check (suc i) cs in
    if compiled then (event ∷ [], some (skeleton_of py c)) else (event ∷ rest.0, rest.1)

-- The candidates that keep a proof line.
unfoldable pub meaningful : List SorrificationCandidate → List SorrificationCandidate
meaningful cs = keep (λ (c : SorrificationCandidate). ltb 0 c.retained_lines) cs

-- `_attempt_salvage`: the events that it adds to the track, and its result.
unfoldable pub attempt_salvage :
    Python
    → (diagnostic_chars : ℕ) → (check : Text → LeanCheck) → (proposal : Text) → List Fields
    → List SalvageEvent × Option Skeleton
attempt_salvage py chars check proposal messages =
    let cs = propose_sorrifications py.unicode_word py.str_of chars proposal messages in
    if is_empty cs
    then (no_transformation (digest py proposal) ∷ [], none)
    else if is_empty (meaningful cs)
    then (no_structure (digest py proposal) ∷ [], none)
    else try_candidates py check 1 (meaningful cs)
