-- ===== src/Salvage.antt =====
-- collaboration_engine_v2/salvage.py: source transformations that turn a failing proof into a
-- skeleton with `sorry` at the failing place.
-- Lines are numbered from 0. `unicode_word` tells which code points from 128 on match `\w`, and
-- `str_of` is Python's `str` on a value; both come from outside the repository.
pub mod Message
pub mod Source
pub mod Shape
pub mod Cuts
mod Tests
use re_takehome_submission.Common.{
  ℕ, zero, suc, ◌+◌, ◌-◌, Bool, true, false, not, ◌&&◌, ◌||◌, Option, none, some, List, [], ◌∷◌,
  ◌++◌, leb, ltb, ◌==◌, if◌then◌else◌, length, take, drop, any, is_empty, keep, min, max,
}
use re_takehome_submission.Common.Text.{
  Text, codes, text_eq, strip, rstrip, is_space, starts_with, contains, join,
}
use re_takehome_submission.Common.Json.{Json, Fields}
use re_takehome_submission.Common.Lines.{
  splitlines, unix_newlines, indent_of, ends_with, split_once, is_letter, is_ascii_word, is_word,
  begins_word, finds_sorry,
}
use Source.{
  Span, render, render_span, body_indent, proof_body_line, contains_sorry, declaration_bounds,
  line_count,
}
use Message.{error_messages, residual_goal_text, position_line, position_end_line}

pub data Mode : Type 0 where
  diagnostic_span failing_suffix whole_proof_body : Mode

pub record SorrificationCandidate : Type 0 where
  pub source : Text
  pub mode : Mode
  pub declaration_line : ℕ
  pub error_line : ℕ
  pub retained_lines : ℕ
  pub residual_goals : Text

abbrev pub min_of : ℕ → List ℕ → ℕ
min_of m [] = m
min_of m (x ∷ xs) = min_of (min m x) xs

abbrev pub positions : List Fields → List ℕ
positions [] = []
positions (m ∷ ms) = elim (position_line m) [ none ↦ positions ms | some n ↦ n ∷ positions ms ]

abbrev or_far : Option ℕ → ℕ
or_far none = 1_000_000_000
or_far (some n) = n

-- `min(errors, key=...)`: the first of the least lines.
unfoldable pub earliest_from : Fields → List Fields → Fields
unfolding position_line
earliest_from m [] = m
earliest_from m (k ∷ ks) =
    earliest_from (if ltb (or_far (position_line k)) (or_far (position_line m)) then k else m) ks

abbrev end_or : ℕ → Option ℕ → ℕ
end_or d none = d
end_or d (some n) = n

abbrev pub end_line_of : ℕ → List Fields → ℕ
end_line_of d [] = d
end_line_of d (m ∷ ms) = end_or d (position_end_line (earliest_from m ms))

-- What `propose_sorrifications` has found before it builds candidates: the lines, the failing line,
-- the declaration's first line and the one behind its last, and the line that opens the body.
pub record Site : Type 0 where
  pub lines : List Text
  pub error_index : ℕ
  pub start : ℕ
  pub stop : ℕ
  pub body_line : ℕ
  pub span_end : ℕ
  pub residual : Text

-- `if not answer or candidate.source != answer[-1].source: answer.append(candidate)`
abbrev pub differs : SorrificationCandidate → List SorrificationCandidate → Bool
differs c [] = true
differs c (a ∷ []) = not (text_eq c.source a.source)
differs c (a ∷ b ∷ r) = differs c (b ∷ r)

unfoldable pub append_new :
    List SorrificationCandidate → SorrificationCandidate → List SorrificationCandidate
unfolding text_eq
append_new answer c = if differs c answer then answer ++ c ∷ [] else answer

unfoldable pub prefix_keep : Site → ℕ
prefix_keep s = max s.body_line (s.error_index - 1)

unfoldable pub whole_candidate : Site → SorrificationCandidate
unfolding render body_indent
whole_candidate s = record {
  source = render s.lines s.body_line s.stop (body_indent 0 (s.body_line + 1) s.stop s.lines);
  mode = whole_proof_body;
  declaration_line = s.start + 1;
  error_line = s.error_index + 1;
  retained_lines = 0;
  residual_goals = s.residual;
}

module _ (unicode_word : ℕ → Bool) where
  unfoldable pub span_candidate : Site → SorrificationCandidate
  unfolding render_span line_count
  span_candidate s = record {
    source = render_span s.lines s.error_index s.span_end;
    mode = diagnostic_span;
    declaration_line = s.start + 1;
    error_line = s.error_index + 1;
    retained_lines =
        line_count unicode_word 0 (s.body_line + 1) s.stop
          (some (record { first = s.error_index; last = s.span_end })) false s.lines;
    residual_goals = s.residual;
  }

  unfoldable pub suffix_candidate : Site → SorrificationCandidate
  unfolding render body_indent line_count prefix_keep
  suffix_candidate s = record {
    source = render s.lines (prefix_keep s) s.stop (body_indent 0 (s.body_line + 1) s.stop s.lines);
    mode = failing_suffix;
    declaration_line = s.start + 1;
    error_line = s.error_index + 1;
    retained_lines =
        line_count unicode_word 0 (s.body_line + 1) (prefix_keep s + 1) none false s.lines;
    residual_goals = s.residual;
  }

  -- The candidates of a site, narrowest first.
  unfoldable pub candidates : Site → List SorrificationCandidate
  unfolding append_new
  candidates s =
      let span = span_candidate s in
      let first : List SorrificationCandidate =
        if ltb 0 span.retained_lines then span ∷ [] else [] in
      let second =
        if ltb s.body_line (prefix_keep s) then append_new first (suffix_candidate s) else first in
      take 3 (append_new second (whole_candidate s))

module _ (unicode_word : ℕ → Bool) (str_of : Json → Text) (residual_chars : ℕ) where
  unfoldable pub site_in : List Text → ℕ → List Fields → ℕ × ℕ → Option Site
  site_in ls e errors (start, stop) = elim (proof_body_line ls start stop) [
    | none ↦ none
    | some body ↦
        if leb e body
        then none
        else some (record {
          lines = ls;
          error_index = e;
          start = start;
          stop = stop;
          body_line = body;
          span_end = min (stop - 1) (max e (end_line_of (e + 1) errors - 1));
          residual = residual_goal_text str_of errors residual_chars;
        })
  ]

  unfoldable pub site_at : List Text → ℕ → List Fields → Option Site
  site_at ls e errors =
      if ltb e (length ls)
      then elim (declaration_bounds unicode_word ls e) [
        | none ↦ none
        | some b ↦ site_in ls e errors b
      ]
      else none

  -- The first half of `propose_sorrifications`: `none` where it returns no candidate.
  unfoldable pub find_site : Text → List Fields → Option Site
  find_site source messages =
      let errors = error_messages messages in
      if contains_sorry unicode_word source then none else elim (positions errors) [
        | [] ↦ none
        | n ∷ ns ↦ site_at (splitlines (unix_newlines source)) (min_of n ns - 1) errors
      ]

  -- `propose_sorrifications`
  unfoldable pub propose_sorrifications : Text → List Fields → List SorrificationCandidate
  propose_sorrifications source messages = elim (find_site source messages) [
    | none ↦ []
    | some s ↦ candidates unicode_word s
  ]
