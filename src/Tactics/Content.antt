-- ===== src/Tactics/Content.antt =====
-- The lines of a candidate that its canonical form keeps.
use mathlib.Core.List.{append_assoc, append-nil}
use re_takehome_submission.Common.{
  ◌≡◌, refl, ap, ◌∙◌, Bool, true, false, not, ◌&&◌, List, [], ◌∷◌, ◌++◌, if◌then◌else◌, keep,
  is_empty, Bool-cases, inl, inr,
}
use re_takehome_submission.Common.Text.{Text, codes, join}
use re_takehome_submission.Common.Lines.{splitlines, lines_from, is_break, ends_with}
use re_takehome_submission.Lean.Warm.{is_import_line, or_mathlib, pristine_import_block}
use re_takehome_submission.Events.Reading.{plain-line}
use re_takehome_submission.Tactics.{body_of, canonicalize_imports}
use re_takehome_submission.Tactics.Imports.{
  AreKept, is_other, one_line, drop_empty, other_lines, other_lines-AreKept, body-other_lines,
  import_lines, import_lines-AreKept, import_lines-written, or_mathlib-join, imports_kept,
  lines-written_append, kept_breaks, canonicalize_imports-pristine_import_block,
}

-- A line that is neither empty nor an import.
abbrev pub is_content : Text → Bool
is_content l = not (is_empty l) && not (is_import_line l)

contents : List Text → List Text
contents = keep is_content

contents-append : (xs ys : List Text) → contents (xs ++ ys) ≡ contents xs ++ contents ys
unfolding contents
contents-append [] ys = refl
contents-append (x ∷ xs) ys = elim (Bool-cases (is_content x)) [
  | inl e ↦ rw e (ap (λ t. x ∷ t) (contents-append xs ys))
  | inr e ↦ rw e (contents-append xs ys)
]

contents_below :
    (x : Text) (xs ys : List Text)
    → contents xs ≡ contents ys
    → contents (x ∷ xs) ≡ contents (x ∷ ys)
unfolding contents
contents_below x xs ys h = elim (Bool-cases (is_content x)) [
  | inl e ↦ rw e (ap (λ t. x ∷ t) h)
  | inr e ↦ rw e h
]

joined-contents :
    (xs : List Text) (b : Bool)
    → AreKept is_other xs
    → contents (lines_from false (join (codes "\n") xs ++ (if b then 10 ∷ [] else [])))
      ≡ contents xs
unfolding join lines_from is_break contents
joined-contents [] true h = refl
joined-contents [] false h = refl
joined-contents (x ∷ []) true h = rw (plain-line x [] h.0.1) refl
joined-contents ([] ∷ []) false h = refl
joined-contents ((c ∷ l) ∷ []) false h = rw (append-nil l, one_line c l h.0.1) refl
joined-contents (x ∷ y ∷ r) b h =
    let tail = if b then 10 ∷ [] else [] in
    ap contents (
      ap (lines_from false) (append_assoc x (10 ∷ join (codes "\n") (y ∷ r)) tail)
      ∙ plain-line x (join (codes "\n") (y ∷ r) ++ tail) h.0.1)
    ∙ contents_below x (lines_from false (join (codes "\n") (y ∷ r) ++ tail)) (y ∷ r)
        (joined-contents (y ∷ r) b h.1)

drop_empty-contents : (xs : List Text) → contents (drop_empty xs) ≡ contents xs
unfolding contents
drop_empty-contents [] = refl
drop_empty-contents ([] ∷ xs) = drop_empty-contents xs
drop_empty-contents ((c ∷ l) ∷ xs) = refl

other-contents : (xs : List Text) → contents (keep is_other xs) ≡ contents xs
unfolding contents
other-contents [] = refl
other-contents ([] ∷ xs) = elim (Bool-cases (is_other [])) [
  | inl e ↦ rw e (other-contents xs)
  | inr e ↦ rw e (other-contents xs)
]
other-contents ((c ∷ l) ∷ xs) = elim (Bool-cases (is_import_line (c ∷ l))) [
  | inl e ↦ rw e (other-contents xs)
  | inr e ↦ rw e (rw e (ap (λ t. (c ∷ l) ∷ t) (other-contents xs)))
]

import-contents : (xs : List Text) → AreKept is_import_line xs → contents xs ≡ []
unfolding contents
import-contents [] h = refl
import-contents ([] ∷ xs) h = import-contents xs h.1
import-contents ((c ∷ l) ∷ xs) h = rw h.0.0 (import-contents xs h.1)

body-contents :
    (source : Text) (b : Bool)
    → contents (lines_from false (body_of source ++ (if b then 10 ∷ [] else [])))
      ≡ contents (splitlines source)
body-contents source b = rw (body-other_lines source) (
    joined-contents (other_lines source) b (other_lines-AreKept source)
    ∙ drop_empty-contents (keep is_other (splitlines source))
    ∙ other-contents (splitlines source))

-- Behind an import block and a blank line.
contents-behind :
    (ks : List Text) (s : Text)
    → AreKept is_import_line ks
    → contents (splitlines (or_mathlib (join (codes "\n") ks) ++ (10 ∷ 10 ∷ s)))
      ≡ contents (lines_from false s)
unfolding splitlines lines_from is_break contents
contents-behind ks s k =
    let is = import_lines ks in
    let a = import_lines-AreKept ks k in
    ap (λ t. contents (lines_from false (t ++ (10 ∷ 10 ∷ s)))) (or_mathlib-join ks k)
    ∙ ap (λ t. contents (lines_from false t)) (import_lines-written ks (10 ∷ s))
    ∙ ap contents (lines-written_append is (10 ∷ s) (kept_breaks is_import_line is a))
    ∙ contents-append is ([] ∷ lines_from false s)
    ∙ ap (λ t. t ++ contents (lines_from false s)) (import-contents is a)

-- For every candidate and every challenge, the warm REPL finds the challenge's import block in the
-- canonical candidate, as it reads imports, lines that begin with `import` and a space; and the lines
-- of the candidate that are neither empty nor such imports are all kept, in their order, with no other
-- such line between them.
pub canonicalize_imports_lem :
    (source base : Text)
    → (pristine_import_block (canonicalize_imports source base) ≡ pristine_import_block base)
      × (keep is_content (splitlines (canonicalize_imports source base))
          ≡ keep is_content (splitlines source))
unfolding canonicalize_imports pristine_import_block contents
canonicalize_imports_lem source base =
    let b = not (is_empty (body_of source)) && not (ends_with (codes "\n") (body_of source)) in
    (
      canonicalize_imports-pristine_import_block source base,
      contents-behind (keep is_import_line (splitlines base))
            (body_of source ++ (if b then 10 ∷ [] else [])) (imports_kept base)
          ∙ body-contents source b,
    )
