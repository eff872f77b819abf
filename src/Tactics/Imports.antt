-- ===== src/Tactics/Imports.antt =====
-- The import lines of a canonical candidate.
use mathlib.Core.List.{append_assoc, append-nil}
use re_takehome_submission.Common.{
  ℕ, ◌≡◌, refl, ap, sym, ◌∙◌, Bool, true, false, not, ◌&&◌, List, [], ◌∷◌, ◌++◌, All, ◌==◌,
  if◌then◌else◌, if_cases, keep, is_empty, Bool-cases, inl, inr, arith,
}
use re_takehome_submission.Common.Text.{Text, codes, join, lstrip, starts_with}
use re_takehome_submission.Common.Lines.{splitlines, lines_from, is_break, cons_head, ends_with}
use re_takehome_submission.Lean.Warm.{is_import_line, or_mathlib, pristine_import_block}
use re_takehome_submission.Events.Reading.{HasNoBreak, written, plain-line, no_return}
use re_takehome_submission.Tactics.{lstrip_newlines, body_of, canonicalize_imports}

cons_head-HasNoBreak :
    (c : ℕ) (ls : List Text)
    → is_break c ≡ false
    → All HasNoBreak ls
    → All HasNoBreak (cons_head c ls)
cons_head-HasNoBreak c [] e h = ((e, tt), tt)
cons_head-HasNoBreak c (l ∷ ls) e h = ((e, h.0), h.1)

lines_from-HasNoBreak : (cr : Bool) (s : Text) → All HasNoBreak (lines_from cr s)
unfolding lines_from
lines_from-HasNoBreak cr [] = tt
lines_from-HasNoBreak cr (c ∷ s) =
    let h = lines_from-HasNoBreak (c == 13) s in
    if_cases (All HasNoBreak) (cr && (c == 10)) _ _ (λ _. h)
      (λ _.
        if_cases (All HasNoBreak) (is_break c) _ _ (λ _. (tt, h))
          (λ e. cons_head-HasNoBreak c _ e h))

-- A text without breaks is one line.
pub one_line : (c : ℕ) (l : Text) → HasNoBreak (c ∷ l) → lines_from false (c ∷ l) ≡ (c ∷ l) ∷ []
unfolding lines_from
one_line c [] h = rw h.0 refl
one_line c (d ∷ l) h = rw (no_return c h.0, h.0, one_line d l h.1) refl

pub lines-written_append :
    (ls : List Text) (s : Text)
    → All HasNoBreak ls
    → lines_from false (written ls ++ s) ≡ ls ++ lines_from false s
lines-written_append [] s h = refl
lines-written_append (l ∷ ls) s h =
    ap (lines_from false) (append_assoc l (10 ∷ written ls) s)
    ∙ plain-line l (written ls ++ s) h.0
    ∙ ap (λ ys. l ∷ ys) (lines-written_append ls s h.1)

join-written :
    (l : Text) (ls : List Text) (s : Text)
    → join (codes "\n") (l ∷ ls) ++ (10 ∷ s) ≡ written (l ∷ ls) ++ s
unfolding join
join-written l [] s = sym (append_assoc l (10 ∷ []) s)
join-written l (m ∷ ls) s =
    append_assoc l (10 ∷ join (codes "\n") (m ∷ ls)) (10 ∷ s)
    ∙ ap (λ t. l ++ (10 ∷ t)) (join-written m ls s)
    ∙ sym (append_assoc l (10 ∷ written (m ∷ ls)) s)

-- Lines that import nothing.
abbrev ImportNothing : List Text → Type 0
ImportNothing = All (λ l. is_import_line l ≡ false)

keep-append :
    (xs ys : List Text)
    → keep is_import_line (xs ++ ys) ≡ keep is_import_line xs ++ keep is_import_line ys
keep-append [] ys = refl
keep-append (x ∷ xs) ys = elim (Bool-cases (is_import_line x)) [
  | inl e ↦ rw e (ap (λ t. x ∷ t) (keep-append xs ys))
  | inr e ↦ rw e (keep-append xs ys)
]

keep_none : (xs : List Text) → ImportNothing xs → keep is_import_line xs ≡ []
keep_none [] h = refl
keep_none (x ∷ xs) h = rw h.0 (keep_none xs h.1)

-- Lines that are kept, of lines without breaks.
abbrev pub AreKept : (Text → Bool) → List Text → Type 0
AreKept test = All (λ l. (test l ≡ true) × HasNoBreak l)

keep-AreKept :
    (test : Text → Bool) (xs : List Text) → All HasNoBreak xs → AreKept test (keep test xs)
keep-AreKept test [] h = tt
keep-AreKept test (x ∷ xs) h = elim (Bool-cases (test x)) [
  | inl e ↦ rw e ((e, h.0), keep-AreKept test xs h.1)
  | inr e ↦ rw e (keep-AreKept test xs h.1)
]

kept_again : (xs : List Text) → AreKept is_import_line xs → keep is_import_line xs ≡ xs
kept_again [] h = refl
kept_again (x ∷ xs) ((e, b), h) = rw e (ap (λ t. x ∷ t) (kept_again xs h))

pub kept_breaks : (test : Text → Bool) (xs : List Text) → AreKept test xs → All HasNoBreak xs
kept_breaks test [] h = tt
kept_breaks test (x ∷ xs) h = (h.0.1, kept_breaks test xs h.1)

abbrev pub is_other : Text → Bool
is_other l = not (is_import_line l)

other : (l : Text) → is_other l ≡ true → is_import_line l ≡ false
other l h = elim (Bool-cases (is_import_line l)) [
  | inl e ↦ let k = rw e at h in absurd (cc)
  | inr e ↦ e
]

empty_line : is_import_line [] ≡ false
unfolding is_import_line
empty_line = refl

-- What `join` makes of other lines, with or without a line feed behind, holds no import.
joined-ImportNothing :
    (xs : List Text) (b : Bool)
    → AreKept is_other xs
    → ImportNothing (lines_from false (join (codes "\n") xs ++ (if b then 10 ∷ [] else [])))
unfolding join lines_from is_break
joined-ImportNothing [] true h = (empty_line, tt)
joined-ImportNothing [] false h = tt
joined-ImportNothing (x ∷ []) true h = rw (plain-line x [] h.0.1) (other x h.0.0, tt)
joined-ImportNothing ([] ∷ []) false h = tt
joined-ImportNothing ((c ∷ l) ∷ []) false h =
    rw (append-nil l, one_line c l h.0.1) (other (c ∷ l) h.0.0, tt)
joined-ImportNothing (x ∷ y ∷ r) b h =
    let tail = if b then 10 ∷ [] else [] in
    let e = append_assoc x (10 ∷ join (codes "\n") (y ∷ r)) tail in
    let k = plain-line x (join (codes "\n") (y ∷ r) ++ tail) h.0.1 in
    rw (e, k) (other x h.0.0, joined-ImportNothing (y ∷ r) b h.1)

-- Lines without the empty ones in front.
abbrev pub drop_empty : List Text → List Text
drop_empty [] = []
drop_empty ([] ∷ ls) = drop_empty ls
drop_empty ((c ∷ l) ∷ ls) = (c ∷ l) ∷ ls

drop_empty-AreKept :
    (test : Text → Bool) (xs : List Text) → AreKept test xs → AreKept test (drop_empty xs)
drop_empty-AreKept test [] h = tt
drop_empty-AreKept test ([] ∷ ls) h = drop_empty-AreKept test ls h.1
drop_empty-AreKept test ((c ∷ l) ∷ ls) h = h

no_feed : (c : ℕ) → is_break c ≡ false → (c == 10) ≡ false
unfolding is_break
no_feed c e = ground arith

lstrip_newlines-join :
    (test : Text → Bool) (xs : List Text)
    → AreKept test xs
    → lstrip_newlines (join (codes "\n") xs) ≡ join (codes "\n") (drop_empty xs)
unfolding lstrip_newlines join
lstrip_newlines-join test [] h = refl
lstrip_newlines-join test ([] ∷ []) h = refl
lstrip_newlines-join test ([] ∷ y ∷ ls) h = lstrip_newlines-join test (y ∷ ls) h.1
lstrip_newlines-join test ((c ∷ l) ∷ []) h = rw (no_feed c h.0.1.0) refl
lstrip_newlines-join test ((c ∷ l) ∷ y ∷ ls) h = rw (no_feed c h.0.1.0) refl

-- The import block, one import to a line.
abbrev pub import_lines : List Text → List Text
import_lines [] = codes "import Mathlib" ∷ []
import_lines (l ∷ ls) = l ∷ ls

pub import_lines-AreKept :
    (xs : List Text) → AreKept is_import_line xs → AreKept is_import_line (import_lines xs)
unfolding is_import_line is_break lstrip starts_with
import_lines-AreKept [] h = ((refl, grind arith), tt)
import_lines-AreKept (l ∷ ls) h = h

pub or_mathlib-join :
    (xs : List Text)
    → AreKept is_import_line xs
    → or_mathlib (join (codes "\n") xs) ≡ join (codes "\n") (import_lines xs)
unfolding join
or_mathlib-join [] h = refl
or_mathlib-join ([] ∷ ls) h = absurd (let k = sym empty_line ∙ h.0.0 in (cc))
or_mathlib-join ((c ∷ l) ∷ []) h = refl
or_mathlib-join ((c ∷ l) ∷ y ∷ ls) h = refl

pub import_lines-written :
    (xs : List Text) (s : Text)
    → join (codes "\n") (import_lines xs) ++ (10 ∷ s) ≡ written (import_lines xs) ++ s
import_lines-written [] s = join-written (codes "import Mathlib") [] s
import_lines-written (l ∷ ls) s = join-written l ls s

import_lines-again : (xs : List Text) → import_lines (import_lines xs) ≡ import_lines xs
import_lines-again [] = refl
import_lines-again (l ∷ ls) = refl

-- A blank line and lines that import nothing, behind the imports.
kept-behind :
    (is : List Text) (s : Text)
    → AreKept is_import_line is
    → ImportNothing (lines_from false s)
    → keep is_import_line (splitlines (written is ++ (10 ∷ s))) ≡ is
unfolding splitlines lines_from is_break
kept-behind is s k n =
    ap (keep is_import_line) (lines-written_append is (10 ∷ s) (kept_breaks is_import_line is k))
    ∙ keep-append is ([] ∷ lines_from false s)
    ∙ ap (λ t. keep is_import_line is ++ t) (keep_none ([] ∷ lines_from false s) (empty_line, n))
    ∙ append-nil (keep is_import_line is)
    ∙ kept_again is k

-- The lines of the source that are not imports.
abbrev pub other_lines : Text → List Text
other_lines source = drop_empty (keep is_other (splitlines source))

pub other_lines-AreKept : (source : Text) → AreKept is_other (other_lines source)
unfolding splitlines
other_lines-AreKept source =
    drop_empty-AreKept is_other _
      (keep-AreKept is_other (splitlines source) (lines_from-HasNoBreak false source))

pub body-other_lines : (source : Text) → body_of source ≡ join (codes "\n") (other_lines source)
unfolding body_of splitlines
body-other_lines source =
    lstrip_newlines-join is_other _
      (keep-AreKept is_other (splitlines source) (lines_from-HasNoBreak false source))

body-ImportNothing :
    (source : Text) (b : Bool)
    → ImportNothing (lines_from false (body_of source ++ (if b then 10 ∷ [] else [])))
body-ImportNothing source b =
    rw (body-other_lines source)
      (joined-ImportNothing (other_lines source) b (other_lines-AreKept source))

pub imports_kept : (base : Text) → AreKept is_import_line (keep is_import_line (splitlines base))
unfolding splitlines
imports_kept base = keep-AreKept is_import_line (splitlines base) (lines_from-HasNoBreak false base)

-- In front of text that imports nothing, the import block is read back.
block-again :
    (ks : List Text) (s : Text)
    → AreKept is_import_line ks
    → ImportNothing (lines_from false s)
    → pristine_import_block (or_mathlib (join (codes "\n") ks) ++ (10 ∷ 10 ∷ s))
      ≡ or_mathlib (join (codes "\n") ks)
unfolding pristine_import_block
block-again ks s k n =
    let is = import_lines ks in
    let a = import_lines-AreKept ks k in
    let e = or_mathlib-join ks k in
    let block = λ (t : Text). or_mathlib (join (codes "\n") (keep is_import_line (splitlines t))) in
    ap (λ t. block (t ++ (10 ∷ 10 ∷ s))) e
    ∙ ap block (import_lines-written ks (10 ∷ s))
    ∙ ap (λ t. or_mathlib (join (codes "\n") t)) (kept-behind is s a n)
    ∙ or_mathlib-join is a
    ∙ ap (join (codes "\n")) (import_lines-again ks)
    ∙ sym e

pub canonicalize_imports-pristine_import_block :
    (source base : Text)
    → pristine_import_block (canonicalize_imports source base) ≡ pristine_import_block base
unfolding canonicalize_imports pristine_import_block
canonicalize_imports-pristine_import_block source base =
    let b = not (is_empty (body_of source)) && not (ends_with (codes "\n") (body_of source)) in
    block-again (keep is_import_line (splitlines base))
      (body_of source ++ (if b then 10 ∷ [] else [])) (imports_kept base)
      (body-ImportNothing source b)
