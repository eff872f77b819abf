-- ===== src/Lean/Masking.antt =====
-- The mask of comments and strings.
use re_takehome_submission.Common.{
  ℕ, ◌≡◌, refl, ap, ◌⊎◌, inl, inr, false, ◌&&◌, [], ◌∷◌, ◌==◌, arith, Bool-cases,
}
use re_takehome_submission.Common.Text.{Text}
use re_takehome_submission.Lean.{
  Scan, plain, line_comment, in_string, nested, second, blank, next_is, scan, mask_from,
  mask_comments,
}

-- Each character of the second text is the one of the first or a space.
abbrev pub Blanks : Text → Text → Type 0
Blanks [] [] = Unit
Blanks [] (d ∷ t) = ⊥
Blanks (c ∷ s) [] = ⊥
Blanks (c ∷ s) (d ∷ t) = ((d ≡ c) ⊎ (d ≡ blank)) × Blanks s t

scan_keeps : (k : Scan) (c : ℕ) (s : Text) → ((scan k c s).0 ≡ c) ⊎ ((scan k c s).0 ≡ blank)
unfolding scan
scan_keeps (second k) c s = inr refl
scan_keeps line_comment c s = ground arith
scan_keeps (nested n) c s = ground arith
scan_keeps in_string c s = ground arith
scan_keeps plain c s = ground arith

mask_from-Blanks : (k : Scan) (s : Text) → Blanks s (mask_from k s)
unfolding mask_from
mask_from-Blanks k [] = tt
mask_from-Blanks k (c ∷ s) = (scan_keeps k c s, mask_from-Blanks (scan k c s).1 s)

next_kept :
    (c : ℕ) (k : Scan) (s : Text)
    → (blank == c) ≡ false
    → next_is c s ≡ false
    → next_is c (mask_from k s) ≡ false
unfolding mask_from
next_kept c k [] h q = refl
next_kept c k (d ∷ s) h q = elim (scan_keeps k d s) [ inl e ↦ rw e q | inr e ↦ rw e h ]

-- In a plain scan nothing begins at the character: no pair, no string.
abbrev IsQuiet : ℕ → Text → Type 0
IsQuiet c s =
    (((c == b'-') && next_is b'-' s) ≡ false)
    × (((c == b'/') && next_is b'-' s) ≡ false)
    × ((c == b'"') ≡ false)

quiet : (c : ℕ) (s : Text) → IsQuiet c s → scan plain c s ≡ (c, plain)
unfolding scan
quiet c s (h, k, q) = rw (h, k, q)

written :
    (k : Scan) (c : ℕ) (s : Text)
    → let o = (scan k c s).0 in ((o ≡ blank) ⊎ (o ≡ 10)) ⊎ ((o ≡ c) × IsQuiet c s)
unfolding scan
written (second k) c s = inl (inl refl)
written line_comment c s = elim (Bool-cases (c == 10)) [
  | inl e ↦ rw e (inl (inr (ground arith)))
  | inr e ↦ rw e (inl (inl refl))
]
written (nested n) c s = inl (ground arith)
written in_string c s = inl (ground arith)
written plain c s = ground arith

rest_quiet :
    (c d e : ℕ) (k : Scan) (s : Text)
    → (blank == d) ≡ false
    → ((c == e) && next_is d s) ≡ false
    → ((c == e) && next_is d (mask_from k s)) ≡ false
rest_quiet c d e k s b h = elim (Bool-cases (c == e)) [
  | inl q ↦ rw q (next_kept d k s b (rw q at h))
  | inr q ↦ rw q
]

-- What is written stays in a plain scan, whatever follows it in the mask.
rescan :
    (k : Scan) (c : ℕ) (s : Text)
    → let (o, k') = scan k c s in scan plain o (mask_from k' s) ≡ (o, plain)
rescan k c s = elim (written k c s) [
  | inl (inl e) ↦ rw e (quiet blank (mask_from (scan k c s).1 s) (refl, refl, refl))
  | inl (inr e) ↦ rw e (quiet 10 (mask_from (scan k c s).1 s) (refl, refl, refl))
  | inr (e, (h, i, j)) ↦ rw e (
      quiet c (mask_from (scan k c s).1 s) (
        rest_quiet c b'-' b'-' (scan k c s).1 s refl h,
        rest_quiet c b'-' b'/' (scan k c s).1 s refl i,
        j,
      ))
]

mask_again : (k : Scan) (s : Text) → mask_from plain (mask_from k s) ≡ mask_from k s
unfolding mask_from
mask_again k [] = refl
mask_again k (c ∷ s) =
    rw (rescan k c s) (ap (λ t. (scan k c s).0 ∷ t) (mask_again (scan k c s).1 s))

-- To mask the result again changes nothing, and every character is kept or blanked.
mask_comments-again :
    (s : Text) → Blanks s (mask_comments s) × (mask_comments (mask_comments s) ≡ mask_comments s)
unfolding mask_comments
mask_comments-again s = (mask_from-Blanks plain s, mask_again plain s)
