-- ===== src/Lean.antt =====
-- src/re_harness/lean.py: the mask of `numeric_answers_are_literals`. The loop moves over the text
-- with an index, one or two characters at a time; here each character is one step, and the second
-- character of a pair is the step of a state that waits for it.
pub mod Masking
pub mod Lexing
pub mod Warm
mod Tests
use re_takehome_submission.Common.{
  ℕ, zero, suc, ◌+◌, ◌-◌, Bool, true, false, not, ◌&&◌, List, [], ◌∷◌, ◌==◌, if◌then◌else◌,
  is_empty,
}
use re_takehome_submission.Common.Text.{Text}

-- `line_comment`, `depth` and `in_string`; a `depth` of zero is `plain`. In `second k` the next
-- character is the second one of a pair, behind which the state is `k`.
pub data Scan : Type 0 where
  plain line_comment in_string : Scan
  nested : (outer : ℕ) → Scan
  second : Scan → Scan

abbrev pub blank : ℕ
blank = b' '

abbrev pub next_is : ℕ → Text → Bool
next_is c [] = false
next_is c (d ∷ s) = d == c

-- `depth -= 1`
abbrev pub leave : ℕ → Scan
leave zero = plain
leave (suc n) = nested n

-- What is written in place of the character, given the text behind it, and the next state.
unfoldable pub scan : Scan → ℕ → Text → ℕ × Scan
scan (second k) c s = (blank, k)
scan line_comment c s = if c == 10 then (c, plain) else (blank, line_comment)
scan (nested n) c s =
    if (c == b'/') && next_is b'-' s
    then (blank, second (nested (n + 1)))
    else if (c == b'-') && next_is b'/' s
    then (blank, second (leave n))
    else if c == 10
    then (c, nested n)
    else (blank, nested n)
scan in_string c s =
    if (c == b'\\') && not (is_empty s)
    then (blank, second in_string)
    else if c == b'"'
    then (blank, plain)
    else (blank, in_string)
scan plain c s =
    if (c == b'-') && next_is b'-' s
    then (blank, second line_comment)
    else if (c == b'/') && next_is b'-' s
    then (blank, second (nested 0))
    else if c == b'"'
    then (blank, in_string)
    else (c, plain)

unfoldable pub mask_from : Scan → Text → Text
unfolding scan
mask_from k [] = []
mask_from k (c ∷ s) = let (o, k') = scan k c s in o ∷ mask_from k' s

-- `mask_comments`
unfoldable pub mask_comments : Text → Text
unfolding mask_from
mask_comments s = mask_from plain s
