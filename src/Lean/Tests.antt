-- ===== src/Lean/Tests.antt =====
-- The mask on concrete texts.
use re_takehome_submission.Common.{◌≡◌, refl, ◌++◌}
use re_takehome_submission.Common.Text.{codes}
use re_takehome_submission.Lean.{mask_comments}
use re_takehome_submission.Lean.Lexing.{
  Lexed, done, code, line, block, text, closes, goes_on, opens, quote, letter, mask_comments-Lexed,
}

masks : mask_comments (codes "a /- /- x -/ -/ b -- c") ≡ codes "a               b     "
unfolding mask_comments
masks = refl

-- `a/-/-"-/-/"b"--c`
sample :
    Lexed
      (codes "a" ++ codes "/-/-x-/-/" ++ codes "\"b\"" ++ codes "--c")
      (codes "a" ++ codes "         " ++ codes "   " ++ codes "   ")
sample = code b'a' refl refl refl (
    block (opens (goes_on b'x' refl refl closes) closes)
      (text (letter b'b' refl refl quote) (line (codes "c") (refl, tt) tt done)))

mask_comments-Lexed_example :
    mask_comments (codes "a" ++ codes "/-/-x-/-/" ++ codes "\"b\"" ++ codes "--c")
    ≡ codes "a" ++ codes "         " ++ codes "   " ++ codes "   "
mask_comments-Lexed_example = mask_comments-Lexed sample
