-- ===== src/Common/Lines.antt =====
-- Lines of text, white space before them, and the words of Python's regular expressions.
use Prim.Native.Nat.{ℕ, ◌-◌}
use mathlib.Core.Bool.{Bool, false, not, ◌&&◌, ◌||◌}
use mathlib.Core.Option.{Option, none, some}
use mathlib.Core.List.{List, [], ◌∷◌}
use re_takehome_submission.Common.Tests.{leb, ◌==◌, if◌then◌else◌}
use re_takehome_submission.Common.Lists.{length, drop}
use re_takehome_submission.Common.Text.{Text, codes, is_space, starts_with}

-- The line boundaries of `str.splitlines`.
unfoldable pub is_break : ℕ → Bool
is_break c =
    (leb 10 c && leb c 13)
    || (leb 28 c && leb c 30)
    || (c == 0x85)
    || (c == 0x2028)
    || (c == 0x2029)

abbrev pub cons_head : ℕ → List Text → List Text
cons_head c [] = (c ∷ []) ∷ []
cons_head c (l ∷ ls) = (c ∷ l) ∷ ls

-- The flag tells that the character before was a carriage return, with which a line feed makes one
-- boundary.
unfoldable pub lines_from : Bool → Text → List Text
unfolding is_break
lines_from cr [] = []
lines_from cr (c ∷ s) =
    let rest = lines_from (c == 13) s in
    if cr && (c == 10) then rest else if is_break c then [] ∷ rest else cons_head c rest

-- `str.splitlines()`
unfoldable pub splitlines : Text → List Text
unfolding lines_from
splitlines s = lines_from false s

-- `s.replace("\r\n", "\n")`
unfoldable pub unix_newlines : Text → Text
unix_newlines [] = []
unix_newlines (c ∷ []) = c ∷ []
unix_newlines (c ∷ d ∷ s) =
    let rest = unix_newlines (d ∷ s) in if (c == 13) && (d == 10) then rest else c ∷ rest

-- `line[: len(line) - len(line.lstrip())]`
unfoldable pub indent_of : Text → Text
unfolding is_space
indent_of [] = []
indent_of (c ∷ s) = if is_space c then c ∷ indent_of s else []

-- `s.endswith(p)`
unfoldable pub ends_with : Text → Text → Bool
unfolding starts_with
ends_with p s = leb (length p) (length s) && starts_with p (drop (length s - length p) s)

-- `s.split(p, 1)`: what stands before the first `p`, and behind it if there is one.
unfoldable pub split_once : Text → Text → Text × Option Text
unfolding starts_with
split_once p [] = ([], none)
split_once p (c ∷ s) =
    let rest = split_once p s in
    if starts_with p (c ∷ s) then ([], some (drop (length p) (c ∷ s))) else (c ∷ rest.0, rest.1)

unfoldable pub is_letter : ℕ → Bool
is_letter c = (leb b'a' c && leb c b'z') || (leb b'A' c && leb c b'Z')

unfoldable pub is_digit : ℕ → Bool
is_digit c = leb b'0' c && leb c b'9'

-- `[A-Za-z0-9_]`
unfoldable pub is_ascii_word : ℕ → Bool
unfolding is_letter is_digit
is_ascii_word c = is_letter c || (is_digit c || (c == b'_'))

-- `\w`: `unicode_word` tells which code points from 128 on belong to it.
module _ (unicode_word : ℕ → Bool) where
  unfoldable pub is_word : ℕ → Bool
  unfolding is_ascii_word
  is_word c = is_ascii_word c || (leb 128 c && unicode_word c)

  abbrev pub begins_word : Text → Bool
  begins_word [] = false
  begins_word (c ∷ s) = is_word c

  -- A search for `\bsorry\b`; the flag tells that the character before belongs to a word.
  unfoldable pub finds_sorry : Bool → Text → Bool
  unfolding is_word starts_with
  finds_sorry prev [] = false
  finds_sorry prev (c ∷ s) =
      (not prev && (starts_with (codes "sorry") (c ∷ s) && not (begins_word (drop 5 (c ∷ s)))))
      || finds_sorry (is_word c) s
