-- ===== src/Baseline/Extract.antt =====
-- baselines/simple_agent.py: `_extract_lean`, the last fenced block of an answer, or what follows its
-- first import.
use re_takehome_submission.Common.{
  ℕ, zero, suc, ◌+◌, ◌-◌, Bool, true, false, ◌&&◌, Option, none, some, [], ◌∷◌, ◌++◌, ◌==◌, leb,
  if◌then◌else◌, length, drop,
}
use re_takehome_submission.Common.Text.{Text, codes, strip, starts_with, is_space}
use re_takehome_submission.Common.Lines.{split_once}

abbrev pub fence : Text
fence = codes "```"

-- `c` in lower case, if it is an ASCII letter.
abbrev pub lower_letter : ℕ → ℕ
lower_letter c = if leb b'A' c && leb c b'Z' then c + 32 else c

-- Whether `s` begins with the word, in any case.
unfoldable pub starts_with_word : (word : Text) → Text → Bool
starts_with_word [] s = true
starts_with_word (w ∷ ws) [] = false
starts_with_word (w ∷ ws) (c ∷ s) = (lower_letter c == w) && starts_with_word ws s

-- `(?:lean|lean4)?`: the shorter word does not match before a `4`, since white space has to follow.
unfoldable pub skip_language : Text → Text
unfolding starts_with_word
skip_language s =
    if starts_with_word (codes "lean4") s
    then drop 5 s
    else if starts_with_word (codes "lean") s
    then drop 4 s
    else s

-- `\s*\n`: what stands behind the last line feed of the white space at the front.
unfoldable pub skip_line : Text → Option Text
unfolding is_space
skip_line [] = none
skip_line (c ∷ s) =
    let rest = skip_line s in
    if is_space c
    then elim rest [ some t ↦ some t | none ↦ if c == 10 then some s else none ]
    else none

-- The body of the block that begins here, and what stands behind it.
unfoldable pub block_at : Text → Option (Text × Text)
unfolding starts_with skip_language skip_line split_once
block_at s =
    if starts_with fence s
    then elim (skip_line (skip_language (drop 3 s))) [
      | none ↦ none
      | some t ↦
          let (body, rest) = split_once fence t in
          elim rest [ none ↦ none | some u ↦ some (body, u) ]
    ]
    else none

-- The last of the blocks that `re.findall` gives; `skip` characters belong to the block before.
unfoldable pub last_block : (skip : ℕ) → (found : Option Text) → Text → Option Text
unfolding block_at
last_block skip found [] = found
last_block (suc n) found (c ∷ s) = last_block n found s
last_block zero found (c ∷ s) = elim (block_at (c ∷ s)) [
  | none ↦ last_block 0 found s
  | some (body, rest) ↦ last_block (length s - length rest) (some body) s
]

-- The text from the first `p` on.
unfoldable pub from_first : (p : Text) → Text → Option Text
unfolding starts_with
from_first p [] = none
from_first p (c ∷ s) =
    let rest = from_first p s in if starts_with p (c ∷ s) then some (c ∷ s) else rest

-- `_extract_lean`
unfoldable pub extract_lean : (text fallback : Text) → Text
unfolding last_block from_first strip
extract_lean text fallback = elim (last_block 0 none text) [
  | some body ↦ strip body ++ (10 ∷ [])
  | none ↦ elim (from_first (codes "import ") (strip text)) [
    | some t ↦ strip t ++ (10 ∷ [])
    | none ↦ fallback
  ]
]
