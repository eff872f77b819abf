-- ===== src/Salvage/Source.antt =====
-- How a Lean source is read and cut: its declarations, the body of a proof, the lines that count.
use re_takehome_submission.Common.{
  ℕ, zero, suc, ◌+◌, Bool, true, false, not, ◌&&◌, ◌||◌, Option, none, some, List, [], ◌∷◌, ◌++◌,
  leb, ltb, ◌==◌, if◌then◌else◌, length, take, drop, any, is_empty, keep,
}
use re_takehome_submission.Common.Text.{
  Text, codes, text_eq, strip, rstrip, is_space, starts_with, contains, join,
}
use re_takehome_submission.Common.Lines.{
  indent_of, ends_with, split_once, is_letter, is_ascii_word, is_word, begins_word, finds_sorry,
}

-- A text beyond its leading white space and beyond its leading `[A-Za-z0-9_]`.
skip_spaces : Text → Text
unfolding is_space
skip_spaces [] = []
skip_spaces (c ∷ s) = if is_space c then skip_spaces s else c ∷ s

skip_word : Text → Text
unfolding is_ascii_word
skip_word [] = []
skip_word (c ∷ s) = if is_ascii_word c then skip_word s else c ∷ s

abbrev keywords : List Text
keywords = codes "theorem" ∷ codes "lemma" ∷ codes "def" ∷ codes "abbrev" ∷ codes "opaque" ∷ []

abbrev begins_space : Text → Bool
begins_space [] = false
begins_space (c ∷ s) = is_space c

abbrev begins_name : Text → Bool
begins_name [] = false
begins_name (c ∷ s) = is_letter c || (c == b'_')

-- The index of the first line from `start` on and before `stop` that passes the test.
unfoldable pub first_line : (Text → Bool) → (index start stop : ℕ) → List Text → Option ℕ
first_line p i start stop [] = none
first_line p i start stop (l ∷ ls) =
    let rest = first_line p (suc i) start stop ls in
    if leb start i && (ltb i stop && p l) then some i else rest

-- `":= by" in line or line.rstrip().endswith(" where")`
unfoldable pub opens_body : Text → Bool
unfolding contains rstrip ends_with
opens_body l = contains (codes ":= by") l || ends_with (codes " where") (rstrip l)

-- `_proof_body_line`
unfoldable pub proof_body_line : List Text → (start stop : ℕ) → Option ℕ
unfolding first_line opens_body
proof_body_line ls start stop = first_line opens_body 0 start stop ls

-- `_body_indent`: the indentation of the first line that is not blank and is indented.
unfoldable pub body_indent : (index from stop : ℕ) → List Text → Text
unfolding indent_of strip
body_indent i from stop [] = codes "  "
body_indent i from stop (l ∷ ls) =
    let rest = body_indent (suc i) from stop ls in
    if leb from i && (ltb i stop && (not (is_empty (strip l)) && not (is_empty (indent_of l))))
    then indent_of l
    else rest

-- `"\n".join(lines).rstrip() + "\n"`
unfoldable pub file_of : List Text → Text
unfolding join rstrip
file_of ls = rstrip (join (codes "\n") ls) ++ codes "\n"

-- `_render`
unfoldable pub render : List Text → (keep_through stop : ℕ) → (indent : Text) → Text
unfolding file_of
render ls keep_through stop indent =
    file_of (take (keep_through + 1) ls ++ ((indent ++ codes "all_goals sorry") ∷ drop stop ls))

abbrev pub line_at : ℕ → List Text → Text
line_at n [] = []
line_at zero (l ∷ ls) = l
line_at (suc n) (l ∷ ls) = line_at n ls

-- `_render_span`
unfoldable pub render_span : List Text → (start stop : ℕ) → Text
unfolding file_of indent_of
render_span ls start stop =
    file_of
      (take start ls ++ ((indent_of (line_at start ls) ++ codes "sorry") ∷ drop (stop + 1) ls))

abbrev after_close : Text → Option Text
after_close s = (split_once (codes "-/") s).1

abbrev or_blank : Option Text → Text
or_blank none = []
or_blank (some s) = s

-- `while text.startswith("/-")`: the text behind the block comments, and whether one stays open. A
-- round makes the text shorter, so its length is enough fuel.
skip_blocks : ℕ → Text → Text × Bool
unfolding starts_with contains split_once strip
skip_blocks zero s = (s, false)
skip_blocks (suc fuel) s =
    let rest = skip_blocks fuel (strip (or_blank (after_close s))) in
    if starts_with (codes "/-") s
    then if contains (codes "-/") (drop 2 s) then rest else ([], true)
    else (s, false)

-- The text of a line and the comment state, behind an open block comment.
enter_line : Bool → Text → Text × Bool
unfolding split_once strip skip_blocks
enter_line false s = skip_blocks (suc (length s)) s
enter_line true s = elim (after_close s) [
  | none ↦ ([], true)
  | some r ↦ let t = strip r in skip_blocks (suc (length t)) t
]

abbrev bullets : List Text
bullets = (0xb7 ∷ []) ∷ codes "{" ∷ codes "}" ∷ []

-- The lines that are left out of a count: the replaced span.
pub record Span : Type 0 where
  pub first : ℕ
  pub last : ℕ

abbrev excludes : Option Span → ℕ → Bool
excludes none i = false
excludes (some s) i = leb s.first i && leb i s.last

-- `_declaration_bounds`, the parts that do not read words.
abbrev pub last_or : ℕ → List ℕ → ℕ
last_or d [] = d
last_or d (x ∷ xs) = last_or x xs

abbrev pub head_or : ℕ → List ℕ → ℕ
head_or d [] = d
head_or d (x ∷ xs) = x

-- Given the starts up to the failing line.
unfoldable pub bounds_in : (eligible starts : List ℕ) → (count : ℕ) → Option (ℕ × ℕ)
bounds_in [] starts count = none
bounds_in (x ∷ xs) starts count =
    let start = last_or x xs in some (start, head_or count (keep (λ i. ltb start i) starts))

unfoldable pub bounds_of : List ℕ → (count error_index : ℕ) → Option (ℕ × ℕ)
unfolding bounds_in
bounds_of starts count e = bounds_in (keep (λ i. leb i e) starts) starts count

module _ (unicode_word : ℕ → Bool) where
  -- `contains_sorry`
  unfoldable pub contains_sorry : Text → Bool
  unfolding finds_sorry
  contains_sorry s = finds_sorry unicode_word false s

  declared : Text → Text → Bool
  unfolding skip_spaces skip_word is_letter starts_with is_space is_word
  declared line keyword =
      let rest = drop (length keyword) line in
      let name = skip_spaces rest in
      starts_with keyword line
      && (begins_space rest
          && (begins_name name && not (begins_word unicode_word (skip_word name))))

  -- `line == line.lstrip() and _DECLARATION.match(line)`. The name's first run of
  -- `[A-Za-z0-9_]` ends at a word boundary unless a word character beyond ASCII follows.
  unfoldable pub is_declaration : Text → Bool
  unfolding declared is_space
  is_declaration l = not (begins_space l) && any (declared l) keywords

  unfoldable pub starts_from : ℕ → List Text → List ℕ
  starts_from i [] = []
  starts_from i (l ∷ ls) =
      let rest = starts_from (suc i) ls in if is_declaration l then i ∷ rest else rest

  -- `_declaration_bounds`
  unfoldable pub declaration_bounds : List Text → ℕ → Option (ℕ × ℕ)
  declaration_bounds ls e = bounds_of (starts_from 0 ls) (length ls) e

  -- Whether the line's text, without comments, counts as a proof line.
  counts : Text → Bool
  unfolding strip split_once contains_sorry text_eq
  counts s =
      let t = strip (split_once (codes "--") s).0 in
      not (is_empty t) && (not (any (text_eq t) bullets) && not (contains_sorry t))

  -- `_executable_line_count`, from the line `index` on.
  unfoldable pub line_count :
      (index start stop : ℕ) → Option Span → (in_comment : Bool) → List Text → ℕ
  unfolding enter_line strip counts
  line_count i start stop span c [] = 0
  line_count i start stop span c (l ∷ ls) =
      let skipped = not (leb start i && ltb i stop) || excludes span i in
      let entered = enter_line c (strip l) in
      let rest = line_count (suc i) start stop span (if skipped then c else entered.1) ls in
      if not skipped && counts entered.0 then suc rest else rest
