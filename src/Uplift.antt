-- ===== src/Uplift.antt =====
-- The helpers of uplift_pilot/agent.py that the engine shares: candidates and messages in a normal
-- form, and texts cut to a length. `str_of` and `lower` are Python's `str` and `str.lower`, `sha256`
-- is the digest; none of them is part of the repository.
pub mod Limits
pub mod Loop
pub mod Prompts
pub mod Track
mod Tests
use re_takehome_submission.Common.{
  ℕ, zero, suc, ◌+◌, ◌-◌, ◌*◌, ◌/◌, Bool, true, false, not, ◌&&◌, ◌||◌, Option, none, some, List,
  [], ◌∷◌, ◌++◌, map, leb, ltb, ◌==◌, if◌then◌else◌, length, take, any, is_empty,
}
use re_takehome_submission.Common.Text.{
  Text, codes, text_eq, join, strip, rstrip, is_space, last_chars,
}
use re_takehome_submission.Common.Json.{Json, str, Fields, get}
use re_takehome_submission.Common.Lines.{unix_newlines, cons_head}

abbrev pub excerpt_marker : Text
excerpt_marker = codes "\n...[excerpt bounded]...\n"

-- `_bounded_excerpt` of uplift_pilot/agent.py
unfoldable pub bounded_excerpt : Text → ℕ → Text
unfolding strip last_chars
bounded_excerpt t limit =
    let s = strip t in
    let available = limit - length excerpt_marker in
    let head = available * 2 / 3 in
    if leb (length s) limit
    then s
    else if leb limit (length excerpt_marker)
    then take limit s
    else take head s ++ (excerpt_marker ++ last_chars (available - head) s)

-- `s.split("\n")`: always at least one line.
unfoldable pub split_lines : Text → List Text
split_lines [] = [] ∷ []
split_lines (c ∷ s) = let rest = split_lines s in if c == 10 then [] ∷ rest else cons_head c rest

-- `while lines and not lines[0]: lines.pop(0)`
unfoldable pub drop_blank_front : List Text → List Text
drop_blank_front [] = []
drop_blank_front (l ∷ ls) = if is_empty l then drop_blank_front ls else l ∷ ls

-- `while lines and not lines[-1]: lines.pop()`
unfoldable pub drop_blank_back : List Text → List Text
drop_blank_back [] = []
drop_blank_back (l ∷ ls) = elim (drop_blank_back ls) [
  | [] ↦ if is_empty l then [] else l ∷ []
  | m ∷ ms ↦ l ∷ m ∷ ms
]

-- `_normalized_candidate`
unfoldable pub normalized_candidate : Text → Text
unfolding split_lines drop_blank_front drop_blank_back rstrip join unix_newlines
normalized_candidate source =
    join (codes "\n")
      (drop_blank_back (drop_blank_front (map rstrip (split_lines (unix_newlines source)))))
    ++ codes "\n"

-- `re.sub(r"\s+", " ", s)`; the flag tells that the character before was white space.
unfoldable pub collapse_spaces : Bool → Text → Text
unfolding is_space
collapse_spaces prev [] = []
collapse_spaces prev (c ∷ s) =
    let rest = collapse_spaces (is_space c) s in
    if is_space c then (if prev then rest else b' ' ∷ rest) else c ∷ rest

abbrev pub diagnostics_mark : Text
diagnostics_mark = codes "\n...[diagnostics bounded]"

-- The cut at the end of `_diagnostics`.
unfoldable pub bound_diagnostics : Text → ℕ → Text
bound_diagnostics t limit =
    if ltb limit (length t) then take (limit - 24) t ++ diagnostics_mark else t

-- The items that are not empty, each once, in order.
unfoldable pub unique_items : (seen items : List Text) → List Text
unfolding text_eq
unique_items seen [] = []
unique_items seen (t ∷ ts) =
    let fresh = not (is_empty t) && not (any (text_eq t) seen) in
    let rest = unique_items (if fresh then t ∷ seen else seen) ts in
    if fresh then t ∷ rest else rest

module _ (str_of : Json → Text) (lower : Text → Text) where
  str_or : Text → Option Json → Text
  str_or d none = d
  str_or d (some v) = str_of v

  -- `_normalize_message`
  unfoldable pub normalize_message : Fields → Text
  unfolding str_or get strip collapse_spaces
  normalize_message m =
      strip (lower (str_or (codes "message") (get (codes "severity") m)))
      ++ (codes ":" ++ collapse_spaces false (strip (str_or [] (get (codes "data") m))))

  -- The text of `_diagnostics`.
  unfoldable pub diagnostics_text : List Fields → ℕ → Text
  unfolding normalize_message unique_items join bound_diagnostics
  diagnostics_text ms limit =
      bound_diagnostics (join (codes "\n") (unique_items [] (map normalize_message ms))) limit

  -- The signature of `_diagnostics`.
  unfoldable pub signature_of : (Text → Text) → List Fields → Text
  unfolding normalize_message join
  signature_of sha256 ms = sha256 (join (codes "\n") (map normalize_message ms))
