-- ===== src/Salvage/Message.antt =====
-- Lean's messages: the errors, their positions, and their text for a packet.
use re_takehome_submission.Common.{
  ℕ, suc, ◌-◌, ◌≤◌, Bool, false, not, ◌&&◌, Option, none, some, List, [], ◌∷◌, ◌++◌, arith, ltb,
  if◌then◌else◌, length, take, any, is_empty, keep, length-append, length-take,
}
use re_takehome_submission.Common.Int.{pos}
use re_takehome_submission.Common.Text.{Text, codes, text_eq, strip, join}
use re_takehome_submission.Common.Json.{Json, int, str, obj, Fields, get}

abbrev is_text : Text → Option Json → Bool
is_text t (some (str s)) = text_eq s t
is_text t _ = false

-- `message.get("severity") == "error"`
unfoldable pub is_error : Fields → Bool
unfolding get text_eq
is_error m = is_text (codes "error") (get (codes "severity") m)

unfoldable pub error_messages : List Fields → List Fields
unfolding is_error
error_messages ms = keep is_error ms

-- A line number that is an `int`, no `bool`, and at least 1.
abbrev line_number : Option Json → Option ℕ
line_number (some (int (pos (suc n)))) = some (suc n)
line_number _ = none

line_of : Option Json → Option ℕ
unfolding get
line_of (some (obj p)) = line_number (get (codes "line") p)
line_of _ = none

-- `_position_line` and `_position_end_line`
unfoldable pub position_line : Fields → Option ℕ
unfolding get line_of
position_line m = line_of (get (codes "pos") m)

unfoldable pub position_end_line : Fields → Option ℕ
unfolding get line_of
position_end_line m = line_of (get (codes "endPos") m)

abbrev bounded_mark : Text
bounded_mark = codes "\n...[residual goals bounded]"

abbrev separator : Text
separator = codes "\n\n--- residual diagnostic ---\n\n"

module _ (str_of : Json → Text) where
  message_text : Option Json → Text
  unfolding strip
  message_text none = []
  message_text (some v) = strip (str_of v)

  -- The chunks in their order, each once; `seen` holds those so far.
  chunks : List Text → List Fields → List Text
  unfolding get text_eq message_text
  chunks seen [] = []
  chunks seen (m ∷ ms) =
      let t = message_text (get (codes "data") m) in
      let fresh = not (is_empty t) && not (any (text_eq t) seen) in
      let rest = chunks (if fresh then t ∷ seen else seen) ms in if fresh then t ∷ rest else rest

  -- `residual_goal_text`
  unfoldable pub residual_goal_text : List Fields → (limit : ℕ) → Text
  unfolding chunks join error_messages
  residual_goal_text ms limit =
      let t = join separator (chunks [] (error_messages ms)) in
      if ltb limit (length t) then take (limit - 32) t ++ bounded_mark else t

  -- With a limit of at least 32 characters the text keeps to it.
  pub length-residual_goal_text :
      (ms : List Fields) (limit : ℕ) → 32 ≤ limit → length (residual_goal_text ms limit) ≤ limit
  unfolding residual_goal_text
  length-residual_goal_text ms limit h =
      let t = join separator (chunks [] (error_messages ms)) in
      ground (arith, length-append (take (limit - 32) t) bounded_mark, length-take (limit - 32) t)
