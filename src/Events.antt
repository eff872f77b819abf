-- ===== src/Events.antt =====
-- src/re_harness/events.py: the redaction of secrets and the lines of the event log. The JSON encoder
-- and decoder, and the clock, are arguments.
pub mod Redacted
pub mod Reading
mod Tests
use re_takehome_submission.Common.{
  ℕ, zero, suc, ◌-◌, Bool, true, false, not, ◌&&◌, ◌||◌, Option, none, some, List, [], ◌∷◌, ◌++◌,
  leb, ◌==◌, if◌then◌else◌, length, drop, is_empty, ◌+◌,
}
use re_takehome_submission.Common.Int.{ℤ, pos}
use re_takehome_submission.Common.Text.{Text, codes, text_eq, starts_with, strip}
use re_takehome_submission.Common.Lines.{splitlines}
use re_takehome_submission.Common.Json.{
  Json, Items, Fields, null, boolean, int, float, str, arr, obj, nil, cons, end, field,
}

abbrev pub redacted : Text
redacted = codes "[REDACTED]"

-- `s.replace(secret, "[REDACTED]")`; the count is of the characters of an occurrence still to drop.
unfoldable pub replace_from : (secret : Text) → (skip : ℕ) → Text → Text
unfolding starts_with
replace_from secret skip [] = []
replace_from secret (suc n) (c ∷ s) = replace_from secret n s
replace_from secret zero (c ∷ s) =
    let hit = replace_from secret (length secret - 1) s in
    let miss = replace_from secret 0 s in
    if starts_with secret (c ∷ s) then redacted ++ hit else c ∷ miss

-- `_redact` of a string: one secret after the other; an empty one is left out.
unfoldable pub redact_text : List Text → Text → Text
unfolding replace_from
redact_text [] s = s
redact_text (secret ∷ rest) s =
    redact_text rest (if is_empty secret then s else replace_from secret 0 s)

-- `lower` is `str.lower` on the characters from 128 on, where a text may grow.
module _ (lower : ℕ → Text) where
  unfoldable pub lower_text : Text → Text
  lower_text [] = []
  lower_text (c ∷ s) =
      (if leb b'A' c && leb c b'Z' then (c + 32) ∷ [] else if leb 128 c then lower c else c ∷ [])
      ++ lower_text s

  unfoldable pub is_secret_key : Text → Bool
  unfolding lower_text text_eq
  is_secret_key k =
      text_eq (lower_text k) (codes "authorization") || text_eq (lower_text k) (codes "api_key")

  -- `_redact`
  unfoldable mutual
    unfolding redact_text is_secret_key

    pub redact : List Text → Json → Json
    redact secrets (str s) = str (redact_text secrets s)
    redact secrets (arr is) = arr (redact_items secrets is)
    redact secrets (obj f) = obj (redact_fields secrets f)
    redact secrets null = null
    redact secrets (boolean b) = boolean b
    redact secrets (int z) = int z
    redact secrets (float x) = float x

    pub redact_items : List Text → Items → Items
    redact_items secrets nil = nil
    redact_items secrets (cons v is) = cons (redact secrets v) (redact_items secrets is)

    pub redact_fields : List Text → Fields → Fields
    redact_fields secrets end = end
    redact_fields secrets (field k v f) =
        let kept = redact secrets v in
        field k (if is_secret_key k then str redacted else kept) (redact_fields secrets f)

-- `{"schema_version": 1, …, **payload}`; a key of the payload that is one of the first five would
-- take its place, which the callers never do.
unfoldable pub event_fields :
    (seq : ℕ) → (timestamp problem_id event_type : Text) → (payload : Fields) → Fields
event_fields seq timestamp problem_id event_type payload =
    field (codes "schema_version") (int (pos 1)) (
      field (codes "seq") (int (pos seq)) (
        field (codes "timestamp") (str timestamp) (
          field (codes "problem_id") (str problem_id)
            (field (codes "event") (str event_type) payload))))

pub record EventLogger : Type 0 where
  pub problem_id : Text
  pub secrets : List Text
  pub seq : ℕ
  -- The text of the file.
  pub log : Text

-- `EventLogger.emit`
unfoldable pub emit :
    (lower : ℕ → Text)
    → (encode : Json → Text) → (timestamp : Text) → (event_type : Text) → (payload : Fields)
    → EventLogger
    → Json × EventLogger
unfolding redact event_fields
emit lower encode timestamp event_type payload l =
    let n = l.seq + 1 in
    let event =
      redact lower l.secrets (obj (event_fields n timestamp l.problem_id event_type payload)) in
    (event, record l { seq = n; log = l.log ++ (encode event ++ (10 ∷ [])) })

pub record Entry : Type 0 where
  pub timestamp : Text
  pub event_type : Text
  pub payload : Fields

-- Calls of `emit`, one after the other.
unfoldable pub emit_all :
    (lower : ℕ → Text) → (encode : Json → Text) → List Entry → EventLogger → List Json × EventLogger
unfolding emit
emit_all lower encode [] l = ([], l)
emit_all lower encode (c ∷ cs) l =
    let (event, l') = emit lower encode c.timestamp c.event_type c.payload l in
    let (events, last) = emit_all lower encode cs l' in (event ∷ events, last)

-- The loop of `read_events`; a line that is not JSON is left out.
unfoldable pub events_of : (decode : Text → Option Json) → List Text → List Json
unfolding strip
events_of decode [] = []
events_of decode (l ∷ ls) =
    let rest = events_of decode ls in
    if is_empty (strip l) then rest else elim (decode l) [ none ↦ rest | some e ↦ e ∷ rest ]

-- `read_events`, with `none` for a file that is not there.
unfoldable pub read_events : (decode : Text → Option Json) → Option Text → List Json
unfolding events_of splitlines
read_events decode none = []
read_events decode (some log) = events_of decode (splitlines log)
