-- ===== src/Events/Tests.antt =====
-- Two events with a secret, written and read back.
use re_takehome_submission.Common.{ℕ, ◌≡◌, refl, Option, some, [], ◌∷◌}
use re_takehome_submission.Common.Text.{Text, codes, text_eq, strip, rstrip, lstrip, is_space}
use re_takehome_submission.Common.Lines.{is_break}
use re_takehome_submission.Common.Json.{Json, Fields, str, obj, end, field}
use re_takehome_submission.Events.{
  EventLogger, Entry, emit, emit_all, read_events, redact, redact_text, replace_from, is_secret_key,
  lower_text,
}
use re_takehome_submission.Events.Redacted.{IsHidden, redact-IsHidden}
use re_takehome_submission.Events.Reading.{read_events-emit_all}

abbrev lower : ℕ → Text
lower c = c ∷ []

abbrev logger : EventLogger
logger = record { problem_id = codes "p1"; secrets = codes "k9" ∷ []; seq = 0; log = [] }

abbrev payload : Fields
payload =
    field (codes "API_Key") (str (codes "k9")) (field (codes "text") (str (codes "a k9 b")) end)

abbrev entry : Entry
entry = record { timestamp = codes "t"; event_type = codes "start"; payload = payload }

redact_test :
    redact lower logger.secrets (obj payload)
    ≡ obj (
        field
          (codes "API_Key")
          (str (codes "[REDACTED]"))
          (field (codes "text") (str (codes "a [REDACTED] b")) end))
unfolding redact redact_text replace_from is_secret_key lower_text text_eq
redact_test = refl

redact-IsHidden_example : IsHidden lower (redact lower logger.secrets (obj payload))
redact-IsHidden_example = redact-IsHidden lower logger.secrets (obj payload)

-- An encoder for this one event.
abbrev encode : Json → Text
encode v = codes "{}"

abbrev event : Json
event = (emit lower encode (codes "t") (codes "start") payload logger).0

abbrev decode : Text → Option Json
decode t = some event

read_events-emit_all_example :
    read_events decode (some (emit_all lower encode (entry ∷ []) logger).1.log)
    ≡ (emit_all lower encode (entry ∷ []) logger).0
unfolding emit_all emit strip lstrip rstrip is_space is_break
read_events-emit_all_example =
    read_events-emit_all encode decode lower (entry ∷ []) logger refl
      (((refl, (refl, tt)), refl, refl), tt)
