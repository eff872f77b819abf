-- ===== src/Events/Reading.antt =====
-- What is read back from the log that was written.
use re_takehome_submission.Common.{
  ℕ, ◌≡◌, refl, ap, sym, false, Option, some, List, [], ◌∷◌, ◌++◌, ◌∙◌, All, map, is_empty, arith,
  ◌==◌,
}
use re_takehome_submission.Common.Text.{Text, strip}
use re_takehome_submission.Common.Lines.{splitlines, lines_from, is_break}
use re_takehome_submission.Common.Json.{Json}
use mathlib.Core.List.{append_assoc, append-nil}
use re_takehome_submission.Events.{EventLogger, Entry, emit, emit_all, events_of, read_events}

-- The lines that calls of `emit` append.
abbrev pub written : List Text → Text
written [] = []
written (l ∷ ls) = l ++ (10 ∷ written ls)

abbrev pub HasNoBreak : Text → Type 0
HasNoBreak = All (λ c. is_break c ≡ false)

pub no_return : (c : ℕ) → is_break c ≡ false → (c == 13) ≡ false
unfolding is_break
no_return c e = ground arith

pub plain-line :
    (l s : Text) → HasNoBreak l → lines_from false (l ++ (10 ∷ s)) ≡ l ∷ lines_from false s
unfolding lines_from is_break
plain-line [] s h = refl
plain-line (c ∷ l) s (e, h) = rw (no_return c e, e, plain-line l s h) refl

lines-written : (ls : List Text) → All HasNoBreak ls → splitlines (written ls) ≡ ls
unfolding splitlines lines_from
lines-written [] h = refl
lines-written (l ∷ ls) (h, hs) =
    plain-line l (written ls) h ∙ ap (λ ys. l ∷ ys) (lines-written ls hs)

-- What is asked of the encoder and the decoder for one event: the text is on one line, is not blank
-- and is decoded to the event.
abbrev pub IsLine : (Json → Text) → (Text → Option Json) → Json → Type 0
IsLine encode decode e =
    HasNoBreak (encode e) × (is_empty (strip (encode e)) ≡ false) × (decode (encode e) ≡ some e)

module _ (encode : Json → Text) (decode : Text → Option Json) where
  all_lines : (es : List Json) → All (IsLine encode decode) es → All HasNoBreak (map encode es)
  all_lines [] h = tt
  all_lines (e ∷ es) (h, hs) = (h.0, all_lines es hs)

  decoded : (es : List Json) → All (IsLine encode decode) es → events_of decode (map encode es) ≡ es
  unfolding events_of
  decoded [] h = refl
  decoded (e ∷ es) (h, hs) = rw (h.1, h.2) (ap (λ ys. e ∷ ys) (decoded es hs))

  read-written :
      (es : List Json)
      → All (IsLine encode decode) es
      → read_events decode (some (written (map encode es))) ≡ es
  unfolding read_events
  read-written es h = rw (lines-written (map encode es) (all_lines es h)) (decoded es h)

  one_line : (a b s : Text) → (a ++ (b ++ (10 ∷ []))) ++ s ≡ a ++ (b ++ (10 ∷ s))
  one_line a b s = append_assoc a (b ++ (10 ∷ [])) s ∙ ap (λ t. a ++ t) (append_assoc b (10 ∷ []) s)

  log-emit_all :
      (lower : ℕ → Text) (cs : List Entry) (l : EventLogger)
      → (emit_all lower encode cs l).1.log
        ≡ l.log ++ written (map encode (emit_all lower encode cs l).0)
  unfolding emit_all emit
  log-emit_all lower [] l = sym (append-nil l.log)
  log-emit_all lower (c ∷ cs) l =
      let (event, l') = emit lower encode c.timestamp c.event_type c.payload l in
      log-emit_all lower cs l'
      ∙ one_line l.log (encode event) (written (map encode (emit_all lower encode cs l').0))

  -- Events are emitted to an empty log. If each of them is encoded to a text that is not blank,
  -- holds none of the line boundaries of `str.splitlines` and is decoded to the event, then
  -- `read_events` gives back exactly those events in their order.
  pub read_events-emit_all :
      (lower : ℕ → Text) (cs : List Entry) (l : EventLogger)
      → l.log ≡ []
      → All (IsLine encode decode) (emit_all lower encode cs l).0
      → read_events decode (some (emit_all lower encode cs l).1.log)
        ≡ (emit_all lower encode cs l).0
  read_events-emit_all lower cs l e h =
      let k : (emit_all lower encode cs l).1.log
          ≡ written (map encode (emit_all lower encode cs l).0) =
        log-emit_all lower cs l
        ∙ ap (λ t. t ++ written (map encode (emit_all lower encode cs l).0)) e in
      ap (λ t. read_events decode (some t)) k ∙ read-written (emit_all lower encode cs l).0 h
