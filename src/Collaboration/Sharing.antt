-- ===== src/Collaboration/Sharing.antt =====
-- collaboration_engine/strategies.py: the packets of the first version. A packet has the fields of one
-- of the second version.
use re_takehome_submission.Common.{
  ℕ, ◌-◌, ◌*◌, ◌/◌, Bool, not, ◌||◌, List, [], ◌∷◌, ◌++◌, ◌==◌, if◌then◌else◌, length, take, leb,
}
use re_takehome_submission.Common.Text.{Text, codes, text_eq, text_ltb, strip, last_chars}
use re_takehome_submission.Common.Results.{Result, ok, err}
use re_takehome_submission.Strategies.{PeerPacket, UnknownStrategy, unknown_strategy}

pub record Observation : Type 0 where
  pub model : Text
  pub round : ℕ
  pub call : ℕ
  pub candidate : Text
  pub diagnostics : Text
  pub accepted : Bool
  pub timed_out : Bool

-- `NoCollaboration` and `ReciprocalCrossRepair`
pub data SharingStrategy : Type 0 where
  no_collaboration : SharingStrategy
  cross_repair : (packet_chars : ℕ) → SharingStrategy

abbrev cross_repair_id : Text
cross_repair_id = codes "reciprocal-cross-repair-v1"

unfoldable pub strategy_id : SharingStrategy → Text
strategy_id no_collaboration = codes "none"
strategy_id (cross_repair n) = cross_repair_id

abbrev excerpt_marker : Text
excerpt_marker = codes "\n...[peer excerpt bounded]...\n"

-- The stripped text, in the middle of which the marker stands for what is cut.
abbrev shortened : Text → ℕ → Text
shortened text limit =
    let available = limit - length excerpt_marker in
    let head = available * 2 / 3 in
    take head text ++ (excerpt_marker ++ last_chars (available - head) text)

-- `_excerpt`
unfoldable pub peer_excerpt : Text → ℕ → Text
unfolding strip last_chars
peer_excerpt t limit =
    let text = strip t in
    if leb (length text) limit
    then text
    else if leb limit (length excerpt_marker)
    then take limit text
    else shortened text limit

abbrev peer_header : Text
peer_header = codes "Independent peer's failed Lean candidate:\n"

abbrev peer_middle : Text
peer_middle = codes "\n\nLean diagnostics from that candidate:\n"

-- `_bounded_peer_content`
unfoldable pub bounded_peer_content : Observation → ℕ → Text
unfolding peer_excerpt
bounded_peer_content o limit =
    let available = limit - length peer_header - length peer_middle in
    let candidate_limit = available * 2 / 3 in
    let diagnostic_limit = available - candidate_limit in
    take limit (
      peer_header
      ++ (peer_excerpt o.candidate candidate_limit
          ++ (peer_middle ++ peer_excerpt o.diagnostics diagnostic_limit)))

unfoldable pub packet_from : (target source : Observation) → ℕ → PeerPacket
unfolding bounded_peer_content
packet_from target source n = record {
  target_model = target.model;
  source_model = source.model;
  content = bounded_peer_content source n;
  kind = cross_repair_id;
}

abbrev ineligible : Observation → Bool
ineligible o = not (o.round == 1) || o.accepted

-- The exchange of two observations that are sorted by model.
unfoldable pub exchange : (left right : Observation) → ℕ → List PeerPacket
unfolding packet_from
exchange left right n =
    if ineligible left || ineligible right
    then []
    else packet_from left right n ∷ packet_from right left n ∷ []

-- `ReciprocalCrossRepair.after_round`; the sort is stable.
unfoldable pub cross_repair_round : ℕ → List Observation → List PeerPacket
unfolding exchange
cross_repair_round n (a ∷ b ∷ []) =
    if text_ltb b.model a.model then exchange b a n else exchange a b n
cross_repair_round n _ = []

-- `after_round` of each class.
unfoldable pub after_round : SharingStrategy → List Observation → List PeerPacket
unfolding cross_repair_round
after_round no_collaboration os = []
after_round (cross_repair n) os = cross_repair_round n os

-- `create_strategy`
unfoldable pub create_strategy : Text → (packet_chars : ℕ) → Result UnknownStrategy SharingStrategy
unfolding text_eq
create_strategy id n =
    if text_eq id (codes "none")
    then ok no_collaboration
    else if text_eq id cross_repair_id
    then ok (cross_repair n)
    else err unknown_strategy
