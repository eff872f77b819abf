-- ===== src/Engine/Packets.antt =====
-- `_install_packets`: the strategy's packets are put into the queues of their targets.
pub mod Latest
pub mod Accepted
use re_takehome_submission.Common.{
  ℕ, ◌+◌, Bool, true, false, not, ◌&&◌, ◌||◌, Option, none, some, List, [], ◌∷◌, ◌++◌, ltb,
  if◌then◌else◌, length, is_empty, any,
}
use re_takehome_submission.Common.Text.{Text, text_eq, strip}
use re_takehome_submission.Common.Results.{Result, ok, err}
use re_takehome_submission.Strategies.{PeerPacket}
use re_takehome_submission.Engine.State.{
  Queued, TrackState, PacketEvent, Settings, find_track, has_track, update_track, update_at,
}

pub data PacketError : Type 0 where
  unknown_model not_cross_model empty_or_oversized : PacketError

-- The tracks and the list of all events.
pub record Mail : Type 0 where
  pub tracks : List TrackState
  pub events : List PacketEvent

-- The checks of one packet, given the targets so far.
unfoldable pub packet_error :
    (limit : ℕ) → List Text → List TrackState → PeerPacket → Option PacketError
unfolding text_eq has_track strip
packet_error limit targets ts p =
    if not (has_track p.target_model ts) || not (has_track p.source_model ts)
    then some unknown_model
    else if text_eq p.target_model p.source_model || any (text_eq p.target_model) targets
    then some not_cross_model
    else if is_empty (strip p.content) || ltb limit (length p.content)
    then some empty_or_oversized
    else none

-- `old_event["replaced_before_use"] = True` for each queued packet.
unfoldable pub mark_replaced : List Queued → List PacketEvent → List PacketEvent
unfolding update_at
mark_replaced [] es = es
mark_replaced (q ∷ qs) es =
    mark_replaced qs (update_at q.event (λ e. record e { replaced_before_use = true }) es)

unfoldable pub queue_of : Text → List TrackState → List Queued
unfolding find_track
queue_of m ts = elim (find_track m ts) [ none ↦ [] | some t ↦ t.pending_packets ]

abbrev pub set_queue : List Queued → TrackState → TrackState
set_queue qs t = record t { pending_packets = qs }

abbrev pub new_event : ℕ → PeerPacket → (position : ℕ) → Option ℕ → PacketEvent
new_event round p position elapsed = record {
  after_round = round;
  target_model = p.target_model;
  source_model = p.source_model;
  kind = p.kind;
  content_chars = length p.content;
  queue_position = position;
  produced_at = elapsed;
  replaced_before_use = false;
  used_on_call = none;
  used_at = none;
  delivery_delay = none;
}

-- The rest of the loop's body, for a packet that has passed the checks.
unfoldable pub deliver : ℕ → (latest_wins : Bool) → Option ℕ → PeerPacket → Mail → Mail
unfolding mark_replaced queue_of update_track
deliver round latest_wins elapsed p m =
    let old = queue_of p.target_model m.tracks in
    let kept : List Queued = if latest_wins then [] else old in
    let events = if latest_wins then mark_replaced old m.events else m.events in
    let entry : Queued = record { packet = p; event = length events } in
    record {
      tracks = update_track p.target_model (set_queue (kept ++ entry ∷ [])) m.tracks;
      events = events ++ new_event round p (length kept + 1) elapsed ∷ [];
    }

-- The loop over the packets; a raise leaves what was delivered before it.
unfoldable pub install_packets :
    (limit round : ℕ) (latest_wins : Bool) (elapsed : Option ℕ)
    → List Text
    → List PeerPacket
    → Mail
    → Option PacketError × Mail
install_packets limit round latest elapsed targets [] m = (none, m)
install_packets limit round latest elapsed targets (p ∷ ps) m =
    let rest =
      install_packets limit round latest elapsed (p.target_model ∷ targets) ps
        (deliver round latest elapsed p m) in
    elim (packet_error limit targets m.tracks p) [ some e ↦ (some e, m) | none ↦ rest ]
