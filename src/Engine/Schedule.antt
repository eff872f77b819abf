-- ===== src/Engine/Schedule.antt =====
-- `_has_capacity` and `schedule`: whether a track may start its next call, and what starting it
-- changes. The clock is read up to three times in one call of `schedule`; the readings are an
-- argument. `models[1]` raises `IndexError` where there is one model only.
pub mod Limits
use re_takehome_submission.Common.{
  ℕ, ◌+◌, ◌-◌, Bool, true, false, not, ◌&&◌, ◌||◌, Option, none, some, List, [], ◌∷◌, ◌++◌, leb,
  ltb, ◌==◌, if◌then◌else◌, is_empty, any,
}
use re_takehome_submission.Common.Text.{Text, text_eq}
use re_takehome_submission.Common.Results.{Result, ok, err}
use re_takehome_submission.Strategies.{PeerPacket, fill_kind}
use re_takehome_submission.Engine.State.{
  Phase, direct, repair, restart, peer_fill, ReleaseReason, deadline_margin, peer_exhausted, Queued,
  TrackState, PacketEvent, Cutoff, cutoff_at, no_cutoff, nan_cutoff, Settings, find_track,
  update_track, update_at,
}

-- What `pending` keeps for a task.
pub record PendingCall : Type 0 where
  pub model : Text
  pub phase : Phase
  pub packet : Option PeerPacket
  pub event : Option ℕ
  pub call_round : ℕ

pub record Board : Type 0 where
  pub tracks : List TrackState
  pub events : List PacketEvent
  pub pending : List PendingCall
  pub cutoff_reached : Bool

-- The elapsed time at each reading of the clock.
pub record Readings : Type 0 where
  pub release : ℕ
  pub cutoff : ℕ
  pub used : ℕ

pub data Crash : Type 0 where
  index_error : Crash

-- `_has_capacity`
unfoldable pub has_capacity : Settings → TrackState → Bool
has_capacity s t =
    t.active && (elim s.max_calls_per_model [ none ↦ true | some limit ↦ ltb t.calls limit ])

abbrev pub is_first : List Text → Text → Bool
is_first [] m = false
is_first (f ∷ r) m = text_eq m f

abbrev pub second : List Text → Option Text
second (f ∷ m ∷ r) = some m
second _ = none

-- The calls of the first model from which on the reserve holds.
abbrev pub in_reserve : Settings → TrackState → Bool
in_reserve s t = elim s.max_calls_per_model [
  | none ↦ false
  | some limit ↦ leb (limit - s.fast_track_reserved_calls) t.calls
]

-- The first model's track is at its reserve and has no packet to answer.
unfoldable pub at_reserve : Settings → TrackState → Bool
unfolding text_eq
at_reserve s t =
    is_first s.models t.model
    && (not (s.fast_track_reserved_calls == 0) && (in_reserve s t && is_empty t.pending_packets))

abbrev pub in_flight : Text → List PendingCall → Bool
in_flight m ps = any (λ (p : PendingCall). text_eq p.model m) ps

abbrev pub peer_capacity : Settings → Text → List TrackState → Bool
peer_capacity s m ts = elim (find_track m ts) [ none ↦ false | some t ↦ has_capacity s t ]

-- `elapsed >= cutoff - margin`, which is false of an infinite cutoff and of one that is no number.
unfoldable pub is_within : (margin : ℕ) → Cutoff → (elapsed : ℕ) → Bool
is_within margin (cutoff_at n) elapsed = leb (n - margin) elapsed
is_within margin no_cutoff elapsed = false
is_within margin nan_cutoff elapsed = false

-- Why the reserve may be used: the deadline is near, or the peer can do no more.
unfoldable pub release_for : Settings → ℕ → Text → Board → Option ReleaseReason
unfolding has_capacity find_track text_eq is_within
release_for s elapsed peer b =
    if is_within s.reserve_release_margin s.dispatch_cutoff elapsed
    then some deadline_margin
    else if not (peer_capacity s peer b.tracks) && not (in_flight peer b.pending)
    then some peer_exhausted
    else none

abbrev pub keep_first : Option ReleaseReason → ReleaseReason → Option ReleaseReason
keep_first none r = some r
keep_first (some old) r = some old

-- The track's phase, unless it answers a packet with a skeleton to fill.
unfoldable pub own_phase : TrackState → Phase
own_phase t = if is_empty t.attempts then direct else if t.restart_pending then restart else repair

abbrev pub packet_phase : Option PeerPacket → Phase → Phase
packet_phase none p = p
packet_phase (some q) p = if text_eq q.kind fill_kind then peer_fill else p

abbrev pub head_packet : List Queued → Option PeerPacket
head_packet [] = none
head_packet (q ∷ qs) = some q.packet

abbrev pub head_event : List Queued → Option ℕ
head_event [] = none
head_event (q ∷ qs) = some q.event

abbrev pub rest_of : List Queued → List Queued
rest_of [] = []
rest_of (q ∷ qs) = qs

abbrev pub delay : ℕ → Option ℕ → Option ℕ
delay used none = none
delay used (some produced) = some (used - produced)

abbrev mark_used : ℕ → ℕ → Option ℕ → List PacketEvent → List PacketEvent
mark_used call used none es = es
mark_used call used (some n) es =
    update_at n
      (λ e. record e {
        used_on_call = some call;
        used_at = some used;
        delivery_delay = delay used e.produced_at;
      })
      es

abbrev consumed : List Queued → ℕ → ℕ
consumed [] n = n
consumed (q ∷ qs) n = n + 1

-- The second half of `schedule`: the phase, the packet, and the new task.
unfoldable pub start_call : ℕ → TrackState → Board → Board
unfolding own_phase text_eq update_track update_at
start_call used t b =
    let call = t.calls + 1 in
    record b {
      tracks =
          update_track t.model
            (λ (u : TrackState). record u {
              calls = call;
              pending_packets = rest_of t.pending_packets;
              peer_packets_consumed = consumed t.pending_packets u.peer_packets_consumed;
            })
            b.tracks;
      events = mark_used call used (head_event t.pending_packets) b.events;
      pending =
          b.pending
          ++ record {
            model = t.model;
            phase = packet_phase (head_packet t.pending_packets) (own_phase t);
            packet = head_packet t.pending_packets;
            event = head_event t.pending_packets;
            call_round = call;
          }
            ∷ [];
    }

-- Behind the reserve: the cutoff, then the call.
unfoldable pub dispatch :
    Settings → (check_cutoff : Bool) → Readings → TrackState → Board → Bool × Board
unfolding start_call is_within
dispatch s check_cutoff r t b =
    if check_cutoff && is_within 0 s.dispatch_cutoff r.cutoff
    then (false, record b { cutoff_reached = true })
    else (true, start_call r.used t b)

abbrev note_release : Text → ReleaseReason → Board → Board
note_release m reason b = record b {
  tracks =
      update_track m
        (λ (u : TrackState). record u {
          reserve_release_reason = keep_first u.reserve_release_reason reason;
        })
        b.tracks;
}

-- At the reserve: the peer decides.
unfoldable pub reserved_call :
    Settings → (check_cutoff : Bool) → Readings → TrackState → Board → Result Crash Bool × Board
unfolding release_for dispatch update_track
reserved_call s check_cutoff r t b = elim (second s.models) [
  | none ↦ (err index_error, b)
  | some peer ↦ elim (release_for s r.release peer b) [
    | none ↦ (ok false, b)
    | some reason ↦
        let (started, b') = dispatch s check_cutoff r t (note_release t.model reason b) in
        (ok started, b')
  ]
]

-- `schedule` on the track `t` of the board.
unfoldable pub schedule_track :
    Settings → (check_cutoff : Bool) → Readings → TrackState → Board → Result Crash Bool × Board
unfolding has_capacity at_reserve reserved_call dispatch
schedule_track s check_cutoff r t b =
    if has_capacity s t
    then if at_reserve s t
      then reserved_call s check_cutoff r t b
      else (let (started, b') = dispatch s check_cutoff r t b in (ok started, b'))
    else (ok false, b)

-- `schedule(tracks[model])`
unfoldable pub schedule :
    Settings → (check_cutoff : Bool) → Readings → Text → Board → Result Crash Bool × Board
unfolding find_track schedule_track
schedule s check_cutoff r m b = elim (find_track m b.tracks) [
  | none ↦ (ok false, b)
  | some t ↦ schedule_track s check_cutoff r t b
]
