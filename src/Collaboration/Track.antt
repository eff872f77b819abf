-- ===== src/Collaboration/Track.antt =====
-- collaboration_engine/agent.py: the records of a track, the restarts and the packets.
use re_takehome_submission.Common.{
  ℕ, ◌+◌, ◌-◌, ◌*◌, ◌/◌, Bool, true, false, not, ◌&&◌, Option, none, some, List, [], ◌∷◌, ◌++◌, ltb,
  leb, if◌then◌else◌, length, take, is_empty, any, max,
}
use re_takehome_submission.Common.Text.{Text, codes, text_eq, strip, join}
use re_takehome_submission.Common.Results.{Result, ok, err}
use re_takehome_submission.Strategies.{PeerPacket}
use re_takehome_submission.Uplift.{bounded_excerpt}
use re_takehome_submission.Engine.Decompose.{trim_memory}
use re_takehome_submission.Engine.State.{RestartReason, repeated_candidate, unchanged_signature}

pub data Phase : Type 0 where
  direct restart repair : Phase

pub record AttemptRecord : Type 0 where
  pub attempt : ℕ
  pub call : ℕ
  pub round : ℕ
  pub phase : Phase
  pub candidate_sha256 : Text
  pub error_signature_sha256 : Text
  pub accepted : Bool
  pub timed_out : Bool
  pub raw_diagnostic_count : ℕ
  pub diagnostic_excerpt : Text
  pub checkpoint_saved : Bool
  pub peer_packet_used : Bool
  pub restart_reason : Option RestartReason

-- An exception: the name of its type and its text.
pub record Exception : Type 0 where
  pub type_name : Text
  pub message : Text

pub record CallError : Type 0 where
  pub call : ℕ
  pub phase : Phase
  pub dispatched : Bool
  pub type_name : Text
  pub message : Text

pub record TrackState : Type 0 where
  pub model : Text
  pub candidate : Text
  pub calls : ℕ
  pub feedback : Text
  pub restarts : ℕ
  pub restart_pending : Bool
  pub failure_memory : List Text
  pub seen_candidates : List Text
  pub signature_run : ℕ
  pub previous_signature : Option Text
  pub attempts : List AttemptRecord
  pub call_errors : List CallError
  pub pending_packet : Option PeerPacket
  pub active : Bool

unfoldable pub fresh_track : (model candidate : Text) → TrackState
fresh_track m c = record {
  model = m;
  candidate = c;
  calls = 0;
  feedback = [];
  restarts = 0;
  restart_pending = false;
  failure_memory = [];
  seen_candidates = [];
  signature_run = 0;
  previous_signature = none;
  attempts = [];
  call_errors = [];
  pending_packet = none;
  active = true;
}

-- What the constructor sets.
pub record Settings : Type 0 where
  pub max_calls_per_model : ℕ
  pub max_restarts : ℕ
  pub diagnostic_chars : ℕ
  pub failure_memory_chars : ℕ
  pub peer_packet_chars : ℕ

pub data InvalidArgument : Type 0 where
  wrong_max_calls wrong_max_restarts wrong_packet_chars : InvalidArgument

-- `__init__`
unfoldable pub create : Settings → Result InvalidArgument Settings
create s =
    if not (leb 1 s.max_calls_per_model && leb s.max_calls_per_model 25)
    then err wrong_max_calls
    else if not (leb 1 s.max_restarts && leb s.max_restarts 2)
    then err wrong_max_restarts
    else if not (leb 1 s.peer_packet_chars && leb s.peer_packet_chars 12000)
    then err wrong_packet_chars
    else ok s

-- `_error`
unfoldable pub error : Exception → (call : ℕ) → Phase → (dispatched : Bool) → CallError
error e call phase dispatched = record {
  call = call;
  phase = phase;
  dispatched = dispatched;
  type_name = e.type_name;
  message = take 1000 e.message;
}

abbrev same_signature : Text → Option Text → Bool
same_signature s none = false
same_signature s (some p) = text_eq s p

abbrev set_last_reason : RestartReason → List AttemptRecord → List AttemptRecord
set_last_reason r [] = []
set_last_reason r (a ∷ []) = record a { restart_reason = some r } ∷ []
set_last_reason r (a ∷ b ∷ l) = a ∷ set_last_reason r (b ∷ l)

abbrev labels : Text
labels = codes "Failed Lean candidate excerpt:\n\nLean diagnostics:\n"

-- The entry for the failed candidate.
unfoldable pub memory_entry : Settings → TrackState → Text
unfolding join
memory_entry s t =
    let memory_limit = max 1 (s.failure_memory_chars / s.max_restarts) in
    let available = memory_limit - length labels in
    let candidate_limit = max 1 (available * 2 / 3) in
    let feedback_limit = max 1 (available - candidate_limit) in
    take memory_limit (
      join (codes "\n") (
        codes "Failed Lean candidate excerpt:"
        ∷ bounded_excerpt t.candidate candidate_limit
        ∷ codes "Lean diagnostics:"
        ∷ bounded_excerpt t.feedback feedback_limit
        ∷ []))

unfoldable pub restart_track :
    Settings → RestartReason → (pristine : Text) → TrackState → TrackState
unfolding memory_entry trim_memory
restart_track s reason pristine t = record t {
  restarts = t.restarts + 1;
  attempts = set_last_reason reason t.attempts;
  failure_memory = trim_memory s.failure_memory_chars (t.failure_memory ++ memory_entry s t ∷ []);
  candidate = pristine;
  feedback = [];
  previous_signature = none;
  signature_run = 0;
  restart_pending = true;
}

unfoldable pub reason_for : (repeated : Bool) → (signature_run : ℕ) → Option RestartReason
reason_for repeated run =
    if repeated
    then some repeated_candidate
    else if leb 3 run
    then some unchanged_signature
    else none

-- The restart, if there is a reason for it and the track has restarts left.
unfoldable pub maybe_restart :
    Settings → Option RestartReason → (pristine : Text) → TrackState → TrackState
unfolding restart_track
maybe_restart s none pristine t = t
maybe_restart s (some reason) pristine t =
    if ltb t.restarts s.max_restarts then restart_track s reason pristine t else t

-- `_update_decomposition`
unfoldable pub update_decomposition :
    Settings → TrackState → (signature : Text) → (repeated : Bool) → (pristine : Text) → TrackState
unfolding text_eq reason_for maybe_restart
update_decomposition s t signature repeated pristine =
    let run = if same_signature signature t.previous_signature then t.signature_run + 1 else 1 in
    maybe_restart s (reason_for repeated run) pristine
      (record t { signature_run = run; previous_signature = some signature })

pub data PacketError : Type 0 where
  unknown_model same_model second_packet too_long empty_packet : PacketError

pub record PacketEvent : Type 0 where
  pub after_round : ℕ
  pub target_model : Text
  pub source_model : Text
  pub kind : Text
  pub content_chars : ℕ
  pub content_sha256 : Text

abbrev has_track : Text → List TrackState → Bool
has_track m = any (λ t. text_eq t.model m)

-- `tracks[model].pending_packet = packet`
unfoldable pub give_packet : PeerPacket → List TrackState → List TrackState
unfolding text_eq
give_packet p [] = []
give_packet p (t ∷ ts) =
    let rest = give_packet p ts in
    if text_eq t.model p.target_model then record t { pending_packet = some p } ∷ ts else t ∷ rest

-- The first of the checks that a packet fails.
unfoldable pub packet_error :
    (chars : ℕ) → (targets : List Text) → PeerPacket → List TrackState → Option PacketError
unfolding text_eq strip
packet_error chars targets p ts =
    if not (has_track p.target_model ts && has_track p.source_model ts)
    then some unknown_model
    else if text_eq p.target_model p.source_model
    then some same_model
    else if any (text_eq p.target_model) targets
    then some second_packet
    else if ltb chars (length p.content)
    then some too_long
    else if is_empty (strip p.content)
    then some empty_packet
    else none

-- `_install_packets`; `targets` are those of the packets before.
unfoldable pub install_packets :
    (sha256 : Text → Text)
    → (chars round : ℕ) → (targets : List Text) → List PeerPacket
    → List TrackState × List PacketEvent
    → Result PacketError (List TrackState × List PacketEvent)
unfolding packet_error give_packet
install_packets sha256 chars round targets [] m = ok m
install_packets sha256 chars round targets (p ∷ ps) (ts, es) =
    elim (packet_error chars targets p ts) [
      | some e ↦ err e
      | none ↦ install_packets sha256 chars round (p.target_model ∷ targets) ps (
        give_packet p ts,
        es
            ++ record {
              after_round = round;
              target_model = p.target_model;
              source_model = p.source_model;
              kind = p.kind;
              content_chars = length p.content;
              content_sha256 = sha256 p.content;
            }
              ∷ [],
      )
    ]
