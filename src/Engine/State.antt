-- ===== src/Engine/State.antt =====
-- The records of collaboration_engine_v2/agent.py. Times are in microseconds since `solve` began,
-- so the rounding to six places loses nothing. A verification job and a queued packet share the
-- attempt and the event that they belong to with the lists that hold these: here they keep the
-- attempt's number on its track, and the event's place in the list. The digest of a packet's content,
-- which an event also holds, is left out, and so is the list of retries, which stands in `Retry`.
pub mod Lookup
use re_takehome_submission.Common.{
  ℕ, zero, suc, ◌+◌, Bool, true, false, Option, none, some, List, [], ◌∷◌, if◌then◌else◌, any,
}
use re_takehome_submission.Common.Text.{Text, codes, text_eq}
use re_takehome_submission.Strategies.{PeerPacket}

pub data Phase : Type 0 where
  direct repair restart peer_fill : Phase

pub data RestartReason : Type 0 where
  repeated_candidate unchanged_signature : RestartReason

pub data ReleaseReason : Type 0 where
  deadline_margin peer_exhausted : ReleaseReason

pub record AttemptRecord : Type 0 where
  pub attempt : ℕ
  pub call : ℕ
  pub round : ℕ
  pub phase : Phase
  pub candidate_sha256 : Text
  pub error_signature_sha256 : Text
  pub lean_accepted : Bool
  pub accepted : Bool
  pub compatibility_checked : Bool
  pub compatibility_passed : Bool
  pub timed_out : Bool
  pub raw_diagnostic_count : ℕ
  pub diagnostic_excerpt : Text
  pub checkpoint_saved : Bool
  pub peer_packet_used : Bool
  pub required_declarations_present : Bool
  pub original_imports_unchanged : Bool
  pub imports_normalized : Bool
  pub proposal_committed : Bool
  pub restart_reason : Option RestartReason
  pub salvage_attempted : Bool
  pub salvage_compiled : Bool
  pub salvage_mode : Option Text
  pub salvage_sha256 : Option Text
  pub salvage_retained_lines : ℕ

-- `call_errors`, with the exception's class and message as one text.
pub record CallError : Type 0 where
  pub call : ℕ
  pub phase : Phase
  pub dispatched : Bool
  pub message : Text

pub data SalvageEvent : Type 0 where
  no_transformation no_structure : (parent : Text) → SalvageEvent
  checked : (index : ℕ) (compiled timed_out : Bool) (skeleton : Text) → SalvageEvent

-- A queued packet with the place of its event.
pub record Queued : Type 0 where
  pub packet : PeerPacket
  pub event : ℕ

pub record TrackState : Type 0 where
  pub model : Text
  pub candidate : Text
  pub calls : ℕ
  pub feedback : Text
  pub restarts : ℕ
  pub restart_pending : Bool
  pub failure_memory : List Text
  pub seen_candidates : List Text
  pub signature_run : ℕ
  pub previous_signature : Option Text
  pub attempts : List AttemptRecord
  pub call_errors : List CallError
  pub pending_packets : List Queued
  pub salvage_events : List SalvageEvent
  pub peer_packets_consumed : ℕ
  pub reserve_release_reason : Option ReleaseReason
  pub active : Bool

-- `TrackState(model=model, candidate=candidate)`
unfoldable pub fresh_track : (model candidate : Text) → TrackState
fresh_track m c = record {
  model = m;
  candidate = c;
  calls = 0;
  feedback = [];
  restarts = 0;
  restart_pending = false;
  failure_memory = [];
  seen_candidates = [];
  signature_run = 0;
  previous_signature = none;
  attempts = [];
  call_errors = [];
  pending_packets = [];
  salvage_events = [];
  peer_packets_consumed = 0;
  reserve_release_reason = none;
  active = true;
}

pub record PacketEvent : Type 0 where
  pub after_round : ℕ
  pub target_model : Text
  pub source_model : Text
  pub kind : Text
  pub content_chars : ℕ
  pub queue_position : ℕ
  pub produced_at : Option ℕ
  pub replaced_before_use : Bool
  pub used_on_call : Option ℕ
  pub used_at : Option ℕ
  pub delivery_delay : Option ℕ

-- A float above zero, in microseconds: finite, or the infinite one, or not a number.
pub data Cutoff : Type 0 where
  cutoff_at : ℕ → Cutoff
  no_cutoff nan_cutoff : Cutoff

-- What the constructor keeps. Durations are in microseconds.
pub record Settings : Type 0 where
  pub models : List Text
  pub max_calls_per_model : Option ℕ
  pub max_restarts : ℕ
  pub diagnostic_chars : ℕ
  pub failure_memory_chars : ℕ
  pub peer_packet_chars : ℕ
  pub dispatch_cutoff : Cutoff
  pub max_cost_free_429_retries : ℕ
  pub enable_salvage : Bool
  pub model_call_wall_timeout : ℕ
  pub fast_track_reserved_calls : ℕ
  pub reserve_release_margin : ℕ

-- `tracks[model]`; the tracks stand in the order of the models, which differ.
unfoldable pub find_track : Text → List TrackState → Option TrackState
unfolding text_eq
find_track m [] = none
find_track m (t ∷ ts) = if text_eq t.model m then some t else find_track m ts

-- `model in tracks`
unfoldable pub has_track : Text → List TrackState → Bool
unfolding text_eq
has_track m [] = false
has_track m (t ∷ ts) = if text_eq t.model m then true else has_track m ts

-- A change of the track of one model.
unfoldable pub update_track : Text → (TrackState → TrackState) → List TrackState → List TrackState
unfolding text_eq
update_track m f [] = []
update_track m f (t ∷ ts) = if text_eq t.model m then f t ∷ ts else t ∷ update_track m f ts

-- A change of the element at a place.
unfoldable pub update_at {ℓ} : {A : Type ℓ} → ℕ → (A → A) → List A → List A
update_at n f [] = []
update_at zero f (x ∷ xs) = f x ∷ xs
update_at (suc n) f (x ∷ xs) = x ∷ update_at n f xs
