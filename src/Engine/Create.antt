-- ===== src/Engine/Create.antt =====
-- The checks of the engine's constructor. Finite durations are whole numbers of microseconds.
pub mod Checked
mod Tests
use re_takehome_submission.Common.{
  ℕ, ◌-◌, Bool, true, false, not, ◌&&◌, ◌||◌, Option, none, some, List, [], ◌∷◌, leb, ltb, ◌==◌,
  if◌then◌else◌, any, is_empty,
}
use re_takehome_submission.Common.Int.{ℤ, pos, negsuc}
use re_takehome_submission.Common.Text.{Text, text_eq}
use re_takehome_submission.Common.Results.{Result, ok, err}
use re_takehome_submission.Engine.State.{Settings, Cutoff, cutoff_at, no_cutoff, nan_cutoff}

-- A float of seconds.
pub data Duration : Type 0 where
  micros : ℤ → Duration
  endless minus_endless not_a_number : Duration

-- The arguments of the constructor that the engine's decisions read.
pub record Arguments : Type 0 where
  pub models : List Text
  pub max_calls_per_model : Option ℤ
  pub max_restarts : ℤ
  pub diagnostic_chars : ℕ
  pub failure_memory_chars : ℕ
  pub peer_packet_chars : ℕ
  pub dispatch_cutoff : Duration
  pub max_cost_free_429_retries : ℤ
  pub enable_salvage : Bool
  pub model_call_wall_timeout : Duration
  pub fast_track_reserved_calls : ℤ
  pub reserve_release_margin : Duration

-- The argument that a `ValueError` names.
pub data InvalidArgument : Type 0 where
  models_not_unique invalid_ceiling invalid_restarts invalid_retries invalid_cutoff invalid_timeout
        invalid_reserve reserve_above_ceiling invalid_margin margin_above_cutoff :
      InvalidArgument

-- `len(models) == len(set(models))`
unfoldable pub are_unique : List Text → Bool
unfolding text_eq
are_unique [] = true
are_unique (m ∷ ms) = not (any (text_eq m) ms) && are_unique ms

-- `low <= value <= high`
unfoldable pub between : (low high : ℕ) → ℤ → Option ℕ
between low high (pos n) = if leb low n && leb n high then some n else none
between low high (negsuc n) = none

-- `value > 0`
unfoldable pub positive : ℤ → Option ℕ
positive (pos n) = if leb 1 n then some n else none
positive (negsuc n) = none

-- `math.isfinite(value) and value > 0`
unfoldable pub positive_duration : Duration → Option ℕ
unfolding positive
positive_duration (micros z) = positive z
positive_duration _ = none

abbrev as_cutoff : Option ℕ → Option Cutoff
as_cutoff none = none
as_cutoff (some n) = some (cutoff_at n)

-- `not dispatch_cutoff_s <= 0`: what is no number passes.
unfoldable pub cutoff_of : Duration → Option Cutoff
unfolding positive
cutoff_of (micros z) = as_cutoff (positive z)
cutoff_of endless = some no_cutoff
cutoff_of minus_endless = none
cutoff_of not_a_number = some nan_cutoff

-- `margin >= cutoff`
unfoldable pub is_at_least : (margin : ℕ) → Cutoff → Bool
is_at_least margin (cutoff_at n) = leb n margin
is_at_least margin no_cutoff = false
is_at_least margin nan_cutoff = false

-- `max_calls_per_model is None or 1 <= max_calls_per_model <= 25`
unfoldable pub ceiling_of : Option ℤ → Option (Option ℕ)
unfolding between
ceiling_of none = some none
ceiling_of (some z) = elim (between 1 25 z) [ none ↦ none | some n ↦ some (some n) ]

-- `max_calls_per_model is not None and fast_track_reserved_calls >= max_calls_per_model`
abbrev pub exceeds : ℕ → Option ℕ → Bool
exceeds reserved none = false
exceeds reserved (some limit) = leb limit reserved

abbrev settings_for :
    Arguments
    → Option ℕ
    → (cutoff : Cutoff) → (restarts retries timeout reserved margin : ℕ) → Settings
settings_for a calls cutoff restarts retries timeout reserved margin = record {
  models = a.models;
  max_calls_per_model = calls;
  max_restarts = restarts;
  diagnostic_chars = a.diagnostic_chars;
  failure_memory_chars = a.failure_memory_chars;
  peer_packet_chars = a.peer_packet_chars;
  dispatch_cutoff = cutoff;
  max_cost_free_429_retries = retries;
  enable_salvage = a.enable_salvage;
  model_call_wall_timeout = timeout;
  fast_track_reserved_calls = reserved;
  reserve_release_margin = margin;
}

-- The checks of the reserve, the last ones.
unfoldable pub check_reserve :
    Arguments
    → Option ℕ
    → (cutoff : Cutoff) → (restarts retries timeout : ℕ) → Result InvalidArgument Settings
unfolding between positive_duration is_at_least
check_reserve a calls cutoff restarts retries timeout =
    elim (between 0 4 a.fast_track_reserved_calls) [
      | none ↦ err invalid_reserve
      | some reserved ↦
          if exceeds reserved calls
          then err reserve_above_ceiling
          else elim (positive_duration a.reserve_release_margin) [
            | none ↦ err invalid_margin
            | some margin ↦
                if not (reserved == 0) && is_at_least margin cutoff
                then err margin_above_cutoff
                else ok (settings_for a calls cutoff restarts retries timeout reserved margin)
          ]
    ]

-- `CollaborationEngineV2Agent.__init__`
unfoldable pub create : Arguments → Result InvalidArgument Settings
unfolding are_unique ceiling_of between positive_duration cutoff_of check_reserve
create a =
    if is_empty a.models || not (are_unique a.models)
    then err models_not_unique
    else elim (ceiling_of a.max_calls_per_model) [
      | none ↦ err invalid_ceiling
      | some calls ↦ elim (between 1 2 a.max_restarts) [
        | none ↦ err invalid_restarts
        | some r ↦ elim (between 0 5 a.max_cost_free_429_retries) [
          | none ↦ err invalid_retries
          | some retries ↦ elim (cutoff_of a.dispatch_cutoff) [
            | none ↦ err invalid_cutoff
            | some c ↦ elim (positive_duration a.model_call_wall_timeout) [
              | none ↦ err invalid_timeout
              | some timeout ↦ check_reserve a calls c r retries timeout
            ]
          ]
        ]
      ]
    ]
