-- ===== src/Engine/Decompose.antt =====
-- `_update_decomposition`: repeated candidates and repeated errors lead to a restart from the
-- pristine challenge, with a bounded memory of what failed.
pub mod Bounds
use re_takehome_submission.Common.{
  ℕ, zero, suc, ◌+◌, ◌-◌, ◌*◌, ◌/◌, Bool, true, false, not, ◌&&◌, ◌||◌, Option, none, some, List,
  [], ◌∷◌, ◌++◌, leb, ltb, ◌==◌, if◌then◌else◌, length, take, max, is_empty,
}
use re_takehome_submission.Common.Text.{Text, codes, text_eq, join, strip, last_chars}
use re_takehome_submission.Uplift.{bounded_excerpt}
use re_takehome_submission.Engine.State.{
  RestartReason, repeated_candidate, unchanged_signature, AttemptRecord, TrackState, Settings,
}

abbrev same_signature : Text → Option Text → Bool
same_signature s none = false
same_signature s (some p) = text_eq s p

-- The counters that a finished attempt moves first.
unfoldable pub count_signature : Text → TrackState → TrackState
unfolding text_eq
count_signature signature t = record t {
  signature_run = if same_signature signature t.previous_signature then t.signature_run + 1 else 1;
  previous_signature = some signature;
}

unfoldable pub reason_for : (repeated : Bool) → TrackState → Option RestartReason
reason_for repeated t =
    if repeated
    then some repeated_candidate
    else if leb 3 t.signature_run
    then some unchanged_signature
    else none

-- `track.attempts[-1].restart_reason = reason`
abbrev pub set_last_reason : RestartReason → List AttemptRecord → List AttemptRecord
set_last_reason r [] = []
set_last_reason r (a ∷ []) = record a { restart_reason = some r } ∷ []
set_last_reason r (a ∷ b ∷ l) = a ∷ set_last_reason r (b ∷ l)

unfoldable pub memory_limit : Settings → ℕ
memory_limit s = max 1 (s.failure_memory_chars / s.max_restarts)

-- The entry for the failed candidate.
unfoldable pub memory_entry : Settings → TrackState → Text
memory_entry s t =
    let limit = memory_limit s in
    let candidate_limit = max 1 (limit * 2 / 3) in
    take limit (
      codes "Failed Lean candidate excerpt:\n"
      ++ (bounded_excerpt t.candidate candidate_limit
          ++ (codes "\nLean diagnostics:\n"
              ++ bounded_excerpt t.feedback (max 1 (limit - candidate_limit - 50)))))

-- `while len("\n".join(memory)) > limit and len(memory) > 1: memory.pop(0)`
unfoldable pub trim_memory : ℕ → List Text → List Text
unfolding join
trim_memory limit [] = []
trim_memory limit (x ∷ []) = x ∷ []
trim_memory limit (x ∷ y ∷ r) =
    let rest = trim_memory limit (y ∷ r) in
    if ltb limit (length (join (codes "\n") (x ∷ y ∷ r))) then rest else x ∷ y ∷ r

unfoldable pub restart_track : Settings → RestartReason → Text → TrackState → TrackState
unfolding memory_entry trim_memory
restart_track s reason pristine t = record t {
  restarts = t.restarts + 1;
  attempts = set_last_reason reason t.attempts;
  failure_memory = trim_memory s.failure_memory_chars (t.failure_memory ++ memory_entry s t ∷ []);
  candidate = pristine;
  feedback = [];
  previous_signature = none;
  signature_run = 0;
  restart_pending = true;
}

-- The restart, if there is a reason and the track has restarts left.
unfoldable pub maybe_restart : Settings → Option RestartReason → Text → TrackState → TrackState
unfolding restart_track
maybe_restart s none pristine t = t
maybe_restart s (some reason) pristine t =
    if ltb t.restarts s.max_restarts then restart_track s reason pristine t else t

-- `_update_decomposition`
unfoldable pub update_decomposition :
    Settings → TrackState → (signature : Text) → (repeated : Bool) → (pristine : Text) → TrackState
unfolding count_signature reason_for maybe_restart
update_decomposition s t signature repeated pristine =
    let t' = count_signature signature t in maybe_restart s (reason_for repeated t') pristine t'
