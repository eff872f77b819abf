-- ===== src/Engine/Decompose/Bounds.antt =====
-- The number of restarts and the failure memory under `_update_decomposition`.
use re_takehome_submission.Common.{
  ℕ, ◌≤◌, inl, inr, Bool, Option, none, some, List, [], ◌∷◌, ◌++◌, arith, ltb, length, length-take,
  All, All-append, Bool-cases,
}
use re_takehome_submission.Common.Text.{Text, codes, join}
use re_takehome_submission.Engine.State.{RestartReason, TrackState, Settings}
use re_takehome_submission.Engine.Decompose.{
  memory_limit, memory_entry, trim_memory, restart_track, maybe_restart, reason_for,
  count_signature, update_decomposition,
}

-- A memory that fits: each entry is within the limit of an entry, and all of them together with
-- their separators are within the limit of the memory.
pub record MemoryFits (s : Settings) (memory : List Text) : Type 0 where
  pub entries : All (λ (e : Text). length e ≤ memory_limit s) memory
  pub total : length (join (codes "\n") memory) ≤ s.failure_memory_chars

length-memory_entry : (s : Settings) (t : TrackState) → length (memory_entry s t) ≤ memory_limit s
unfolding memory_entry
length-memory_entry s t = omega (arith, length-take {0})

trim-entries :
    (P : Text → Type 0) (limit : ℕ) (m : List Text) → All P m → All P (trim_memory limit m)
unfolding trim_memory
trim-entries P limit [] h = tt
trim-entries P limit (x ∷ []) h = h
trim-entries P limit (x ∷ y ∷ r) h =
    elim (Bool-cases (ltb limit (length (join (codes "\n") (x ∷ y ∷ r))))) [
      | inl e ↦ rw (e, trim_memory) (trim-entries P limit (y ∷ r) h.1)
      | inr e ↦ rw (e, trim_memory) h
    ]

trim-total :
    (limit : ℕ) (m : List Text)
    → All (λ (e : Text). length e ≤ limit) m
    → length (join (codes "\n") (trim_memory limit m)) ≤ limit
unfolding trim_memory
trim-total limit [] h = unfold join in omega arith
trim-total limit (x ∷ []) h = unfold join in h.0
trim-total limit (x ∷ y ∷ r) h =
    elim (Bool-cases (ltb limit (length (join (codes "\n") (x ∷ y ∷ r))))) [
      | inl e ↦ rw (e, trim_memory) (trim-total limit (y ∷ r) h.1)
      | inr e ↦ rw (e, trim_memory) (ground arith)
    ]

module _ (s : Settings) (positive : 1 ≤ s.failure_memory_chars)
    (some_restarts : 1 ≤ s.max_restarts) where
  memory_limit-le : memory_limit s ≤ s.failure_memory_chars
  unfolding memory_limit
  memory_limit-le = grind arith

  weaken :
      (m : List Text)
      → All (λ (e : Text). length e ≤ memory_limit s) m
      → All (λ (e : Text). length e ≤ s.failure_memory_chars) m
  weaken [] h = tt
  weaken (x ∷ xs) h = (omega (arith, memory_limit-le), weaken xs h.1)

  maybe_restart-bounded :
      (reason : Option RestartReason) (pristine : Text) (t : TrackState)
      → t.restarts ≤ s.max_restarts
      → MemoryFits s t.failure_memory
      → let t' = maybe_restart s reason pristine t in
        (t'.restarts ≤ s.max_restarts) × MemoryFits s t'.failure_memory
  unfolding maybe_restart restart_track
  maybe_restart-bounded none pristine t h m = (h, m)
  maybe_restart-bounded (some r) pristine t h m =
      elim (Bool-cases (ltb t.restarts s.max_restarts)) [
        | inr e ↦ rw (e, maybe_restart) (h, m)
        | inl e ↦
            let all : All (λ (e : Text). length e ≤ memory_limit s)
                (t.failure_memory ++ memory_entry s t ∷ []) =
              All-append _ t.failure_memory (memory_entry s t ∷ []) m.entries
                (length-memory_entry s t, tt) in
            rw (e, maybe_restart)
              (
                ground arith,
                record {
                  entries = trim-entries _ s.failure_memory_chars _ all;
                  total = trim-total s.failure_memory_chars _ (weaken _ all);
                },
              )
      ]

  -- With at least one character of failure memory and at least one restart allowed, the bookkeeping
  -- after an attempt keeps the number of restarts within its maximum and the failure memory within
  -- its limits.
  pub update_decomposition-bounded :
      (t : TrackState) (signature : Text) (repeated : Bool) (pristine : Text)
      → t.restarts ≤ s.max_restarts
      → MemoryFits s t.failure_memory
      → let t' = update_decomposition s t signature repeated pristine in
        (t'.restarts ≤ s.max_restarts) × MemoryFits s t'.failure_memory
  unfolding update_decomposition count_signature
  update_decomposition-bounded t signature repeated pristine h m =
      maybe_restart-bounded (reason_for repeated (count_signature signature t)) pristine
        (count_signature signature t) h m
