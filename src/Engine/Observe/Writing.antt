-- ===== src/Engine/Observe/Writing.antt =====
-- The checkpoints that the verification queue writes.
use re_takehome_submission.Common.{
  ◌≡◌, refl, sym, Bool, true, false, Option, none, some, List, [], ◌∷◌, ◌++◌, if◌then◌else◌, inl,
  inr, Bool-cases, Option-cases,
}
use mathlib.Core.Path.{subst}
use re_takehome_submission.Common.Text.{Text}
use re_takehome_submission.Engine.Verify.{
  VerificationJob, Verdict, VerifyOutcome, verdict_of, EventKind, Desk, Checkpoint, find_result,
  is_job, take_place, advance, start_verification, drop_waiting, apply_verification,
  enqueue_verification, finish_verification,
}

-- The source of the last checkpoint.
abbrev pub last_source : List Checkpoint → Option Text
last_source [] = none
last_source (c ∷ []) = some c.source
last_source (c ∷ d ∷ cs) = last_source (d ∷ cs)

pub last_source-snoc :
    (cs : List Checkpoint) (c : Checkpoint) → last_source (cs ++ c ∷ []) ≡ some c.source
last_source-snoc [] c = refl
last_source-snoc (a ∷ []) c = refl
last_source-snoc (a ∷ b ∷ cs) c = last_source-snoc (b ∷ cs) c

-- A checkpoint of the source was written, or none was.
abbrev pub Wrote : Bool → Text → List Checkpoint → List Checkpoint → Type 0
Wrote true source before after = last_source after ≡ some source
Wrote false source before after = after ≡ before

written :
    (b : Bool) (c : Checkpoint) (cs : List Checkpoint)
    → Wrote b c.source cs (if b then cs ++ c ∷ [] else cs)
written true c cs = last_source-snoc cs c
written false c cs = refl

apply-Wrote :
    (sha256 : Text → Text) (k : EventKind) (j : VerificationJob) (v : Verdict) (d : Desk)
    → let (won, d') = apply_verification sha256 k j v d in
      Wrote won j.source d.checkpoints d'.checkpoints
unfolding apply_verification
apply-Wrote sha256 k j v d = written v.passed _ d.checkpoints

take_place-checkpoints :
    (j : VerificationJob) (d : Desk) → (take_place j d).checkpoints ≡ d.checkpoints
unfolding take_place
take_place-checkpoints j d = elim (Option-cases d.waiting) [
  | inl e ↦ rw (e, take_place)
  | inr (i, e) ↦ rw (e, take_place)
]

pub enqueue-Wrote :
    (sha256 : Text → Text) (j : VerificationJob) (d : Desk)
    → let (won, d') = enqueue_verification sha256 j d in
      Wrote won j.source d.checkpoints d'.checkpoints
unfolding enqueue_verification
enqueue-Wrote sha256 j d = elim (Option-cases (find_result j.candidate_sha256 d.results)) [
  | inr (v, e) ↦ rw (e, enqueue_verification) (apply-Wrote sha256 EventKind.completed_cached j v d)
  | inl e ↦ elim (Bool-cases (is_job j.candidate_sha256 d.active)) [
    | inl a ↦ rw (e, a, enqueue_verification) (refl)
    | inr a ↦ elim (Bool-cases (is_job j.candidate_sha256 d.waiting)) [
      | inl w ↦ rw (e, a, w, enqueue_verification) (refl)
      | inr w ↦ rw (e, a, w, enqueue_verification) (take_place-checkpoints j d)
    ]
  ]
]

advance-checkpoints : (d : Desk) → (advance d).checkpoints ≡ d.checkpoints
unfolding advance start_verification
advance-checkpoints d = elim (Option-cases d.active) [
  | inr (i, a) ↦ rw (a, advance)
  | inl a ↦ elim (Option-cases d.waiting) [
    | inl w ↦ rw (a, w, advance)
    | inr (j, w) ↦ rw (a, w, advance)
  ]
]

drop_waiting-checkpoints : (d : Desk) → (drop_waiting d).checkpoints ≡ d.checkpoints
unfolding drop_waiting
drop_waiting-checkpoints d = elim (Option-cases d.waiting) [
  | inl e ↦ rw (e, drop_waiting)
  | inr (i, e) ↦ rw (e, drop_waiting)
]

onward-checkpoints :
    (b : Bool) (d : Desk) → (if b then drop_waiting d else advance d).checkpoints ≡ d.checkpoints
onward-checkpoints true d = drop_waiting-checkpoints d
onward-checkpoints false d = advance-checkpoints d

pub finish-Wrote :
    (sha256 : Text → Text) (j : VerificationJob) (o : VerifyOutcome) (d : Desk)
    → let (won, d') = finish_verification sha256 j o d in
      Wrote won j.source d.checkpoints d'.checkpoints
unfolding finish_verification apply_verification
finish-Wrote sha256 j o d =
    subst (Wrote (verdict_of o).passed j.source d.checkpoints)
      (sym (onward-checkpoints (verdict_of o).passed _))
      (written (verdict_of o).passed _ d.checkpoints)
