-- ===== src/Engine/Verify/Flight.antt =====
-- The verifications that the queue of `solve` starts.
use re_takehome_submission.Common.{
  ◌≡◌, refl, sym, ◌∙◌, inl, inr, Bool, true, false, Option, none, some, List, [], ◌∷◌, ◌++◌, arith,
  if◌then◌else◌, Bool-cases, Option-cases,
}
use mathlib.Core.Path.{subst}
use mathlib.Core.List.{append-nil}
use re_takehome_submission.Common.Text.{Text}
use re_takehome_submission.Engine.Verify.{
  VerificationJob, Verdict, VerifyOutcome, verdict_of, EventKind, Desk, log, apply_verification,
  find_result, set_result, start_verification, is_job, take_place, enqueue_verification, advance,
  drop_waiting, finish_verification,
}
use re_takehome_submission.Engine.Verify.Keys.{
  is_started, started_in, member, Distinct, result_keys, hash_of, started_in-append, member-append,
  Distinct-snoc, result_keys-set_new, find_result-none, Distinct-last, not_started-log,
}

-- The started candidates are those with a verdict and then the active one, all different, and the
-- waiting one is none of them.
pub record IsSingleFlight (d : Desk) : Type 0 where
  pub accounted : started_in d.events ≡ result_keys d.results ++ hash_of d.active
  pub once : Distinct (result_keys d.results ++ hash_of d.active)
  pub ahead :
      (j : VerificationJob)
      → d.waiting ≡ some j
      → member j.candidate_sha256 (result_keys d.results ++ hash_of d.active) ≡ false

-- The candidates whose verification has ended or runs.
abbrev begun : Desk → List Text
begun d = result_keys d.results ++ hash_of d.active

-- An event of another kind keeps the invariant.
log-IsSingleFlight :
    (k : EventKind) (j : VerificationJob) (p : Option Bool) (d : Desk)
    → is_started k ≡ false
    → IsSingleFlight d
    → IsSingleFlight (log k j p d)
log-IsSingleFlight k j p d h s = record {
  accounted = not_started-log d.events _ h ∙ s.accounted;
  once = s.once;
  ahead = s.ahead;
}

apply-IsSingleFlight :
    (sha256 : Text → Text) (k : EventKind) (j : VerificationJob) (v : Verdict) (d : Desk)
    → is_started k ≡ false
    → IsSingleFlight d
    → IsSingleFlight (apply_verification sha256 k j v d).1
unfolding apply_verification
apply-IsSingleFlight sha256 k j v d h s =
    log-IsSingleFlight k j (some v.passed) _ h
      (record { accounted = s.accounted; once = s.once; ahead = s.ahead })

wait-IsSingleFlight :
    (j : VerificationJob) (d : Desk)
    → member j.candidate_sha256 (result_keys d.results ++ hash_of d.active) ≡ false
    → IsSingleFlight d
    → IsSingleFlight (record d { waiting = some j })
wait-IsSingleFlight j d h s = record {
  accounted = s.accounted;
  once = s.once;
  ahead = λ i e. let q : i.candidate_sha256 ≡ j.candidate_sha256 = cc in rw q h;
}

take_place-IsSingleFlight :
    (j : VerificationJob) (d : Desk)
    → member j.candidate_sha256 (result_keys d.results ++ hash_of d.active) ≡ false
    → IsSingleFlight d
    → IsSingleFlight (take_place j d)
unfolding take_place
take_place-IsSingleFlight j d h s = elim (Option-cases d.waiting) [
  | inl e ↦
      rw (e, take_place)
        (log-IsSingleFlight EventKind.queued j none _ refl (wait-IsSingleFlight j d h s))
  | inr (old, e) ↦
      rw (e, take_place)
        (log-IsSingleFlight EventKind.queued j none _ refl (
          wait-IsSingleFlight j (log EventKind.superseded old none d) h
            (log-IsSingleFlight EventKind.superseded old none d refl s)))
]

member_active : (h : Text) (a : Option VerificationJob) → member h (hash_of a) ≡ is_job h a
member_active h none = refl
member_active h (some j) = ground arith

enqueue-IsSingleFlight :
    (sha256 : Text → Text) (j : VerificationJob) (d : Desk)
    → IsSingleFlight d
    → IsSingleFlight (enqueue_verification sha256 j d).1
unfolding enqueue_verification
enqueue-IsSingleFlight sha256 j d s =
    elim (Option-cases (find_result j.candidate_sha256 d.results)) [
      | inr (v, e) ↦
          rw (e, enqueue_verification)
            (apply-IsSingleFlight sha256 EventKind.completed_cached j v d refl s)
      | inl e ↦ elim (Bool-cases (is_job j.candidate_sha256 d.active)) [
        | inl a ↦
            rw (e, a, enqueue_verification)
              (log-IsSingleFlight EventKind.deduplicated_active j none d refl s)
        | inr a ↦ elim (Bool-cases (is_job j.candidate_sha256 d.waiting)) [
          | inl w ↦
              rw (e, a, w, enqueue_verification)
                (log-IsSingleFlight EventKind.deduplicated_queued j none d refl s)
          | inr w ↦
              rw (e, a, w, enqueue_verification)
                (take_place-IsSingleFlight j d
                  (ground (
                    arith,
                    member-append j.candidate_sha256 (result_keys d.results) (hash_of d.active),
                    find_result-none j.candidate_sha256 d.results e,
                    member_active j.candidate_sha256 d.active,
                  ))
                  s)
        ]
      ]
    ]

start-IsSingleFlight :
    (j : VerificationJob) (d : Desk)
    → d.active ≡ none
    → d.waiting ≡ some j
    → IsSingleFlight d
    → IsSingleFlight (start_verification j (record d { waiting = none }))
unfolding start_verification
start-IsSingleFlight j d idle e s =
    let none_active : begun d ≡ result_keys d.results =
      rw idle (append-nil (result_keys d.results)) in
    record {
      accounted = started_in-append d.events _ ∙ rw (s.accounted, none_active) (refl);
      once =
          Distinct-snoc (result_keys d.results) j.candidate_sha256 (rw none_active at (s.once))
            (rw none_active at (s.ahead j e));
      ahead = λ i q. absurd (cc);
    }

advance-IsSingleFlight : (d : Desk) → IsSingleFlight d → IsSingleFlight (advance d)
unfolding advance
advance-IsSingleFlight d s = elim (Option-cases d.active) [
  | inr (i, a) ↦ rw (a, advance) s
  | inl a ↦ elim (Option-cases d.waiting) [
    | inl w ↦ rw (a, w, advance) s
    | inr (j, w) ↦ rw (a, w, advance) (start-IsSingleFlight j d a w s)
  ]
]

drop_waiting-IsSingleFlight : (d : Desk) → IsSingleFlight d → IsSingleFlight (drop_waiting d)
unfolding drop_waiting
drop_waiting-IsSingleFlight d s = elim (Option-cases d.waiting) [
  | inl e ↦ rw (e, drop_waiting) s
  | inr (j, e) ↦
      rw (e, drop_waiting)
        (log-IsSingleFlight EventKind.superseded_by_verified_success j none _ refl
          (record { accounted = s.accounted; once = s.once; ahead = λ i q. absurd (cc) }))
]

-- The verdict moves the active candidate to the results.
settled-IsSingleFlight :
    (j : VerificationJob) (v : Verdict) (d : Desk)
    → d.active ≡ some j
    → IsSingleFlight d
    → IsSingleFlight
        (record d { results = set_result j.candidate_sha256 v d.results; active = none })
settled-IsSingleFlight j v d a s =
    let split : begun d ≡ result_keys d.results ++ j.candidate_sha256 ∷ [] = rw a in
    let same : begun
          (record d { results = set_result j.candidate_sha256 v d.results; active = none })
        ≡ begun d =
      append-nil _
      ∙ result_keys-set_new j.candidate_sha256 v d.results
          (Distinct-last (result_keys d.results) j.candidate_sha256 (rw split at (s.once)))
      ∙ sym split in
    record {
      accounted = s.accounted ∙ sym same;
      once = subst Distinct (sym same) s.once;
      ahead = λ i q. subst (λ l. member i.candidate_sha256 l ≡ false) (sym same) (s.ahead i q);
    }

onward-IsSingleFlight :
    (passed : Bool) (d : Desk)
    → IsSingleFlight d
    → IsSingleFlight (if passed then drop_waiting d else advance d)
onward-IsSingleFlight true d s = drop_waiting-IsSingleFlight d s
onward-IsSingleFlight false d s = advance-IsSingleFlight d s

finish-IsSingleFlight :
    (sha256 : Text → Text) (j : VerificationJob) (o : VerifyOutcome) (d : Desk)
    → d.active ≡ some j
    → IsSingleFlight d
    → IsSingleFlight (finish_verification sha256 j o d).1
unfolding finish_verification apply_verification
finish-IsSingleFlight sha256 j o d a s =
    let v = verdict_of o in
    let logged =
      log-IsSingleFlight EventKind.completed j (some v.passed) _ refl
        (settled-IsSingleFlight j v d a s) in
    onward-IsSingleFlight v.passed _
      (record { accounted = logged.accounted; once = logged.once; ahead = logged.ahead })

-- The moves of the queue: a candidate is enqueued, the queue is looked at, the running verification
-- ends.
pub data Move : Type 0 where
  enqueuing : VerificationJob → Move
  advancing : Move
  finishing : VerifyOutcome → Move

pub move : (Text → Text) → Move → Desk → Desk
move sha256 (enqueuing j) d = (enqueue_verification sha256 j d).1
move sha256 advancing d = advance d
move sha256 (finishing o) d = elim d.active [
  | none ↦ d
  | some j ↦ (finish_verification sha256 j o d).1
]

pub moves : (Text → Text) → List Move → Desk → Desk
unfolding move
moves sha256 [] d = d
moves sha256 (m ∷ ms) d = moves sha256 ms (move sha256 m d)

move-IsSingleFlight :
    (sha256 : Text → Text) (m : Move) (d : Desk)
    → IsSingleFlight d
    → IsSingleFlight (move sha256 m d)
unfolding move
move-IsSingleFlight sha256 (enqueuing j) d s = enqueue-IsSingleFlight sha256 j d s
move-IsSingleFlight sha256 advancing d s = advance-IsSingleFlight d s
move-IsSingleFlight sha256 (finishing o) d s = elim (Option-cases d.active) [
  | inl e ↦ rw (e, move) s
  | inr (j, e) ↦ rw (e, move) (finish-IsSingleFlight sha256 j o d e s)
]

moves-IsSingleFlight :
    (sha256 : Text → Text) (ms : List Move) (d : Desk)
    → IsSingleFlight d
    → IsSingleFlight (moves sha256 ms d)
unfolding moves
moves-IsSingleFlight sha256 [] d s = s
moves-IsSingleFlight sha256 (m ∷ ms) d s =
    moves-IsSingleFlight sha256 ms (move sha256 m d) (move-IsSingleFlight sha256 m d s)

-- From a desk on which the candidates started so far are those with a verdict and the active one,
-- all different and without the waiting one, no sequence of moves starts the verification of one
-- candidate twice.
pub moves-started_once :
    (sha256 : Text → Text) (ms : List Move) (d : Desk)
    → IsSingleFlight d
    → Distinct (started_in (moves sha256 ms d).events)
moves-started_once sha256 ms d s =
    let after = moves-IsSingleFlight sha256 ms d s in
    subst Distinct (sym after.accounted) after.once
