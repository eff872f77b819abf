-- ===== src/Submission/Implements.antt =====
-- A track of the portfolio and the loop of the baseline.
use re_takehome_submission.Common.{
  ℕ, zero, suc, ◌+◌, ◌≡◌, refl, ap, sym, ◌∙◌, Bool, true, false, List, [], length, length-append,
  leb, ◌==◌, if◌then◌else◌, ◌⊎◌, if_cases, inl, inr, arith,
}
use re_takehome_submission.Common.Text.{Text}
use re_takehome_submission.Common.Json.{Json}
use re_takehome_submission.Common.Results.{Result, ok}
use re_takehome_submission.Engine.Salvaging.{LeanCheck}
use re_takehome_submission.Collaboration.Track.{Exception}
use re_takehome_submission.Baseline.{
  Problem, Message, Progress, Outcome, accepted_by_repl, messages, feedback_of, tried, save, turns,
  solve,
}
use re_takehome_submission.Baseline.Extract.{extract_lean}
use re_takehome_submission.Submission.{
  Track, Reply, replied, fresh_track, is_active, prompt, receive, proposed, checked,
}
use re_takehome_submission.Submission.Alone.{settle, advance, lone}

-- A track without errors, with the variables of the baseline's loop.
abbrev pub track_with : (model : Text) → (max_turns : ℕ) → Progress → Track
track_with m n s = record {
  model = m;
  max_turns = n;
  candidate = s.candidate;
  feedback = s.feedback;
  attempts = s.attempts;
  call_errors = [];
  lean_errors = [];
  disabled = false;
}

module _ (str_of : Json → Text) (check : (turn : ℕ) → Text → Result Exception LeanCheck)
    (p : Problem) (reply : (turn : ℕ) → (model : Text) → List Message → Reply) (model : Text)
    (max_turns : ℕ) (answer : List Message → Text) (verdict : (turn : ℕ) → Text → LeanCheck)
    (replies : (turn : ℕ) (ms : List Message) → reply turn model ms ≡ replied (answer ms))
    (checks : (turn : ℕ) (c : Text) → check turn c ≡ ok (verdict turn c)) where
  abbrev llm : List Message → Result Text Text
  llm ms = ok (answer ms)

  abbrev lean : (turn : ℕ) → Text → Result Text LeanCheck
  lean turn c = ok (verdict turn c)

  abbrev candidate_at : (turn : ℕ) → Progress → Text
  candidate_at turn s =
      extract_lean (answer (messages p max_turns s.feedback turn (turn == max_turns))) s.candidate

  abbrev verdict_at : (turn : ℕ) → Progress → LeanCheck
  verdict_at turn s = verdict turn (candidate_at turn s)

  abbrev tried_at : (turn : ℕ) → Progress → Progress
  tried_at turn s =
      tried str_of llm lean p max_turns turn (verdict_at turn s)
        (save str_of llm lean p max_turns (candidate_at turn s) s)

  -- The variables behind a rejected candidate.
  abbrev next_progress : (turn : ℕ) → Progress → Progress
  next_progress turn s = record (tried_at turn s) {
    feedback = feedback_of str_of (verdict_at turn s);
  }

  proposed-track_with :
      (turn : ℕ) (s : Progress)
      → leb turn max_turns ≡ true
      → proposed false str_of check p reply turn (track_with model max_turns s)
        ≡ (track_with model max_turns (record s { candidate = candidate_at turn s }), true)
  unfolding proposed is_active prompt receive
  proposed-track_with turn s h =
      let e = replies turn (messages p max_turns s.feedback turn (turn == max_turns)) in
      rw (h, e) refl

  advance-track_with :
      (turn : ℕ) (s : Progress)
      → leb turn max_turns ≡ true
      → advance false str_of check p reply turn (track_with model max_turns s)
        ≡ track_with model max_turns (record (tried_at turn s) {
          feedback =
              if (verdict_at turn s).accepted
              then s.feedback
              else feedback_of str_of (verdict_at turn s);
        })
  unfolding checked tried save
  advance-track_with turn s h =
      let c = candidate_at turn s in
      let t = track_with model max_turns (record s { candidate = c }) in
      ap (settle false str_of check p reply turn) (proposed-track_with turn s h)
      ∙ ap (λ v. checked false str_of check p reply turn v t) (checks turn c)

  -- A turn of the baseline, by Lean's answer.
  turns_split :
      (n turn : ℕ) (s : Progress)
      → (((verdict_at turn s).accepted ≡ true)
          × (turns str_of llm lean p max_turns (suc n) turn s
              ≡ (tried_at turn s, accepted_by_repl)))
        ⊎ (((verdict_at turn s).accepted ≡ false)
            × (turns str_of llm lean p max_turns (suc n) turn s
                ≡ turns str_of llm lean p max_turns n (turn + 1) (next_progress turn s)))
  unfolding turns
  turns_split n turn s =
      if_cases
        (λ (x : Progress × Outcome).
          (((verdict_at turn s).accepted ≡ true) × (x ≡ (tried_at turn s, accepted_by_repl)))
          ⊎ (((verdict_at turn s).accepted ≡ false)
              × (x ≡ turns str_of llm lean p max_turns n (turn + 1) (next_progress turn s))))
        (verdict_at turn s).accepted _ _ (λ a. inl (a, refl)) (λ a. inr (a, refl))

  turns_end : (turn : ℕ) (s : Progress) → (turns str_of llm lean p max_turns 0 turn s).0 ≡ s
  unfolding turns
  turns_end turn s = refl

  -- The turns that the baseline takes, taken by the track.
  abbrev Implements : (n turn : ℕ) → Progress → Type 0
  Implements n turn s =
      (k : ℕ) × (length (turns str_of llm lean p max_turns n turn s).0.attempts
        ≡ length s.attempts + k)
      × (lone false str_of check p reply k turn (track_with model max_turns s)
          ≡ track_with model max_turns (turns str_of llm lean p max_turns n turn s).0)

  length-tried_at :
      (turn : ℕ) (s : Progress) → length (tried_at turn s).attempts ≡ length s.attempts + 1
  unfolding tried save
  length-tried_at turn s = length-append s.attempts _

  old_feedback : (b : Bool) (old new : Text) → b ≡ true → (if b then old else new) ≡ old
  old_feedback true old new h = refl
  old_feedback false old new h = absurd (cc)

  new_feedback : (b : Bool) (old new : Text) → b ≡ false → (if b then old else new) ≡ new
  new_feedback false old new h = refl
  new_feedback true old new h = absurd (cc)

  with_feedback : (turn : ℕ) → Progress → Text → Track
  with_feedback turn s f = track_with model max_turns (record (tried_at turn s) { feedback = f })

  advance_accepted :
      (turn : ℕ) (s : Progress)
      → leb turn max_turns ≡ true
      → (verdict_at turn s).accepted ≡ true
      → advance false str_of check p reply turn (track_with model max_turns s)
        ≡ track_with model max_turns (tried_at turn s)
  unfolding tried save with_feedback
  advance_accepted turn s le a =
      advance-track_with turn s le
      ∙ ap (with_feedback turn s) (
          old_feedback (verdict_at turn s).accepted s.feedback
            (feedback_of str_of (verdict_at turn s)) a)

  advance_rejected :
      (turn : ℕ) (s : Progress)
      → leb turn max_turns ≡ true
      → (verdict_at turn s).accepted ≡ false
      → advance false str_of check p reply turn (track_with model max_turns s)
        ≡ track_with model max_turns (next_progress turn s)
  unfolding with_feedback
  advance_rejected turn s le a =
      advance-track_with turn s le
      ∙ ap (with_feedback turn s) (
          new_feedback (verdict_at turn s).accepted s.feedback
            (feedback_of str_of (verdict_at turn s)) a)

  lone-turns : (n turn : ℕ) (s : Progress) → turn + n ≡ max_turns + 1 → Implements n turn s
  lone-turns zero turn s h =
      let e = turns_end turn s in
      let l = ap (λ (x : Progress). length x.attempts) e in
      (0, omega (arith, l), ap (track_with model max_turns) (sym e))
  lone-turns (suc n) turn s h =
      let le : leb turn max_turns ≡ true = ground arith in
      let count = λ (x : Progress × Outcome). length x.0.attempts in
      let more = length-tried_at turn s in
      elim (turns_split n turn s) [
        | inl (a, j) ↦ (
          1,
          ap count j ∙ more,
          advance_accepted turn s le a ∙ ap (λ x. track_with model max_turns x.0) (sym j),
        )
        | inr (a, j) ↦
            let (k, l, i) = lone-turns n (turn + 1) (next_progress turn s) (omega arith) in
            let c = ap count j in
            (
              suc k,
              omega (arith, c, l, more),
              ap (lone false str_of check p reply k (turn + 1)) (advance_rejected turn s le a)
                  ∙ i
                  ∙ ap (λ x. track_with model max_turns x.0) (sym j),
            )
      ]

  -- For a model whose calls and checks do not raise, under internal limits: a track of the portfolio by
  -- itself, after as many turns as the baseline makes attempts with the same answers and checks, has
  -- the candidate, the feedback and the attempts with which the baseline ends, be it accepted or not.
  pub lone-solve :
      lone false str_of check p reply
        (length (solve str_of llm lean p max_turns).0.attempts)
        1
        (fresh_track p max_turns model)
      ≡ track_with model max_turns (solve str_of llm lean p max_turns).0
  unfolding solve fresh_track
  lone-solve =
      let (k, l, i) = lone-turns max_turns 1 _ (omega arith) in
      let e : length (solve str_of llm lean p max_turns).0.attempts ≡ k = omega (arith, l) in
      ap (λ m. lone false str_of check p reply m 1 (fresh_track p max_turns model)) e ∙ i
