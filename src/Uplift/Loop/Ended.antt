-- ===== src/Uplift/Loop/Ended.antt =====
-- What the loop of the one-model agent returns.
use mathlib.Core.Path.{subst}
use re_takehome_submission.Common.{
  ℕ, zero, suc, ◌+◌, ◌-◌, ◌≤◌, ◌<◌, ◌≡◌, ap, sym, ◌∙◌, refl, Bool, true, false, ◌||◌, Option, none,
  some, List, [], ◌∷◌, ◌++◌, ltb, ltb→lt, leb, if◌then◌else◌, any, arith, Bool-cases, if_cases, inl,
  inr,
}
use re_takehome_submission.Common.Text.{Text, text_eq}
use re_takehome_submission.Engine.Salvaging.{LeanCheck, Python, digest}
use re_takehome_submission.Engine.State.{RestartReason}
use re_takehome_submission.Baseline.{Problem, Message}
use re_takehome_submission.Baseline.Extract.{extract_lean}
use re_takehome_submission.Baseline.Solving.{last_of-append}
use re_takehome_submission.Collaboration.{
  Response, budget_refused, raised, answered, Best, rank_of, improves, is_accepted_reason,
  feedback_of,
}
use re_takehome_submission.Collaboration.Solved.{Fits, not_improved, reason_of_check}
use re_takehome_submission.Uplift.{diagnostics_text, signature_of}
use re_takehome_submission.Uplift.Prompts.{Policy, policy_p, policy_d, Phase, generation_messages}
use re_takehome_submission.Uplift.Track.{
  AttemptRecord, Settings, State, start_state, phase_of, diversify, maybe_restart, restarted,
  checked, set_last_reason,
}
use re_takehome_submission.Uplift.Loop.{
  after_plan, after_call, plan, after_rejection, answer, turn, turns, solve,
}

abbrev pub best_of : State → Best
best_of v = record {
  candidate = v.best_candidate;
  model = none;
  rank = v.best_rank;
  checkpoints = v.checkpoints;
}

-- Whether Lean has accepted a candidate.
abbrev pub has_accepted : List AttemptRecord → Bool
has_accepted = any (λ a. a.accepted)

neither : (b c : Bool) → b || c ≡ false → (b ≡ false) × (c ≡ false)
neither true c h = absurd (cc)
neither false c h = (refl, h)

has_accepted-append :
    (xs : List AttemptRecord) (a : AttemptRecord)
    → has_accepted xs ≡ false
    → has_accepted (xs ++ a ∷ []) ≡ a.accepted
has_accepted-append [] a h = ground arith
has_accepted-append (x ∷ xs) a h =
    let (i, j) = neither x.accepted (has_accepted xs) h in rw i (has_accepted-append xs a j)

set_last_reason-accepted :
    (r : RestartReason) (xs : List AttemptRecord)
    → has_accepted (set_last_reason r xs) ≡ has_accepted xs
set_last_reason-accepted r [] = refl
set_last_reason-accepted r (a ∷ []) = refl
set_last_reason-accepted r (a ∷ b ∷ l) =
    ap (λ c. a.accepted || c) (set_last_reason-accepted r (b ∷ l))

module _ (py : Python) (s : Settings) (check : Text → LeanCheck) (p : Problem) where
  -- The best candidate fits the attempts, of which the flag tells whether Lean has accepted one, and
  -- the restarts keep to their maximum.
  abbrev pub IsCoherent : (accepted : Bool) → State → Type 0
  IsCoherent accepted v =
      Fits check p accepted (best_of v)
      × (has_accepted v.attempts ≡ accepted)
      × (v.restarts ≤ s.max_restarts)

  maybe_restart-IsCoherent :
      (o : Option RestartReason) (signature : Text) (v : State)
      → IsCoherent false v
      → IsCoherent false (maybe_restart py s check p o signature v)
        × ((maybe_restart py s check p o signature v).calls ≡ v.calls)
  unfolding maybe_restart restarted
  maybe_restart-IsCoherent none signature v h = (h, refl)
  maybe_restart-IsCoherent (some r) signature v h =
      if_cases (λ u. IsCoherent false u × (u.calls ≡ v.calls)) (ltb v.restarts s.max_restarts) _ _
        (λ e. ((h.0, set_last_reason-accepted r v.attempts ∙ h.1, ground arith), refl))
        (λ e. (h, refl))

  saved-Fits :
      (candidate : Text) (v : State) (b : Bool)
      → Fits check p false (best_of v)
      → improves (rank_of (check candidate)) v.best_rank ≡ b
      → Fits check p (check candidate).accepted (record {
        candidate = if b then candidate else v.best_candidate;
        model = none;
        rank = if b then some (rank_of (check candidate)) else v.best_rank;
        checkpoints = if b then v.checkpoints ++ candidate ∷ [] else v.checkpoints;
      })
  saved-Fits candidate v true h e =
      ((refl, last_of-append v.checkpoints candidate), reason_of_check (check candidate))
  saved-Fits candidate v false h e =
      (h.0, h.1 ∙ sym (not_improved (check candidate) v.best_rank h.1 e))

  checked-IsCoherent :
      (candidate : Text) (phase : Phase) (v : State)
      → IsCoherent false v
      → IsCoherent (check candidate).accepted (checked py s check p candidate phase v)
  unfolding checked
  checked-IsCoherent candidate phase v h =
      (saved-Fits candidate v _ h.0 refl, has_accepted-append v.attempts _ h.1, h.2)

  -- An accepted candidate is the best one already.
  checked_best :
      (candidate : Text) (phase : Phase) (v : State)
      → IsCoherent false v
      → (check candidate).accepted ≡ true
      → (checked py s check p candidate phase v).best_candidate ≡ candidate
  unfolding checked
  checked_best candidate phase v h e =
      elim (Bool-cases (improves (rank_of (check candidate)) v.best_rank)) [
        | inl i ↦ rw i refl
        | inr i ↦ let k = not_improved (check candidate) v.best_rank h.0.1 i in absurd (cc)
      ]

  diversify-IsCoherent :
      (repeated : Bool) (signature : Text) (v : State)
      → IsCoherent false v
      → IsCoherent false (diversify py s check p repeated signature v)
        × ((diversify py s check p repeated signature v).calls ≡ v.calls)
  unfolding diversify
  diversify-IsCoherent repeated signature v h = maybe_restart-IsCoherent _ signature _ h

  module _ (llm : (call : ℕ) → List Message → Response) where
    -- What a part of the loop's body leaves: no call beyond the maximum, and if the loop goes on, Lean
    -- has accepted nothing and no call is taken back.
    abbrev IsNext : State → Bool × State → Type 0
    IsNext v x =
        (x.1.calls ≤ s.max_calls)
        × (v.calls ≤ x.1.calls)
        × (x.0 ≡ false → IsCoherent false x.1)
        × IsCoherent (has_accepted x.1.attempts) x.1

    still :
        (v : State) (x : Bool × State)
        → x.1.calls ≤ s.max_calls
        → v.calls ≤ x.1.calls
        → IsCoherent false x.1
        → IsNext v x
    still v x a b h = (a, b, λ _. h, subst (λ c. IsCoherent c x.1) (sym h.1) h)

    after_plan-IsNext :
        (a : Response) (v : State)
        → v.calls < s.max_calls
        → IsCoherent false v
        → IsNext v (after_plan py s check p llm a v)
    unfolding after_plan
    after_plan-IsNext (budget_refused e) v lt h =
        still v (after_plan py s check p llm (budget_refused e) v) (omega arith) (omega arith) h
    after_plan-IsNext (raised e) v lt h =
        still v (after_plan py s check p llm (raised e) v) (omega arith) (omega arith) h
    after_plan-IsNext (answered text) v lt h =
        still v (after_plan py s check p llm (answered text) v) (omega arith) (omega arith) h

    after_rejection-IsNext :
        (policy : Policy) (repeated : Bool) (signature : Text) (v : State)
        → v.calls ≤ s.max_calls
        → IsCoherent false v
        → IsNext v (after_rejection py s check p llm policy repeated signature v)
    unfolding after_rejection plan
    after_rejection-IsNext policy_p repeated signature v le h =
        if_cases (IsNext v) v.planning_fired _ _ (λ _. still v (false, v) le (omega arith) h)
          (λ _.
            if_cases (IsNext v) (leb s.max_calls v.calls) _ _
              (λ _. still v (true, v) le (omega arith) h)
              (λ e. after_plan-IsNext _ v (ground arith) h))
    after_rejection-IsNext policy_d repeated signature v le h =
        let (k, e) = diversify-IsCoherent repeated signature v h in
        still v (false, diversify py s check p repeated signature v) (omega (arith, e))
          (omega (arith, e)) k

    answer-IsNext :
        (text : Text) (phase : Phase) (v : State)
        → v.calls ≤ s.max_calls
        → IsCoherent false v
        → IsNext v (answer py s check p llm text phase v)
    unfolding answer checked
    answer-IsNext text phase v le h =
        let candidate = extract_lean text v.candidate in
        let v' = checked py s check p candidate phase v in
        let k = checked-IsCoherent candidate phase v h in
        if_cases (IsNext v) (check candidate).accepted _ _
          (λ e.
            let won = subst (λ b. IsCoherent b v') (sym k.1) k in
            let best = checked_best candidate phase v h e in
            (
              le,
              omega arith,
              λ j. absurd (cc),
              subst (λ c. IsCoherent (has_accepted v'.attempts) (record v' { best_candidate = c }))
                  best won,
            ))
          (λ e.
            let diagnostics =
              diagnostics_text py.str_of py.lower (check candidate).messages s.diagnostic_chars in
            after_rejection-IsNext s.policy (any (text_eq (digest py candidate)) v.seen_candidates)
              (signature_of py.str_of py.lower py.sha256 (check candidate).messages)
              (record v' { feedback = feedback_of (check candidate).timed_out diagnostics }) le
              (subst (λ c. IsCoherent c v') e k))

    after_call-IsNext :
        (a : Response) (phase : Phase) (v : State)
        → v.calls < s.max_calls
        → IsCoherent false v
        → IsNext v (after_call py s check p llm a phase v)
          × ((after_call py s check p llm a phase v).0 ≡ false
              → v.calls < (after_call py s check p llm a phase v).1.calls)
    unfolding after_call
    after_call-IsNext (budget_refused e) phase v lt h = (
      still v (after_call py s check p llm (budget_refused e) phase v) (omega arith) (omega arith)
          h,
      λ j. absurd (cc),
    )
    after_call-IsNext (raised e) phase v lt h = (
      still v (after_call py s check p llm (raised e) phase v) (omega arith) (omega arith) h,
      λ j. omega arith,
    )
    after_call-IsNext (answered text) phase v lt h =
        let k = answer-IsNext text phase (record v { calls = v.calls + 1 }) (omega arith) h in
        ((k.0, omega (arith, k.1), k.2, k.3), λ j. omega (arith, k.1))

    -- What the loop leaves.
    abbrev pub IsEnd : State → Type 0
    IsEnd v = (v.calls ≤ s.max_calls) × IsCoherent (has_accepted v.attempts) v

    turns-IsEnd :
        (fuel : ℕ) (v : State)
        → v.calls ≤ s.max_calls
        → s.max_calls - v.calls ≤ fuel
        → IsCoherent false v
        → (u : State) × (turns py s check p llm fuel v ≡ some u) × IsEnd u
    unfolding turns turn
    turns-IsEnd zero v le f h = elim (Bool-cases (ltb v.calls s.max_calls)) [
      | inl e ↦ absurd (ground arith)
      | inr e ↦ (v, rw e refl, (le, subst (λ c. IsCoherent c v) (sym h.1) h))
    ]
    turns-IsEnd (suc fuel) v le f h = elim (Bool-cases (ltb v.calls s.max_calls)) [
      | inr e ↦ (v, rw e refl, (le, subst (λ c. IsCoherent c v) (sym h.1) h))
      | inl e ↦
          let lt : v.calls < s.max_calls = ltb→lt _ _ e in
          let a = llm (v.calls + 1) (
            generation_messages p s.policy s.max_calls v.candidate v.feedback v.memo (phase_of v)
              (v.calls + 1) v.failure_memory) in
          let x = after_call py s check p llm a (phase_of v) v in
          let (k, more) = after_call-IsNext a (phase_of v) v lt h in
          elim (Bool-cases x.0) [
            | inl stopped ↦ (x.1, rw (e, stopped) refl, (k.0, k.3))
            | inr goes_on ↦
                let (u, j, l) =
                  turns-IsEnd fuel x.1 k.0 (omega (arith, more goes_on)) (k.2 goes_on) in
                (u, rw (e, goes_on) j, l)
          ]
    ]

    -- The loop ends within as many rounds as there are calls allowed. No more calls are made and no more
    -- restarts than allowed; the best candidate is the challenge if no candidate was checked, else the
    -- last checkpoint, with the rank of Lean's answer to it; and if Lean has accepted any candidate, it
    -- has accepted the best one.
    pub solve-IsCoherent :
        (fuel : ℕ)
        → s.max_calls ≤ fuel
        → (u : State) × (solve py s check p llm fuel ≡ some u) × IsEnd u
    unfolding solve is_accepted_reason
    solve-IsCoherent fuel h =
        turns-IsEnd fuel (start_state p) (omega arith) (omega arith)
          ((refl, refl), refl, omega arith)
