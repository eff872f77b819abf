-- ===== src/Baseline/Solving.antt =====
-- How the loop of the baseline ends.
use re_takehome_submission.Common.{
  ℕ, zero, suc, ◌+◌, ◌<◌, ◌≡◌, refl, true, false, Option, none, some, List, [], ◌∷◌, ◌++◌, length,
  arith, if_cases, inl, inr, ◌==◌,
}
use mathlib.Core.Path.{subst}
use re_takehome_submission.Common.Text.{Text}
use re_takehome_submission.Common.Json.{Json}
use re_takehome_submission.Common.Results.{Result, Result-cases, ok, err}
use re_takehome_submission.Engine.Salvaging.{LeanCheck}
use re_takehome_submission.Baseline.{
  Problem, Message, Attempt, Progress, Outcome, accepted_by_repl, exhausted, call_raised,
  check_raised, messages, feedback_of, save, tried, turns, solve,
}
use re_takehome_submission.Baseline.Extract.{extract_lean}

abbrev pub last_of {ℓ} : {A : Type ℓ} → List A → Option A
last_of [] = none
last_of (x ∷ []) = some x
last_of (x ∷ y ∷ l) = last_of (y ∷ l)

pub last_of-append {ℓ} : {A : Type ℓ} (xs : List A) (x : A) → last_of (xs ++ x ∷ []) ≡ some x
last_of-append [] x = refl
last_of-append (y ∷ []) x = refl
last_of-append (y ∷ z ∷ l) x = last_of-append (z ∷ l) x

abbrev attempt_of : (turn : ℕ) → LeanCheck → Attempt
attempt_of n c = record {
  turn = n;
  accepted = c.accepted;
  timed_out = c.timed_out;
  message_count = length c.messages;
}

-- In the first `n` turns, Lean checked these candidates and rejected each; the attempts tell what it
-- answered.
pub data AreRejected (check : (turn : ℕ) → Text → Result Text LeanCheck)
    : ℕ → List Text → List Attempt → Type 0 where
  no_check : AreRejected check 0 [] []
  then_rejected :
      {n : ℕ} {cs : List Text} {ats : List Attempt}
      → AreRejected check n cs ats
      → (candidate : Text) (c : LeanCheck) → check (n + 1) candidate ≡ ok c
      → c.accepted ≡ false
      → AreRejected check (n + 1) (cs ++ candidate ∷ []) (ats ++ attempt_of (n + 1) c ∷ [])

module _ (str_of : Json → Text) (llm : List Message → Result Text Text)
    (check : (turn : ℕ) → Text → Result Text LeanCheck) (p : Problem) (max_turns : ℕ) where
  -- What each end says of what Lean answered in each turn.
  pub IsEnd : Progress × Outcome → Type 0
  IsEnd (s, exhausted) = AreRejected check max_turns s.checkpoints s.attempts
  IsEnd (s, call_raised e) =
      (n : ℕ) × (n < max_turns) × AreRejected check n s.checkpoints s.attempts
  IsEnd (s, check_raised e) =
      (n : ℕ) × (cs : List Text) × (n < max_turns)
      × AreRejected check n cs s.attempts
      × (check (n + 1) s.candidate ≡ err e)
      × (s.checkpoints ≡ cs ++ s.candidate ∷ [])
  IsEnd (s, accepted_by_repl) =
      (n : ℕ) × (cs : List Text) × (ats : List Attempt) × (c : LeanCheck) × (n < max_turns)
      × AreRejected check n cs ats
      × (check (n + 1) s.candidate ≡ ok c)
      × (c.accepted ≡ true)
      × (s.checkpoints ≡ cs ++ s.candidate ∷ [])
      × (s.attempts ≡ ats ++ attempt_of (n + 1) c ∷ [])

  turns-IsEnd :
      (n done : ℕ) (s : Progress)
      → done + n ≡ max_turns
      → AreRejected check done s.checkpoints s.attempts
      → IsEnd (turns str_of llm check p max_turns n (done + 1) s)
  unfolding turns save tried IsEnd
  turns-IsEnd zero done s e h =
      let k : done ≡ max_turns = omega arith in
      subst (λ n. AreRejected check n s.checkpoints s.attempts) k h
  turns-IsEnd (suc n) done s e h =
      let turn = done + 1 in
      elim (Result-cases (llm (messages p max_turns s.feedback turn (turn == max_turns)))) [
        | inr (x, j) ↦ rw (j, turns) (done, omega arith, h)
        | inl (text, j) ↦
            let candidate = extract_lean text s.candidate in
            let saved = save str_of llm check p max_turns candidate s in
            elim (Result-cases (check turn candidate)) [
              | inr (x, k) ↦ rw (j, k, turns) (done, s.checkpoints, omega arith, h, k, refl)
              | inl (c, k) ↦
                  let s' = tried str_of llm check p max_turns turn c saved in
                  rw (j, k, turns)
                    (if_cases IsEnd c.accepted _ _
                      (λ a. (done, s.checkpoints, s.attempts, c, omega arith, h, k, a, refl, refl))
                      (λ a.
                        turns-IsEnd n turn (record s' { feedback = feedback_of str_of c })
                          (omega arith) (then_rejected h candidate c k a)))
            ]
      ]

  -- The loop ends after at most `max_turns` turns. If it reports that Lean accepted, Lean accepts the
  -- candidate that is returned, the last checkpoint, in the turn after those in which it rejected the
  -- others; if it does not, Lean rejected a candidate in each of the turns; if a call or a check
  -- raises, it rejected those of the turns before. The attempts are what Lean answered, in each case.
  pub solve-IsEnd : IsEnd (solve str_of llm check p max_turns)
  unfolding solve
  solve-IsEnd = turns-IsEnd max_turns 0 _ (omega arith) no_check
