-- ===== src/Uplift/Loop.antt =====
-- uplift_pilot/agent.py: the loop of the one-model agent, with the policy P, which plans once, or D,
-- which restarts. The model, Lean and the digest are arguments; the number of a call is passed to the
-- model, since it may answer the same messages differently.
pub mod Ended
mod Tests
use re_takehome_submission.Common.{
  ℕ, zero, suc, ◌+◌, ◌-◌, ◌*◌, ◌/◌, Bool, true, false, not, ◌&&◌, Option, none, some, List, [], ◌∷◌,
  ◌++◌, ltb, leb, if◌then◌else◌, length, take, is_empty, any, max,
}
use re_takehome_submission.Common.Text.{Text, codes, text_eq, join, strip, decimal}
use re_takehome_submission.Common.Results.{Result, ok, err}
use re_takehome_submission.Uplift.{bounded_excerpt, diagnostics_text, signature_of}
use re_takehome_submission.Engine.Decompose.{trim_memory}
use re_takehome_submission.Engine.Salvaging.{LeanCheck, Python, digest}
use re_takehome_submission.Engine.State.{RestartReason, repeated_candidate, unchanged_signature}
use re_takehome_submission.Engine.Observe.{Rank}
use re_takehome_submission.Baseline.{Problem, Message}
use re_takehome_submission.Baseline.Extract.{extract_lean}
use re_takehome_submission.Uplift.Prompts.{
  Policy, policy_p, policy_d, Phase, direct, restart, repair, planning, generation_messages,
  planning_messages,
}
use re_takehome_submission.Collaboration.Track.{Exception}
use re_takehome_submission.Collaboration.{
  Response, budget_refused, raised, answered, rank_of, improves, feedback_of,
}
use re_takehome_submission.Uplift.Track.{
  AttemptRecord, CallError, Settings, State, start_state, phase_of, call_error, diversify, checked,
}

module _ (py : Python) (s : Settings) (check : Text → LeanCheck) (p : Problem)
    (llm : (call : ℕ) → List Message → Response) where
  -- What the planning call leaves; the Boolean tells that the loop is left.
  unfoldable pub after_plan : Response → State → Bool × State
  unfolding call_error strip
  after_plan (budget_refused e) v = (
    true,
    record v {
      call_errors = v.call_errors ++ call_error e (v.calls + 1) planning (some false) ∷ [];
    },
  )
  after_plan (raised e) v = (
    false,
    record v {
      calls = v.calls + 1;
      planning_fired = true;
      memo = codes "Planning call failed; repair directly from the Lean feedback.";
      call_errors = v.call_errors ++ call_error e (v.calls + 1) planning none ∷ [];
    },
  )
  after_plan (answered text) v =
      (false, record v { calls = v.calls + 1; planning_fired = true; memo = strip text })

  -- The planning call of the policy P behind its first rejected candidate.
  unfoldable pub plan : State → Bool × State
  unfolding planning_messages after_plan
  plan v =
      if leb s.max_calls v.calls
      then (true, v)
      else after_plan (llm (v.calls + 1) (planning_messages p v.candidate v.feedback)) v

  -- What follows a rejected candidate, for each policy.
  unfoldable pub after_rejection :
      Policy → (repeated : Bool) → (signature : Text) → State → Bool × State
  unfolding plan diversify
  after_rejection policy_p repeated signature v = if v.planning_fired then (false, v) else plan v
  after_rejection policy_d repeated signature v =
      (false, diversify py s check p repeated signature v)

  -- An answered call.
  unfoldable pub answer : (text : Text) → Phase → State → Bool × State
  unfolding extract_lean checked after_rejection feedback_of text_eq diagnostics_text signature_of
  answer text phase v =
      let candidate = extract_lean text v.candidate in
      let c = check candidate in
      let repeated = any (text_eq (digest py candidate)) v.seen_candidates in
      let v' = checked py s check p candidate phase v in
      let diagnostics = diagnostics_text py.str_of py.lower c.messages s.diagnostic_chars in
      let signature = signature_of py.str_of py.lower py.sha256 c.messages in
      if c.accepted
      then (true, record v' { best_candidate = candidate })
      else after_rejection s.policy repeated signature
          (record v' { feedback = feedback_of c.timed_out diagnostics })

  -- What a call for a candidate leaves.
  unfoldable pub after_call : Response → Phase → State → Bool × State
  unfolding call_error answer
  after_call (budget_refused e) phase v = (
    true,
    record v { call_errors = v.call_errors ++ call_error e (v.calls + 1) phase (some false) ∷ [] },
  )
  after_call (raised e) phase v = (
    false,
    record v {
      calls = v.calls + 1;
      call_errors = v.call_errors ++ call_error e (v.calls + 1) phase none ∷ [];
      restart_pending = false;
    },
  )
  after_call (answered text) phase v = answer text phase (record v { calls = v.calls + 1 })

  -- The loop's body.
  unfoldable pub turn : State → Bool × State
  unfolding phase_of generation_messages after_call
  turn v =
      let phase = phase_of v in
      let call = v.calls + 1 in
      after_call
        (llm call (
          generation_messages p s.policy s.max_calls v.candidate v.feedback v.memo phase call
            v.failure_memory))
        phase v

  -- `while calls < self.max_calls`, with `none` where the fuel is used up.
  unfoldable pub turns : (fuel : ℕ) → State → Option State
  unfolding turn
  turns zero v = if ltb v.calls s.max_calls then none else some v
  turns (suc fuel) v =
      let (stopped, v') = turn v in
      let rest = turns fuel v' in
      if ltb v.calls s.max_calls then (if stopped then some v' else rest) else some v

  -- `solve`
  unfoldable pub solve : (fuel : ℕ) → Option State
  unfolding turns
  solve fuel = turns fuel (start_state p)
