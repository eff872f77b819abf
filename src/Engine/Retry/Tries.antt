-- ===== src/Engine/Retry/Tries.antt =====
-- How often a call is tried.
use re_takehome_submission.Common.{
  ℕ, zero, suc, ◌+◌, ◌≤◌, ◌≡◌, refl, Bool, true, false, Option, length, arith, inl, inr, Bool-cases,
}
use re_takehome_submission.Common.Json.{Json}
use re_takehome_submission.Llm.{LlmClient, Reply}
use re_takehome_submission.Common.Results.{Result}
use re_takehome_submission.Llm.Failures.{Failure}
use re_takehome_submission.Llm.Answering.{Completion}
use re_takehome_submission.Llm.Asking.{Request}
use re_takehome_submission.Engine.Retry.{is_cost_free, try_once, call_from, call}

module _ (encode : Json → Option ℕ) (ids call_ids : ℕ → ℕ) (replies : ℕ → Reply) (q : Request)
    (semantic_call : ℕ) where
  abbrev tried : ℕ → LlmClient → Result Failure Completion × LlmClient
  tried = try_once encode ids call_ids replies q semantic_call

  abbrev Bounded : ℕ → ℕ → Bool → Type 0
  Bounded left events refused =
      (refused ≡ true → events ≡ left + 1) × (refused ≡ false → events ≤ left)

  call_from-Bounded :
      (attempt left : ℕ) (c : LlmClient)
      → let (r, _, events) = call_from encode ids call_ids replies q semantic_call attempt left c in
        Bounded left (length events) (is_cost_free r)
  unfolding call_from
  call_from-Bounded attempt zero c = elim (Bool-cases (is_cost_free (tried attempt c).0)) [
    | inl e ↦ rw e (λ a. refl, λ b. absurd (cc))
    | inr e ↦ rw e (λ a. absurd (cc), λ b. omega arith)
  ]
  call_from-Bounded attempt (suc left) c = elim (Bool-cases (is_cost_free (tried attempt c).0)) [
    | inl e ↦
        let (a, b) = call_from-Bounded (attempt + 1) left (tried attempt c).1 in
        rw e (λ k. omega (arith, a k), λ k. omega (arith, b k))
    | inr e ↦ rw e (λ k. absurd (cc), λ k. omega arith)
  ]

  -- With `n` retries allowed, a call ends in a cost-free rate limit exactly after `n + 1` refused
  -- tries; if it ends in any other way, at most `n` tries were refused.
  pub call-tries :
      (retries : ℕ) (c : LlmClient)
      → let (r, _, events) = call encode ids call_ids replies q semantic_call retries c in
        (is_cost_free r ≡ true → length events ≡ retries + 1)
        × (is_cost_free r ≡ false → length events ≤ retries)
  unfolding call
  call-tries retries c = call_from-Bounded 1 retries c
