-- ===== src/Llm/Reserve.antt =====
-- The reservation of `LLMClient.complete` and the bill.
use re_takehome_submission.Common.{ℕ, ◌+◌, ◌*◌, ◌≤◌, arith}
use re_takehome_submission.Llm.Asking.{Price}
use re_takehome_submission.Llm.{reserve_usd}

-- If the prompt has at most as many tokens as the request has bytes, the answer has at most
-- `max_tokens` tokens and each is billed at no more than its ceiling, then the bill is covered by
-- the reservation.
pub reserve_usd-covers :
    (p : Price) (bytes max_tokens prompt completion input output : ℕ)
    → prompt ≤ bytes
    → completion ≤ max_tokens
    → input ≤ p.input
    → output ≤ p.output
    → prompt * input + completion * output ≤ reserve_usd p bytes max_tokens
unfolding reserve_usd
reserve_usd-covers p bytes max_tokens prompt completion input output h k i o =
    let a : prompt * input ≤ bytes * p.input = grind arith in
    let b : completion * output ≤ max_tokens * p.output = grind arith in omega arith
