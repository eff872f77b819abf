-- ===== src/Uplift/Prompts.antt =====
-- uplift_pilot/agent.py: the messages of the one-model agent.
use re_takehome_submission.Common.{ℕ, List, [], ◌∷◌, ◌++◌}
use re_takehome_submission.Common.Text.{Text, codes, join, decimal}
use re_takehome_submission.Baseline.{Problem, Message}

pub data Policy : Type 0 where
  policy_p policy_d : Policy

pub data Phase : Type 0 where
  direct restart repair planning : Phase

abbrev policy_name : Policy → Text
policy_name policy_p = codes "P"
policy_name policy_d = codes "D"

abbrev phase_name : Phase → Text
phase_name direct = codes "direct"
phase_name restart = codes "restart"
phase_name repair = codes "repair"
phase_name planning = codes "planning"

abbrev restart_line : Phase → List Text
restart_line restart =
    codes
      "This is a diversified restart. Abandon the prior trajectory and use a materially different mathematical or Lean strategy."
    ∷ []
restart_line _ = []

-- A titled block of text.
abbrev block : (title opening body : Text) → List Text
block title opening body = [] ∷ title ∷ opening ∷ body ∷ codes "```" ∷ []

abbrev candidate_block : Phase → Text → List Text
candidate_block direct c = []
candidate_block restart c = []
candidate_block _ c = block (codes "Current candidate to repair:") (codes "```lean") c

abbrev feedback_block : Text → List Text
feedback_block [] = []
feedback_block (c ∷ s) =
    block (codes "Bounded deduplicated Lean diagnostics:") (codes "```text") (c ∷ s)

abbrev memo_block : Policy → Text → List Text
memo_block policy_p (c ∷ s) = block (codes "Strategy memo to follow:") (codes "```text") (c ∷ s)
memo_block _ s = []

unfoldable pub memory_block : Policy → List Text → List Text
unfolding join
memory_block policy_d (x ∷ xs) =
    block (codes "Bounded failed-approach memory (do not repeat these strategies):")
      (codes "```text") (join (codes "\n") (x ∷ xs))
memory_block _ xs = []

-- `_generation_messages`
unfoldable pub generation_messages :
    Problem
    → Policy
    → (max_calls : ℕ) → (candidate feedback memo : Text) → Phase
    → (call : ℕ) → (failure_memory : List Text) → List Message
unfolding join decimal memory_block
generation_messages p policy max_calls candidate feedback memo phase call failure_memory =
    record {
      role = codes "system";
      content = join (codes "\n") (
          (codes "Write one complete Lean 4 file using Mathlib."
            ∷ codes "Return only Lean code, preferably in one ```lean block."
            ∷ codes "Preserve all theorem names and statements from the pristine challenge."
            ∷ codes "Do not use sorry, admit, axioms, or unsafe escapes."
            ∷ [])
          ++ restart_line phase);
    }
    ∷ record {
      role = codes "user";
      content = join (codes "\n") (
          ((codes "Problem id: " ++ p.id)
            ∷ (codes "Policy: "
                ++ (policy_name policy
                    ++ (codes "; dispatched call: "
                        ++ (decimal call
                            ++ (b'/'
                                ∷ (decimal max_calls
                                    ++ (codes "; phase: " ++ phase_name phase)))))))
            ∷ []
            ∷ codes "Problem description:"
            ∷ p.description
            ∷ []
            ∷ codes "Pristine Lean challenge:"
            ∷ codes "```lean"
            ∷ p.challenge
            ∷ codes "```"
            ∷ [])
          ++ (candidate_block phase candidate
              ++ (feedback_block feedback
                  ++ (memo_block policy memo ++ memory_block policy failure_memory))));
    }
    ∷ []

-- `_planning_messages`
unfoldable pub planning_messages : Problem → (candidate feedback : Text) → List Message
unfolding join
planning_messages p candidate feedback =
    record {
      role = codes "system";
      content =
          codes
            "Produce a short structured strategy memo, not Lean source. Include: informal mathematical proof; Lean proof architecture; useful subgoals or intermediate lemmas; likely tactics and Mathlib lemmas; and diagnosis of the failed attempt.";
    }
    ∷ record {
      role = codes "user";
      content = join (codes "\n") (
          (codes "Problem: " ++ p.description)
          ∷ codes "Pristine challenge:"
          ∷ p.challenge
          ∷ codes "Failed candidate:"
          ∷ candidate
          ∷ codes "Lean diagnostics:"
          ∷ feedback
          ∷ []);
    }
    ∷ []
