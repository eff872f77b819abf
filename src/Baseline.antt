-- ===== src/Baseline.antt =====
-- baselines/simple_agent.py: one model, one repair loop. The model and the Lean service, in each
-- turn, are arguments; both may raise, which ends the run.
pub mod Extract
pub mod Solving
mod Tests
use re_takehome_submission.Common.{
  ℕ, zero, suc, ◌+◌, Bool, true, false, not, ◌&&◌, Option, none, some, List, [], ◌∷◌, ◌++◌, map,
  if◌then◌else◌, length, is_empty, ◌==◌,
}
use re_takehome_submission.Common.Text.{Text, codes, strip, join, last_chars, decimal}
use re_takehome_submission.Common.Json.{Json, Fields, get}
use re_takehome_submission.Common.Results.{Result, ok, err}
use re_takehome_submission.Engine.Salvaging.{LeanCheck}
use Extract.{extract_lean}

pub record Problem : Type 0 where
  pub id : Text
  pub description : Text
  pub challenge : Text

pub record Message : Type 0 where
  pub role : Text
  pub content : Text

pub record Attempt : Type 0 where
  pub turn : ℕ
  pub accepted : Bool
  pub timed_out : Bool
  pub message_count : ℕ

-- `str_of` is Python's `str`.
module _ (str_of : Json → Text) where
  abbrev text_at : Text → Option Json → Text
  text_at default none = default
  text_at default (some v) = str_of v

  -- `f"{severity} at {pos}: {data}"`
  unfoldable pub format_message : Fields → Text
  unfolding get strip
  format_message m =
      text_at (codes "message") (get (codes "severity") m)
      ++ (codes " at "
          ++ (text_at (codes "None") (get (codes "pos") m)
              ++ (codes ": " ++ strip (text_at [] (get (codes "data") m)))))

  -- `_format_messages`
  unfoldable pub format_messages : (limit : ℕ) → List Fields → Text
  unfolding format_message join last_chars
  format_messages limit ms = last_chars limit (join (codes "\n\n") (map format_message ms))

  abbrev timeout_feedback : Text
  timeout_feedback = codes "Lean timed out while checking the previous candidate."

  -- The feedback behind a rejected candidate.
  unfoldable pub feedback_of : LeanCheck → Text
  unfolding format_messages
  feedback_of c =
      let text = format_messages 6000 c.messages in
      if c.timed_out && is_empty text then timeout_feedback else text

abbrev final_line : Bool → List Text
final_line true = codes "This is your final attempt. Return the best complete Lean file only." ∷ []
final_line false = []

abbrev feedback_lines : Text → List Text
feedback_lines [] = []
feedback_lines (c ∷ s) =
    []
    ∷ codes "Lean compiler feedback from the previous candidate:"
    ∷ codes "```text"
    ∷ (c ∷ s)
    ∷ codes "```"
    ∷ []

-- `_messages`
unfoldable pub messages :
    Problem → (max_turns : ℕ) → (feedback : Text) → (turn : ℕ) → (is_last : Bool) → List Message
unfolding join decimal
messages p max_turns feedback turn is_last =
    record {
      role = codes "system";
      content = join (codes "\n") (
          (codes "You are writing a complete Lean 4 file using Mathlib."
            ∷ codes "Return only the complete Lean code, preferably in one ```lean code block."
            ∷ codes "Preserve the theorem names and statements from the challenge."
            ∷ codes "Do not use sorry, admit, axioms, or unsafe escapes."
            ∷ codes "The file must compile as-is."
            ∷ [])
          ++ final_line is_last);
    }
    ∷ record {
      role = codes "user";
      content = join (codes "\n") (
          ((codes "Problem id: " ++ p.id)
            ∷ (codes "Baseline turn: " ++ (decimal turn ++ (b'/' ∷ decimal max_turns)))
            ∷ []
            ∷ codes "Problem description:"
            ∷ p.description
            ∷ []
            ∷ codes "Challenge Lean file:"
            ∷ codes "```lean"
            ∷ p.challenge
            ∷ codes "```"
            ∷ [])
          ++ feedback_lines feedback);
    }
    ∷ []

pub record Progress : Type 0 where
  pub candidate : Text
  pub feedback : Text
  pub attempts : List Attempt
  pub checkpoints : List Text

-- How `solve` ends: with `accepted_by_repl` or not, or the model's call or Lean's check raises.
pub data Outcome : Type 0 where
  accepted_by_repl exhausted : Outcome
  call_raised check_raised : Text → Outcome

module _ (str_of : Json → Text) (llm : List Message → Result Text Text)
    (check : (turn : ℕ) → Text → Result Text LeanCheck) (p : Problem) (max_turns : ℕ) where
  unfoldable pub save : (candidate : Text) → Progress → Progress
  save candidate s = record s {
    candidate = candidate;
    checkpoints = s.checkpoints ++ candidate ∷ [];
  }

  -- The attempt that Lean's answer adds.
  unfoldable pub tried : (turn : ℕ) → LeanCheck → Progress → Progress
  tried turn c s = record s {
    attempts =
        s.attempts
        ++ record {
          turn = turn;
          accepted = c.accepted;
          timed_out = c.timed_out;
          message_count = length c.messages;
        }
          ∷ [];
  }

  -- The loop over the turns; `n` are left, and `turn` is the next one.
  unfoldable pub turns : (n turn : ℕ) → Progress → Progress × Outcome
  unfolding messages save tried feedback_of extract_lean
  turns zero turn s = (s, exhausted)
  turns (suc n) turn s = elim (llm (messages p max_turns s.feedback turn (turn == max_turns))) [
    | err e ↦ (s, call_raised e)
    | ok text ↦
        let saved = save (extract_lean text s.candidate) s in
        elim (check turn saved.candidate) [
          | err e ↦ (saved, check_raised e)
          | ok c ↦
              let s' = tried turn c saved in
              let rest = turns n (turn + 1) (record s' { feedback = feedback_of str_of c }) in
              if c.accepted then (s', accepted_by_repl) else rest
        ]
  ]

  -- `solve`
  unfoldable pub solve : Progress × Outcome
  unfolding turns
  solve =
      turns max_turns 1
        (record { candidate = p.challenge; feedback = []; attempts = []; checkpoints = [] })
