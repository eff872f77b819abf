-- ===== src/Submission.antt =====
-- submission/agent.py: two repair loops of the baseline side by side. The replies of the models and
-- the answers of Lean are arguments; both may raise. A track calls its model once in a turn, so the
-- replies are given by turn and model: they may be those of two tracks that spend one budget.
pub mod Alone
pub mod Implements
mod Tests
use re_takehome_submission.Common.{
  ℕ, zero, suc, ◌+◌, Bool, true, false, not, ◌&&◌, ◌||◌, Option, none, some, List, [], ◌∷◌, ◌++◌,
  leb, ◌==◌, if◌then◌else◌, length, drop, take, any, is_empty, max, map,
}
use re_takehome_submission.Common.Text.{Text, codes, contains, starts_with, decimal}
use re_takehome_submission.Common.Json.{Json}
use re_takehome_submission.Common.Results.{Result, ok, err}
use re_takehome_submission.Engine.Salvaging.{LeanCheck}
use re_takehome_submission.Collaboration.Track.{Exception}
use re_takehome_submission.Baseline.{Problem, Message, Attempt, messages, feedback_of}
use re_takehome_submission.Baseline.Extract.{extract_lean}

-- `call_errors` and `lean_errors`; only the former have `retryable`.
pub record CallError : Type 0 where
  pub turn : ℕ
  pub type_name : Text
  pub message : Text
  pub retryable : Bool

pub record LeanError : Type 0 where
  pub turn : ℕ
  pub type_name : Text
  pub message : Text

-- `_Track`, with the fields of its agent that are read.
pub record Track : Type 0 where
  pub model : Text
  pub max_turns : ℕ
  pub candidate : Text
  pub feedback : Text
  pub attempts : List Attempt
  pub call_errors : List CallError
  pub lean_errors : List LeanError
  pub disabled : Bool

-- How a model's call ends: the ledger refuses it, it raises `LLMCallError` or another exception, or
-- it is answered.
pub data Reply : Type 0 where
  budget_error llm_call_error other_error : Exception → Reply
  replied : Text → Reply

unfoldable pub fresh_track : Problem → (max_turns : ℕ) → (model : Text) → Track
fresh_track p n m = record {
  model = m;
  max_turns = n;
  candidate = p.challenge;
  feedback = [];
  attempts = [];
  call_errors = [];
  lean_errors = [];
  disabled = false;
}

-- `s.replace(old, new, 1)`
unfoldable pub replace_first : (old new : Text) → Text → Text
unfolding starts_with
replace_first old new [] = []
replace_first old new (c ∷ s) =
    let rest = replace_first old new s in
    if starts_with old (c ∷ s) then new ++ drop (length old) (c ∷ s) else c ∷ rest

-- `messages[-1]["content"] = …`
abbrev change_last : (Text → Text) → List Message → List Message
change_last f [] = []
change_last f (m ∷ []) = record m { content = f m.content } ∷ []
change_last f (m ∷ n ∷ l) = m ∷ change_last f (n ∷ l)

-- `"reported no cost" in str(response)`
unfoldable pub is_cost_free : Exception → Bool
unfolding contains
is_cost_free e = contains (codes "reported no cost") e.message

unfoldable pub add_call_error : (turn : ℕ) → Exception → (retryable : Bool) → Track → Track
add_call_error turn e retryable t = record t {
  call_errors =
      t.call_errors
      ++ record {
        turn = turn;
        type_name = e.type_name;
        message = take 1000 e.message;
        retryable = retryable;
      }
        ∷ [];
  disabled = if retryable then t.disabled else true;
}

-- `first_lean_accepted_in_fixed_model_order`, or `fixed_model_order_fallback`.
pub data Selection : Type 0 where
  first_accepted fallback : Selection

unfoldable pub first_where : (Track → Bool) → List Track → Option Track
first_where test [] = none
first_where test (t ∷ ts) = let rest = first_where test ts in if test t then some t else rest

-- The two nested `next`.
unfoldable pub select : List Track → Option Track
unfolding first_where
select ts = elim (first_where (λ t. not (is_empty t.attempts)) ts) [
  | some t ↦ some t
  | none ↦ elim (first_where (λ t. not t.disabled) ts) [
    | some t ↦ some t
    | none ↦ elim ts [ [] ↦ none | t ∷ rest ↦ some t ]
  ]
]

-- What `solve` returns, with all that was checkpointed. The candidate is that of the selected track.
pub record Ending : Type 0 where
  pub selected : Option Track
  pub selection : Selection
  pub rounds_started : ℕ
  pub tracks : List Track
  pub checkpoints : List Text

-- `max(track.agent.max_turns for track in tracks)`
abbrev pub most_turns : List Track → ℕ
most_turns [] = 0
most_turns (t ∷ ts) = max t.max_turns (most_turns ts)

module _ (external_limits_only : Bool) where
  unfoldable pub is_active : (turn : ℕ) → Track → Bool
  is_active turn t = not t.disabled && (external_limits_only || leb turn t.max_turns)

  -- The messages of `propose`.
  unfoldable pub prompt : Problem → (turn : ℕ) → Track → List Message
  unfolding messages replace_first decimal
  prompt p turn t =
      let ms =
        messages p t.max_turns t.feedback turn
          (not external_limits_only && (turn == t.max_turns)) in
      let bounded = codes "Baseline turn: " ++ (decimal turn ++ (b'/' ∷ decimal t.max_turns)) in
      let external =
        codes "Baseline turn: "
        ++ (decimal turn ++ codes "; external wall-clock and budget limits govern") in
      if external_limits_only then change_last (replace_first bounded external) ms else ms

  -- The first loop over the responses; the Boolean tells that the candidate is to be checked.
  unfoldable pub receive : (turn : ℕ) → Reply → Track → Track × Bool
  unfolding is_cost_free add_call_error extract_lean
  receive turn (budget_error e) t = (add_call_error turn e false t, false)
  receive turn (llm_call_error e) t =
      (add_call_error turn e (external_limits_only && is_cost_free e) t, false)
  receive turn (other_error e) t = (add_call_error turn e false t, false)
  receive turn (replied text) t = (record t { candidate = extract_lean text t.candidate }, true)

  module _ (str_of : Json → Text) (check : (turn : ℕ) → Text → Result Exception LeanCheck)
      (p : Problem) (reply : (turn : ℕ) → (model : Text) → List Message → Reply) where
    unfoldable pub proposed : (turn : ℕ) → Track → Track × Bool
    unfolding is_active prompt receive
    proposed turn t =
        if is_active turn t
        then receive turn (reply turn t.model (prompt p turn t)) t
        else (t, false)

    -- A track behind Lean's answer, or its exception.
    unfoldable pub checked : (turn : ℕ) → Result Exception LeanCheck → Track → Track
    unfolding feedback_of
    checked turn (err e) t = record t {
      lean_errors =
          t.lean_errors
          ++ record { turn = turn; type_name = e.type_name; message = take 1000 e.message } ∷ [];
      disabled = true;
    }
    checked turn (ok c) t = record t {
      attempts =
          t.attempts
          ++ record {
            turn = turn;
            accepted = c.accepted;
            timed_out = c.timed_out;
            message_count = length c.messages;
          }
            ∷ [];
      feedback = if c.accepted then t.feedback else feedback_of str_of c;
    }

    abbrev pub is_accepted : Result Exception LeanCheck → Bool
    is_accepted (err e) = false
    is_accepted (ok c) = c.accepted

    abbrev is_checked : Result Exception LeanCheck → Bool
    is_checked (err e) = false
    is_checked (ok c) = true

    -- The second loop: the tracks, what was checkpointed, and the track that Lean has accepted.
    unfoldable pub check_all :
        (turn : ℕ) → List (Track × Bool) → List Track × List Text × Option Track
    unfolding checked
    check_all turn [] = ([], [], none)
    check_all turn ((t, false) ∷ slots) =
        let rest = check_all turn slots in (t ∷ rest.0, rest.1, rest.2)
    check_all turn ((t, true) ∷ slots) =
        let c = check turn t.candidate in
        let t' = checked turn c t in
        let saved = if is_checked c then t.candidate ∷ [] else [] in
        let rest = check_all turn slots in
        if is_accepted c
        then (t' ∷ map (λ x. x.0) slots, saved, some t')
        else (t' ∷ rest.0, saved ++ rest.1, rest.2)

    -- One turn of `solve`.
    unfoldable pub play : (turn : ℕ) → List Track → List Track × List Text × Option Track
    unfolding proposed check_all
    play turn ts = check_all turn (map (proposed turn) ts)

    abbrev pub ended : (started : ℕ) → List Track → (saved : List Text) → Ending
    ended started ts saved = record {
      selected = select ts;
      selection = fallback;
      rounds_started = started;
      tracks = ts;
      checkpoints = saved;
    }

    -- The loop over the turns, with `none` where the fuel is used up; `started` counts the rounds.
    unfoldable pub rounds :
        (last_turn fuel started : ℕ) → List Track → (saved : List Text) → Option Ending
    unfolding play is_active select
    rounds last_turn zero started ts saved =
        if (external_limits_only || leb (started + 1) last_turn) && any (is_active (started + 1)) ts
        then none
        else some (ended started ts saved)
    rounds last_turn (suc fuel) started ts saved =
        let turn = started + 1 in
        let (us, new, winner) = play turn ts in
        let rest = rounds last_turn fuel turn us (saved ++ new) in
        if (external_limits_only || leb turn last_turn) && any (is_active turn) ts
        then elim winner [
          | none ↦ rest
          | some t ↦ some (record {
            selected = some t;
            selection = first_accepted;
            rounds_started = turn;
            tracks = us;
            checkpoints = saved ++ new;
          })
        ]
        else some (ended started ts saved)

    -- `solve`; each model has its own number of turns.
    unfoldable pub solve : (fuel : ℕ) → List (Text × ℕ) → Option Ending
    unfolding rounds fresh_track
    solve fuel agents =
        let ts = map (λ a. fresh_track p a.1 a.0) agents in rounds (most_turns ts) fuel 0 ts []
