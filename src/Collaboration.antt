-- ===== src/Collaboration.antt =====
-- collaboration_engine/agent.py: the solve loop of the first version. Both tracks are called in each
-- round and wait for each other; their answers are handled in the order of the models. The model,
-- Lean and the digest are arguments. A track that is called is changed by nothing but its own answer
-- until the strategy's packets are installed, so a round goes through the tracks by position.
pub mod Sharing
pub mod Track
pub mod Same
pub mod Rounds
pub mod Solved
mod Tests
use re_takehome_submission.Common.{
  ℕ, zero, suc, ◌+◌, ◌-◌, Bool, true, false, not, ◌&&◌, ◌||◌, Option, none, some, List, [], ◌∷◌,
  ◌++◌, ltb, if◌then◌else◌, length, is_empty, any, map, ◌==◌,
}
use re_takehome_submission.Common.Text.{Text, codes, text_eq, join, decimal}
use re_takehome_submission.Common.Results.{Result, ok, err, and_then}
use re_takehome_submission.Strategies.{PeerPacket}
use re_takehome_submission.Uplift.{diagnostics_text, signature_of}
use re_takehome_submission.Engine.Salvaging.{LeanCheck, Python, digest}
use re_takehome_submission.Engine.Observe.{Rank, rank_ltb}
use re_takehome_submission.Baseline.{Problem, Message}
use re_takehome_submission.Baseline.Extract.{extract_lean}
use Sharing.{Observation, SharingStrategy, after_round}
use Track.{
  Phase, direct, restart, repair, AttemptRecord, Exception, CallError, TrackState, fresh_track,
  Settings, error, update_decomposition, PacketError, PacketEvent, install_packets,
}

abbrev restart_line : Phase → List Text
restart_line restart =
    codes
      "Abandon the prior trajectory and use a materially different mathematical or Lean strategy."
    ∷ []
restart_line _ = []

abbrev phase_name : Phase → Text
phase_name direct = codes "direct"
phase_name restart = codes "restart"
phase_name repair = codes "repair"

-- A titled block of text.
abbrev block : (title opening body : Text) → List Text
block title opening body = [] ∷ title ∷ opening ∷ body ∷ codes "```" ∷ []

abbrev candidate_block : Phase → Text → List Text
candidate_block repair c = block (codes "Current candidate to repair:") (codes "```lean") c
candidate_block _ c = []

abbrev feedback_block : Text → List Text
feedback_block [] = []
feedback_block (c ∷ s) =
    block (codes "Bounded deduplicated Lean diagnostics:") (codes "```text") (c ∷ s)

unfoldable pub memory_block : List Text → List Text
unfolding join
memory_block [] = []
memory_block (x ∷ xs) =
    block (codes "Bounded failed-approach memory (do not repeat these strategies):")
      (codes "```text") (join (codes "\n") (x ∷ xs))

abbrev packet_block : Option PeerPacket → List Text
packet_block none = []
packet_block (some p) =
    block
      (codes "Evidence from an independent solver. Critically evaluate it; reuse only what helps:")
      (codes "```text") p.content

-- `_messages`
unfoldable pub messages :
    Problem → (max_calls : ℕ) → TrackState → Phase → Option PeerPacket → List Message
unfolding join decimal memory_block
messages p max_calls t phase packet =
    record {
      role = codes "system";
      content = join (codes "\n") (
          (codes "Write one complete Lean 4 file using Mathlib."
            ∷ codes "Return only Lean code, preferably in one ```lean block."
            ∷ codes "Preserve all theorem names and statements from the pristine challenge."
            ∷ codes "Do not use sorry, admit, axioms, or unsafe escapes."
            ∷ [])
          ++ restart_line phase);
    }
    ∷ record {
      role = codes "user";
      content = join (codes "\n") (
          ((codes "Problem id: " ++ p.id)
            ∷ (codes "Attempt "
                ++ (decimal t.calls
                    ++ (codes " of at most "
                        ++ (decimal max_calls ++ (codes "; phase: " ++ phase_name phase)))))
            ∷ []
            ∷ codes "Problem description:"
            ∷ p.description
            ∷ []
            ∷ codes "Pristine Lean challenge:"
            ∷ codes "```lean"
            ∷ p.challenge
            ∷ codes "```"
            ∷ [])
          ++ (candidate_block phase t.candidate
              ++ (feedback_block t.feedback
                  ++ (memory_block t.failure_memory ++ packet_block packet))));
    }
    ∷ []

-- How a call ends: one of the ledger's exceptions, another one, or an answer.
pub data Response : Type 0 where
  budget_refused raised : Exception → Response
  answered : Text → Response

-- The best candidate so far, and everything that was checkpointed.
pub record Best : Type 0 where
  pub candidate : Text
  pub model : Option Text
  pub rank : Option Rank
  pub checkpoints : List Text

-- A track in a round: not called, or called in a phase with the packet that it was given.
pub data Slot : Type 0 where
  resting : TrackState → Slot
  called : TrackState → Phase → Option PeerPacket → Slot

abbrev pub track_of : Slot → TrackState
track_of (resting t) = t
track_of (called t phase packet) = t

abbrev pub is_ready : (max_calls : ℕ) → TrackState → Bool
is_ready max_calls t = t.active && ltb t.calls max_calls

unfoldable pub phase_of : TrackState → Phase
phase_of t = if is_empty t.attempts then direct else if t.restart_pending then restart else repair

-- The loop over the scheduled tracks.
unfoldable pub dispatch : (max_calls : ℕ) → TrackState → Slot
unfolding phase_of
dispatch max_calls t =
    if is_ready max_calls t
    then called (record t { calls = t.calls + 1; pending_packet = none }) (phase_of t)
        t.pending_packet
    else resting t

abbrev is_given : Option PeerPacket → Bool
is_given none = false
is_given (some p) = true

abbrev pub rank_of : LeanCheck → Rank
rank_of c = (if c.accepted then 0 else 1, if c.timed_out then 1 else 0, length c.messages)

unfoldable pub improves : Rank → Option Rank → Bool
unfolding rank_ltb
improves r none = true
improves r (some b) = rank_ltb r b

-- `best_rank and best_rank[0] == 0`: the reason for the selection is `accepted`.
unfoldable pub is_accepted_reason : Option Rank → Bool
is_accepted_reason none = false
is_accepted_reason (some r) = r.0 == 0

abbrev or_text : Text → Text → Text
or_text [] d = d
or_text (c ∷ s) d = c ∷ s

unfoldable pub feedback_of : (timed_out : Bool) → Text → Text
feedback_of timed_out diagnostics = or_text diagnostics (
    if timed_out
    then codes "Lean timed out while checking the candidate."
    else codes "Lean rejected the candidate without a diagnostic message.")

-- What a finished call leaves: the track, an observation, whether Lean has accepted, the best.
pub record Finished : Type 0 where
  pub track : TrackState
  pub observed : List Observation
  pub accepted : Bool
  pub best : Best

-- The loop's variables.
pub record Board : Type 0 where
  pub tracks : List TrackState
  pub best : Best
  pub packet_events : List PacketEvent

module _ (py : Python) (s : Settings) (check : Text → LeanCheck) (p : Problem) where
  -- `if checkpoint_saved:`
  unfoldable pub save : TrackState → Best → Best
  unfolding improves
  save t b =
      let rank = rank_of (check t.candidate) in
      if improves rank b.rank
      then record {
        candidate = t.candidate;
        model = some t.model;
        rank = some rank;
        checkpoints = b.checkpoints ++ t.candidate ∷ [];
      }
      else b

  -- The track with the candidate of an answer and the record of its check.
  unfoldable pub attempted :
      (round : ℕ)
      → TrackState
      → Phase
      → Option PeerPacket
      → (candidate : Text) → (saved : Bool) → TrackState
  unfolding text_eq diagnostics_text signature_of
  attempted round t phase packet candidate saved =
      let c = check candidate in
      let hash = digest py candidate in
      record t {
        candidate = candidate;
        seen_candidates =
            if any (text_eq hash) t.seen_candidates
            then t.seen_candidates
            else hash ∷ t.seen_candidates;
        attempts =
            t.attempts
            ++ record {
              attempt = length t.attempts + 1;
              call = t.calls;
              round = round;
              phase = phase;
              candidate_sha256 = hash;
              error_signature_sha256 = signature_of py.str_of py.lower py.sha256 c.messages;
              accepted = c.accepted;
              timed_out = c.timed_out;
              raw_diagnostic_count = length c.messages;
              diagnostic_excerpt =
                  diagnostics_text py.str_of py.lower c.messages s.diagnostic_chars;
              checkpoint_saved = saved;
              peer_packet_used = is_given packet;
              restart_reason = none;
            }
              ∷ [];
        restart_pending = false;
      }

  -- The feedback of a rejected candidate, and the restart.
  unfoldable pub rejected : (repeated : Bool) → TrackState → TrackState
  unfolding feedback_of update_decomposition diagnostics_text signature_of
  rejected repeated t =
      let c = check t.candidate in
      let text = diagnostics_text py.str_of py.lower c.messages s.diagnostic_chars in
      update_decomposition s (record t { feedback = feedback_of c.timed_out text })
        (signature_of py.str_of py.lower py.sha256 c.messages) repeated p.challenge

  unfoldable pub observation_of : (round : ℕ) → TrackState → Observation
  unfolding diagnostics_text
  observation_of round t =
      let c = check t.candidate in
      record {
        model = t.model;
        round = round;
        call = t.calls;
        candidate = t.candidate;
        diagnostics = diagnostics_text py.str_of py.lower c.messages s.diagnostic_chars;
        accepted = c.accepted;
        timed_out = c.timed_out;
      }

  -- One turn of the loop over the responses.
  unfoldable pub finish :
      (round : ℕ) → TrackState → Phase → Option PeerPacket → Response → Best → Finished
  unfolding error save improves attempted rejected observation_of extract_lean text_eq
  finish round t phase packet (budget_refused e) b = record {
    track = record t {
      calls = t.calls - 1;
      active = false;
      call_errors = t.call_errors ++ error e (t.calls - 1 + 1) phase false ∷ [];
    };
    observed = [];
    accepted = false;
    best = b;
  }
  finish round t phase packet (raised e) b = record {
    track = record t {
      call_errors = t.call_errors ++ error e t.calls phase true ∷ [];
      restart_pending = false;
    };
    observed = [];
    accepted = false;
    best = b;
  }
  finish round t phase packet (answered text) b =
      let candidate = extract_lean text t.candidate in
      let repeated = any (text_eq (digest py candidate)) t.seen_candidates in
      let saved = improves (rank_of (check candidate)) b.rank in
      let t' = attempted round t phase packet candidate saved in
      record {
        track = if (check candidate).accepted then t' else rejected repeated t';
        observed = observation_of round t' ∷ [];
        accepted = (check candidate).accepted;
        best = save t' b;
      }

  module _ (llm : (round : ℕ) → Text → List Message → Response) where
    -- The loop over the responses; behind an accepted candidate they are left alone.
    unfoldable pub finish_slots :
        (round : ℕ) → List Slot → Best → List TrackState × List Observation × Bool × Best
    unfolding finish messages
    finish_slots round [] b = ([], [], false, b)
    finish_slots round (resting t ∷ slots) b =
        let rest = finish_slots round slots b in (t ∷ rest.0, rest.1, rest.2, rest.3)
    finish_slots round (called t phase packet ∷ slots) b =
        let answer = llm round t.model (messages p s.max_calls_per_model t phase packet) in
        let f = finish round t phase packet answer b in
        let rest = finish_slots round slots f.best in
        if f.accepted
        then (f.track ∷ map track_of slots, f.observed, true, f.best)
        else (f.track ∷ rest.0, f.observed ++ rest.1, rest.2, rest.3)

    abbrev pub start : List Text → Board
    start models = record {
      tracks = map (λ m. fresh_track m p.challenge) models;
      best = record { candidate = p.challenge; model = none; rank = none; checkpoints = [] };
      packet_events = [];
    }

    module _ (sharing : SharingStrategy) where
      -- One round: whether Lean has accepted a candidate, and what is left.
      unfoldable pub play : (round : ℕ) → Board → Result PacketError (Bool × Board)
      unfolding dispatch finish_slots after_round install_packets
      play round b =
          let slots = map (dispatch s.max_calls_per_model) b.tracks in
          let (tracks, observations, accepted, best) = finish_slots round slots b.best in
          if accepted
          then ok (true, record b { tracks = tracks; best = best })
          else and_then
              (install_packets py.sha256 s.peer_packet_chars round []
                (after_round sharing observations) (tracks, b.packet_events))
              (λ m. ok (false, record { tracks = m.0; best = best; packet_events = m.1 }))

      -- The loop of `solve`, with `none` where the fuel is used up: whether Lean has accepted a
      -- candidate, and the variables behind the loop.
      unfoldable pub rounds :
          (fuel : ℕ) → (round : ℕ) → Board → Option (Result PacketError (Bool × Board))
      unfolding play
      rounds zero round b =
          if any (is_ready s.max_calls_per_model) b.tracks then none else some (ok (false, b))
      rounds (suc fuel) round b =
          if any (is_ready s.max_calls_per_model) b.tracks
          then elim (play (round + 1) b) [
            | err e ↦ some (err e)
            | ok (true, b') ↦ some (ok (true, b'))
            | ok (false, b') ↦ rounds fuel (round + 1) b'
          ]
          else some (ok (false, b))

      -- `solve`; the models are those of `MODELS`.
      unfoldable pub solve :
          (fuel : ℕ) → (models : List Text) → Option (Result PacketError (Bool × Board))
      unfolding rounds
      solve fuel models = rounds fuel 0 (start models)
