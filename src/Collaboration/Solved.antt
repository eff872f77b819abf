-- ===== src/Collaboration/Solved.antt =====
-- The candidate that `solve` returns.
use mathlib.Core.Path.{subst}
use re_takehome_submission.Common.{
  sym, ◌∙◌, ℕ, zero, suc, ◌+◌, ◌≡◌, refl, Bool, true, false, Option, none, some, List, [], ◌∷◌,
  ◌==◌, if◌then◌else◌, length, any, map, arith, Bool-cases, if_cases, inl, inr,
}
use re_takehome_submission.Common.Text.{Text}
use re_takehome_submission.Common.Results.{
  Result, ok, OnOk, OnOk-and_then, OnOk-apply, OnOk-if, Result-cases,
}
use re_takehome_submission.Strategies.{PeerPacket}
use re_takehome_submission.Engine.Salvaging.{LeanCheck, Python}
use re_takehome_submission.Engine.Observe.{Rank, rank_ltb}
use re_takehome_submission.Baseline.{Problem, Message}
use re_takehome_submission.Baseline.Extract.{extract_lean}
use re_takehome_submission.Baseline.Solving.{last_of, last_of-append}
use re_takehome_submission.Collaboration.Sharing.{Observation, SharingStrategy, after_round}
use re_takehome_submission.Collaboration.Track.{
  Phase, TrackState, Settings, PacketError, install_packets, fresh_track,
}
use re_takehome_submission.Collaboration.Rounds.{AreWithin, play-left}
use re_takehome_submission.Collaboration.{
  Response, budget_refused, raised, answered, Best, Slot, resting, called, is_ready, rank_of,
  improves, is_accepted_reason, save, attempted, finish, finish_slots, dispatch, messages, Board,
  start, play, rounds, solve,
}

-- Before any check the candidate is the challenge; then the rank is that of the candidate, which is
-- the last checkpoint.
abbrev pub HasRank : (Text → LeanCheck) → Problem → Option Rank → Best → Type 0
HasRank check p none b = b.candidate ≡ p.challenge
HasRank check p (some r) b =
    (r ≡ rank_of (check b.candidate)) × (last_of b.checkpoints ≡ some b.candidate)

-- Lean has accepted the best candidate exactly if the flag is set.
abbrev pub Fits : (Text → LeanCheck) → Problem → (accepted : Bool) → Best → Type 0
Fits check p accepted b = HasRank check p b.rank b × (is_accepted_reason b.rank ≡ accepted)

pub reason_of_check : (c : LeanCheck) → is_accepted_reason (some (rank_of c)) ≡ c.accepted
unfolding is_accepted_reason
reason_of_check c = ground arith

-- A candidate of a rank that does not improve on a rejected one is rejected.
pub not_improved :
    (c : LeanCheck) (o : Option Rank)
    → is_accepted_reason o ≡ false
    → improves (rank_of c) o ≡ false
    → c.accepted ≡ false
unfolding improves is_accepted_reason rank_ltb
not_improved c none h k = absurd (cc)
not_improved c (some (x, y, z)) h k = by_flag c.accepted h k
  where
    by_flag :
        (a : Bool)
        → (x == 0) ≡ false
        → rank_ltb (if a then 0 else 1, if c.timed_out then 1 else 0, length c.messages) (x, y, z)
          ≡ false
        → a ≡ false
    by_flag false h k = refl
    by_flag true h k = ground arith

returned :
    (x y : Bool × Board)
    → Path (Option (Result PacketError (Bool × Board))) (some (ok x)) (some (ok y))
    → x ≡ y
returned x y e = cc

module _ (py : Python) (s : Settings) (check : Text → LeanCheck) (p : Problem) where
  save-Fits :
      (t : TrackState) (b : Best)
      → Fits check p false b
      → Fits check p (check t.candidate).accepted (save py s check p t b)
  unfolding save
  save-Fits t b (h, k) =
      if_cases (Fits check p (check t.candidate).accepted)
        (improves (rank_of (check t.candidate)) b.rank) _ _
        (λ e.
          ((refl, last_of-append b.checkpoints t.candidate), reason_of_check (check t.candidate)))
        (λ e. (h, k ∙ sym (not_improved (check t.candidate) b.rank k e)))

  finish-Fits :
      (round : ℕ) (t : TrackState) (phase : Phase) (packet : Option PeerPacket) (a : Response)
      (b : Best)
      → Fits check p false b
      → Fits check p
          (finish py s check p round t phase packet a b).accepted
          (finish py s check p round t phase packet a b).best
  unfolding finish attempted
  finish-Fits round t phase packet (budget_refused e) b h = h
  finish-Fits round t phase packet (raised e) b h = h
  finish-Fits round t phase packet (answered text) b h =
      let candidate = extract_lean text t.candidate in
      let saved = improves (rank_of (check candidate)) b.rank in
      save-Fits (attempted py s check p round t phase packet candidate saved) b h

  module _ (llm : (round : ℕ) → Text → List Message → Response) where
    finish_slots-Fits :
        (round : ℕ) (slots : List Slot) (b : Best)
        → Fits check p false b
        → Fits check p
            (finish_slots py s check p llm round slots b).2
            (finish_slots py s check p llm round slots b).3
    unfolding finish_slots
    finish_slots-Fits round [] b h = h
    finish_slots-Fits round (resting t ∷ slots) b h = finish_slots-Fits round slots b h
    finish_slots-Fits round (called t phase packet ∷ slots) b h =
        let answer = llm round t.model (messages p s.max_calls_per_model t phase packet) in
        let f = finish py s check p round t phase packet answer b in
        let k = finish-Fits round t phase packet answer b h in
        if_cases (λ (x : List TrackState × List Observation × Bool × Best). Fits check p x.2 x.3)
          f.accepted _ _ (λ e. let j = rw e at k in j)
          (λ e. let j = rw e at k in finish_slots-Fits round slots f.best j)

    module _ (sharing : SharingStrategy) where
      play-Fits :
          (round : ℕ) (b : Board)
          → Fits check p false b.best
          → OnOk (λ x. Fits check p x.0 x.1.best) (play py s check p llm sharing round b)
      unfolding play
      play-Fits round b h =
          let slots = map (dispatch s.max_calls_per_model) b.tracks in
          let r = finish_slots py s check p llm round slots b.best in
          let k = finish_slots-Fits round slots b.best h in
          OnOk-if _ r.2 _ _ (λ e. let j = rw e at k in j)
            (λ e.
              OnOk-and_then _
                (install_packets py.sha256 s.peer_packet_chars round [] (after_round sharing r.1)
                  (r.0, b.packet_events))
                _ (λ m _. let j = rw e at k in j))

      -- What the loop returns.
      pub IsSolved : Bool × Board → Type 0
      IsSolved (accepted, b) =
          (is_accepted_reason b.best.rank ≡ accepted)
          × HasRank check p b.best.rank b.best
          × AreWithin py s check p b.tracks
          × (accepted ≡ false → any (is_ready s.max_calls_per_model) b.tracks ≡ false)

      rounds-IsSolved :
          (fuel round : ℕ) (b : Board)
          → Fits check p false b.best
          → AreWithin py s check p b.tracks
          → (x : Bool × Board) → rounds py s check p llm sharing fuel round b ≡ some (ok x)
          → IsSolved x
      unfolding rounds IsSolved
      rounds-IsSolved zero round b h k x e =
          elim (Bool-cases (any (is_ready s.max_calls_per_model) b.tracks)) [
            | inl i ↦ let e' = rw i at e in absurd (cc)
            | inr i ↦
                let e' = rw i at e in
                subst IsSolved (returned (false, b) x e') (h.1, h.0, k, λ _. i)
          ]
      rounds-IsSolved (suc fuel) round b h k x e =
          elim (Bool-cases (any (is_ready s.max_calls_per_model) b.tracks)) [
            | inr i ↦
                let e' = rw i at e in
                subst IsSolved (returned (false, b) x e') (h.1, h.0, k, λ _. i)
            | inl i ↦ elim (Result-cases (play py s check p llm sharing (round + 1) b)) [
              | inr (y, j) ↦ let e' = rw (i, j) at e in absurd (cc)
              | inl ((true, b'), j) ↦
                  let e' = rw (i, j) at e in
                  let f = OnOk-apply _ _ (true, b') (play-Fits (round + 1) b h) j in
                  let w =
                    OnOk-apply _ _ (true, b') (play-left py s check p llm sharing (round + 1) b)
                      j in
                  subst IsSolved (returned (true, b') x e') (f.1, f.0, w.1 k, λ l. absurd (cc))
              | inl ((false, b'), j) ↦
                  let e' = rw (i, j) at e in
                  let f = OnOk-apply _ _ (false, b') (play-Fits (round + 1) b h) j in
                  let w =
                    OnOk-apply _ _ (false, b') (play-left py s check p llm sharing (round + 1) b)
                      j in
                  rounds-IsSolved fuel (round + 1) b' f (w.1 k) x e'
            ]
          ]

      fresh-AreWithin :
          (models : List Text)
          → AreWithin py s check p (map (λ m. fresh_track m p.challenge) models)
      unfolding fresh_track
      fresh-AreWithin [] = tt
      fresh-AreWithin (m ∷ ms) = (omega arith, fresh-AreWithin ms)

      -- When `solve` returns, no model has made more calls than it may. The reason that it reports is
      -- `accepted` exactly if the loop stopped at an accepted candidate; if not, no track may be
      -- called any more. The returned candidate is the challenge if no candidate was checked, else the
      -- last checkpoint, and the best rank is that of Lean's answer to it.
      pub solve-IsSolved :
          (models : List Text) (fuel : ℕ) (x : Bool × Board)
          → solve py s check p llm sharing fuel models ≡ some (ok x)
          → IsSolved x
      unfolding solve is_accepted_reason
      solve-IsSolved models fuel x e =
          rounds-IsSolved fuel 0 (start py s check p llm models) (refl, refl)
            (fresh-AreWithin models) x e
