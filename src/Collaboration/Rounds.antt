-- ===== src/Collaboration/Rounds.antt =====
-- The calls of the tracks over the rounds.
use re_takehome_submission.Common.{
  ℕ, zero, suc, ◌+◌, ◌-◌, ◌*◌, ◌≤◌, ◌≡◌, refl, Bool, true, false, Option, none, some, List, [], ◌∷◌,
  ltb, if◌then◌else◌, length, any, map, arith, Bool-cases, Option-cases, if_cases, ◌∙◌, inl, inr,
  All,
}
use re_takehome_submission.Common.Text.{Text, text_eq}
use re_takehome_submission.Common.Results.{
  Result, ok, err, OnOk, OnOk-and_then, OnOk-apply, OnOk-map, OnOk-if, Result-cases,
}
use re_takehome_submission.Strategies.{PeerPacket}
use re_takehome_submission.Engine.Salvaging.{LeanCheck, Python}
use re_takehome_submission.Engine.State.{RestartReason}
use re_takehome_submission.Baseline.{Problem, Message}
use re_takehome_submission.Baseline.Extract.{extract_lean}
use re_takehome_submission.Collaboration.Sharing.{Observation, SharingStrategy, after_round}
use re_takehome_submission.Collaboration.Track.{
  Phase, TrackState, Settings, PacketError, PacketEvent, fresh_track, update_decomposition,
  maybe_restart, restart_track, packet_error, give_packet, install_packets,
}
use re_takehome_submission.Collaboration.{
  improves, rank_of, Response, budget_refused, raised, answered, Best, Slot, resting, called,
  track_of, is_ready, dispatch, attempted, rejected, finish, finish_slots, messages, Board, start,
  play, rounds, solve,
}

-- The calls that a track has left.
abbrev pub left_of : (max_calls : ℕ) → TrackState → ℕ
left_of n t = if t.active then n - t.calls else 0

abbrev pub total_left : (max_calls : ℕ) → List TrackState → ℕ
total_left n [] = 0
total_left n (t ∷ ts) = left_of n t + total_left n ts

-- No more is left than before, and the calls of the track keep to the maximum.
abbrev pub Keeps : (max_calls : ℕ) → TrackState → TrackState → Type 0
Keeps n t u = (left_of n u ≤ left_of n t) × (t.calls ≤ n → u.calls ≤ n)

Keeps-refl : (n : ℕ) (t : TrackState) → Keeps n t t
Keeps-refl n t = (omega arith, λ h. h)

maybe_restart-Keeps :
    (n : ℕ) (s : Settings) (o : Option RestartReason) (pristine : Text) (t : TrackState)
    → Keeps n t (maybe_restart s o pristine t)
unfolding maybe_restart restart_track
maybe_restart-Keeps n s none pristine t = Keeps-refl n t
maybe_restart-Keeps n s (some r) pristine t =
    if_cases (Keeps n t) (ltb t.restarts s.max_restarts) _ _ (λ _. (omega arith, λ h. h))
      (λ _. (omega arith, λ h. h))

module _ (py : Python) (s : Settings) (check : Text → LeanCheck) (p : Problem) where
  abbrev pub n_calls : ℕ
  n_calls = s.max_calls_per_model

  rejected-Keeps :
      (repeated : Bool) (t : TrackState) → Keeps n_calls t (rejected py s check p repeated t)
  unfolding rejected update_decomposition
  rejected-Keeps repeated t = maybe_restart-Keeps n_calls s _ p.challenge _

  finish-Keeps :
      (round : ℕ) (t : TrackState) (phase : Phase) (packet : Option PeerPacket) (a : Response)
      (b : Best)
      → Keeps n_calls t (finish py s check p round t phase packet a b).track
  unfolding finish attempted
  finish-Keeps round t phase packet (budget_refused e) b = (omega arith, λ h. omega arith)
  finish-Keeps round t phase packet (raised e) b = (omega arith, λ h. h)
  finish-Keeps round t phase packet (answered text) b =
      let candidate = extract_lean text t.candidate in
      let saved = improves (rank_of (check candidate)) b.rank in
      let t' = attempted py s check p round t phase packet candidate saved in
      if_cases (Keeps n_calls t) (check candidate).accepted t' _ (λ _. (omega arith, λ h. h))
        (λ _. rejected-Keeps _ t')

  abbrev pub AreWithin : List TrackState → Type 0
  AreWithin = All (λ t. t.calls ≤ n_calls)

  dispatch_one :
      (t : TrackState)
      → (left_of n_calls (track_of (dispatch n_calls t)) + (if is_ready n_calls t then 1 else 0)
          ≤ left_of n_calls t)
        × (t.calls ≤ n_calls → (track_of (dispatch n_calls t)).calls ≤ n_calls)
  unfolding dispatch
  dispatch_one t = ground arith

  dispatch-left :
      (ts : List TrackState)
      → total_left n_calls (map track_of (map (dispatch n_calls) ts))
          + (if any (is_ready n_calls) ts then 1 else 0)
        ≤ total_left n_calls ts
  dispatch-left [] = omega arith
  dispatch-left (t ∷ ts) = ground (arith, dispatch_one t, dispatch-left ts)

  none_ready :
      (ts : List TrackState) → total_left n_calls ts ≤ 0 → any (is_ready n_calls) ts ≡ true → ⊥
  none_ready ts h e = let d = dispatch-left ts in let k = rw e at d in omega (arith, k)

  dispatch-AreWithin :
      (ts : List TrackState) → AreWithin ts → AreWithin (map track_of (map (dispatch n_calls) ts))
  dispatch-AreWithin [] h = tt
  dispatch-AreWithin (t ∷ ts) (h, hs) = ((dispatch_one t).1 h, dispatch-AreWithin ts hs)

  give_packet-left :
      (q : PeerPacket) (ts : List TrackState)
      → (total_left n_calls (give_packet q ts) ≡ total_left n_calls ts)
        × (AreWithin ts → AreWithin (give_packet q ts))
  unfolding give_packet
  give_packet-left q [] = (refl, λ h. h)
  give_packet-left q (t ∷ ts) =
      let (e, k) = give_packet-left q ts in
      if_cases
        (λ us.
          (total_left n_calls us ≡ total_left n_calls (t ∷ ts))
          × (AreWithin (t ∷ ts) → AreWithin us))
        (text_eq t.model q.target_model) _ _ (λ _. (refl, λ h. h))
        (λ _. (omega (arith, e), λ h. (h.0, k h.1)))

  Kept : List TrackState → List TrackState × List PacketEvent → Type 0
  Kept ts x = (total_left n_calls x.0 ≡ total_left n_calls ts) × (AreWithin ts → AreWithin x.0)

  install_packets-left :
      (round : ℕ) (targets : List Text) (ps : List PeerPacket)
      (m : List TrackState × List PacketEvent)
      → OnOk (Kept m.0) (install_packets py.sha256 s.peer_packet_chars round targets ps m)
  unfolding install_packets Kept
  install_packets-left round targets [] m = (refl, λ h. h)
  install_packets-left round targets (q ∷ ps) (ts, es) =
      elim (Option-cases (packet_error s.peer_packet_chars targets q ts)) [
        | inr (x, e) ↦ rw (e, install_packets) tt
        | inl e ↦
            let (d, k) = give_packet-left q ts in
            rw (e, install_packets)
              (OnOk-map _ (Kept ts) _ (λ x h. (h.0 ∙ d, λ j. h.1 (k j)))
                (install_packets-left round (q.target_model ∷ targets) ps _))
      ]

  module _ (llm : (round : ℕ) → Text → List Message → Response) where
    finish_slots-Keeps :
        (round : ℕ) (slots : List Slot) (b : Best)
        → (total_left n_calls (finish_slots py s check p llm round slots b).0
            ≤ total_left n_calls (map track_of slots))
          × (AreWithin (map track_of slots)
              → AreWithin (finish_slots py s check p llm round slots b).0)
    unfolding finish_slots
    finish_slots-Keeps round [] b = (omega arith, λ h. h)
    finish_slots-Keeps round (resting t ∷ slots) b =
        let (d, k) = finish_slots-Keeps round slots b in (omega (arith, d), λ h. (h.0, k h.1))
    finish_slots-Keeps round (called t phase packet ∷ slots) b =
        let answer = llm round t.model (messages p n_calls t phase packet) in
        let f = finish py s check p round t phase packet answer b in
        let (e, j) = finish-Keeps round t phase packet answer b in
        let (d, k) = finish_slots-Keeps round slots f.best in
        if_cases
          (λ (x : List TrackState × List Observation × Bool × Best).
            (total_left n_calls x.0 ≤ total_left n_calls (t ∷ map track_of slots))
            × (AreWithin (t ∷ map track_of slots) → AreWithin x.0))
          f.accepted _ _ (λ _. (omega (arith, e), λ h. (j h.0, h.1)))
          (λ _. (omega (arith, e, d), λ h. (j h.0, k h.1)))

    module _ (sharing : SharingStrategy) where
      pub play-left :
          (round : ℕ) (b : Board)
          → OnOk
              (λ x.
                (total_left n_calls x.1.tracks + (if any (is_ready n_calls) b.tracks then 1 else 0)
                  ≤ total_left n_calls b.tracks)
                × (AreWithin b.tracks → AreWithin x.1.tracks))
              (play py s check p llm sharing round b)
      unfolding play Kept
      play-left round b =
          let slots = map (dispatch n_calls) b.tracks in
          let r = finish_slots py s check p llm round slots b.best in
          let (d, k) = finish_slots-Keeps round slots b.best in
          let within = dispatch-AreWithin b.tracks in
          let fewer = dispatch-left b.tracks in
          OnOk-if _ r.2 _ _ (λ _. (omega (arith, d, fewer), λ h. k (within h)))
            (λ _.
              OnOk-and_then _
                (install_packets py.sha256 s.peer_packet_chars round [] (after_round sharing r.1)
                  (r.0, b.packet_events))
                _
                (λ m e.
                  let (u, v) =
                    OnOk-apply _ _ m
                      (install_packets-left round [] (after_round sharing r.1)
                        (r.0, b.packet_events))
                      e in
                  (omega (arith, d, fewer, u), λ h. v (k (within h)))))

      rounds-left :
          (fuel round : ℕ) (b : Board)
          → total_left n_calls b.tracks ≤ fuel
          → (x : Result PacketError (Bool × Board)) × (rounds py s check p llm sharing fuel round b
              ≡ some x)
      unfolding rounds
      rounds-left zero round b h = elim (Bool-cases (any (is_ready n_calls) b.tracks)) [
        | inl e ↦ absurd (none_ready b.tracks h e)
        | inr e ↦ (ok (false, b), rw e refl)
      ]
      rounds-left (suc fuel) round b h = elim (Bool-cases (any (is_ready n_calls) b.tracks)) [
        | inr e ↦ (ok (false, b), rw e refl)
        | inl e ↦ elim (Result-cases (play py s check p llm sharing (round + 1) b)) [
          | inr (x, j) ↦ (err x, rw (e, j) refl)
          | inl ((true, b'), j) ↦ (ok (true, b'), rw (e, j) refl)
          | inl ((false, b'), j) ↦
              let d = OnOk-apply _ _ (false, b') (play-left (round + 1) b) j in
              let less : total_left n_calls b'.tracks + 1 ≤ total_left n_calls b.tracks =
                ground (arith, d.0) in
              let (x, k) = rounds-left fuel (round + 1) b' (omega (arith, less)) in (x, rw (e, j) k)
        ]
      ]

      fresh-left :
          (models : List Text)
          → total_left n_calls (map (λ m. fresh_track m p.challenge) models)
            ≡ n_calls * length models
      unfolding fresh_track
      fresh-left [] = omega arith
      fresh-left (m ∷ ms) = let d = fresh-left ms in omega (arith, d)

      -- The loop of `solve` ends within as many rounds as all the calls that the models may make: it
      -- returns, or a packet of the strategy is refused.
      pub solve-ends :
          (models : List Text) (fuel : ℕ)
          → n_calls * length models ≤ fuel
          → (x : Result PacketError (Bool × Board)) × (solve py s check p llm sharing fuel models
              ≡ some x)
      unfolding solve
      solve-ends models fuel h =
          let d = fresh-left models in
          rounds-left fuel 0 (start py s check p llm models) (omega (arith, d))
