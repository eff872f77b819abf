-- ===== src/Collaboration/Same.antt =====
-- The first exchange of the two versions of the strategy.
use re_takehome_submission.Common.{
  ℕ, ◌≡◌, refl, Bool, true, false, not, ◌||◌, List, [], ◌∷◌, ◌==◌, if◌then◌else◌, map, All,
  Bool-cases, inl, inr, arith,
}
use re_takehome_submission.Common.Text.{text_ltb}
use re_takehome_submission.Strategies.{
  TrackObservation, PeerPacket, Cadence, cadence_round, packet, content, excerpt,
}
use re_takehome_submission.Strategies as Second
use re_takehome_submission.Collaboration.Sharing.{
  Observation, peer_excerpt, bounded_peer_content, packet_from, exchange, cross_repair_round,
}

-- What the first version reads of an observation.
abbrev pub first_view : TrackObservation → Observation
first_view o = record {
  model = o.model;
  round = o.round;
  call = o.call;
  candidate = o.candidate;
  diagnostics = o.diagnostics;
  accepted = o.accepted;
  timed_out = o.timed_out;
}

-- A packet without the name of its strategy.
abbrev pub unnamed : PeerPacket → PeerPacket
unnamed p = record p { kind = [] }

abbrev pub once : ℕ → Cadence
once n = record { packet_chars = n; repeat = false; exchanges = 0 }

-- The tests of the two versions, of which the first three hold.
both_tests :
    (same left right x y : Bool)
    → same ≡ true
    → left ≡ true
    → right ≡ true
    → (ps qs : List PeerPacket) (c d : Cadence) → map unnamed ps ≡ map unnamed qs
    → map unnamed
        (if◌then◌else◌ {A = List PeerPacket × Cadence} (not same || (x || y)) ([], c) (ps, d)).0
      ≡ map unnamed (if (not left || x) || (not right || y) then [] else qs)
both_tests true true true false false e f g ps qs c d h = h
both_tests true true true true y e f g ps qs c d h = refl
both_tests true true true false true e f g ps qs c d h = refl
both_tests false left right x y e f g ps qs c d h = absurd (cc)
both_tests true false right x y e f g ps qs c d h = absurd (cc)
both_tests true true false x y e f g ps qs c d h = absurd (cc)

-- The content of a packet, in both versions.
content_same : (o : TrackObservation) (n : ℕ) → content o n ≡ bounded_peer_content (first_view o) n
unfolding content excerpt bounded_peer_content peer_excerpt
content_same o n = refl

exchange_same :
    (n : ℕ) (a b : TrackObservation)
    → a.round ≡ 1
    → b.round ≡ 1
    → map unnamed (Second.exchange a b (once n)).0
      ≡ map unnamed (exchange (first_view a) (first_view b) n)
unfolding Second.exchange exchange packet packet_from
exchange_same n a b h k =
    both_tests (a.round == b.round) (a.round == 1) (b.round == 1) a.accepted b.accepted
      (ground arith) (ground arith) (ground arith) (packet a b (once n) ∷ packet b a (once n) ∷ [])
      (packet_from (first_view a) (first_view b) n
        ∷ packet_from (first_view b) (first_view a) n
        ∷ [])
      (once n) (record (once n) { exchanges = 1 }) (rw (content_same a n, content_same b n) refl)

-- On observations of the first round, both versions of the reciprocal strategy return the same
-- packets, but for the name of the strategy; the second version must not have exchanged yet.
pub cadence_round-cross_repair_round :
    (n : ℕ) (os : List TrackObservation)
    → All (λ o. o.round ≡ 1) os
    → map unnamed (cadence_round (once n) os).0
      ≡ map unnamed (cross_repair_round n (map first_view os))
unfolding cadence_round cross_repair_round
cadence_round-cross_repair_round n [] h = refl
cadence_round-cross_repair_round n (a ∷ []) h = refl
cadence_round-cross_repair_round n (a ∷ b ∷ []) (h, (k, t)) =
    elim (Bool-cases (text_ltb b.model a.model)) [
      | inl e ↦ rw e (exchange_same n b a k h)
      | inr e ↦ rw e (exchange_same n a b h k)
    ]
cadence_round-cross_repair_round n (a ∷ b ∷ c ∷ os) h = refl
