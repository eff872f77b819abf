-- ===== src/Engine/Packets/Accepted.antt =====
-- The packets of the strategies under the checks of `_install_packets`.
use re_takehome_submission.Common.{
  ℕ, ◌≤◌, ◌≡◌, refl, ap, inl, inr, Bool, true, false, not, ◌||◌, ◌&&◌, Option, none, List, [], ◌∷◌,
  arith, ◌==◌, Bool-cases, All, keep, any,
}
use re_takehome_submission.Common.Text.{Text, text_eq, text_eq_iff, text_ltb}
use re_takehome_submission.Strategies.{
  TrackObservation, PeerPacket, Cadence, Progress, reciprocal, progress, packet, exchange,
  cadence_round, send, progress_observation, after_round, after_observation, is_missing, pair_eq,
  text_or,
}
use re_takehome_submission.Strategies.Excerpt.{
  length-content, length-progress_content, content_nonblank, progress_content_nonblank,
}
use re_takehome_submission.Engine.State.{has_track}
use re_takehome_submission.Engine.Packets.{Mail, install_packets}
use re_takehome_submission.Engine.Packets.Latest.{install_one, install_two}

All-keep {ℓ κ} :
    {A : Type ℓ} (P : A → Type κ) (test : A → Bool) (xs : List A)
    → All P xs
    → All (λ x. P x × (test x ≡ true)) (keep test xs)
All-keep P test [] h = tt
All-keep P test (x ∷ xs) h = elim (Bool-cases (test x)) [
  | inl e ↦ rw e ((h.0, e), All-keep P test xs h.1)
  | inr e ↦ rw e (All-keep P test xs h.1)
]

text_eq_symm : (s t : Text) → text_eq s t ≡ false → text_eq t s ≡ false
text_eq_symm s t h = ground (arith, text_eq_iff s t, text_eq_iff t s)

module _ (limit round : ℕ) (elapsed : Option ℕ) (m : Mail) where
  -- Installing the packets of a list raises nothing.
  abbrev Accepts : Bool → List PeerPacket → Type 0
  Accepts latest ps = (install_packets limit round latest elapsed [] ps m).0 ≡ none

  Accepts-nil : (latest : Bool) → Accepts latest []
  unfolding install_packets
  Accepts-nil latest = refl

  send-Accepts :
      (p : Progress) (o : TrackObservation) (key : Text × Text) (targets : List Text)
      → has_track o.model m.tracks ≡ true
      → All (λ k. (has_track k m.tracks ≡ true) × (not (text_eq k o.model) ≡ true)) targets
      → 1 ≤ p.packet_chars
      → p.packet_chars ≤ limit
      → Accepts true (send p o key targets).0
  unfolding send
  send-Accepts p o key [] h k one fits = Accepts-nil true
  send-Accepts p o key (a ∷ b ∷ r) h k one fits = Accepts-nil true
  send-Accepts p o key (target ∷ []) h k one fits =
      ap (λ x. x.0)
        (install_one limit round true elapsed _ m (record {
          known_target = k.0.0;
          known_source = h;
          crosses = ground arith;
          nonblank = progress_content_nonblank o p.packet_chars one;
          bounded = omega (arith, length-progress_content o p.packet_chars);
        }))

  -- If the observed model and all of the strategy's models have a track, and the strategy's packet
  -- size is at least one and within the engine's limit, then the engine accepts what the progress
  -- strategy returns for the observation.
  pub progress_observation-Accepts :
      (p : Progress) (o : TrackObservation)
      → has_track o.model m.tracks ≡ true
      → All (λ k. has_track k m.tracks ≡ true) p.models
      → 1 ≤ p.packet_chars
      → p.packet_chars ≤ limit
      → (install_packets limit round true elapsed [] (after_observation (progress p) o).0 m).0
        ≡ none
  unfolding after_observation progress_observation
  progress_observation-Accepts p o h k one fits =
      elim (Bool-cases (is_missing o.progress_candidate || is_missing o.progress_sha256)) [
        | inl e ↦ rw e (Accepts-nil true)
        | inr e ↦ elim (Bool-cases (any (pair_eq (o.model, text_or [] o.progress_sha256)) p.sent)) [
          | inl e' ↦ rw (e, e') (Accepts-nil true)
          | inr e' ↦
              rw (e, e')
                (send-Accepts p o _ _ h
                  (All-keep (λ j. has_track j m.tracks ≡ true) (λ j. not (text_eq j o.model))
                    p.models k)
                  one fits)
        ]
      ]

  exchange-Accepts :
      (a b : TrackObservation) (c : Cadence)
      → has_track a.model m.tracks ≡ true
      → has_track b.model m.tracks ≡ true
      → text_eq a.model b.model ≡ false
      → 1 ≤ c.packet_chars
      → c.packet_chars ≤ limit
      → Accepts false (exchange a b c).0
  unfolding exchange packet
  exchange-Accepts a b c ha hb ne one fits =
      elim (Bool-cases (not (a.round == b.round) || (a.accepted || b.accepted))) [
        | inl e ↦ rw e (Accepts-nil false)
        | inr e ↦ rw e (
            ap (λ x. x.0)
              (install_two limit round false elapsed _ _ m
                (record {
                  known_target = ha;
                  known_source = hb;
                  crosses = ne;
                  nonblank = content_nonblank b c.packet_chars one;
                  bounded = omega (arith, length-content b c.packet_chars);
                })
                (record {
                  known_target = hb;
                  known_source = ha;
                  crosses = text_eq_symm a.model b.model ne;
                  nonblank = content_nonblank a c.packet_chars one;
                  bounded = omega (arith, length-content a c.packet_chars);
                })
                (text_eq_symm a.model b.model ne)))
      ]

  -- If both observed models have a track and differ, and the strategy's packet size is at least one
  -- and within the engine's limit, then the engine accepts what the reciprocal strategy returns for
  -- the two observations.
  pub cadence_round-Accepts :
      (c : Cadence) (a b : TrackObservation)
      → has_track a.model m.tracks ≡ true
      → has_track b.model m.tracks ≡ true
      → text_eq a.model b.model ≡ false
      → 1 ≤ c.packet_chars
      → c.packet_chars ≤ limit
      → (install_packets limit round false elapsed []
          (after_round (reciprocal c) (a ∷ b ∷ [])).0
          m).0
        ≡ none
  unfolding after_round cadence_round
  cadence_round-Accepts c a b ha hb ne one fits =
      elim (Bool-cases (not (c.exchanges == 0) && not c.repeat)) [
        | inl e ↦ rw e (Accepts-nil false)
        | inr e ↦ elim (Bool-cases (text_ltb b.model a.model)) [
          | inl e' ↦
              rw (e, e') (exchange-Accepts b a c hb ha (text_eq_symm a.model b.model ne) one fits)
          | inr e' ↦ rw (e, e') (exchange-Accepts a b c ha hb ne one fits)
        ]
      ]
