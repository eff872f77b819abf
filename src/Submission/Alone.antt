-- ===== src/Submission/Alone.antt =====
-- A track of the portfolio, and the same track by itself.
use mathlib.Core.Path.{subst}
use mathlib.Core.Option.{some-injective}
use re_takehome_submission.Common.{
  ℕ, zero, suc, ◌+◌, ◌<◌, ◌≡◌, refl, ap, sym, ◌∙◌, Bool, true, false, ◌&&◌, ◌||◌, Option, none,
  some, List, [], ◌∷◌, ◌++◌, leb, any, map, Bool-cases, if_cases, Option-cases, inl, inr, ◌⊎◌,
  arith,
}
use re_takehome_submission.Common.Text.{Text}
use re_takehome_submission.Common.Json.{Json}
use re_takehome_submission.Common.Results.{Result, ok, err}
use re_takehome_submission.Engine.Salvaging.{LeanCheck}
use re_takehome_submission.Collaboration.Track.{Exception}
use re_takehome_submission.Baseline.{Problem, Message}
use re_takehome_submission.Submission.{
  Track, Reply, Ending, Selection, first_accepted, fallback, fresh_track, is_active, proposed,
  checked, is_accepted, check_all, play, most_turns, ended, rounds, solve,
}

-- Something holds of an element of the list.
abbrev pub Among : {A : Type 0} → (A → Type 0) → List A → Type 0
Among P [] = ⊥
Among P (x ∷ xs) = P x ⊎ Among P xs

Among-map :
    {A B : Type 0} (f : A → B) (P : B → Type 0) (xs : List A)
    → Among P (map f xs)
    → Among (λ x. P (f x)) xs
Among-map f P [] h = h
Among-map f P (x ∷ xs) (inl h) = inl h
Among-map f P (x ∷ xs) (inr h) = inr (Among-map f P xs h)

map-map :
    {A B C : Type 0} (f : A → B) (g : B → C) (xs : List A)
    → map g (map f xs) ≡ map (λ x. g (f x)) xs
map-map f g [] = refl
map-map f g (x ∷ xs) = ap (λ ys. g (f x) ∷ ys) (map-map f g xs)

same : (x y : Ending) → Path (Option Ending) (some x) (some y) → x ≡ y
same x y e = cc

module _ (external_limits_only : Bool) (str_of : Json → Text)
    (check : (turn : ℕ) → Text → Result Exception LeanCheck) (p : Problem)
    (reply : (turn : ℕ) → (model : Text) → List Message → Reply) where
  abbrev pub settle : (turn : ℕ) → Track × Bool → Track
  settle turn (t, true) =
      checked external_limits_only str_of check p reply turn (check turn t.candidate) t
  settle turn (t, false) = t

  -- One turn of a track by itself: its own reply and Lean's answer to its own candidate.
  abbrev pub advance : (turn : ℕ) → Track → Track
  advance turn t = settle turn (proposed external_limits_only str_of check p reply turn t)

  abbrev pub lone : (n turn : ℕ) → Track → Track
  lone zero turn t = t
  lone (suc n) turn t = lone n (turn + 1) (advance turn t)

  abbrev IsAccepted : (turn : ℕ) → Track → Type 0
  IsAccepted turn t =
      is_accepted external_limits_only str_of check p reply (check turn t.candidate) ≡ true

  -- What the second loop leaves: without an accepted candidate each track is settled, else the
  -- winner is one of the settled tracks, and Lean accepts its candidate.
  abbrev IsPlayed :
      (turn : ℕ) → (Track × Bool → Track) → List (Track × Bool) → List Track → Option Track → Type 0
  IsPlayed turn f slots ts none = ts ≡ map f slots
  IsPlayed turn f slots ts (some w) = Among (λ x. w ≡ f x) slots × IsAccepted turn w

  checked_candidate :
      (turn : ℕ) (c : Result Exception LeanCheck) (t : Track)
      → (checked external_limits_only str_of check p reply turn c t).candidate ≡ t.candidate
  unfolding checked
  checked_candidate turn (ok c) t = refl
  checked_candidate turn (err e) t = refl

  later :
      (turn : ℕ) (f : Track × Bool → Track) (x : Track × Bool) (slots : List (Track × Bool))
      (ts : List Track) (o : Option Track)
      → IsPlayed turn f slots ts o
      → IsPlayed turn f (x ∷ slots) (f x ∷ ts) o
  later turn f x slots ts none h = ap (λ us. f x ∷ us) h
  later turn f x slots ts (some w) h = (inr h.0, h.1)

  check_all-IsPlayed :
      (turn : ℕ) (slots : List (Track × Bool))
      → IsPlayed turn
          (settle turn)
          slots
          (check_all external_limits_only str_of check p reply turn slots).0
          (check_all external_limits_only str_of check p reply turn slots).2
  unfolding check_all
  check_all-IsPlayed turn [] = refl
  check_all-IsPlayed turn ((t, false) ∷ slots) =
      later turn (settle turn) (t, false) slots _ _ (check_all-IsPlayed turn slots)
  check_all-IsPlayed turn ((t, true) ∷ slots) =
      if_cases
        (λ (x : List Track × List Text × Option Track).
          IsPlayed turn (settle turn) ((t, true) ∷ slots) x.0 x.2)
        (is_accepted external_limits_only str_of check p reply (check turn t.candidate)) _ _
        (λ e. (
          inl refl,
          subst (λ c. is_accepted external_limits_only str_of check p reply (check turn c) ≡ true)
              (sym (checked_candidate turn (check turn t.candidate) t)) e,
        ))
        (λ e. later turn (settle turn) (t, true) slots _ _ (check_all-IsPlayed turn slots))

  -- The fallback leaves each track as it is after `n` rounds by itself; an accepted candidate is that
  -- of one of the tracks after `n` rounds by itself.
  abbrev AloneBy : (first n : ℕ) → List Track → Selection → Ending → Type 0
  AloneBy first n ts fallback e = e.tracks ≡ map (lone n first) ts
  AloneBy first n ts first_accepted e =
      Among (λ t. e.selected ≡ some (lone n first t)) ts
      × ((t : Track) → e.selected ≡ some t → IsAccepted e.rounds_started t)

  pub IsAlone : (first n : ℕ) → List Track → Ending → Type 0
  IsAlone first n ts e = AloneBy first n ts e.selection e

  map_same : (ts : List Track) → ts ≡ map (λ t. t) ts
  map_same [] = refl
  map_same (t ∷ ts) = ap (λ us. t ∷ us) (map_same ts)

  Among-weaken :
      (P Q : Track → Type 0) (ts : List Track) → ((t : Track) → P t → Q t) → Among P ts → Among Q ts
  Among-weaken P Q [] f h = h
  Among-weaken P Q (t ∷ ts) f (inl h) = inl (f t h)
  Among-weaken P Q (t ∷ ts) f (inr h) = inr (Among-weaken P Q ts f h)

  -- A round, and then the others.
  earlier :
      (first n : ℕ) (ts : List Track) (s : Selection) (e : Ending)
      → AloneBy (first + 1) n (map (advance first) ts) s e
      → AloneBy first (suc n) ts s e
  earlier first n ts fallback e h = h ∙ map-map (advance first) (lone n (first + 1)) ts
  earlier first n ts first_accepted e h =
      (Among-map (advance first) (λ t. e.selected ≡ some (lone n (first + 1) t)) ts h.0, h.1)

  -- The state of a loop behind `started` rounds.
  Reached : (started : ℕ) → List Track → Ending → Type 0
  Reached started ts e = (n : ℕ) × (e.rounds_started ≡ started + n) × IsAlone (started + 1) n ts e

  stopped :
      (started : ℕ) (ts : List Track) (saved : List Text) (e : Ending)
      → Path
          (Option Ending)
          (some (ended external_limits_only str_of check p reply started ts saved))
          (some e)
      → Reached started ts e
  unfolding IsAlone Reached
  stopped started ts saved e h =
      subst (Reached started ts) (same _ e h) (0, omega arith, map_same ts)

  winning :
      (started : ℕ) (ts : List Track) (w : Track) (us : List Track) (saved : List Text)
      → IsPlayed
          (started + 1)
          (settle (started + 1))
          (map (proposed external_limits_only str_of check p reply (started + 1)) ts)
          us
          (some w)
      → Reached started ts (record {
        selected = some w;
        selection = first_accepted;
        rounds_started = started + 1;
        tracks = us;
        checkpoints = saved;
      })
  unfolding IsAlone Reached
  winning started ts w us saved h = (
    1,
    omega arith,
    (
      Among-weaken _ _ ts (λ t e. ap some e)
          (Among-map (proposed external_limits_only str_of check p reply (started + 1))
            (λ x. w ≡ settle (started + 1) x) ts h.0),
      λ t e. subst (IsAccepted (started + 1)) (some-injective _ _ e) h.1,
    ),
  )

  rounds-Reached :
      (last_turn fuel started : ℕ) (ts : List Track) (saved : List Text) (e : Ending)
      → rounds external_limits_only str_of check p reply last_turn fuel started ts saved ≡ some e
      → Reached started ts e
  unfolding rounds play Reached IsAlone
  rounds-Reached last_turn zero started ts saved e h =
      elim (Bool-cases (
        (external_limits_only || leb (started + 1) last_turn)
        && any (is_active external_limits_only (started + 1)) ts)) [
          | inl i ↦ let h' = rw i at h in absurd (cc)
          | inr i ↦ let h' = rw i at h in stopped started ts saved e h'
        ]
  rounds-Reached last_turn (suc fuel) started ts saved e h =
      let slots = map (proposed external_limits_only str_of check p reply (started + 1)) ts in
      let r = check_all external_limits_only str_of check p reply (started + 1) slots in
      let k = check_all-IsPlayed (started + 1) slots in
      elim (Bool-cases (
        (external_limits_only || leb (started + 1) last_turn)
        && any (is_active external_limits_only (started + 1)) ts)) [
          | inr i ↦ let h' = rw i at h in stopped started ts saved e h'
          | inl i ↦ elim (Option-cases r.2) [
            | inr (w, j) ↦
                let h' = rw (i, j) at h in
                let k' = rw j at k in
                subst (Reached started ts) (same _ e h')
                  (winning started ts w r.0 (saved ++ r.1) k')
            | inl j ↦
                let h' = rw (i, j) at h in
                let k' = rw j at k in
                let (n, c, l) =
                  rounds-Reached last_turn fuel (started + 1) r.0 (saved ++ r.1) e h' in
                let l' =
                  subst (λ us. AloneBy (started + 1 + 1) n us e.selection e) (k' ∙ map-map _ _ ts)
                    l in
                (suc n, omega (arith, c), earlier (started + 1) n ts e.selection e l')
          ]
        ]

  rounds-none :
      (last_turn fuel started : ℕ) (ts : List Track) (saved : List Text)
      → rounds external_limits_only str_of check p reply last_turn fuel started ts saved ≡ none
      → (external_limits_only ≡ true) ⊎ (started + fuel < last_turn)
  unfolding rounds play
  rounds-none last_turn zero started ts saved h =
      elim (Bool-cases (
        (external_limits_only || leb (started + 1) last_turn)
        && any (is_active external_limits_only (started + 1)) ts)) [
          | inl i ↦ ground arith
          | inr i ↦ let h' = rw i at h in absurd (cc)
        ]
  rounds-none last_turn (suc fuel) started ts saved h =
      let slots = map (proposed external_limits_only str_of check p reply (started + 1)) ts in
      let r = check_all external_limits_only str_of check p reply (started + 1) slots in
      elim (Bool-cases (
        (external_limits_only || leb (started + 1) last_turn)
        && any (is_active external_limits_only (started + 1)) ts)) [
          | inr i ↦ let h' = rw i at h in absurd (cc)
          | inl i ↦ elim (Option-cases r.2) [
            | inr (w, j) ↦ let h' = rw (i, j) at h in absurd (cc)
            | inl j ↦
                let h' = rw (i, j) at h in
                elim (rounds-none last_turn fuel (started + 1) r.0 (saved ++ r.1) h') [
                  | inl x ↦ inl x
                  | inr x ↦ inr (omega arith)
                ]
          ]
        ]

  -- What `solve` gives with this fuel; without an ending the limits are external or the fuel is short.
  pub IsAnswer : (fuel : ℕ) → List Track → Option Ending → Type 0
  IsAnswer fuel ts none = (external_limits_only ≡ true) ⊎ (fuel < most_turns ts)
  IsAnswer fuel ts (some e) = IsAlone 1 e.rounds_started ts e

  -- With internal limits, `solve` returns within as many rounds as the most turns of a track. When it
  -- returns, with either kind of limits, after `n` rounds: if it falls back, each track is as it would
  -- be after `n` turns by itself, given the replies it got and Lean's answers to its own candidates; if
  -- it reports an accepted candidate, the selected track is one of the tracks as it would be after `n`
  -- turns by itself, and Lean accepts its candidate in the last of them.
  pub solve-IsAlone :
      (fuel : ℕ) (agents : List (Text × ℕ))
      → IsAnswer fuel
          (map (λ a. fresh_track p a.1 a.0) agents)
          (solve external_limits_only str_of check p reply fuel agents)
  unfolding IsAnswer solve Reached
  solve-IsAlone fuel agents =
      let ts = map (λ a. fresh_track p a.1 a.0) agents in
      let o = rounds external_limits_only str_of check p reply (most_turns ts) fuel 0 ts [] in
      elim (Option-cases o) [
        | inl h ↦
            subst (IsAnswer fuel ts) (sym h) (elim (rounds-none (most_turns ts) fuel 0 ts [] h) [
              | inl x ↦ inl x
              | inr x ↦ inr (omega arith)
            ])
        | inr (e, h) ↦
            let (n, c, l) = rounds-Reached (most_turns ts) fuel 0 ts [] e h in
            let c' : n ≡ e.rounds_started = omega (arith, c) in
            subst (IsAnswer fuel ts) (sym h) (subst (λ m. IsAlone 1 m ts e) c' l)
      ]
