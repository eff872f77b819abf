-- ===== src/Engine/State/Lookup.antt =====
-- The tracks under a change of one of them.
use re_takehome_submission.Common.{
  ◌≡◌, refl, ◌≢◌, inl, inr, true, false, some, List, [], ◌∷◌, arith, All, Bool-cases,
}
use re_takehome_submission.Common.Text.{Text, text_eq, text_eq_iff}
use re_takehome_submission.Engine.State.{TrackState, find_track, has_track, update_track}

-- A change that keeps the model keeps which models have a track.
pub has_track-update :
    (m n : Text) (f : TrackState → TrackState) (ts : List TrackState)
    → ((t : TrackState) → (f t).model ≡ t.model)
    → has_track n (update_track m f ts) ≡ has_track n ts
unfolding has_track update_track
has_track-update m n f [] h = refl
has_track-update m n f (t ∷ ts) h = elim (Bool-cases (text_eq t.model m)) [
  | inl e ↦ rw (e, h t, update_track)
  | inr e ↦ rw (e, has_track-update m n f ts h, update_track)
]

pub find_track-update_self :
    (m : Text) (f : TrackState → TrackState) (ts : List TrackState)
    → ((t : TrackState) → (f t).model ≡ t.model)
    → has_track m ts ≡ true
    → (t : TrackState) × (find_track m ts ≡ some t)
      × (find_track m (update_track m f ts) ≡ some (f t))
unfolding has_track update_track find_track
find_track-update_self m f [] h k = absurd (cc)
find_track-update_self m f (t ∷ ts) h k = elim (Bool-cases (text_eq t.model m)) [
  | inl e ↦ (t, rw e, rw (e, update_track) (rw (h t, e)))
  | inr e ↦
      let (u, p, q) = find_track-update_self m f ts h (ground arith) in
      (u, rw e p, rw (e, update_track) (rw e q))
]

pub find_track-update_ne :
    (m n : Text) (f : TrackState → TrackState) (ts : List TrackState)
    → ((t : TrackState) → (f t).model ≡ t.model)
    → m ≢ n
    → find_track n (update_track m f ts) ≡ find_track n ts
unfolding update_track find_track
find_track-update_ne m n f [] h k = refl
find_track-update_ne m n f (t ∷ ts) h k = elim (Bool-cases (text_eq t.model m)) [
  | inl e ↦
      let other : text_eq t.model n ≡ false =
        ground (arith, text_eq_iff t.model m, text_eq_iff t.model n) in
      rw (e, update_track) (rw (h t, other))
  | inr e ↦ rw (e, find_track-update_ne m n f ts h k, update_track)
]

pub All-update_track {κ} :
    (P : TrackState → Type κ) (m : Text) (f : TrackState → TrackState) (ts : List TrackState)
    → All P ts
    → ((t : TrackState) → P t → P (f t))
    → All P (update_track m f ts)
unfolding update_track
All-update_track P m f [] h g = tt
All-update_track P m f (t ∷ ts) h g = elim (Bool-cases (text_eq t.model m)) [
  | inl e ↦ rw (e, update_track) (g t h.0, h.1)
  | inr e ↦ rw (e, update_track) (h.0, All-update_track P m f ts h.1 g)
]
