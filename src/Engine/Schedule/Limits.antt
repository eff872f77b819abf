-- ===== src/Engine/Schedule/Limits.antt =====
-- The number of calls and the reserve of the first model under `schedule`.
use re_takehome_submission.Common.{
  ℕ, ◌+◌, ◌≤◌, ◌≡◌, ◌⊎◌, refl, [], ◌∷◌, inl, inr, Bool, true, false, none, some, List, arith, All,
  Bool-cases, Option-cases,
}
use re_takehome_submission.Common.Text.{Text, text_eq}
use re_takehome_submission.Common.Results.{ok}
use re_takehome_submission.Engine.State.{
  ReleaseReason, TrackState, Cutoff, cutoff_at, no_cutoff, nan_cutoff, Settings, find_track,
}
use re_takehome_submission.Engine.State.Lookup.{All-update_track}
use re_takehome_submission.Engine.Schedule.{
  PendingCall, Board, Readings, is_within, in_flight, peer_capacity, has_capacity, at_reserve,
  release_for, start_call, dispatch, note_release, reserved_call, schedule_track, schedule, second,
}

-- Each track has made at most `limit` calls.
abbrev pub CallsWithin : ℕ → List TrackState → Type 0
CallsWithin limit ts = All (λ (t : TrackState). t.calls ≤ limit) ts

module _ (s : Settings) (limit : ℕ) (ceiling : s.max_calls_per_model ≡ some limit) where
  capacity_below : (t : TrackState) → has_capacity s t ≡ true → t.calls + 1 ≤ limit
  unfolding has_capacity
  capacity_below t h = ground arith

  start_call-CallsWithin :
      (used : ℕ) (t : TrackState) (b : Board)
      → t.calls + 1 ≤ limit
      → CallsWithin limit b.tracks
      → CallsWithin limit (start_call used t b).tracks
  unfolding start_call
  start_call-CallsWithin used t b h w =
      All-update_track (λ (u : TrackState). u.calls ≤ limit) t.model _ b.tracks w (λ u k. h)

  dispatch-CallsWithin :
      (check : Bool) (r : Readings) (t : TrackState) (b : Board)
      → t.calls + 1 ≤ limit
      → CallsWithin limit b.tracks
      → CallsWithin limit (dispatch s check r t b).1.tracks
  unfolding dispatch
  dispatch-CallsWithin check r t b h w = ground (arith, start_call-CallsWithin r.used t b h w)

  note_release-CallsWithin :
      (m : Text) (reason : ReleaseReason) (b : Board)
      → CallsWithin limit b.tracks
      → CallsWithin limit (note_release m reason b).tracks
  note_release-CallsWithin m reason b w =
      All-update_track (λ (u : TrackState). u.calls ≤ limit) m _ b.tracks w (λ u k. k)

  reserved_call-CallsWithin :
      (check : Bool) (r : Readings) (t : TrackState) (b : Board)
      → t.calls + 1 ≤ limit
      → CallsWithin limit b.tracks
      → CallsWithin limit (reserved_call s check r t b).1.tracks
  unfolding reserved_call
  reserved_call-CallsWithin check r t b h w = elim (Option-cases (second s.models)) [
    | inl e ↦ rw (e, reserved_call) w
    | inr (peer, e) ↦ elim (Option-cases (release_for s r.release peer b)) [
      | inl e' ↦ rw (e, e', reserved_call) w
      | inr (reason, e') ↦
          rw (e, e', reserved_call)
            (dispatch-CallsWithin check r t (note_release t.model reason b) h
              (note_release-CallsWithin t.model reason b w))
    ]
  ]

  schedule_track-CallsWithin :
      (check : Bool) (r : Readings) (t : TrackState) (b : Board)
      → CallsWithin limit b.tracks
      → CallsWithin limit (schedule_track s check r t b).1.tracks
  unfolding schedule_track
  schedule_track-CallsWithin check r t b w = elim (Bool-cases (has_capacity s t)) [
    | inr full ↦ rw (full, schedule_track) w
    | inl free ↦ elim (Bool-cases (at_reserve s t)) [
      | inl e ↦
          rw (free, e, schedule_track)
            (reserved_call-CallsWithin check r t b (capacity_below t free) w)
      | inr e ↦
          rw (free, e, schedule_track) (dispatch-CallsWithin check r t b (capacity_below t free) w)
    ]
  ]

  -- With a ceiling, scheduling a track keeps every track's number of calls within it.
  pub schedule-CallsWithin :
      (check : Bool) (r : Readings) (m : Text) (b : Board)
      → CallsWithin limit b.tracks
      → CallsWithin limit (schedule s check r m b).1.tracks
  unfolding schedule
  schedule-CallsWithin check r m b w = elim (Option-cases (find_track m b.tracks)) [
    | inl e ↦ rw (e, schedule) w
    | inr (t, e) ↦ rw (e, schedule) (schedule_track-CallsWithin check r t b w)
  ]

held_back :
    (s : Settings) (check : Bool) (r : Readings) (t : TrackState) (b : Board) (peer : Text)
    → at_reserve s t ≡ true
    → second s.models ≡ some peer
    → release_for s r.release peer b ≡ none
    → schedule_track s check r t b ≡ (ok false, b)
unfolding schedule_track reserved_call
held_back s check r t b peer h p e = elim (Bool-cases (has_capacity s t)) [
  | inl free ↦ rw (free, h, p, reserved_call) (rw (e, reserved_call))
  | inr full ↦ rw full
]

-- A track that may make no further call.
abbrev pub IsSpent : Settings → TrackState → Type 0
IsSpent s u =
    (u.active ≡ false) ⊎ ((limit : ℕ) × (s.max_calls_per_model ≡ some limit) × (limit ≤ u.calls))

-- The release margin before a finite cutoff has begun.
abbrev pub IsNearCutoff : Settings → (elapsed : ℕ) → Type 0
IsNearCutoff s elapsed =
    (n : ℕ) × (s.dispatch_cutoff ≡ cutoff_at n) × (n ≤ elapsed + s.reserve_release_margin)

-- The peer may make no further call, and none of its calls is running.
abbrev pub IsDone : Settings → (peer : Text) → Board → Type 0
IsDone s peer b =
    ((u : TrackState) → find_track peer b.tracks ≡ some u → IsSpent s u)
    × All (λ (q : PendingCall). text_eq q.model peer ≡ false) b.pending

is_within-near :
    (margin elapsed : ℕ) (c : Cutoff)
    → is_within margin c elapsed ≡ true
    → (n : ℕ) × (c ≡ cutoff_at n) × (n ≤ elapsed + margin)
unfolding is_within
is_within-near margin elapsed (cutoff_at n) h = (n, refl, ground arith)
is_within-near margin elapsed no_cutoff h = absurd (cc)
is_within-near margin elapsed nan_cutoff h = absurd (cc)

not_in_flight :
    (m : Text) (ps : List PendingCall)
    → in_flight m ps ≡ false
    → All (λ (q : PendingCall). text_eq q.model m ≡ false) ps
not_in_flight m [] h = tt
not_in_flight m (q ∷ ps) h = elim (Bool-cases (text_eq q.model m)) [
  | inl e ↦ absurd (let k = rw e at h in cc)
  | inr e ↦ (e, not_in_flight m ps (rw e at h))
]

spent : (s : Settings) (u : TrackState) → has_capacity s u ≡ false → IsSpent s u
unfolding has_capacity
spent s u h = elim (Bool-cases u.active) [
  | inr e ↦ inl e
  | inl e ↦ elim (Option-cases s.max_calls_per_model) [
    | inl n ↦ absurd (let k = rw (e, n) at h in cc)
    | inr (limit, n) ↦ let k = rw (e, n) at h in inr (limit, n, ground arith)
  ]
]

peer_spent :
    (s : Settings) (m : Text) (ts : List TrackState)
    → peer_capacity s m ts ≡ false
    → (u : TrackState) → find_track m ts ≡ some u
    → IsSpent s u
peer_spent s m ts h u e = spent s u (rw (e, peer_capacity) at h)

released :
    (s : Settings) (elapsed : ℕ) (peer : Text) (b : Board) (reason : ReleaseReason)
    → release_for s elapsed peer b ≡ some reason
    → IsNearCutoff s elapsed ⊎ IsDone s peer b
unfolding release_for
released s elapsed peer b reason h =
    elim (Bool-cases (is_within s.reserve_release_margin s.dispatch_cutoff elapsed)) [
      | inl e ↦ inl (is_within-near s.reserve_release_margin elapsed s.dispatch_cutoff e)
      | inr e ↦ elim (Bool-cases (peer_capacity s peer b.tracks)) [
        | inl c ↦ absurd (let k = rw (e, c, release_for) at h in cc)
        | inr c ↦ elim (Bool-cases (in_flight peer b.pending)) [
          | inl f ↦ absurd (let k = rw (e, c, f, release_for) at h in cc)
          | inr f ↦ inr (peer_spent s peer b.tracks c, not_in_flight peer b.pending f)
        ]
      ]
    ]

-- Where there is a second model, a track that stands at its reserve is started only if the release
-- margin before a finite cutoff has begun, or if the second model's track may make no further call and
-- none of its calls is running.
pub schedule_track-reserve :
    (s : Settings) (check : Bool) (r : Readings) (t : TrackState) (b : Board) (peer : Text)
    → at_reserve s t ≡ true
    → second s.models ≡ some peer
    → (schedule_track s check r t b).0 ≡ ok true
    → IsNearCutoff s r.release ⊎ IsDone s peer b
schedule_track-reserve s check r t b peer h p started =
    elim (Option-cases (release_for s r.release peer b)) [
      | inr (reason, e) ↦ released s r.release peer b reason e
      | inl e ↦ absurd (ground (arith, held_back s check r t b peer h p e))
    ]
