-- ===== src/Strategies/Excerpt.antt =====
-- The lengths of excerpts and of packet contents.
use re_takehome_submission.Common.{
  ℕ, ◌-◌, ◌*◌, ◌/◌, ◌≤◌, ◌<◌, ◌≡◌, refl, ◌∷◌, ◌++◌, arith, length, take, length-take, length-append,
  leb, Bool-cases, inl, inr, is_empty, false, zero, suc,
}
use re_takehome_submission.Common.Text.{
  Text, strip, last_chars, length-last_chars, is_space, strip_nonblank,
}
use re_takehome_submission.Strategies.{marker, excerpt, TrackObservation, content, progress_content}

length-cut :
    (s m : Text) (limit : ℕ)
    → length m < limit
    → limit ≤ length s
    → let available = limit - length m in
      let head = available * 2 / 3 in
      length (take head s ++ (m ++ last_chars (available - head) s)) ≡ limit
length-cut s m limit h k =
    let available = limit - length m in
    let head = available * 2 / 3 in
    omega (
      arith,
      length-append (take head s) (m ++ last_chars (available - head) s),
      length-append m (last_chars (available - head) s),
      length-take head s,
      length-last_chars (available - head) s,
    )

-- An excerpt is the stripped text where that fits into the limit; where it does not, it has exactly
-- as many characters as the limit.
pub excerpt_fits :
    (t : Text) (limit : ℕ)
    → (length (strip t) ≤ limit → excerpt t limit ≡ strip t)
      × (limit < length (strip t) → length (excerpt t limit) ≡ limit)
unfolding excerpt
excerpt_fits t limit = (
  λ h. ground arith,
  λ h. elim (Bool-cases (leb limit (length marker))) [
    | inl short ↦ ground (arith, length-take limit (strip t))
    | inr long ↦ ground (arith, length-cut (strip t) marker limit)
  ],
)

pub length-content : (o : TrackObservation) (limit : ℕ) → length (content o limit) ≤ limit
unfolding content
length-content o limit = omega (arith, length-take {0})

pub length-progress_content :
    (o : TrackObservation) (limit : ℕ) → length (progress_content o limit) ≤ limit
unfolding progress_content
length-progress_content o limit = omega (arith, length-take {0})

take_nonblank :
    (c : ℕ) (s : Text) (limit : ℕ)
    → is_space c ≡ false
    → 1 ≤ limit
    → is_empty (strip (take limit (c ∷ s))) ≡ false
take_nonblank c s zero h k = absurd (omega arith)
take_nonblank c s (suc n) h k = strip_nonblank c (take n s) h

pub content_nonblank :
    (o : TrackObservation) (limit : ℕ) → 1 ≤ limit → is_empty (strip (content o limit)) ≡ false
unfolding content is_space
content_nonblank o limit h = take_nonblank b'I' _ limit refl h

pub progress_content_nonblank :
    (o : TrackObservation) (limit : ℕ)
    → 1 ≤ limit
    → is_empty (strip (progress_content o limit)) ≡ false
unfolding progress_content is_space
progress_content_nonblank o limit h = take_nonblank b'C' _ limit refl h
