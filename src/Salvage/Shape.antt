-- ===== src/Salvage/Shape.antt =====
-- The bounds that `_declaration_bounds` finds.
use re_takehome_submission.Common.{
  ℕ, suc, ◌+◌, ◌≤◌, ◌<◌, ◌≡◌, refl, inl, inr, Bool, true, some, List, [], ◌∷◌, arith, leb, ltb,
  length, keep, All, Bool-cases,
}
use re_takehome_submission.Common.Text.{Text}
use re_takehome_submission.Salvage.Source.{
  bounds_in, bounds_of, last_or, head_or, starts_from, declaration_bounds, is_declaration,
}

-- The numbers rise strictly, each at least `lo` and below `hi`.
abbrev Rising : ℕ → ℕ → List ℕ → Type 0
Rising lo hi [] = Unit
Rising lo hi (x ∷ xs) = (lo ≤ x) × (x < hi) × Rising (suc x) hi xs

Rising-starts :
    (w : ℕ → Bool) (i hi : ℕ) (ls : List Text)
    → i + length ls ≤ hi
    → Rising i hi (starts_from w i ls)
unfolding starts_from
Rising-starts w i hi [] h = tt
Rising-starts w i hi (l ∷ ls) h = elim (Bool-cases (is_declaration w l)) [
  | inl e ↦ rw e (omega arith, omega arith, Rising-starts w (suc i) hi ls (omega arith))
  | inr e ↦
      rw e
        (Rising-weaken i (suc i) hi _ (omega arith) (Rising-starts w (suc i) hi ls (omega arith)))
]
  where
    Rising-weaken : (lo lo' hi : ℕ) (xs : List ℕ) → lo ≤ lo' → Rising lo' hi xs → Rising lo hi xs
    Rising-weaken lo lo' hi [] h r = tt
    Rising-weaken lo lo' hi (x ∷ xs) h r = (omega arith, r.1, r.2)

-- The last of the numbers up to `e`: none of those is above it.
last_kept :
    (e d lo hi m : ℕ) (xs : List ℕ)
    → Rising lo hi xs
    → d ≤ lo
    → d ≤ e
    → last_or d (keep (λ i. leb i e) xs) ≡ m
    → All (λ y. (y ≤ e → y ≤ m) × (y < hi)) xs × (d ≤ m) × (m ≤ e)
last_kept e d lo hi m [] r h k g = (tt, omega arith, omega arith)
last_kept e d lo hi m (x ∷ xs) r h k g = elim (Bool-cases (leb x e)) [
  | inl q ↦
      let (a, b, c) = last_kept e x (suc x) hi m xs r.2 (omega arith) (ground arith) (rw q at g) in
      (((λ p. b, r.1), a), omega arith, c)
  | inr q ↦
      let (a, b, c) = last_kept e d (suc x) hi m xs r.2 (omega arith) k (rw q at g) in
      (((λ p. absurd (ground arith), r.1), a), b, c)
]

head_kept :
    (e s n : ℕ) (xs : List ℕ)
    → All (λ y. (y ≤ e → y ≤ s) × (y < n)) xs
    → e < n
    → let head = head_or n (keep (λ i. ltb s i) xs) in (e < head) × (head ≤ n)
head_kept e s n [] a h = (h, omega arith)
head_kept e s n (x ∷ xs) a h = elim (Bool-cases (ltb s x)) [
  | inl q ↦ rw q (above (a.0.0) q, omega arith)
  | inr q ↦ rw q (head_kept e s n xs a.1 h)
]
  where
    above : (x ≤ e → x ≤ s) → ltb s x ≡ true → e < x
    above f q = elim (Bool-cases (leb x e)) [
      | inl p ↦ let le : x ≤ s = f (ground arith) in absurd (ground arith)
      | inr p ↦ ground arith
    ]

bounds_in_parts :
    (kept starts : List ℕ) (n start stop : ℕ)
    → bounds_in kept starts n ≡ some (start, stop)
    → (start ≡ last_or 0 kept) × (stop ≡ head_or n (keep (λ i. ltb (last_or 0 kept) i) starts))
unfolding bounds_in
bounds_in_parts [] starts n start stop q = absurd (cc)
bounds_in_parts (x ∷ xs) starts n start stop q = (cc, cc)

bounds_of_hold :
    (starts : List ℕ) (n e start stop : ℕ)
    → Rising 0 n starts
    → e < n
    → bounds_of starts n e ≡ some (start, stop)
    → (start ≤ e) × (e < stop) × (stop ≤ n)
unfolding bounds_of
bounds_of_hold starts n e start stop r h q =
    let last = last_or 0 (keep (λ i. leb i e) starts) in
    let (a, b, c) = last_kept e 0 0 n last starts r (omega arith) (omega arith) refl in
    let (f, g) = head_kept e last n starts a h in
    let (p, p') = bounds_in_parts (keep (λ i. leb i e) starts) starts n start stop q in
    (rw p c, rw p' f, rw p' g)

-- The declaration that holds a failing line begins at or before it and ends behind it, within the
-- file.
pub declaration_bounds_hold :
    (w : ℕ → Bool) (ls : List Text) (e start stop : ℕ)
    → e < length ls
    → declaration_bounds w ls e ≡ some (start, stop)
    → (start ≤ e) × (e < stop) × (stop ≤ length ls)
unfolding declaration_bounds
declaration_bounds_hold w ls e start stop h q =
    bounds_of_hold (starts_from w 0 ls) (length ls) e start stop
      (Rising-starts w 0 (length ls) ls (omega arith)) h q
