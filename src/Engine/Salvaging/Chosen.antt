-- ===== src/Engine/Salvaging/Chosen.antt =====
-- The skeleton that `_attempt_salvage` chooses.
use re_takehome_submission.Common.{
  ℕ, suc, ◌≤◌, ◌≡◌, refl, ◌⊎◌, inl, inr, true, false, none, some, List, [], ◌∷◌, arith, ltb,
  is_empty, Bool-cases, All,
}
use mathlib.Core.Path.{subst}
use mathlib.Core.Option.{some-injective}
use re_takehome_submission.Common.Text.{Text}
use re_takehome_submission.Common.Json.{Fields}
use re_takehome_submission.Salvage.{SorrificationCandidate, propose_sorrifications}
use re_takehome_submission.Engine.Salvaging.{
  LeanCheck, Skeleton, Python, compiles_with_sorry, try_candidates, meaningful, attempt_salvage,
}

-- The list holds a candidate with the skeleton's source and retained lines.
abbrev pub Offers : Skeleton → List SorrificationCandidate → Type 0
Offers s [] = ⊥
Offers s (c ∷ cs) = ((c.source ≡ s.source) × (c.retained_lines ≡ s.retained_lines)) ⊎ Offers s cs

module _ (py : Python) (check : Text → LeanCheck) where
  abbrev pub Compiles : Skeleton → Type 0
  Compiles s = compiles_with_sorry py s.source (check s.source) ≡ true

  try_candidates-chosen :
      (i : ℕ) (cs : List SorrificationCandidate) (s : Skeleton)
      → (try_candidates py check i cs).1 ≡ some s
      → Offers s cs × Compiles s
  unfolding try_candidates
  try_candidates-chosen i [] s h = absurd (cc)
  try_candidates-chosen i (c ∷ cs) s h =
      elim (Bool-cases (compiles_with_sorry py c.source (check c.source))) [
        | inl e ↦
            subst (λ k. Offers k (c ∷ cs) × Compiles k)
              (some-injective _ _ (rw (e, try_candidates) at h)) (inl (refl, refl), e)
        | inr e ↦
            let (o, k) = try_candidates-chosen (suc i) cs s (rw (e, try_candidates) at h) in
            (inr o, k)
      ]

  -- Every candidate of the list fails to compile.
  abbrev pub NoneCompiles : List SorrificationCandidate → Type 0
  NoneCompiles =
      All (λ (c : SorrificationCandidate). compiles_with_sorry py c.source (check c.source) ≡ false)

  try_candidates-none :
      (i : ℕ) (cs : List SorrificationCandidate)
      → (try_candidates py check i cs).1 ≡ none
      → NoneCompiles cs
  unfolding try_candidates
  try_candidates-none i [] h = tt
  try_candidates-none i (c ∷ cs) h =
      elim (Bool-cases (compiles_with_sorry py c.source (check c.source))) [
        | inl e ↦ absurd (let k = rw (e, try_candidates) at h in cc)
        | inr e ↦ (e, try_candidates-none (suc i) cs (rw (e, try_candidates) at h))
      ]

positive : (n : ℕ) → ltb 0 n ≡ true → 1 ≤ n
positive n h = ground arith

None-empty : {A : Type 0} (P : A → Type 0) (xs : List A) → is_empty xs ≡ true → All P xs
None-empty P [] h = tt
None-empty P (x ∷ xs) h = absurd (cc)

meaningful-empty :
    (cs : List SorrificationCandidate) → is_empty cs ≡ true → is_empty (meaningful cs) ≡ true
unfolding meaningful
meaningful-empty [] h = refl
meaningful-empty (c ∷ cs) h = absurd (cc)

-- A kept candidate was in the list and has a retained line.
Offers-meaningful :
    (s : Skeleton) (cs : List SorrificationCandidate)
    → Offers s (meaningful cs)
    → Offers s cs × (1 ≤ s.retained_lines)
unfolding meaningful
Offers-meaningful s [] o = absurd o
Offers-meaningful s (c ∷ cs) o = elim (Bool-cases (ltb 0 c.retained_lines)) [
  | inl e ↦
      let here : ((c.source ≡ s.source) × (c.retained_lines ≡ s.retained_lines))
          ⊎ Offers s (meaningful cs) =
        rw (e, meaningful) at o in
      elim here [
        | inl p ↦ (inl p, omega (arith, p.1, positive c.retained_lines e))
        | inr q ↦ let (k, n) = Offers-meaningful s cs q in (inr k, n)
      ]
  | inr e ↦ let (k, n) = Offers-meaningful s cs (rw (e, meaningful) at o) in (inr k, n)
]

module _ (py : Python) (chars : ℕ) (check : Text → LeanCheck) (proposal : Text)
    (messages : List Fields) where
  -- The proposals of salvage.py for the candidate and its diagnostics.
  abbrev pub proposals : List SorrificationCandidate
  proposals = propose_sorrifications py.unicode_word py.str_of chars proposal messages

  -- A skeleton that `_attempt_salvage` returns has the source and the retained lines of one of the
  -- proposals for the candidate, retains at least one line of proof, and compiles up to `sorry`
  -- according to Lean's answer; when it returns none, no proposal with a retained line compiles.
  pub attempt_salvage-chosen :
      ((s : Skeleton)
        → (attempt_salvage py chars check proposal messages).1 ≡ some s
        → Offers s proposals × (1 ≤ s.retained_lines) × Compiles py check s)
      × ((attempt_salvage py chars check proposal messages).1 ≡ none
          → NoneCompiles py check (meaningful proposals))
  unfolding attempt_salvage
  attempt_salvage-chosen = elim (Bool-cases (is_empty proposals)) [
    | inl e ↦ (
      λ s h. absurd (let k = rw (e, attempt_salvage) at h in cc),
      λ h. None-empty _ (meaningful proposals) (meaningful-empty proposals e),
    )
    | inr e ↦ elim (Bool-cases (is_empty (meaningful proposals))) [
      | inl f ↦ (
        λ s h. absurd (let k = rw (e, f, attempt_salvage) at h in cc),
        λ h. None-empty _ (meaningful proposals) f,
      )
      | inr f ↦ (
        λ s h.
            let (o, k) =
              try_candidates-chosen py check 1 (meaningful proposals) s
                (rw (e, f, attempt_salvage) at h) in
            let (q, n) = Offers-meaningful s proposals o in (q, n, k),
        λ h.
            try_candidates-none py check 1 (meaningful proposals) (rw (e, f, attempt_salvage) at h),
      )
    ]
  ]
