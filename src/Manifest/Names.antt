-- ===== src/Manifest/Names.antt =====
-- What the checks of names and of ids let through.
use re_takehome_submission.Common.{
  ◌≡◌, refl, inl, inr, Bool, true, false, not, ◌&&◌, Option, none, some, List, [], ◌∷◌, all,
  is_empty, All, Bool-cases, Option-cases, arith,
}
use mathlib.Core.Path.{subst}
use mathlib.Core.Option.{some-injective}
use re_takehome_submission.Common.Text.{Text, strip}
use re_takehome_submission.Common.Json.{
  Json, Items, obj, null, boolean, int, float, nil, cons, str, arr,
}
use re_takehome_submission.Common.Results.{Result, ok}
use re_takehome_submission.Manifest.{is_problem_id, distinct, texts_of, names_of, names, id_of}

-- A list of names that `_names` lets through.
pub record AreNames (ts : List Text) : Type 0 where
  pub nonblank : All (λ (t : Text). is_empty (strip t) ≡ false) ts
  pub differ : distinct ts ≡ true

abbrev pub Nonblank : List Text → Type 0
Nonblank = All (λ (t : Text). is_empty (strip t) ≡ false)

pub texts_of-Nonblank : (is : Items) (ts : List Text) → texts_of is ≡ some ts → Nonblank ts
unfolding texts_of
texts_of-Nonblank nil ts h = subst Nonblank (some-injective _ _ h) tt
texts_of-Nonblank (cons (str t) is) ts h = elim (Option-cases (texts_of is)) [
  | inl e ↦ absurd (let k = rw (e, texts_of) at h in cc)
  | inr (r, e) ↦ elim (Bool-cases (is_empty (strip t))) [
    | inl b ↦ absurd (let k = rw (e, b, texts_of) at h in cc)
    | inr b ↦
        subst Nonblank (some-injective _ _ (rw (e, b, texts_of) at h)) (b, texts_of-Nonblank is r e)
  ]
]
texts_of-Nonblank (cons null is) ts h = absurd (cc)
texts_of-Nonblank (cons (boolean b) is) ts h = absurd (cc)
texts_of-Nonblank (cons (int z) is) ts h = absurd (cc)
texts_of-Nonblank (cons (float a) is) ts h = absurd (cc)
texts_of-Nonblank (cons (arr i) is) ts h = absurd (cc)
texts_of-Nonblank (cons (obj f) is) ts h = absurd (cc)

-- What `_names` promises, by whether an empty list is let through.
abbrev pub Promised : Bool → List Text → Type 0
Promised may ts = AreNames ts × (may ≡ false → is_empty ts ≡ false)

pub names_of-AreNames :
    (may : Bool) (o : Option (List Text)) (ts : List Text)
    → ((us : List Text) → o ≡ some us → Nonblank us)
    → names_of may o ≡ some ts
    → Promised may ts
unfolding names_of
names_of-AreNames may none ts k h = absurd (cc)
names_of-AreNames may (some us) ts k h = elim (Bool-cases (not may && is_empty us)) [
  | inl e ↦ absurd (let q = rw (e, names_of) at h in cc)
  | inr e ↦ elim (Bool-cases (distinct us)) [
    | inr d ↦ absurd (let q = rw (e, d, names_of) at h in cc)
    | inl d ↦
        subst (Promised may) (some-injective _ _ (rw (e, d, names_of) at h))
          (record { nonblank = k us refl; differ = d }, λ m. ground arith)
  ]
]

pub names-AreNames :
    (may : Bool) (j : Option Json) (ts : List Text) → names may j ≡ some ts → Promised may ts
unfolding names
names-AreNames may none ts h = absurd (cc)
names-AreNames may (some (arr is)) ts h =
    names_of-AreNames may (texts_of is) ts (texts_of-Nonblank is) h
names-AreNames may (some null) ts h = absurd (cc)
names-AreNames may (some (boolean b)) ts h = absurd (cc)
names-AreNames may (some (int z)) ts h = absurd (cc)
names-AreNames may (some (float a)) ts h = absurd (cc)
names-AreNames may (some (str t)) ts h = absurd (cc)
names-AreNames may (some (obj f)) ts h = absurd (cc)

pub id_of-valid : (j : Option Json) (id : Text) → id_of j ≡ some id → is_problem_id id ≡ true
unfolding id_of
id_of-valid none id h = absurd (cc)
id_of-valid (some (str t)) id h = elim (Bool-cases (is_problem_id t)) [
  | inl e ↦ subst (λ x. is_problem_id x ≡ true) (some-injective _ _ (rw (e, id_of) at h)) e
  | inr e ↦ absurd (let k = rw (e, id_of) at h in cc)
]
id_of-valid (some null) id h = absurd (cc)
id_of-valid (some (boolean b)) id h = absurd (cc)
id_of-valid (some (int z)) id h = absurd (cc)
id_of-valid (some (float a)) id h = absurd (cc)
id_of-valid (some (arr t)) id h = absurd (cc)
id_of-valid (some (obj f)) id h = absurd (cc)

pub all-All : {A : Type 0} (p : A → Bool) (xs : List A) → all p xs ≡ true → All (λ x. p x ≡ true) xs
all-All p [] h = tt
all-All p (x ∷ xs) h = (ground arith, all-All p xs (ground arith))

pub ok-injective : {E A : Type 0} (a b : A) → Path (Result E A) (ok a) (ok b) → a ≡ b
ok-injective a b h = cc
