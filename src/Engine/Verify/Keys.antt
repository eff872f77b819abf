-- ===== src/Engine/Verify/Keys.antt =====
-- The digests that a desk holds: of the candidates started, with a verdict, and active.
use re_takehome_submission.Common.{
  ◌≡◌, refl, ap, ◌∙◌, inl, inr, Bool, true, false, ◌||◌, Option, none, some, List, [], ◌∷◌, ◌++◌,
  arith, if◌then◌else◌, Bool-cases, any,
}
use mathlib.Core.List.{append-nil}
use re_takehome_submission.Common.Text.{Text, text_eq, text_eq_iff}
use re_takehome_submission.Engine.Verify.{
  VerificationJob, Verdict, EventKind, started, VerificationEvent, find_result, set_result,
}

abbrev pub is_started : EventKind → Bool
is_started started = true
is_started _ = false

-- The candidates whose verification was started, in order.
abbrev pub started_in : List VerificationEvent → List Text
started_in [] = []
started_in (e ∷ es) =
    if is_started e.kind then e.candidate_sha256 ∷ started_in es else started_in es

abbrev pub member : Text → List Text → Bool
member h hs = any (λ k. text_eq k h) hs

abbrev pub Distinct : List Text → Type 0
Distinct [] = Unit
Distinct (h ∷ hs) = (member h hs ≡ false) × Distinct hs

abbrev pub result_keys : List (Text × Verdict) → List Text
result_keys [] = []
result_keys ((k, v) ∷ r) = k ∷ result_keys r

abbrev pub hash_of : Option VerificationJob → List Text
hash_of none = []
hash_of (some j) = j.candidate_sha256 ∷ []

pub started_in-append :
    (xs ys : List VerificationEvent) → started_in (xs ++ ys) ≡ started_in xs ++ started_in ys
started_in-append [] ys = refl
started_in-append (x ∷ xs) ys = elim (Bool-cases (is_started x.kind)) [
  | inl e ↦ rw e (ap (λ l. x.candidate_sha256 ∷ l) (started_in-append xs ys))
  | inr e ↦ rw e (started_in-append xs ys)
]

pub member-append :
    (h : Text) (xs ys : List Text) → member h (xs ++ ys) ≡ member h xs || member h ys
member-append h [] ys = refl
member-append h (x ∷ xs) ys = ground (arith, member-append h xs ys)

pub Distinct-snoc :
    (xs : List Text) (h : Text) → Distinct xs → member h xs ≡ false → Distinct (xs ++ h ∷ [])
Distinct-snoc [] h d m = (refl, tt)
Distinct-snoc (x ∷ xs) h d m = (
  ground (arith, member-append x xs (h ∷ []), text_eq_iff x h, text_eq_iff h x),
  Distinct-snoc xs h d.1 (ground arith),
)

pub result_keys-set_new :
    (h : Text) (v : Verdict) (r : List (Text × Verdict))
    → member h (result_keys r) ≡ false
    → result_keys (set_result h v r) ≡ result_keys r ++ h ∷ []
unfolding set_result
result_keys-set_new h v [] m = refl
result_keys-set_new h v ((k, w) ∷ r) m = elim (Bool-cases (text_eq k h)) [
  | inl e ↦ absurd (ground arith)
  | inr e ↦ rw e (ap (λ l. k ∷ l) (result_keys-set_new h v r (ground arith)))
]

pub find_result-none :
    (h : Text) (r : List (Text × Verdict))
    → find_result h r ≡ none
    → member h (result_keys r) ≡ false
unfolding find_result
find_result-none h [] e = refl
find_result-none h ((k, w) ∷ r) e = ground (arith, find_result-none h r)

pub Distinct-last : (xs : List Text) (h : Text) → Distinct (xs ++ h ∷ []) → member h xs ≡ false
Distinct-last [] h d = refl
Distinct-last (x ∷ xs) h d =
    ground
      (arith, member-append x xs (h ∷ []), Distinct-last xs h, text_eq_iff x h, text_eq_iff h x)

pub not_started-log :
    (es : List VerificationEvent) (e : VerificationEvent)
    → is_started e.kind ≡ false
    → started_in (es ++ e ∷ []) ≡ started_in es
not_started-log es e h = started_in-append es (e ∷ []) ∙ rw h (append-nil (started_in es))
