-- ===== src/Runner/Slug.antt =====
-- The characters of an agent's directory name.
use re_takehome_submission.Common.{
  ℕ, ◌≡◌, refl, Bool, true, false, ◌&&◌, ◌||◌, [], ◌∷◌, ◌==◌, leb, if◌then◌else◌, All, arith, map,
  Bool-cases, inl, inr, is_empty,
}
use re_takehome_submission.Common.Text.{Text, codes, text_eq, strip, starts_with}
use re_takehome_submission.Common.Lines.{is_letter, is_digit, split_once}
use re_takehome_submission.Runner.Naming.{
  is_mark, is_slug_char, dash_runs, lstrip_marks, rstrip_marks, cons_unless_mark, lower_ascii,
  or_else, slug, last_part, remove_suffix, agent_name,
}

-- `[a-z0-9]`
abbrev pub is_low : ℕ → Bool
is_low c = (leb b'a' c && leb c b'z') || (leb b'0' c && leb c b'9')

-- `[a-z0-9._-]`
abbrev pub is_safe_char : ℕ → Bool
is_safe_char c = is_low c || ((c == b'-') || ((c == b'.') || (c == b'_')))

-- A directory name: not empty, no separator, and neither `.` nor `..`, since a letter or digit
-- begins it.
abbrev pub IsSafeName : Text → Type 0
IsSafeName [] = ⊥
IsSafeName (c ∷ s) = (is_low c ≡ true) × All (λ d. is_safe_char d ≡ true) s

abbrev Slugged : Text → Type 0
Slugged = All (λ c. is_slug_char c ≡ true)

dash : is_slug_char b'-' ≡ true
unfolding is_slug_char is_letter is_digit is_mark
dash = refl

dropped :
    (s : Text) (b : Bool)
    → Slugged (dash_runs true s)
    → Slugged (if b then dash_runs true s else b'-' ∷ dash_runs true s)
dropped s true h = h
dropped s false h = (dash, h)

dash_runs-Slugged : (inside : Bool) (s : Text) → Slugged (dash_runs inside s)
unfolding dash_runs
dash_runs-Slugged inside [] = tt
dash_runs-Slugged inside (c ∷ s) = elim (Bool-cases (is_slug_char c)) [
  | inl e ↦ rw e (e, dash_runs-Slugged false s)
  | inr e ↦ rw e (dropped s inside (dash_runs-Slugged true s))
]

-- Nothing, or no mark at the front.
abbrev Begun : Text → Type 0
Begun [] = Unit
Begun (c ∷ s) = is_mark c ≡ false

lstrip_marks-Begun : (s : Text) → Slugged s → Slugged (lstrip_marks s) × Begun (lstrip_marks s)
unfolding lstrip_marks
lstrip_marks-Begun [] h = (tt, tt)
lstrip_marks-Begun (c ∷ s) h = elim (Bool-cases (is_mark c)) [
  | inl e ↦ rw e (lstrip_marks-Begun s h.1)
  | inr e ↦ rw e (h, e)
]

rstrip_marks-Slugged : (s : Text) → Slugged s → Slugged (rstrip_marks s)
unfolding rstrip_marks
rstrip_marks-Slugged [] h = tt
rstrip_marks-Slugged (c ∷ s) (h, hs) = joined (rstrip_marks s) (rstrip_marks-Slugged s hs)
  where
    joined : (t : Text) → Slugged t → Slugged (cons_unless_mark c t)
    joined [] k = elim (Bool-cases (is_mark c)) [ inl e ↦ rw e tt | inr e ↦ rw e (h, tt) ]
    joined (d ∷ t) k = (h, k)

rstrip_marks-Begun : (s : Text) → Begun s → Begun (rstrip_marks s)
unfolding rstrip_marks
rstrip_marks-Begun [] h = tt
rstrip_marks-Begun (c ∷ s) h = joined (rstrip_marks s)
  where
    joined : (t : Text) → Begun (cons_unless_mark c t)
    joined [] = rw h h
    joined (d ∷ t) = h

lower_ascii-safe : (c : ℕ) → is_slug_char c ≡ true → is_safe_char (lower_ascii c) ≡ true
unfolding is_slug_char is_letter is_digit is_mark lower_ascii
lower_ascii-safe c h = ground arith

lower_ascii-low :
    (c : ℕ) → is_slug_char c ≡ true → is_mark c ≡ false → is_low (lower_ascii c) ≡ true
unfolding is_slug_char is_letter is_digit is_mark lower_ascii
lower_ascii-low c h k = ground arith

lowered : (s : Text) → Slugged s → All (λ d. is_safe_char d ≡ true) (map lower_ascii s)
lowered [] h = tt
lowered (c ∷ s) (h, hs) = (lower_ascii-safe c h, lowered s hs)

agent_default : IsSafeName (codes "agent")
agent_default = (refl, (refl, (refl, (refl, (refl, tt)))))

slug-IsSafeName : (value : Text) → IsSafeName (slug value)
unfolding slug
slug-IsSafeName value =
    let (a, b) =
      lstrip_marks-Begun (dash_runs false (strip value)) (dash_runs-Slugged false (strip value)) in
    named (rstrip_marks (lstrip_marks (dash_runs false (strip value)))) (rstrip_marks-Slugged _ a)
      (rstrip_marks-Begun _ b)
  where
    named :
        (t : Text) → Slugged t → Begun t → IsSafeName (or_else (map lower_ascii t) (codes "agent"))
    named [] h k = agent_default
    named (c ∷ t) (h, hs) k = (lower_ascii-low c h k, lowered t hs)

pub agent_name-IsSafeName : (agent : Text) → IsSafeName (agent_name agent)
unfolding agent_name
agent_name-IsSafeName agent =
    let m = (split_once (codes ":") agent).0 in
    let name = last_part m in
    elim (Bool-cases (text_eq m (codes "baselines.simple_agent"))) [
      | inl e ↦ rw e baseline
      | inr e ↦ elim (Bool-cases (text_eq m (codes "submission.agent"))) [
        | inl e' ↦ rw (e, e') submission
        | inr e' ↦ elim (Bool-cases (starts_with (codes "baselines.") m)) [
          | inl s ↦
              rw (e, e', s) (slug-IsSafeName (or_else (remove_suffix (codes "_agent") name) name))
          | inr s ↦ rw (e, e', s) (slug-IsSafeName (if is_empty m then agent else name))
        ]
      ]
    ]
  where
    baseline : IsSafeName (codes "baseline")
    baseline = (refl, (refl, (refl, (refl, (refl, (refl, (refl, (refl, tt))))))))

    submission : IsSafeName (codes "submission")
    submission = (refl, (refl, (refl, (refl, (refl, (refl, (refl, (refl, (refl, (refl, tt))))))))))
