-- ===== src/Runner/Below.antt =====
-- The directory of a run is below that of its agent.
use mathlib.Core.Path.{subst}
use re_takehome_submission.Common.{
  ℕ, ◌≡◌, refl, Bool, true, false, not, ◌||◌, Option, none, some, List, [], ◌∷◌, ◌++◌, ◌==◌,
  if◌then◌else◌, All, All-append, arith, any, keep, Bool-cases, inl, inr, is_empty, if_cases,
}
use re_takehome_submission.Common.Text.{
  Text, codes, text_eq, join, decimal, IsDigits, decimal-IsDigits,
}
use re_takehome_submission.Common.Lines.{is_letter, is_digit, cons_head}
use re_takehome_submission.Common.Results.{err, OnOk, OnOk-if, OnOk-map}
use re_takehome_submission.Runner.Naming.{
  agent_name, resolve_output_dir, Disk, existing, is_unsafe_part, latest_run, FoundRun, no_runs,
  new_timestamp, split_slash, is_absolute, path_parts, path_of, is_later,
}
use re_takehome_submission.Runner.Slug.{IsSafeName, agent_name-IsSafeName}

abbrev NoSlash : Text → Type 0
NoSlash = All (λ c. (c == b'/') ≡ false)

-- A part of a path that leads one step down.
abbrev pub IsStep : Text → Type 0
IsStep p = (is_unsafe_part p ≡ false) × NoSlash p

-- The path of a directory that is reached by steps down only.
abbrev pub IsBelow : Text → Type 0
IsBelow name = (ps : List Text) × (name ≡ path_of ps) × All IsStep ps

-- A time is a text of letters and digits, and the runs are found below the agent's directory.
abbrev pub IsPlain : Disk → Type 0
IsPlain d =
    (is_empty d.base_timestamp ≡ false)
    × All (λ c. is_letter c || is_digit c ≡ true) d.base_timestamp
    × ((a : Text) → All (λ (f : FoundRun). IsBelow f.path) (d.runs_of a))

cons_head-NoSlash :
    (c : ℕ) (ls : List Text) → (c == b'/') ≡ false → All NoSlash ls → All NoSlash (cons_head c ls)
cons_head-NoSlash c [] e h = ((e, tt), tt)
cons_head-NoSlash c (l ∷ ls) e h = ((e, h.0), h.1)

split_slash-NoSlash : (s : Text) → All NoSlash (split_slash s)
unfolding split_slash
split_slash-NoSlash [] = (tt, tt)
split_slash-NoSlash (c ∷ s) =
    if_cases (All NoSlash) (c == b'/') _ _ (λ _. (tt, split_slash-NoSlash s))
      (λ e. cons_head-NoSlash c _ e (split_slash-NoSlash s))

keep-All :
    (P : Text → Type 0) (test : Text → Bool) (xs : List Text) → All P xs → All P (keep test xs)
keep-All P test [] h = tt
keep-All P test (x ∷ xs) h = elim (Bool-cases (test x)) [
  | inl e ↦ rw e (h.0, keep-All P test xs h.1)
  | inr e ↦ rw e (keep-All P test xs h.1)
]

steps : (ps : List Text) → All NoSlash ps → any is_unsafe_part ps ≡ false → All IsStep ps
steps [] h e = tt
steps (p ∷ ps) h e = elim (Bool-cases (is_unsafe_part p)) [
  | inl u ↦ absurd (let k = rw u at e in cc)
  | inr u ↦ ((u, h.0), steps ps h.1 (rw u at e))
]

resumed-IsBelow :
    (s : Text) → any is_unsafe_part (path_parts s) ≡ false → IsBelow (path_of (path_parts s))
unfolding path_parts
resumed-IsBelow s e = (
  path_parts s,
  refl,
  steps (path_parts s) (keep-All NoSlash _ (split_slash s) (split_slash-NoSlash s)) e,
)

stamp-NoSlash : (s : Text) → All (λ c. is_letter c || is_digit c ≡ true) s → NoSlash s
unfolding is_letter is_digit
stamp-NoSlash [] h = tt
stamp-NoSlash (c ∷ s) h = (ground arith, stamp-NoSlash s h.1)

digits-NoSlash : (s : Text) → IsDigits s → NoSlash s
digits-NoSlash [] h = tt
digits-NoSlash (c ∷ s) h = (ground arith, digits-NoSlash s h.1)

begun-IsStep :
    (c : ℕ) (s : Text) → is_letter c || is_digit c ≡ true → is_unsafe_part (c ∷ s) ≡ false
unfolding is_unsafe_part text_eq is_letter is_digit
begun-IsStep c s h = let dot : (c == b'.') ≡ false = ground arith in rw dot refl

new_timestamp-IsBelow : (d : Disk) (a : Text) → IsPlain d → IsBelow (new_timestamp d a)
unfolding new_timestamp path_of join
new_timestamp-IsBelow d a h = named d.base_timestamp (d.free_suffix a) h.0 h.1
  where
    named :
        (base : Text) (o : Option ℕ)
        → is_empty base ≡ false
        → All (λ c. is_letter c || is_digit c ≡ true) base
        → IsBelow (elim o [ none ↦ base | some n ↦ base ++ (b'-' ∷ decimal n) ])
    named [] o e k = absurd (cc)
    named (c ∷ s) none e k =
        ((c ∷ s) ∷ [], refl, ((begun-IsStep c s k.0, stamp-NoSlash (c ∷ s) k), tt))
    named (c ∷ s) (some n) e k = (
      (c ∷ (s ++ (b'-' ∷ decimal n))) ∷ [],
      refl,
      (
        (
          begun-IsStep c _ k.0,
          All-append _ (c ∷ s) _ (stamp-NoSlash (c ∷ s) k)
              (refl, digits-NoSlash (decimal n) (decimal-IsDigits n)),
        ),
        tt,
      ),
    )

abbrev IfSome : {A : Type 0} → (A → Type 0) → Option A → Type 0
IfSome P none = Unit
IfSome P (some a) = P a

latest_run-IfSome :
    (P : FoundRun → Type 0) (fs : List FoundRun) → All P fs → IfSome P (latest_run fs)
unfolding latest_run
latest_run-IfSome P [] h = tt
latest_run-IfSome P (a ∷ fs) h = later (latest_run fs) (latest_run-IfSome P fs h.1)
  where
    later :
        (o : Option FoundRun)
        → IfSome P o
        → IfSome P (elim o [ none ↦ some a | some b ↦ if is_later a b then some a else some b ])
    later none k = h.0
    later (some b) k = if_cases (IfSome P) (is_later a b) _ _ (λ _. h.0) (λ _. k)

-- Which run it is: a new one, the latest, or the one that was asked for.
abbrev pub IsAsked : Disk → (agent : Text) → (resume : Option Text) → Text × Text × Bool → Type 0
IsAsked d agent none x = x.2 ≡ false
IsAsked d agent (some resume) x =
    (x.2 ≡ true)
    × (d.has_run x.0 x.1 ≡ true)
    × (text_eq resume (codes "latest") ≡ false
        → (is_absolute resume ≡ false) × (x.1 ≡ path_of (path_parts resume)))

-- The agent's directory has a safe name, and the run's is below it.
abbrev pub IsConfined : Disk → (agent : Text) → (resume : Option Text) → Text × Text × Bool → Type 0
IsConfined d agent resume x =
    (x.0 ≡ agent_name agent) × IsSafeName x.0 × IsBelow x.1 × IsAsked d agent resume x

neither : (b c : Bool) → b || c ≡ false → (b ≡ false) × (c ≡ false)
neither true c h = absurd (cc)
neither false c h = (refl, h)

existing-OnOk :
    (d : Disk) (a run : Text)
    → OnOk (λ x. ((a, run, true) ≡ x) × (d.has_run a run ≡ true)) (existing d a run)
existing-OnOk d a run = OnOk-if _ (d.has_run a run) _ _ (λ e. (refl, e)) (λ _. tt)

-- Where times are texts of letters and digits and runs are found below the agent's directory, the
-- directory that `resolve_output_dir` gives is below the root: the agent's part is a name of lower-case
-- letters, digits and marks that begins with a letter or digit, and from there only steps down lead to
-- the run, be it new, the latest or one that was asked for. A run that is resumed is there, and one
-- that was asked for by a path has the parts of that path, which is relative.
pub resolve_output_dir-IsConfined :
    (d : Disk) (agent : Text) (resume : Option Text)
    → IsPlain d
    → OnOk (IsConfined d agent resume) (resolve_output_dir d agent resume)
unfolding resolve_output_dir
resolve_output_dir-IsConfined d agent none h =
    (refl, agent_name-IsSafeName agent, new_timestamp-IsBelow d (agent_name agent) h, refl)
resolve_output_dir-IsConfined d agent (some resume) h =
    OnOk-if Q (text_eq resume (codes "latest")) _ _
      (λ e.
        OnOk-if Q (not (d.has_agent_dir a)) _ _ (λ _. tt)
          (λ _.
            latest e (latest_run (d.runs_of a))
              (latest_run-IfSome (λ (f : FoundRun). IsBelow f.path) (d.runs_of a) (h.2 a))))
      (λ e.
        OnOk-if Q (is_absolute resume || any is_unsafe_part (path_parts resume)) _ _ (λ _. tt)
          (λ k.
            let (i, u) = neither _ _ k in
            found (path_of (path_parts resume)) (resumed-IsBelow resume u) (λ _. (i, refl))))
  where
    a : Text
    a = agent_name agent

    Q : Text × Text × Bool → Type 0
    Q x = IsConfined d agent (some resume) x

    found :
        (run : Text)
        → IsBelow run
        → (text_eq resume (codes "latest") ≡ false
            → (is_absolute resume ≡ false) × (run ≡ path_of (path_parts resume)))
        → OnOk Q (existing d a run)
    found run b k =
        OnOk-map _ Q (existing d a run)
          (λ x j. subst Q j.0 (refl, agent_name-IsSafeName agent, b, (refl, j.1, k)))
          (existing-OnOk d a run)

    latest :
        text_eq resume (codes "latest") ≡ true
        → (o : Option FoundRun) → IfSome (λ (f : FoundRun). IsBelow f.path) o
        → OnOk Q (elim o [ none ↦ err no_runs | some f ↦ existing d a f.path ])
    latest e none b = tt
    latest e (some f) b = found f.path b (λ j. absurd (cc))
