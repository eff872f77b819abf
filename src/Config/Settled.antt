-- ===== src/Config/Settled.antt =====
-- What the environment gives: settings, or an error.
use re_takehome_submission.Common.{
  ◌≡◌, refl, ap, sym, ◌∙◌, Bool, true, false, Option, none, some, List, [], ◌∷◌, All, ◌⊎◌, inl, inr,
  Bool-cases, Option-cases,
}
use mathlib.Core.Path.{subst}
use re_takehome_submission.Common.Int.{ℤ}
use re_takehome_submission.Common.Text.{Text, codes, strip}
use re_takehome_submission.Common.Results.{Result, ok, err, and_then}
use re_takehome_submission.Config.{
  HarnessSettings, ValueError, no_image_reference, not_an_integer, not_a_number, too_small,
  invalid_setting, Numbers, below_one, or_default, first_invalid, is_image_reference,
  is_not_positive, checks, post_init, positive_int, positive_float, workers_of, from_env,
}

all_valid : (xs : List (Text × Bool)) → first_invalid xs ≡ none → All (λ x. x.1 ≡ false) xs
unfolding first_invalid
all_valid [] h = tt
all_valid ((name, true) ∷ xs) h = absurd (cc)
all_valid ((name, false) ∷ xs) h = (refl, all_valid xs h)

-- This holds of the value, that of the error.
abbrev Either : {E A : Type 0} → (A → Type 0) → (E → Type 0) → Result E A → Type 0
Either P Q (ok a) = P a
Either P Q (err e) = Q e

Either-and_then :
    {E A B : Type 0} (P : A → Type 0) (R : B → Type 0) (Q : E → Type 0) (r : Result E A)
    (f : A → Result E B)
    → Either P Q r
    → ((a : A) → r ≡ ok a → P a → Either R Q (f a))
    → Either R Q (and_then r f)
Either-and_then P R Q (ok a) f h k = k a refl h
Either-and_then P R Q (err e) f h k = h

Either-map :
    {E A : Type 0} (P R : A → Type 0) (Q : E → Type 0) (r : Result E A)
    → ((a : A) → P a → R a)
    → Either P Q r
    → Either R Q r
Either-map P R Q (ok a) f h = f a h
Either-map P R Q (err e) f h = h

-- Settings that the harness works with.
pub IsValid : {F : Type 0} → Numbers F → HarnessSettings F → Type 0
IsValid py s = (is_image_reference s.lean_image ≡ true) × All (λ x. x.1 ≡ false) (checks py s)

-- Each setting is valid and is what its variable holds, or its default; the number of workers is the
-- given one, if there is one.
pub record IsSettled {F : Type 0} (py : Numbers F) (environ : Text → Option Text) (image : Text)
    (given : Option ℤ) (s : HarnessSettings F) : Type 0 where
  pub valid : IsValid py s
  pub key : s.api_key ≡ strip (or_default [] (environ (codes "OPENROUTER_API_KEY")))
  pub lean : s.lean_image ≡ strip (or_default image (environ (codes "LEAN_IMAGE")))
  pub budget :
      py.float_of (or_default (codes "1.0") (environ (codes "VM_BUDGET_USD"))) ≡ some s.budget_usd
  pub limit :
      py.float_of (or_default (codes "28800.0") (environ (codes "VM_TIME_LIMIT_S")))
      ≡ some s.time_limit_s
  pub workers : (n : ℤ) → given ≡ some n → s.n_workers ≡ n
  pub default_workers :
      given ≡ none
      → py.int_of (or_default (codes "1") (environ (codes "N_WORKERS"))) ≡ some s.n_workers
  pub check :
      py.int_of (or_default (codes "120") (environ (codes "LEAN_CHECK_TIMEOUT_S")))
      ≡ some s.lean_check_timeout_s
  pub comparator :
      py.int_of (or_default (codes "420") (environ (codes "COMPARATOR_TIMEOUT_S")))
      ≡ some s.comparator_timeout_s
  pub reserve :
      py.int_of (or_default (codes "240") (environ (codes "VM_VERIFY_RESERVE_S")))
      ≡ some s.verify_reserve_s

-- The variables that hold integers, and their defaults.
pub data IsIntegerVariable : Text → Text → Type 0 where
  n_workers : IsIntegerVariable (codes "N_WORKERS") (codes "1")
  lean_check : IsIntegerVariable (codes "LEAN_CHECK_TIMEOUT_S") (codes "120")
  comparator : IsIntegerVariable (codes "COMPARATOR_TIMEOUT_S") (codes "420")
  verify_reserve : IsIntegerVariable (codes "VM_VERIFY_RESERVE_S") (codes "240")

-- The variables that hold floats, and their defaults.
pub data IsFloatVariable : Text → Text → Type 0 where
  budget : IsFloatVariable (codes "VM_BUDGET_USD") (codes "1.0")
  time_limit : IsFloatVariable (codes "VM_TIME_LIMIT_S") (codes "28800.0")

module _ {F : Type 0} (py : Numbers F) (environ : Text → Option Text) where
  -- The error is about what the variable holds, or about the given number of workers.
  pub IsReason : (image : Text) (given : Option ℤ) → ValueError → Type 0
  IsReason image given no_image_reference =
      is_image_reference (strip (or_default image (environ (codes "LEAN_IMAGE")))) ≡ false
  IsReason image given (not_an_integer name) =
      (d : Text) × IsIntegerVariable name d × (py.int_of (or_default d (environ name)) ≡ none)
  IsReason image given (not_a_number name) =
      (d : Text) × IsFloatVariable name d × (py.float_of (or_default d (environ name)) ≡ none)
  IsReason image given (too_small name) =
      (d : Text) × ((IsIntegerVariable name d
          × (z : ℤ) × (py.int_of (or_default d (environ name)) ≡ some z)
          × (below_one z ≡ true))
        ⊎ (IsFloatVariable name d
            × (x : F) × (py.float_of (or_default d (environ name)) ≡ some x)
            × (is_not_positive py x ≡ true)))
  IsReason image given (invalid_setting name) =
      (name ≡ codes "n_workers") × ((z : ℤ) × (given ≡ some z) × (below_one z ≡ true))

  module _ (image : Text) (given : Option ℤ) where
    -- The number that the variable holds, or its default, and that it is no less than one.
    abbrev IsCount : (name default : Text) → ℤ → Type 0
    IsCount name d z = (below_one z ≡ false) × (py.int_of (or_default d (environ name)) ≡ some z)

    abbrev IsPositive : (name default : Text) → F → Type 0
    IsPositive name d x =
        (is_not_positive py x ≡ false) × (py.float_of (or_default d (environ name)) ≡ some x)

    positive_int-Either :
        (name d : Text)
        → IsIntegerVariable name d
        → Either (IsCount name d) (IsReason image given) (positive_int py environ name d)
    unfolding positive_int IsReason
    positive_int-Either name d v = elim (Option-cases (py.int_of (or_default d (environ name)))) [
      | inl e ↦ rw (e, Either, positive_int) (d, v, e)
      | inr (z, e) ↦ elim (Bool-cases (below_one z)) [
        | inl b ↦ rw (e, b, Either, positive_int) (d, inl (v, z, e, b))
        | inr b ↦ rw (e, b, Either, positive_int) (b, e)
      ]
    ]

    positive_float-Either :
        (name d : Text)
        → IsFloatVariable name d
        → Either (IsPositive name d) (IsReason image given) (positive_float py environ name d)
    unfolding positive_float IsReason
    positive_float-Either name d v =
        elim (Option-cases (py.float_of (or_default d (environ name)))) [
          | inl e ↦ rw (e, Either, positive_float) (d, v, e)
          | inr (x, e) ↦ elim (Bool-cases (is_not_positive py x)) [
            | inl b ↦ rw (e, b, Either, positive_float) (d, inr (v, x, e, b))
            | inr b ↦ rw (e, b, Either, positive_float) (b, e)
          ]
        ]

    abbrev IsWorkers : ℤ → Type 0
    IsWorkers n = (given ≡ some n) ⊎ ((given ≡ none) × IsCount (codes "N_WORKERS") (codes "1") n)

    -- The settings, with numbers that have been checked as they were read.
    post_init-Either :
        (s : HarnessSettings F)
        → s.lean_image ≡ strip (or_default image (environ (codes "LEAN_IMAGE")))
        → IsWorkers s.n_workers
        → below_one s.lean_check_timeout_s ≡ false
        → below_one s.comparator_timeout_s ≡ false
        → below_one s.verify_reserve_s ≡ false
        → is_not_positive py s.budget_usd ≡ false
        → is_not_positive py s.time_limit_s ≡ false
        → Either (λ t. (s ≡ t) × IsValid py s) (IsReason image given) (post_init py s)
    unfolding post_init IsReason IsValid first_invalid
    post_init-Either s i w c m r b l = elim (Bool-cases (is_image_reference s.lean_image)) [
      | inr f ↦ rw (f, Either, post_init) (sym (ap is_image_reference i) ∙ f)
      | inl f ↦ elim (Bool-cases (below_one s.n_workers)) [
        | inr n ↦
            rw (f, n, c, m, r, b, l, Either, post_init, first_invalid)
              (refl, (f, (n, (c, (m, (r, (b, (l, tt))))))))
        | inl n ↦ elim w [
          | inr n' ↦ absurd (let k = n'.1.0 in cc)
          | inl g ↦ rw (f, n, Either, post_init, first_invalid) (refl, (s.n_workers, g, n))
        ]
      ]
    ]

    workers_of-Either :
        (o : Option ℤ)
        → given ≡ o
        → Either IsWorkers (IsReason image given) (workers_of py environ o)
    unfolding workers_of
    workers_of-Either (some n) e = inl e
    workers_of-Either none e =
        Either-map (IsCount (codes "N_WORKERS") (codes "1")) IsWorkers (IsReason image given) _
          (λ n h. inr (e, h)) (positive_int-Either _ _ n_workers)

    given_workers : (n : ℤ) → IsWorkers n → (m : ℤ) → given ≡ some m → n ≡ m
    given_workers n (inl e) m k = cc
    given_workers n (inr (e, h)) m k = absurd (cc)

    read_workers :
        (n : ℤ)
        → IsWorkers n
        → given ≡ none
        → py.int_of (or_default (codes "1") (environ (codes "N_WORKERS"))) ≡ some n
    read_workers n (inl e) k = absurd (cc)
    read_workers n (inr (e, h)) k = h.1

    -- Either the settings are explained by the environment, or the error is.
    pub IsExplained : Result ValueError (HarnessSettings F) → Type 0
    IsExplained r = Either (IsSettled py environ image given) (IsReason image given) r

    -- Either each setting is valid and is what its variable holds, or its default, with the given
    -- number of workers in place of the variable's if there is one; or the error names a variable whose
    -- text, or default, is no such number or one that is too small, or the image is no reference, or
    -- the given number of workers is below one.
    pub from_env-IsExplained : IsExplained (from_env py environ image given)
    unfolding from_env IsExplained
    from_env-IsExplained =
        let Q = IsReason image given in
        let S = IsSettled py environ image given in
        Either-and_then (IsPositive (codes "VM_BUDGET_USD") (codes "1.0")) S Q _ _
          (positive_float-Either _ _ budget)
          (λ b eb hb.
            Either-and_then (IsPositive (codes "VM_TIME_LIMIT_S") (codes "28800.0")) S Q _ _
              (positive_float-Either _ _ time_limit)
              (λ l el hl.
                Either-and_then IsWorkers S Q _ _ (workers_of-Either given refl) (λ n en hn.
                  Either-and_then (IsCount (codes "LEAN_CHECK_TIMEOUT_S") (codes "120")) S Q _ _
                    (positive_int-Either _ _ lean_check)
                    (λ c ec hc.
                      Either-and_then (IsCount (codes "COMPARATOR_TIMEOUT_S") (codes "420")) S Q _ _
                        (positive_int-Either _ _ comparator)
                        (λ m em hm.
                          Either-and_then (IsCount (codes "VM_VERIFY_RESERVE_S") (codes "240")) S Q
                            _ _ (positive_int-Either _ _ verify_reserve)
                            (λ r er hr.
                              let s : HarnessSettings F = record {
                                api_key =
                                    strip (or_default [] (environ (codes "OPENROUTER_API_KEY")));
                                lean_image =
                                    strip (or_default image (environ (codes "LEAN_IMAGE")));
                                budget_usd = b;
                                time_limit_s = l;
                                n_workers = n;
                                lean_check_timeout_s = c;
                                comparator_timeout_s = m;
                                verify_reserve_s = r;
                              } in
                              Either-map (λ t. (s ≡ t) × IsValid py s) S Q _
                                (λ t h. subst S h.0 (record {
                                  valid = h.1;
                                  key = refl;
                                  lean = refl;
                                  budget = hb.1;
                                  limit = hl.1;
                                  workers = given_workers n hn;
                                  default_workers = read_workers n hn;
                                  check = hc.1;
                                  comparator = hm.1;
                                  reserve = hr.1;
                                }))
                                (post_init-Either s refl hn hc.0 hm.0 hr.0 hb.0 hl.0)))))))
