-- ===== src/Config.antt =====
-- src/re_harness/config.py: the settings are read from the environment and checked. The environment
-- after .env has been loaded, Python's `int` and `float` on texts, and its floats are arguments.
pub mod Settled
mod Tests
use re_takehome_submission.Common.{
  ℕ, Bool, true, false, not, ◌||◌, Option, none, some, List, [], ◌∷◌, ltb, if◌then◌else◌, any,
  is_empty,
}
use re_takehome_submission.Common.Int.{ℤ, pos, negsuc}
use re_takehome_submission.Common.Text.{Text, codes, is_space, starts_with, strip}
use re_takehome_submission.Common.Results.{Result, ok, err, and_then}

pub record HarnessSettings (F : Type 0) : Type 0 where
  pub api_key : Text
  pub lean_image : Text
  pub budget_usd : F
  pub time_limit_s : F
  pub n_workers : ℤ
  pub lean_check_timeout_s : ℤ
  pub comparator_timeout_s : ℤ
  pub verify_reserve_s : ℤ

-- The variable or the field that a `ValueError` is about.
pub data ValueError : Type 0 where
  no_image_reference : ValueError
  not_an_integer not_a_number too_small invalid_setting : Text → ValueError

-- What the code uses of Python's numbers.
pub record Numbers (F : Type 0) : Type 0 where
  pub int_of : Text → Option ℤ
  pub float_of : Text → Option F
  pub is_finite : F → Bool
  pub is_at_most_zero : F → Bool

-- `value < 1`
unfoldable pub below_one : ℤ → Bool
below_one (pos n) = ltb n 1
below_one (negsuc n) = true

-- `os.environ.get(name, default)`
abbrev pub or_default : Text → Option Text → Text
or_default t none = t
or_default t (some s) = s

-- The first name whose test says that its value is invalid.
unfoldable pub first_invalid : List (Text × Bool) → Option Text
first_invalid [] = none
first_invalid ((name, bad) ∷ rest) =
    let later = first_invalid rest in if bad then some name else later

unfoldable pub is_image_reference : Text → Bool
unfolding starts_with is_space
is_image_reference image =
    not (is_empty image || (starts_with (codes "-") image || any is_space image))

module _ {F : Type 0} (py : Numbers F) where
  -- `not math.isfinite(value) or value <= 0`
  unfoldable pub is_not_positive : F → Bool
  is_not_positive x = not (py.is_finite x) || py.is_at_most_zero x

  abbrev pub checks : HarnessSettings F → List (Text × Bool)
  checks s =
      (codes "n_workers", below_one s.n_workers)
      ∷ (codes "lean_check_timeout_s", below_one s.lean_check_timeout_s)
      ∷ (codes "comparator_timeout_s", below_one s.comparator_timeout_s)
      ∷ (codes "verify_reserve_s", below_one s.verify_reserve_s)
      ∷ (codes "budget_usd", is_not_positive s.budget_usd)
      ∷ (codes "time_limit_s", is_not_positive s.time_limit_s)
      ∷ []

  -- `__post_init__`
  unfoldable pub post_init : HarnessSettings F → Result ValueError (HarnessSettings F)
  unfolding is_image_reference first_invalid below_one is_not_positive
  post_init s =
      if is_image_reference s.lean_image
      then elim (first_invalid (checks s)) [ none ↦ ok s | some name ↦ err (invalid_setting name) ]
      else err no_image_reference

  module _ (environ : Text → Option Text) where
    -- `_positive_int`
    unfoldable pub positive_int : (name default : Text) → Result ValueError ℤ
    unfolding below_one
    positive_int name default = elim (py.int_of (or_default default (environ name))) [
      | none ↦ err (not_an_integer name)
      | some z ↦ if below_one z then err (too_small name) else ok z
    ]

    -- `_positive_float`
    unfoldable pub positive_float : (name default : Text) → Result ValueError F
    unfolding is_not_positive
    positive_float name default = elim (py.float_of (or_default default (environ name))) [
      | none ↦ err (not_a_number name)
      | some x ↦ if is_not_positive x then err (too_small name) else ok x
    ]

    -- `n_workers if n_workers is not None else _positive_int("N_WORKERS", 1)`
    unfoldable pub workers_of : Option ℤ → Result ValueError ℤ
    unfolding positive_int
    workers_of (some n) = ok n
    workers_of none = positive_int (codes "N_WORKERS") (codes "1")

    -- `from_env`; the default image is an argument, too.
    unfoldable pub from_env : Text → Option ℤ → Result ValueError (HarnessSettings F)
    unfolding positive_int positive_float workers_of post_init strip
    from_env default_image given =
        and_then (positive_float (codes "VM_BUDGET_USD") (codes "1.0")) (λ budget.
          and_then (positive_float (codes "VM_TIME_LIMIT_S") (codes "28800.0")) (λ limit.
            and_then (workers_of given) (λ workers.
              and_then (positive_int (codes "LEAN_CHECK_TIMEOUT_S") (codes "120")) (λ check.
                and_then (positive_int (codes "COMPARATOR_TIMEOUT_S") (codes "420")) (λ comparator.
                  and_then (positive_int (codes "VM_VERIFY_RESERVE_S") (codes "240")) (λ reserve.
                    post_init (record {
                      api_key = strip (or_default [] (environ (codes "OPENROUTER_API_KEY")));
                      lean_image = strip (or_default default_image (environ (codes "LEAN_IMAGE")));
                      budget_usd = budget;
                      time_limit_s = limit;
                      n_workers = workers;
                      lean_check_timeout_s = check;
                      comparator_timeout_s = comparator;
                      verify_reserve_s = reserve;
                    })))))))
