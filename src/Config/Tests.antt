-- ===== src/Config/Tests.antt =====
-- Runs of the settings, and the witness.
use re_takehome_submission.Common.{
  ℕ, zero, suc, ◌+◌, ◌*◌, ◌≡◌, refl, Bool, true, false, Option, none, some, [], ◌∷◌, if◌then◌else◌,
  leb, ◌-◌, ◌==◌, ◌&&◌,
}
use re_takehome_submission.Common.Int.{ℤ, pos, negsuc, Amount, finite, infinite, nan}
use re_takehome_submission.Common.Text.{
  Text, codes, text_eq, is_space, starts_with, strip, lstrip, rstrip,
}
use re_takehome_submission.Common.Results.{ok, err}
use re_takehome_submission.Config.{
  Numbers, below_one, first_invalid, is_image_reference, is_not_positive, post_init, positive_int,
  positive_float, workers_of, from_env, invalid_setting,
}
use re_takehome_submission.Config.Settled.{IsExplained, from_env-IsExplained}

-- Digits with an optional minus sign stand for the integer.
abbrev digits : Text → ℕ → Option ℕ
digits [] n = some n
digits (c ∷ s) n = if leb 48 c && leb c 57 then digits s (10 * n + (c - 48)) else none

abbrev int_of : Text → Option ℤ
int_of [] = none
int_of (c ∷ s) =
    if c == 45
    then elim (digits s 0) [
      | none ↦ none
      | some zero ↦ some (pos 0)
      | some (suc n) ↦ some (negsuc n)
    ]
    else elim (digits (c ∷ s) 0) [ none ↦ none | some n ↦ some (pos n) ]

abbrev at_most_zero : Amount → Bool
at_most_zero (finite (pos zero)) = true
at_most_zero (finite (pos (suc n))) = false
at_most_zero (finite (negsuc n)) = true
at_most_zero infinite = false
at_most_zero nan = false

abbrev finite_amount : Amount → Bool
finite_amount (finite z) = true
finite_amount infinite = false
finite_amount nan = false

-- Texts of one float each.
abbrev float_of : Text → Option Amount
float_of s =
    if text_eq s (codes "1.0")
    then some (finite (pos 10_000_000_000))
    else if text_eq s (codes "28800.0")
    then some (finite (pos 288_000_000_000_000))
    else if text_eq s (codes "inf")
    then some infinite
    else none

abbrev numbers : Numbers Amount
numbers = record {
  int_of = int_of;
  float_of = float_of;
  is_finite = finite_amount;
  is_at_most_zero = at_most_zero;
}

abbrev environ : Text → Option Text
environ name =
    if text_eq name (codes "LEAN_IMAGE")
    then some (codes " lean:1 ")
    else if text_eq name (codes "VM_VERIFY_RESERVE_S")
    then some (codes "60")
    else none

settles :
    from_env numbers environ (codes "lean") none
    ≡ ok (record {
      api_key = [];
      lean_image = codes "lean:1";
      budget_usd = finite (pos 10_000_000_000);
      time_limit_s = finite (pos 288_000_000_000_000);
      n_workers = pos 1;
      lean_check_timeout_s = pos 120;
      comparator_timeout_s = pos 420;
      verify_reserve_s = pos 60;
    })
unfolding from_env post_init positive_int positive_float workers_of is_image_reference first_invalid
    below_one is_not_positive strip lstrip rstrip is_space starts_with text_eq
settles = refl

refuses_workers :
    from_env numbers environ (codes "lean") (some (negsuc 0))
    ≡ err (invalid_setting (codes "n_workers"))
unfolding from_env post_init positive_int positive_float workers_of is_image_reference first_invalid
    below_one is_not_positive strip lstrip rstrip is_space starts_with text_eq
refuses_workers = refl

from_env-IsExplained_example :
    IsExplained numbers environ
      (codes "lean")
      (some (pos 4))
      (from_env numbers environ (codes "lean") (some (pos 4)))
from_env-IsExplained_example = from_env-IsExplained numbers environ (codes "lean") (some (pos 4))
