-- ===== src/Common/Json.antt =====
-- JSON values as Python holds them: an object is a dict, whose keys are texts and differ.
use Prim.Native.Nat.{ℕ, zero, suc, ◌-◌, ◌*◌, ◌^◌}
use mathlib.Core.Bool.{Bool, true, false}
use mathlib.Core.Option.{Option, none, some}
use mathlib.Core.List.{List, [], ◌∷◌}
use re_takehome_submission.Common.Tests.{ltb, if◌then◌else◌}
use re_takehome_submission.Common.Int.{ℤ, pos, negsuc, Amount, finite, infinite, nan}
use re_takehome_submission.Common.Text.{Text, text_eq}

mutual
  pub data Json : Type 0 where
    null : Json
    boolean : Bool → Json
    int : ℤ → Json
    float : Amount → Json
    str : Text → Json
    arr : Items → Json
    obj : Fields → Json

  pub data Items : Type 0 where
    nil : Items
    cons : Json → Items → Items

  pub data Fields : Type 0 where
    end : Fields
    field : Text → Json → Fields → Fields

-- `d.get(key)`, with `none` for a missing key.
unfoldable pub get : Text → Fields → Option Json
unfolding text_eq
get k end = none
get k (field j v f) = if text_eq j k then some v else get k f

unfoldable pub keys : Fields → List Text
keys end = []
keys (field j v f) = j ∷ keys f

-- `bool(value)`
unfoldable pub truthy : Json → Bool
truthy null = false
truthy (boolean b) = b
truthy (int (pos zero)) = false
truthy (int (pos (suc n))) = true
truthy (int (negsuc n)) = true
truthy (float (finite (pos zero))) = false
truthy (float (finite (pos (suc n)))) = true
truthy (float (finite (negsuc n))) = true
truthy (float infinite) = true
truthy (float nan) = true
truthy (str []) = false
truthy (str (c ∷ s)) = true
truthy (arr nil) = false
truthy (arr (cons j i)) = true
truthy (obj end) = false
truthy (obj (field k v f)) = true

-- The least natural number at which `float(n)` raises `OverflowError`.
pub float_limit : ℕ
float_limit = 2 ^ 1024 - 2 ^ 970

-- `float(z)` of an integer as an amount in 10^-10 dollars, `none` where it raises.
unfoldable pub float_of : ℤ → Option Amount
float_of (pos n) = if ltb n float_limit then some (finite (pos (n * 10_000_000_000))) else none
float_of (negsuc n) =
    if ltb (suc n) float_limit then some (finite (negsuc (suc n * 10_000_000_000 - 1))) else none
