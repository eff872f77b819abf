-- ===== src/Events/Redacted.antt =====
-- The values that stand under a secret key.
use re_takehome_submission.Common.{ℕ, ◌≡◌, refl, Bool, true, false, List, if◌then◌else◌}
use re_takehome_submission.Common.Text.{Text}
use re_takehome_submission.Common.Json.{
  Json, Items, Fields, null, boolean, int, float, str, arr, obj, nil, cons, end, field,
}
use re_takehome_submission.Events.{is_secret_key, redact, redact_items, redact_fields, redacted}

module _ (lower : ℕ → Text) where
  -- At every depth, what stands under a secret key is the mark.
  abbrev mutual
    pub IsHidden : Json → Type 0
    IsHidden (arr is) = AreHidden is
    IsHidden (obj f) = FieldsHidden f
    IsHidden (str s) = Unit
    IsHidden null = Unit
    IsHidden (boolean b) = Unit
    IsHidden (int z) = Unit
    IsHidden (float x) = Unit

    pub AreHidden : Items → Type 0
    AreHidden nil = Unit
    AreHidden (cons v is) = IsHidden v × AreHidden is

    pub FieldsHidden : Fields → Type 0
    FieldsHidden end = Unit
    FieldsHidden (field k v f) =
        (is_secret_key lower k ≡ true → v ≡ str redacted) × (IsHidden v × FieldsHidden f)

  kept_or_marked : (b : Bool) (v : Json) → b ≡ true → (if b then str redacted else v) ≡ str redacted
  kept_or_marked true v h = refl
  kept_or_marked false v h = absurd (cc)

  either-IsHidden : (b : Bool) (v : Json) → IsHidden v → IsHidden (if b then str redacted else v)
  either-IsHidden true v h = tt
  either-IsHidden false v h = h

  mutual
    unfolding redact

    value-IsHidden : (secrets : List Text) (v : Json) → IsHidden (redact lower secrets v)
    value-IsHidden secrets (str s) = tt
    value-IsHidden secrets (arr is) = redact_items-AreHidden secrets is
    value-IsHidden secrets (obj f) = redact_fields-FieldsHidden secrets f
    value-IsHidden secrets null = tt
    value-IsHidden secrets (boolean b) = tt
    value-IsHidden secrets (int z) = tt
    value-IsHidden secrets (float x) = tt

    redact_items-AreHidden :
        (secrets : List Text) (is : Items) → AreHidden (redact_items lower secrets is)
    redact_items-AreHidden secrets nil = tt
    redact_items-AreHidden secrets (cons v is) =
        (value-IsHidden secrets v, redact_items-AreHidden secrets is)

    redact_fields-FieldsHidden :
        (secrets : List Text) (f : Fields) → FieldsHidden (redact_fields lower secrets f)
    redact_fields-FieldsHidden secrets end = tt
    redact_fields-FieldsHidden secrets (field k v f) = (
      kept_or_marked (is_secret_key lower k) (redact lower secrets v),
      (
        either-IsHidden (is_secret_key lower k) (redact lower secrets v) (value-IsHidden secrets v),
        redact_fields-FieldsHidden secrets f,
      ),
    )

  -- Whatever is logged, and whatever the secrets are: at every depth of the redacted value, what
  -- stands under the key `authorization` or `api_key`, in any case, is the mark `[REDACTED]`.
  pub redact-IsHidden : (secrets : List Text) (v : Json) → IsHidden (redact lower secrets v)
  redact-IsHidden secrets v = value-IsHidden secrets v
