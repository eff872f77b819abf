-- ===== src/Llm/Asking.antt =====
-- The checks of a chat request before anything is reserved, and its body.
use re_takehome_submission.Common.{
  ℕ, ◌*◌, Bool, true, false, ◌&&◌, Option, none, some, List, [], ◌∷◌, leb, ltb, if◌then◌else◌,
  is_empty, all, any,
}
use re_takehome_submission.Common.Int.{pos, finite}
use re_takehome_submission.Common.Json.{
  Json, null, boolean, int, float, str, arr, obj, Items, nil, cons, Fields, end, field, get, keys,
}
use re_takehome_submission.Common.Text.{Text, codes, text_eq}
use re_takehome_submission.Common.Results.{Result, ok, err}
use re_takehome_submission.Llm.Failures.{Failure, policy, call_error, type_error}

abbrev pub model_a : Text
model_a = codes "qwen/qwen3.5-flash-02-23"

abbrev pub model_b : Text
model_b = codes "openai/gpt-oss-120b"

abbrev pub max_request_bytes : ℕ
max_request_bytes = 2_000_000

abbrev pub max_output_tokens : ℕ
max_output_tokens = 32_000

-- `PriceCeiling`, per million tokens, in 10^-4 dollars: a token costs that many 10^-10 dollars.
pub record Price : Type 0 where
  pub input : ℕ
  pub output : ℕ

-- `PRICE_CEILINGS`, whose keys are `ALLOWED_MODELS`.
unfoldable pub price_of : Text → Option Price
unfolding text_eq
price_of m =
    if text_eq m model_a
    then some (record { input = 1500; output = 6000 })
    else if text_eq m model_b
    then some (record { input = 1000; output = 5000 })
    else none

pub record Request : Type 0 where
  pub model : Text
  pub messages : List Json
  pub max_tokens : Json
  pub temperature : Option Json
  pub top_p : Option Json
  pub seed : Option Json
  pub stop : Option Json
  pub reasoning : Option Fields
  pub tools : Option Items
  pub tool_choice : Option Json

-- `value in {...}` for a set of texts: a list or a dict cannot be hashed.
unfoldable pub in_texts : List Text → Json → Result Failure Bool
unfolding text_eq
in_texts s (str t) = ok (any (text_eq t) s)
in_texts s (arr i) = err type_error
in_texts s (obj f) = err type_error
in_texts s _ = ok false

abbrev pub or_null : Option Json → Json
or_null none = null
or_null (some v) = v

abbrev pub allowed_roles : List Text
allowed_roles =
    codes "system" ∷ codes "developer" ∷ codes "user" ∷ codes "assistant" ∷ codes "tool" ∷ []

abbrev is_str : Json → Bool
is_str (str t) = true
is_str _ = false

validate_fields : Fields → Result Failure (Unit {0})
unfolding in_texts get
validate_fields m = elim (in_texts allowed_roles (or_null (get (codes "role") m))) [
  | err f ↦ err f
  | ok false ↦ err policy
  | ok true ↦ if is_str (or_null (get (codes "content") m)) then ok tt else err policy
]

-- `_validate_messages`
unfoldable pub validate_messages : List Json → Result Failure (Unit {0})
unfolding validate_fields
validate_messages [] = ok tt
validate_messages (obj m ∷ r) = elim (validate_fields m) [
  | err f ↦ err f
  | ok _ ↦ validate_messages r
]
validate_messages (_ ∷ r) = err policy

abbrev reasoning_fields : List Text
reasoning_fields = codes "effort" ∷ codes "max_tokens" ∷ codes "exclude" ∷ codes "enabled" ∷ []

abbrev efforts : List Text
efforts =
    codes "none"
    ∷ codes "minimal"
    ∷ codes "low"
    ∷ codes "medium"
    ∷ codes "high"
    ∷ codes "xhigh"
    ∷ codes "max"
    ∷ []

abbrev fits_inside : ℕ → Json → Bool
fits_inside limit (int (pos n)) = leb n limit
fits_inside limit _ = false

reasoning_tokens : ℕ → Option Json → Result Failure (Unit {0})
reasoning_tokens limit none = ok tt
reasoning_tokens limit (some v) = if fits_inside limit v then ok tt else err policy

reasoning_effort : Option Json → Result Failure Bool
unfolding in_texts
reasoning_effort none = ok true
reasoning_effort (some v) = in_texts efforts v

-- `_validate_reasoning`
unfoldable pub validate_reasoning : Option Fields → ℕ → Result Failure (Unit {0})
unfolding text_eq get keys reasoning_tokens reasoning_effort
validate_reasoning none limit = ok tt
validate_reasoning (some r) limit =
    if all (λ k. any (text_eq k) reasoning_fields) (keys r)
    then elim (reasoning_effort (get (codes "effort") r)) [
      | err f ↦ err f
      | ok false ↦ err policy
      | ok true ↦ reasoning_tokens limit (get (codes "max_tokens") r)
    ]
    else err policy

-- `not isinstance(max_tokens, bool) and isinstance(max_tokens, int) and 1 <= max_tokens <= limit`
unfoldable pub output_tokens : Json → Option ℕ
output_tokens (int (pos n)) = if leb 1 n && leb n max_output_tokens then some n else none
output_tokens _ = none

abbrev add_field : Text → Option Json → Fields → Fields
add_field k none f = f
add_field k (some v) f = field k v f

abbrev items : List Json → Items
items [] = nil
items (j ∷ r) = cons j (items r)

-- `dict(reasoning) if reasoning else None`, and the same for the tools.
abbrev reasoning_json : Option Fields → Option Json
reasoning_json none = none
reasoning_json (some end) = none
reasoning_json (some (field k v f)) = some (obj (field k v f))

abbrev tools_json : Option Items → Option Json
tools_json none = none
tools_json (some nil) = none
tools_json (some (cons j i)) = some (arr (cons j i))

-- The prices in the body, in dollars per million tokens.
abbrev dollars : ℕ → Json
dollars n = float (finite (pos (n * 1_000_000)))

extras : Request → Fields
extras q = add_field (codes "temperature") q.temperature (
    add_field (codes "top_p") q.top_p (
      add_field (codes "seed") q.seed (
        add_field (codes "stop") q.stop (
          add_field (codes "reasoning") (reasoning_json q.reasoning) (
            add_field (codes "tools") (tools_json q.tools)
              (add_field (codes "tool_choice") q.tool_choice end))))))

provider : Price → Json
provider p = obj (
    field (codes "allow_fallbacks") (boolean true) (
      field (codes "require_parameters") (boolean true) (
        field (codes "max_price")
          (obj (
            field (codes "prompt") (dollars p.input)
              (field (codes "completion") (dollars p.output) end)))
          end)))

unfoldable pub body : Request → Price → Json
unfolding extras provider
body q p = obj (
    field (codes "model") (str q.model) (
      field (codes "messages") (arr (items q.messages)) (
        field (codes "max_tokens") q.max_tokens (
          field (codes "stream") (boolean false)
            (field (codes "provider") (provider p) (extras q))))))

module _ (encode : Json → Option ℕ) where
  -- The encoding of the body, and its size.
  unfoldable pub encoded : Request → Price → ℕ → Result Failure (Price × ℕ × ℕ)
  unfolding body
  encoded q p n = elim (encode (body q p)) [
    | none ↦ err policy
    | some bytes ↦ if ltb max_request_bytes bytes then err policy else ok (p, bytes, n)
  ]

  -- The checks of the messages and of the reasoning, then the encoding.
  unfoldable pub checked : Request → Price → ℕ → Result Failure (Price × ℕ × ℕ)
  unfolding validate_messages validate_reasoning encoded
  checked q p n = if is_empty q.messages then err policy else elim (validate_messages q.messages) [
    | err f ↦ err f
    | ok _ ↦ elim (validate_reasoning q.reasoning n) [ err f ↦ err f | ok _ ↦ encoded q p n ]
  ]

  -- The checks in their order, up to the size of the encoded body.
  unfoldable pub admit : (api_key : Text) → Request → Result Failure (Price × ℕ × ℕ)
  unfolding price_of output_tokens checked
  admit api_key q = if is_empty api_key then err call_error else elim (price_of q.model) [
    | none ↦ err policy
    | some p ↦ elim (output_tokens q.max_tokens) [ none ↦ err policy | some n ↦ checked q p n ]
  ]
