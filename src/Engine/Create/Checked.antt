-- ===== src/Engine/Create/Checked.antt =====
-- The settings that the constructor accepts.
use re_takehome_submission.Common.{
  ℕ, ◌≤◌, ◌<◌, ◌≡◌, ◌≢◌, true, false, not, ◌&&◌, ◌||◌, Option, none, some, ◌==◌, is_empty, arith,
  inl, inr, Bool-cases, Option-cases,
}
use mathlib.Core.Path.{subst}
use re_takehome_submission.Common.Int.{ℤ, pos, negsuc}
use re_takehome_submission.Common.Results.{Result, ok}
use re_takehome_submission.Engine.State.{Settings, Cutoff, cutoff_at, no_cutoff, nan_cutoff}
use re_takehome_submission.Engine.Create.{
  Arguments, Duration, micros, endless, minus_endless, not_a_number, are_unique, between, positive,
  positive_duration, cutoff_of, is_at_least, ceiling_of, exceeds, check_reserve, create,
}

-- Settings that the engine works with.
pub record AreValid (s : Settings) : Type 0 where
  pub some_model : is_empty s.models ≡ false
  pub unique : are_unique s.models ≡ true
  pub calls : (limit : ℕ) → s.max_calls_per_model ≡ some limit → s.fast_track_reserved_calls < limit
  pub ceiling : (limit : ℕ) → s.max_calls_per_model ≡ some limit → (1 ≤ limit) × (limit ≤ 25)
  pub retries : s.max_cost_free_429_retries ≤ 5
  pub some_call_time : 1 ≤ s.model_call_wall_timeout
  pub reserve : s.fast_track_reserved_calls ≤ 4
  pub some_margin : 1 ≤ s.reserve_release_margin
  pub some_restart : 1 ≤ s.max_restarts
  pub restarts : s.max_restarts ≤ 2
  pub some_time : (n : ℕ) → s.dispatch_cutoff ≡ cutoff_at n → 1 ≤ n
  pub margin :
      s.fast_track_reserved_calls ≢ 0
      → (n : ℕ) → s.dispatch_cutoff ≡ cutoff_at n
      → s.reserve_release_margin < n

between-bounds : (lo hi : ℕ) (z : ℤ) (n : ℕ) → between lo hi z ≡ some n → (lo ≤ n) × (n ≤ hi)
unfolding between
between-bounds lo hi (pos m) n h = ground arith
between-bounds lo hi (negsuc m) n h = absurd (cc)

positive-bound : (z : ℤ) (n : ℕ) → positive z ≡ some n → 1 ≤ n
unfolding positive
positive-bound (pos m) n h = ground arith
positive-bound (negsuc m) n h = absurd (cc)

positive_duration-bound : (d : Duration) (n : ℕ) → positive_duration d ≡ some n → 1 ≤ n
unfolding positive_duration
positive_duration-bound (micros z) n h = positive-bound z n h
positive_duration-bound endless n h = absurd (cc)
positive_duration-bound minus_endless n h = absurd (cc)
positive_duration-bound not_a_number n h = absurd (cc)

ceiling_of-bounds :
    (o : Option ℤ) (calls : Option ℕ)
    → ceiling_of o ≡ some calls
    → (limit : ℕ) → calls ≡ some limit
    → (1 ≤ limit) × (limit ≤ 25)
unfolding ceiling_of
ceiling_of-bounds none calls h limit e = absurd (cc)
ceiling_of-bounds (some z) calls h limit e = elim (Option-cases (between 1 25 z)) [
  | inl b ↦ absurd (let k = rw (b, ceiling_of) at h in cc)
  | inr (n, b) ↦
      let k = rw (b, ceiling_of) at h in
      let q : n ≡ limit = cc in subst (λ x. (1 ≤ x) × (x ≤ 25)) q (between-bounds 1 25 z n b)
]

cutoff_of-bound :
    (d : Duration) (c : Cutoff) → cutoff_of d ≡ some c → (n : ℕ) → c ≡ cutoff_at n → 1 ≤ n
unfolding cutoff_of
cutoff_of-bound (micros z) c h n e = elim (Option-cases (positive z)) [
  | inl p ↦ absurd (let k = rw p at h in cc)
  | inr (m, p) ↦
      let k = rw p at h in let q : m ≡ n = cc in subst (λ x. 1 ≤ x) q (positive-bound z m p)
]
cutoff_of-bound endless c h n e = absurd (cc)
cutoff_of-bound minus_endless c h n e = absurd (cc)
cutoff_of-bound not_a_number c h n e = absurd (cc)

is_at_least-below :
    (margin : ℕ) (c : Cutoff) (n : ℕ) → is_at_least margin c ≡ false → c ≡ cutoff_at n → margin < n
unfolding is_at_least
is_at_least-below margin (cutoff_at m) n h e = let q : m ≡ n = cc in ground arith
is_at_least-below margin no_cutoff n h e = absurd (cc)
is_at_least-below margin nan_cutoff n h e = absurd (cc)

exceeds-below : (n limit : ℕ) (o : Option ℕ) → exceeds n o ≡ false → o ≡ some limit → n < limit
exceeds-below n limit none h e = absurd (cc)
exceeds-below n limit (some m) h e = ground arith

ok-injective : {E A : Type 0} (a b : A) → Path (Result E A) (ok a) (ok b) → a ≡ b
ok-injective a b h = cc

check_reserve-AreValid :
    (a : Arguments) (calls : Option ℕ) (cutoff : Cutoff) (restarts retries timeout : ℕ)
    (s : Settings)
    → is_empty a.models ≡ false
    → are_unique a.models ≡ true
    → ((limit : ℕ) → calls ≡ some limit → (1 ≤ limit) × (limit ≤ 25))
    → retries ≤ 5
    → 1 ≤ timeout
    → (1 ≤ restarts) × (restarts ≤ 2)
    → ((n : ℕ) → cutoff ≡ cutoff_at n → 1 ≤ n)
    → check_reserve a calls cutoff restarts retries timeout ≡ ok s
    → AreValid s
unfolding check_reserve
check_reserve-AreValid a calls cutoff restarts retries timeout s m u l y w r c h =
    elim (Option-cases (between 0 4 a.fast_track_reserved_calls)) [
      | inl e ↦ absurd (let k = rw (e, check_reserve) at h in cc)
      | inr (n, e) ↦ elim (Bool-cases (exceeds n calls)) [
        | inl x ↦ absurd (let k = rw (e, x, check_reserve) at h in cc)
        | inr x ↦ elim (Option-cases (positive_duration a.reserve_release_margin)) [
          | inl p ↦ absurd (let k = rw (e, x, p, check_reserve) at h in cc)
          | inr (margin, p) ↦ elim (Bool-cases (not (n == 0) && is_at_least margin cutoff)) [
            | inl b ↦ absurd (let k = rw (e, x, p, b, check_reserve) at h in cc)
            | inr b ↦
                subst AreValid (ok-injective _ _ (rw (e, x, p, b, check_reserve) at h)) (record {
                  some_model = m;
                  unique = u;
                  calls = λ limit q. exceeds-below n limit calls x q;
                  ceiling = l;
                  retries = y;
                  some_call_time = w;
                  reserve = (between-bounds 0 4 a.fast_track_reserved_calls n e).1;
                  some_margin = positive_duration-bound a.reserve_release_margin margin p;
                  some_restart = r.0;
                  restarts = r.1;
                  some_time = c;
                  margin = λ q k x. is_at_least-below margin cutoff k (ground arith) x;
                })
          ]
        ]
      ]
    ]

-- Settings that the constructor accepts name at least one model and none twice, allow one or two
-- restarts, at most five retries, and 1 to 25 calls where there is a ceiling, and keep at most four
-- reserved calls, below the ceiling; the release margin, the time of a call and a finite dispatch
-- cutoff are above zero, and such a cutoff is above the margin where calls are reserved.
pub create-AreValid : (a : Arguments) (s : Settings) → create a ≡ ok s → AreValid s
unfolding create
create-AreValid a s h = elim (Bool-cases (is_empty a.models || not (are_unique a.models))) [
  | inl e ↦ absurd (let k = rw (e, create) at h in cc)
  | inr e ↦ elim (Option-cases (ceiling_of a.max_calls_per_model)) [
    | inl f ↦ absurd (let k = rw (e, f, create) at h in cc)
    | inr (calls, f) ↦ elim (Option-cases (between 1 2 a.max_restarts)) [
      | inl g ↦ absurd (let k = rw (e, f, g, create) at h in cc)
      | inr (r, g) ↦ elim (Option-cases (between 0 5 a.max_cost_free_429_retries)) [
        | inl i ↦ absurd (let k = rw (e, f, g, i, create) at h in cc)
        | inr (retries, i) ↦ elim (Option-cases (cutoff_of a.dispatch_cutoff)) [
          | inl j ↦ absurd (let k = rw (e, f, g, i, j, create) at h in cc)
          | inr (c, j) ↦ elim (Option-cases (positive_duration a.model_call_wall_timeout)) [
            | inl l ↦ absurd (let k = rw (e, f, g, i, j, l, create) at h in cc)
            | inr (t, l) ↦
                check_reserve-AreValid a calls c r retries t s (ground arith) (ground arith)
                  (ceiling_of-bounds a.max_calls_per_model calls f)
                  (between-bounds 0 5 a.max_cost_free_429_retries retries i).1
                  (positive_duration-bound a.model_call_wall_timeout t l)
                  (between-bounds 1 2 a.max_restarts r g) (cutoff_of-bound a.dispatch_cutoff c j)
                  (rw (e, f, g, i, j, l, create) at h)
          ]
        ]
      ]
    ]
  ]
]
