-- ===== src/Uplift/Limits.antt =====
-- The lengths of the texts that are cut.
use re_takehome_submission.Common.{
  ℕ, ◌+◌, ◌-◌, ◌≤◌, ◌<◌, ◌≡◌, arith, length, take, length-take, length-append,
}
use re_takehome_submission.Common.Text.{Text}
use re_takehome_submission.Uplift.{bound_diagnostics, diagnostics_mark}

-- A diagnostics text that is too long is cut to one character more than the limit, for each limit
-- of at least 24; one that fits is kept.
pub bound_diagnostics_overshoots :
    (t : Text) (limit : ℕ)
    → 24 ≤ limit
    → (limit < length t → length (bound_diagnostics t limit) ≡ limit + 1)
      × (length t ≤ limit → bound_diagnostics t limit ≡ t)
unfolding bound_diagnostics
bound_diagnostics_overshoots t limit h = (
  λ long.
      ground
        (arith, length-append (take (limit - 24) t) diagnostics_mark, length-take (limit - 24) t),
  λ fits. ground arith,
)
