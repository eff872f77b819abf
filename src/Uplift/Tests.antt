-- ===== src/Uplift/Tests.antt =====
-- The cut of a diagnostics text on concrete texts.
use re_takehome_submission.Common.{◌≤◌, ◌<◌, ◌≡◌, arith, length}
use re_takehome_submission.Common.Text.{codes}
use re_takehome_submission.Uplift.{bound_diagnostics}
use re_takehome_submission.Uplift.Limits.{bound_diagnostics_overshoots}

bound_diagnostics_overshoots_example :
    (24 < length (codes "unsolved goals in a long message")
      → length (bound_diagnostics (codes "unsolved goals in a long message") 24) ≡ 25)
    × (length (codes "unsolved goals in a long message") ≤ 24
        → bound_diagnostics (codes "unsolved goals in a long message") 24
          ≡ codes "unsolved goals in a long message")
bound_diagnostics_overshoots_example =
    bound_diagnostics_overshoots (codes "unsolved goals in a long message") 24 (ground arith)
