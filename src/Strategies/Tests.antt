-- ===== src/Strategies/Tests.antt =====
-- Excerpts of concrete texts.
use re_takehome_submission.Common.{◌≡◌, refl}
use re_takehome_submission.Common.Text.{codes}
use re_takehome_submission.Strategies.{excerpt}

cuts : excerpt (codes "  abcdefgh ") 5 ≡ codes "abcde"
unfolding excerpt
cuts = refl
