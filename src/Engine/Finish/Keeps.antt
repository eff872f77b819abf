-- ===== src/Engine/Finish/Keeps.antt =====
-- The best candidate, its rank and the last checkpoint, behind a finished call.
use re_takehome_submission.Common.{ℕ, false, Option, inl, inr, Option-cases, length}
use re_takehome_submission.Common.Text.{Text}
use re_takehome_submission.Engine.State.{TrackState, Settings}
use re_takehome_submission.Engine.Packets.{PacketError}
use re_takehome_submission.Engine.Schedule.{PendingCall}
use re_takehome_submission.Engine.Salvaging.{LeanCheck, Python}
use re_takehome_submission.Engine.Observe.{Proposal, Finding, Floor, examine, is_saved, save}
use re_takehome_submission.Engine.Observe.Keeping.{
  IsKept, NotWorse, Kept, save-Kept, enqueue-Kept, NotWorse-refl, NotWorse-trans,
}
use re_takehome_submission.Engine.Finish.{
  Hall, CallOutcome, budget_refused, call_raised, answered, settle_proposal, send_packets,
  finish_answered, finish_call, on_track, salvage_for, after_salvage, job_of,
}
use re_takehome_submission.Engine.Finish.Track.{commit, observe}

settle_proposal-Kept :
    (py : Python) (c : PendingCall) (p : Proposal) (f : Finding) (t : TrackState) (h : Floor)
    → Kept h (settle_proposal py c p f t h)
unfolding settle_proposal
settle_proposal-Kept py c p f t h =
    let saved = is_saved py p f h.best in
    let h₁ = save py t.model p f h in
    let h₂ = on_track t.model (commit py c p f saved) h₁ in
    let (n, k) = save-Kept py t.model p f h in
    let (n', k') = enqueue-Kept py (job_of py c p t) f h₂ in
    (NotWorse-trans h.best.rank h₁.best.rank _ n n', λ a. k' (k a))

module _ (py : Python) (s : Settings) (check salvage_check : Text → LeanCheck) (challenge : Text)
    (elapsed : ℕ) (c : PendingCall) where
  -- What the strategy's packets leave of an answered call.
  sent : Proposal → TrackState → Hall → Option PacketError × Hall
  sent p t h =
      let answer = check p.source in
      let f = examine py s p answer in
      let k = salvage_for py s salvage_check p f answer in
      let settled = settle_proposal py c p f t h.floor in
      send_packets s elapsed c (observe c f k.1 (commit py c p f false t)) (record h {
        floor = on_track t.model (after_salvage py s p f (length t.attempts) k) settled;
      })

  finish_answered-Kept :
      (p : Proposal) (t : TrackState) (h : Hall)
      → Kept h.floor (finish_answered py s check salvage_check challenge elapsed c p t h).1.floor
  unfolding finish_answered send_packets sent
  finish_answered-Kept p t h =
      let f = examine py s p (check p.source) in
      let k = settle_proposal-Kept py c p f t h.floor in
      elim (Option-cases (sent p t h).0) [
        | inl e ↦ rw (e, finish_answered) k
        | inr (x, e) ↦ rw (e, finish_answered) k
      ]

  -- However a call ends, the rank of the best candidate does not get worse; and if the last
  -- checkpoint was the ranked best candidate before, it is so behind it.
  pub finish_call-Kept :
      (o : CallOutcome) (t : TrackState) (h : Hall)
      → let after = (finish_call py s check salvage_check challenge elapsed c o t h).2.floor in
        NotWorse h.floor.best.rank after.best.rank × (IsKept h.floor → IsKept after)
  unfolding finish_call
  finish_call-Kept (budget_refused e) t h = (NotWorse-refl h.floor.best.rank, λ k. k)
  finish_call-Kept (call_raised e) t h = (NotWorse-refl h.floor.best.rank, λ k. k)
  finish_call-Kept (answered p) t h = finish_answered-Kept p t h
