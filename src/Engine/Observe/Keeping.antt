-- ===== src/Engine/Observe/Keeping.antt =====
-- The best candidate, its rank and the last checkpoint, through the steps of `solve`.
use re_takehome_submission.Common.{
  ◌≡◌, Bool, true, false, ◌||◌, if_cases, Option, none, some, List, [], ◌∷◌, arith, if◌then◌else◌,
  inl, inr, Bool-cases,
}
use re_takehome_submission.Common.Text.{Text}
use re_takehome_submission.Engine.Verify.{
  VerificationJob, VerifyOutcome, Desk, enqueue_verification, finish_verification,
}
use re_takehome_submission.Engine.Salvaging.{Python}
use re_takehome_submission.Engine.Observe.{
  Proposal, Finding, Rank, rank_ltb, Floor, rank_of, improves, is_saved, save, crown, enqueue,
  end_verification,
}
use re_takehome_submission.Engine.Observe.Writing.{
  last_source, last_source-snoc, Wrote, enqueue-Wrote, finish-Wrote,
}

-- The new rank is not behind the old one: the old one does not come before it.
abbrev pub NotWorse : Option Rank → Option Rank → Type 0
NotWorse none new = Unit
NotWorse (some old) none = ⊥
NotWorse (some old) (some new) = rank_ltb old new ≡ false

-- Where a candidate is ranked, the last checkpoint is that candidate.
abbrev pub IsKept : Floor → Type 0
IsKept h =
    (r : Rank) → h.best.rank ≡ some r → last_source h.desk.checkpoints ≡ some h.best.candidate

rank_ltb_irrefl : (r : Rank) → rank_ltb r r ≡ false
unfolding rank_ltb
rank_ltb_irrefl (a, b, c) = ground arith

rank_ltb_asymm : (r s : Rank) → rank_ltb r s ≡ true → rank_ltb s r ≡ false
unfolding rank_ltb
rank_ltb_asymm (a, b, c) (d, e, f) h = ground arith

rank_ltb_top : (r : Rank) → rank_ltb r (0, 0, 0) ≡ false
unfolding rank_ltb
rank_ltb_top (a, b, c) = ground arith

pub NotWorse-refl : (r : Option Rank) → NotWorse r r
NotWorse-refl none = tt
NotWorse-refl (some r) = rank_ltb_irrefl r

NotWorse-top : (r : Option Rank) → NotWorse r (some (0, 0, 0))
NotWorse-top none = tt
NotWorse-top (some r) = rank_ltb_top r

improves-NotWorse : (r : Rank) (b : Option Rank) → improves r b ≡ true → NotWorse b (some r)
unfolding improves
improves-NotWorse r none h = tt
improves-NotWorse r (some b) h = rank_ltb_asymm r b h

-- What a step keeps.
abbrev pub Kept : Floor → Floor → Type 0
Kept h h' = NotWorse h.best.rank h'.best.rank × (IsKept h → IsKept h')

pub save-Kept :
    (py : Python) (m : Text) (p : Proposal) (f : Finding) (h : Floor) → Kept h (save py m p f h)
unfolding save
save-Kept py m p f h = elim (Bool-cases (is_saved py p f h.best)) [
  | inr e ↦ rw (e, save) (NotWorse-refl h.best.rank, λ k. k)
  | inl e ↦
      rw (e, save)
        (
          improves-NotWorse (rank_of p.declarations_ok f) h.best.rank
              (unfold is_saved in ground arith),
          λ k r q. last_source-snoc h.desk.checkpoints _,
        )
]

-- A floor on which a verification has written what it reports.
crowned :
    (won : Bool) (j : VerificationJob) (d : Desk) (h : Floor)
    → Wrote won j.source h.desk.checkpoints d.checkpoints
    → let h' : Floor =
        if won
        then record { desk = d; best = crown j.source j.model; verified_success = true }
        else record h { desk = d } in
      Kept h h'
crowned true j d h w = (NotWorse-top h.best.rank, λ k r q. w)
crowned false j d h w = (NotWorse-refl h.best.rank, λ k r q. rw w (k r q))

pub enqueue-Kept :
    (py : Python) (j : VerificationJob) (f : Finding) (h : Floor) → Kept h (enqueue py j f h)
unfolding enqueue
enqueue-Kept py j f h = elim (Bool-cases f.lean_accepted) [
  | inr e ↦ rw (e, enqueue) (NotWorse-refl h.best.rank, λ k. k)
  | inl e ↦
      rw (e, enqueue)
        (crowned (enqueue_verification py.sha256 j h.desk).0 j
          (enqueue_verification py.sha256 j h.desk).1 h (enqueue-Wrote py.sha256 j h.desk))
]

ended :
    (won v : Bool) (j : VerificationJob) (d : Desk) (h : Floor)
    → v ≡ false
    → Wrote won j.source h.desk.checkpoints d.checkpoints
    → let h' : Floor =
        if won || v
        then record { desk = d; best = crown j.source j.model; verified_success = true }
        else record h { desk = d } in
      Kept h h'
ended true v j d h e w = crowned true j d h w
ended false true j d h e w = absurd (cc)
ended false false j d h e w = crowned false j d h w

end-Kept :
    (py : Python) (j : VerificationJob) (o : VerifyOutcome) (h : Floor)
    → h.verified_success ≡ false
    → Kept h (end_verification py j o h)
unfolding end_verification
end-Kept py j o h e =
    ended (finish_verification py.sha256 j o h.desk).0 h.verified_success j
      (finish_verification py.sha256 j o h.desk).1 h e (finish-Wrote py.sha256 j o h.desk)

-- The steps that write checkpoints.
pub data Step : Type 0 where
  saving : (model : Text) → Proposal → Finding → Step
  enqueuing : VerificationJob → Finding → Step
  ending : VerificationJob → VerifyOutcome → Step

-- The loop breaks off once a verification has succeeded, so no later one ends.
pub step : Python → Step → Floor → Floor
step py (saving m p f) h = save py m p f h
step py (enqueuing j f) h = enqueue py j f h
step py (ending j o) h = if h.verified_success then h else end_verification py j o h

pub steps : Python → List Step → Floor → Floor
unfolding step
steps py [] h = h
steps py (s ∷ ss) h = steps py ss (step py s h)

ending-Kept :
    (py : Python) (j : VerificationJob) (o : VerifyOutcome) (h : Floor)
    → Kept h (step py (ending j o) h)
unfolding step
ending-Kept py j o h =
    if_cases (Kept h) h.verified_success _ _ (λ _. (NotWorse-refl h.best.rank, λ k. k))
      (λ e. end-Kept py j o h e)

-- Whatever proposals are examined and whatever verifications are enqueued and end, in any order: if
-- at the start the last checkpoint is the ranked best candidate, it is so at the end.
pub steps-IsKept : (py : Python) (ss : List Step) (h : Floor) → IsKept h → IsKept (steps py ss h)
unfolding steps step
steps-IsKept py [] h k = k
steps-IsKept py (saving m p f ∷ ss) h k = steps-IsKept py ss _ ((save-Kept py m p f h).1 k)
steps-IsKept py (enqueuing j f ∷ ss) h k = steps-IsKept py ss _ ((enqueue-Kept py j f h).1 k)
steps-IsKept py (ending j o ∷ ss) h k = steps-IsKept py ss _ ((ending-Kept py j o h).1 k)

step-NotWorse : (py : Python) (s : Step) (h : Floor) → NotWorse h.best.rank (step py s h).best.rank
unfolding step
step-NotWorse py (saving m p f) h = (save-Kept py m p f h).0
step-NotWorse py (enqueuing j f) h = (enqueue-Kept py j f h).0
step-NotWorse py (ending j o) h = (ending-Kept py j o h).0

rank_ltb_trans : (r s t : Rank) → rank_ltb r s ≡ false → rank_ltb s t ≡ false → rank_ltb r t ≡ false
unfolding rank_ltb
rank_ltb_trans (a, b, c) (d, e, f) (g, i, j) h k = ground arith

pub NotWorse-trans : (r s t : Option Rank) → NotWorse r s → NotWorse s t → NotWorse r t
NotWorse-trans none s t h k = tt
NotWorse-trans (some r) none t h k = absurd h
NotWorse-trans (some r) (some s) none h k = absurd k
NotWorse-trans (some r) (some s) (some t) h k = rank_ltb_trans r s t h k

-- Whatever proposals are examined and whatever verifications are enqueued and end, in any order, the
-- best candidate is never replaced by one whose rank comes behind its own, and once there is a rank,
-- there stays one.
pub steps-NotWorse :
    (py : Python) (ss : List Step) (h : Floor) → NotWorse h.best.rank (steps py ss h).best.rank
unfolding steps
steps-NotWorse py [] h = NotWorse-refl h.best.rank
steps-NotWorse py (s ∷ ss) h =
    NotWorse-trans h.best.rank (step py s h).best.rank (steps py ss (step py s h)).best.rank
      (step-NotWorse py s h) (steps-NotWorse py ss (step py s h))
