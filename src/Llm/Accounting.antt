-- ===== src/Llm/Accounting.antt =====
-- How each call leaves the ledger.
use re_takehome_submission.Common.{
  ℕ, ◌+◌, ◌≡◌, refl, ap, ◌<◌, ◌≢◌, ◌⊎◌, inl, inr, false, Option, none, some, arith, leb, ◌==◌,
  Bool-cases,
}
use re_takehome_submission.Common.Int.{pos, finite}
use re_takehome_submission.Common.Json.{Json}
use re_takehome_submission.Common.Results.{ok, err, Result-cases}
use re_takehome_submission.Budget.{
  BudgetLedger, BudgetSnapshot, snapshot, lookup, insert, reserve, reserve_locked, settle,
  settle_locked, release, mark_unknown,
}
use re_takehome_submission.Budget.Solvency.{erase-insert_fresh, lookup-insert_self, reserve_outcome}
use re_takehome_submission.Llm.Failures.{Failure}
use re_takehome_submission.Llm.Answering.{
  Response, Reading, Parsed, parsed, invalid, escaped, reported_cost, parse_success,
}
use re_takehome_submission.Llm.Asking.{Request, Price, admit}
use re_takehome_submission.Llm.{
  LlmClient, Reply, raised, responded, emit, fail_unknown, refused, succeeded, finish, complete,
  reserve_usd,
}

-- An exception that `complete` does not catch leaves the block that reads the answer.
abbrev pub Escapes : Reply → Type 0
Escapes (raised h) = ⊥
Escapes (responded r) =
    ((f : Failure) × (reported_cost r ≡ err f)) ⊎ ((f : Failure) × (parse_success r ≡ escaped f))

-- What a reply has added to the ledger `l` from before the call: nothing, the reported cost, or the
-- mark that the accounting is incomplete.
abbrev pub Resolves : BudgetLedger → BudgetLedger → Type 0
Resolves l l' =
    (l' ≡ l)
    ⊎ ((n : ℕ) × (l' ≡ record l { spent = l.spent + n }))
    ⊎ (l' ≡ record l { complete = false })

Parsed-cases :
    (p : Parsed)
    → ((r : Reading) × (p ≡ parsed r)) ⊎ (p ≡ invalid) ⊎ ((f : Failure) × (p ≡ escaped f))
Parsed-cases (parsed r) = inl (r, refl)
Parsed-cases invalid = inr (inl refl)
Parsed-cases (escaped f) = inr (inr (f, refl))

-- The ledger with one more reservation.
abbrev hold : ℕ → ℕ → BudgetLedger → BudgetLedger
hold id amount l = record l { reservations = insert id amount l.reservations }

module _ (id amount : ℕ) (l : BudgetLedger) (fresh : lookup id l.reservations ≡ none) where
  settle_held :
      (n : ℕ)
      → (s : BudgetSnapshot) × (settle id (finite (pos n)) (hold id amount l)
          ≡ (ok s, record l { spent = l.spent + n }))
  unfolding settle settle_locked
  settle_held n = (
    snapshot (record l { spent = l.spent + n }),
    ground (
      arith,
      erase-insert_fresh id amount l.reservations fresh,
      lookup-insert_self id amount l.reservations,
    ),
  )

  release_held : release id (hold id amount l) ≡ l
  unfolding release
  release_held = ground (arith, erase-insert_fresh id amount l.reservations fresh)

  mark_held : (mark_unknown id (hold id amount l)).1 ≡ record l { complete = false }
  unfolding mark_unknown
  mark_held = ground (arith, erase-insert_fresh id amount l.reservations fresh)

  module _ (call_id : ℕ) (c : LlmClient) (held : c.ledger ≡ hold id amount l) where
    fail_unknown-Resolves : Resolves l (fail_unknown id call_id c).ledger
    unfolding fail_unknown emit
    fail_unknown-Resolves = rw held (inr (inr mark_held))

    refused-Resolves :
        (r : Response)
        → ((f : Failure) → reported_cost r ≢ err f)
        → Resolves l (refused id call_id r c).1.ledger
    unfolding refused emit
    refused-Resolves r h = elim (Result-cases (reported_cost r)) [
      | inr (f, e) ↦ absurd (h f e)
      | inl (none, e) ↦ inl (rw (e, refused, held) release_held)
      | inl (some n, e) ↦
          let (s, q) = settle_held n in inr (inl (n, rw (e, refused, held, q) (rw (held, q))))
    ]

    succeeded-Resolves :
        (r : Response)
        → ((f : Failure) → parse_success r ≢ escaped f)
        → Resolves l (succeeded id call_id r c).1.ledger
    unfolding succeeded emit
    succeeded-Resolves r h = elim (Parsed-cases (parse_success r)) [
      | inl (p, e) ↦
          let (s, q) = settle_held p.cost in
          inr (inl (p.cost, rw (e, succeeded, held, q) (rw (held, q))))
      | inr (inl e) ↦ rw (e, succeeded) fail_unknown-Resolves
      | inr (inr (f, e)) ↦ absurd (h f e)
    ]

    finish-Resolves :
        (reply : Reply) → ¬ Escapes reply → Resolves l (finish id call_id reply c).1.ledger
    unfolding finish
    finish-Resolves (raised e) h = fail_unknown-Resolves
    finish-Resolves (responded r) h = elim (Bool-cases (leb 400 r.status_code)) [
      | inr below ↦ rw (below, finish) (succeeded-Resolves r (λ f e. h (inr (f, e))))
      | inl failed ↦ elim (Bool-cases (r.status_code == 429)) [
        | inl e ↦ rw (failed, e, finish) (refused-Resolves r (λ f e'. h (inl (f, e'))))
        | inr e ↦ rw (failed, e, finish) fail_unknown-Resolves
      ]
    ]

-- A call under a fresh reservation id, to which the provider's reply lets no uncaught exception
-- escape, leaves the ledger as it was, or adds to what is spent, or marks the accounting as
-- incomplete; in each case its own reservation is gone and the others stand as before.
pub complete-Resolves :
    (encode : Json → Option ℕ) (id call_id : ℕ) (q : Request) (reply : Reply) (c : LlmClient)
    → lookup id c.ledger.reservations ≡ none
    → ¬ Escapes reply
    → Resolves c.ledger (complete encode id call_id q reply c).1.ledger
unfolding complete emit
complete-Resolves encode id call_id q reply c fresh h =
    elim (Result-cases (admit encode c.api_key q)) [
      | inr (f, e) ↦ inl (rw (e, complete))
      | inl ((price, bytes, n), e) ↦
          elim (reserve_outcome id (finite (pos (reserve_usd price bytes n))) c.ledger) [
            | inl (x, r) ↦ inl (rw (e, r, complete) (rw r))
            | inr (m, p, open_, w, r) ↦
                rw (e, r, complete)
                  (finish-Resolves id m c.ledger fresh call_id _ (ap (λ x. x.1) r) reply h)
          ]
    ]

reserve_holds :
    (id n : ℕ) (l l' : BudgetLedger)
    → reserve id (finite (pos n)) l ≡ (ok id, l')
    → lookup id l'.reservations ≡ some n
unfolding reserve reserve_locked
reserve_holds id n l l' h = ground (arith, lookup-insert_self id n l.reservations)

finish_escaped :
    (id call_id : ℕ) (r : Response) (c : LlmClient) (f : Failure)
    → r.status_code < 400
    → parse_success r ≡ escaped f
    → finish id call_id (responded r) c ≡ (err f, c)
unfolding finish succeeded
finish_escaped id call_id r c f below e = ground arith

pub complete_escaped :
    (encode : Json → Option ℕ) (id call_id : ℕ) (q : Request) (r : Response) (c : LlmClient)
    (admitted : Price × ℕ × ℕ) (l : BudgetLedger) (f : Failure)
    → admit encode c.api_key q ≡ ok admitted
    → reserve id (finite (pos (reserve_usd admitted.0 admitted.1 admitted.2))) c.ledger ≡ (ok id, l)
    → r.status_code < 400
    → parse_success r ≡ escaped f
    → let (result, after) = complete encode id call_id q (responded r) c in
      (result ≡ err f) × (after.ledger ≡ l)
unfolding complete emit
complete_escaped encode id call_id q r c admitted l f e held below escape =
    rw (e, held, complete)
      (rw (finish_escaped id call_id r _ f below escape) (refl, ap (λ x. x.1) held))
