-- ===== src/Salvage/Cuts.antt =====
-- The lines that a skeleton of `propose_sorrifications` has.
use re_takehome_submission.Common.{
  ℕ, suc, ◌+◌, ◌-◌, ◌≤◌, ◌<◌, ◌≡◌, refl, ap, sym, ◌∙◌, inl, inr, Bool, false, ◌&&◌, some, List, [],
  ◌∷◌, ◌++◌, arith, leb, ltb, if◌then◌else◌, length, take, drop, All, All-take, All-append,
  take-split, drop-split, Bool-cases, Option-cases,
}
use mathlib.Core.Path.{ap₂, subst}
use mathlib.Core.Option.{some-injective}
use mathlib.Core.List.{append_assoc}
use re_takehome_submission.Common.Text.{Text}
use re_takehome_submission.Common.Json.{Json, Fields}
use re_takehome_submission.Common.Lines.{splitlines, unix_newlines}
use re_takehome_submission.Salvage.Message.{error_messages}
use re_takehome_submission.Salvage.Source.{
  first_line, proof_body_line, opens_body, file_of, render, render_span, declaration_bounds,
  contains_sorry,
}
use re_takehome_submission.Salvage.Shape.{declaration_bounds_hold}
use re_takehome_submission.Salvage.{
  Site, SorrificationCandidate, find_site, site_at, site_in, positions, min_of, append_new, differs,
  span_candidate, suffix_candidate, whole_candidate, candidates, propose_sorrifications,
  prefix_keep,
}

first_line_bounds :
    (p : Text → Bool) (i start stop n : ℕ) (ls : List Text)
    → first_line p i start stop ls ≡ some n
    → (start ≤ n) × (n < stop)
unfolding first_line
first_line_bounds p i start stop n [] h = absurd (cc)
first_line_bounds p i start stop n (l ∷ ls) h =
    elim (Bool-cases (leb start i && (ltb i stop && p l))) [
      | inl e ↦ ground arith
      | inr e ↦ first_line_bounds p (suc i) start stop n ls (rw e at h)
    ]

proof_body_line_bounds :
    (start stop n : ℕ) (ls : List Text)
    → proof_body_line ls start stop ≡ some n
    → (start ≤ n) × (n < stop)
unfolding proof_body_line
proof_body_line_bounds start stop n ls h = first_line_bounds opens_body 0 start stop n ls h

-- The failing line lies in the body of the declaration, and the span that a diagnostic covers too.
pub record IsPlaced (s : Site) : Type 0 where
  pub opens : s.start ≤ s.body_line
  pub fails : s.body_line < s.error_index
  pub spans : s.error_index ≤ s.span_end
  pub ends : s.span_end < s.stop
  pub within : s.stop ≤ length s.lines

-- The candidate is the source's lines up to the one that opens the body, some other lines, and the
-- source's lines behind the declaration.
pub record Cuts (s : Site) (c : SorrificationCandidate) : Type 0 where
  pub middle : List Text
  pub source_eq :
      c.source ≡ file_of (take (s.body_line + 1) s.lines ++ (middle ++ drop s.stop s.lines))

cut_between :
    (b e k stop : ℕ) (x : Text) (ls : List Text)
    → b ≤ e
    → k ≤ stop
    → (middle : List Text) × (take e ls ++ (x ∷ drop k ls) ≡ take b ls ++ (middle ++ drop stop ls))
cut_between b e k stop x ls h g =
    let front = take (e - b) (drop b ls) in
    let back = take (stop - k) (drop k ls) in
    (
      front ++ (x ∷ back),
      ap₂ (λ f r. f ++ (x ∷ r)) (take-split b e ls h) (drop-split k stop ls g)
          ∙ (append_assoc (take b ls) front (x ∷ (back ++ drop stop ls))
              ∙ ap (λ l. take b ls ++ l) (sym (append_assoc front (x ∷ back) (drop stop ls)))),
    )

module _ (w : ℕ → Bool) where
  span_Cuts : (s : Site) → IsPlaced s → Cuts s (span_candidate w s)
  unfolding span_candidate render_span
  span_Cuts s p =
      let (m, e) =
        cut_between (s.body_line + 1) s.error_index (s.span_end + 1) s.stop _ s.lines
          (omega (arith, p.fails)) (omega (arith, p.ends)) in
      record { middle = m; source_eq = ap file_of e }

  suffix_Cuts : (s : Site) → IsPlaced s → Cuts s (suffix_candidate w s)
  unfolding suffix_candidate render prefix_keep
  suffix_Cuts s p =
      let (m, e) =
        cut_between (s.body_line + 1) (prefix_keep s + 1) s.stop s.stop _ s.lines (omega arith)
          (omega arith) in
      record { middle = m; source_eq = ap file_of e }

  whole_Cuts : (s : Site) → IsPlaced s → Cuts s (whole_candidate s)
  unfolding whole_candidate render
  whole_Cuts s p =
      let (m, e) =
        cut_between (s.body_line + 1) (s.body_line + 1) s.stop s.stop _ s.lines (omega arith)
          (omega arith) in
      record { middle = m; source_eq = ap file_of e }

  append_new-All :
      (P : SorrificationCandidate → Type 0) (answer : List SorrificationCandidate)
      (c : SorrificationCandidate)
      → All P answer
      → P c
      → All P (append_new answer c)
  unfolding append_new
  append_new-All P answer c h k = elim (Bool-cases (differs c answer)) [
    | inl e ↦ rw (e, append_new) (All-append P answer (c ∷ []) h (k, tt))
    | inr e ↦ rw (e, append_new) h
  ]

  candidates-Cuts : (s : Site) → IsPlaced s → All (Cuts s) (candidates w s)
  unfolding candidates
  candidates-Cuts s p = All-take (Cuts s) 3 _ (append_new-All (Cuts s) _ _ second (whole_Cuts s p))
    where
      span : SorrificationCandidate
      span = span_candidate w s

      first : All (Cuts s) (if ltb 0 span.retained_lines then span ∷ [] else [])
      first = elim (Bool-cases (ltb 0 span.retained_lines)) [
        | inl e ↦ rw e (span_Cuts s p, tt)
        | inr e ↦ rw e tt
      ]

      second : All (Cuts s) (
          if ltb s.body_line (prefix_keep s)
          then append_new
              (if ltb 0 span.retained_lines then span ∷ [] else [])
              (suffix_candidate w s)
          else (if ltb 0 span.retained_lines then span ∷ [] else []))
      second = elim (Bool-cases (ltb s.body_line (prefix_keep s))) [
        | inl e ↦ rw e (append_new-All (Cuts s) _ _ first (suffix_Cuts s p))
        | inr e ↦ rw e first
      ]

module _ (w : ℕ → Bool) (str_of : Json → Text) (chars : ℕ) where
  site_in-IsPlaced :
      (ls : List Text) (e : ℕ) (errors : List Fields) (b : ℕ × ℕ) (s : Site)
      → (b.0 ≤ e) × (e < b.1) × (b.1 ≤ length ls)
      → site_in w str_of chars ls e errors b ≡ some s
      → IsPlaced s
  unfolding site_in
  site_in-IsPlaced ls e errors (start, stop) s h q =
      elim (Option-cases (proof_body_line ls start stop)) [
        | inl f ↦ absurd (ground arith)
        | inr (body, f) ↦ elim (Bool-cases (leb e body)) [
          | inl g ↦ absurd (ground arith)
          | inr g ↦
              let (lo, hi) = proof_body_line_bounds start stop body ls f in
              subst IsPlaced (some-injective _ _ (rw (f, g, site_in) at q)) (record {
                opens = lo;
                fails = ground arith;
                spans = omega arith;
                ends = omega arith;
                within = h.2;
              })
        ]
      ]

  site_at-IsPlaced :
      (ls : List Text) (e : ℕ) (errors : List Fields) (s : Site)
      → site_at w str_of chars ls e errors ≡ some s
      → IsPlaced s
  unfolding site_at
  site_at-IsPlaced ls e errors s q = elim (Bool-cases (ltb e (length ls))) [
    | inr f ↦ absurd (ground arith)
    | inl f ↦ elim (Option-cases (declaration_bounds w ls e)) [
      | inl g ↦ absurd (ground arith)
      | inr (b, g) ↦
          site_in-IsPlaced ls e errors b s (declaration_bounds_hold w ls e b.0 b.1 (ground arith) g)
            (rw (f, g, site_at) at q)
    ]
  ]

  find_site-IsPlaced :
      (source : Text) (messages : List Fields) (s : Site)
      → find_site w str_of chars source messages ≡ some s
      → IsPlaced s
  unfolding find_site
  find_site-IsPlaced source messages s q = elim (Bool-cases (contains_sorry w source)) [
    | inl f ↦ absurd (ground arith)
    | inr f ↦ from_positions f (positions (error_messages messages)) refl
  ]
    where
      from_positions :
          contains_sorry w source ≡ false
          → (ns : List ℕ) → positions (error_messages messages) ≡ ns
          → IsPlaced s
      from_positions f [] e = absurd (ground arith)
      from_positions f (n ∷ ns) e =
          site_at-IsPlaced (splitlines (unix_newlines source)) (min_of n ns - 1)
            (error_messages messages) s (rw (f, e, find_site) at q)

  -- Where a failing site is found, the failing line and the lines of its diagnostic lie behind the
  -- line that opens the proof's body, in its declaration and within the file; and every proposed
  -- skeleton keeps the source's lines up to the one that opens the body and the lines behind the
  -- declaration: only lines between them are replaced.
  pub propose_sorrifications-Cuts :
      (source : Text) (messages : List Fields) (s : Site)
      → find_site w str_of chars source messages ≡ some s
      → IsPlaced s × All (Cuts s) (propose_sorrifications w str_of chars source messages)
  unfolding propose_sorrifications
  propose_sorrifications-Cuts source messages s q =
      let p = find_site-IsPlaced source messages s q in
      (p, subst (All (Cuts s)) (sym (rw (q, propose_sorrifications))) (candidates-Cuts w s p))
