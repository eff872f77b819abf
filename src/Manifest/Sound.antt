-- ===== src/Manifest/Sound.antt =====
-- What a loaded problem set satisfies.
use re_takehome_submission.Common.{
  ◌≡◌, refl, ap, sym, inl, inr, Bool, true, false, Option, none, some, List, [], ◌∷◌, all, is_empty,
  All, Bool-cases, Option-cases,
}
use mathlib.Core.Path.{subst}
use re_takehome_submission.Common.Text.{Text, codes}
use re_takehome_submission.Common.Json.{
  Json, Items, Fields, obj, null, boolean, int, float, end, nil, cons, get, keys, str, arr,
}
use re_takehome_submission.Common.Results.{Result, ok, err, Result-cases}
use re_takehome_submission.Manifest.{
  ManifestError, ProblemSpec, ProblemSet, is_problem_id, member, names, id_of, object_of, get_or,
  allowed_fields, close_spec, spec_of, load_object, load_entry, load_entries, named, load_problems,
  load_problem_set, is_version,
}
use re_takehome_submission.Manifest.Names.{
  AreNames, Promised, names-AreNames, id_of-valid, all-All, ok-injective,
}

pub record IsSpec (files_ok : Text → Bool) (p : ProblemSpec) : Type 0 where
  pub valid_id : is_problem_id p.id ≡ true
  pub theorems : AreNames p.theorem_names
  pub some_theorem : is_empty p.theorem_names ≡ false
  pub definitions : AreNames p.definition_names
  pub numeric : AreNames p.numeric_answer_names
  pub defined : All (λ (n : Text). member n p.definition_names ≡ true) p.numeric_answer_names
  pub files : files_ok p.id ≡ true

module _ (files_ok : Text → Bool) where
  close_spec-IsSpec :
      (id : Text) (ts ds ns : List Text) (e : Fields) (p : ProblemSpec)
      → is_problem_id id ≡ true
      → Promised false ts
      → AreNames ds
      → AreNames ns
      → close_spec files_ok id ts ds ns e ≡ ok p
      → IsSpec files_ok p × (p.id ≡ id)
  unfolding close_spec
  close_spec-IsSpec id ts ds ns e p v t d n h = elim (Bool-cases (all (λ x. member x ds) ns)) [
    | inr a ↦ absurd (let k = rw (a, close_spec) at h in cc)
    | inl a ↦ elim (Option-cases (object_of (get_or (obj end) (codes "metadata") e))) [
      | inl m ↦ absurd (let k = rw (a, m, close_spec) at h in cc)
      | inr (m, q) ↦ elim (Bool-cases (all (λ k. member k allowed_fields) (keys e))) [
        | inr u ↦ absurd (let k = rw (a, q, u, close_spec) at h in cc)
        | inl u ↦ elim (Bool-cases (files_ok id)) [
          | inr f ↦ absurd (let k = rw (a, q, u, f, close_spec) at h in cc)
          | inl f ↦
              subst (λ x. IsSpec files_ok x × (x.id ≡ id))
                (ok-injective _ _ (rw (a, q, u, f, close_spec) at h))
                (
                  record {
                    valid_id = v;
                    theorems = t.0;
                    some_theorem = t.1 refl;
                    definitions = d;
                    numeric = n;
                    defined = all-All _ ns a;
                    files = f;
                  },
                  refl,
                )
        ]
      ]
    ]
  ]

  spec_of-IsSpec :
      (id : Text) (e : Fields) (p : ProblemSpec)
      → is_problem_id id ≡ true
      → spec_of files_ok id e ≡ ok p
      → IsSpec files_ok p × (p.id ≡ id)
  unfolding spec_of
  spec_of-IsSpec id e p v h = elim (Option-cases (names false (get (codes "theorem_names") e))) [
    | inl a ↦ absurd (let k = rw (a, spec_of) at h in cc)
    | inr (ts, a) ↦
        elim (Option-cases (names true (get_or (arr nil) (codes "definition_names") e))) [
          | inl b ↦ absurd (let k = rw (a, b, spec_of) at h in cc)
          | inr (ds, b) ↦
              elim (Option-cases (names true (get_or (arr nil) (codes "numeric_answer_names") e))) [
                | inl c ↦ absurd (let k = rw (a, b, c, spec_of) at h in cc)
                | inr (ns, c) ↦
                    close_spec-IsSpec id ts ds ns e p v (names-AreNames false _ ts a)
                      (names-AreNames true _ ds b).0 (names-AreNames true _ ns c).0
                      (rw (a, b, c, spec_of) at h)
              ]
        ]
  ]

  load_object-IsSpec :
      (seen : List Text) (e : Fields) (p : ProblemSpec)
      → load_object files_ok seen e ≡ ok p
      → IsSpec files_ok p × (member p.id seen ≡ false)
  unfolding load_object
  load_object-IsSpec seen e p h = elim (Option-cases (id_of (get (codes "id") e))) [
    | inl a ↦ absurd (let k = rw (a, load_object) at h in cc)
    | inr (id, a) ↦ elim (Bool-cases (member id seen)) [
      | inl m ↦ absurd (let k = rw (a, m, load_object) at h in cc)
      | inr m ↦
          let (s, q) = spec_of-IsSpec id e p (id_of-valid _ id a) (rw (a, m, load_object) at h) in
          (s, subst (λ x. member x seen ≡ false) (sym q) m)
    ]
  ]

  load_entry-IsSpec :
      (seen : List Text) (j : Json) (p : ProblemSpec)
      → load_entry files_ok seen j ≡ ok p
      → IsSpec files_ok p × (member p.id seen ≡ false)
  unfolding load_entry
  load_entry-IsSpec seen (obj e) p h = load_object-IsSpec seen e p h
  load_entry-IsSpec seen null p h = absurd (cc)
  load_entry-IsSpec seen (boolean b) p h = absurd (cc)
  load_entry-IsSpec seen (int z) p h = absurd (cc)
  load_entry-IsSpec seen (float a) p h = absurd (cc)
  load_entry-IsSpec seen (str t) p h = absurd (cc)
  load_entry-IsSpec seen (arr i) p h = absurd (cc)

  -- The ids differ from each other and from those seen before.
  abbrev pub AreFresh : List Text → List ProblemSpec → Type 0
  AreFresh seen [] = Unit
  AreFresh seen (p ∷ ps) = (member p.id seen ≡ false) × AreFresh (p.id ∷ seen) ps

  abbrev Loaded : List Text → List ProblemSpec → Type 0
  Loaded seen ps = All (IsSpec files_ok) ps × AreFresh seen ps

  load_entries-Loaded :
      (seen : List Text) (is : Items) (ps : List ProblemSpec)
      → load_entries files_ok seen is ≡ ok ps
      → Loaded seen ps
  unfolding load_entries
  load_entries-Loaded seen nil ps h = subst (Loaded seen) (ok-injective _ _ h) (tt, tt)
  load_entries-Loaded seen (cons j is) ps h = elim (Result-cases (load_entry files_ok seen j)) [
    | inr (x, a) ↦ absurd (let k = rw (a, load_entries) at h in cc)
    | inl (p, a) ↦ elim (Result-cases (load_entries files_ok (p.id ∷ seen) is)) [
      | inr (x, b) ↦ absurd (let k = rw (a, b, load_entries) at h in cc)
      | inl (qs, b) ↦
          let (s, m) = load_entry-IsSpec seen j p a in
          let (t, n) = load_entries-Loaded (p.id ∷ seen) is qs b in
          subst (Loaded seen) (ok-injective _ _ (rw (a, b, load_entries) at h)) ((s, t), (m, n))
    ]
  ]

  load_entries-nonempty :
      (seen : List Text) (j : Json) (is : Items) (ps : List ProblemSpec)
      → load_entries files_ok seen (cons j is) ≡ ok ps
      → is_empty ps ≡ false
  unfolding load_entries
  load_entries-nonempty seen j is ps h = elim (Result-cases (load_entry files_ok seen j)) [
    | inr (x, a) ↦ absurd (let k = rw (a, load_entries) at h in cc)
    | inl (p, a) ↦ elim (Result-cases (load_entries files_ok (p.id ∷ seen) is)) [
      | inr (x, b) ↦ absurd (let k = rw (a, b, load_entries) at h in cc)
      | inl (qs, b) ↦
          subst (λ x. is_empty x ≡ false) (ok-injective _ _ (rw (a, b, load_entries) at h)) refl
    ]
  ]

  named_ok :
      (n : Option Text) (r : Result ManifestError (List ProblemSpec)) (s : ProblemSet)
      → named files_ok n r ≡ ok s
      → r ≡ ok s.problems
  unfolding named
  named_ok n (err x) s h = absurd (cc)
  named_ok none (ok ps) s h = absurd (cc)
  named_ok (some n) (ok ps) s h = ap (λ (x : ProblemSet). ok x.problems) (ok-injective _ s h)

  -- A loaded problem set.
  pub record IsSound (s : ProblemSet) : Type 0 where
    pub problems : All (IsSpec files_ok) s.problems
    pub differ : AreFresh [] s.problems
    pub some_problem : is_empty s.problems ≡ false

  load_problems-IsSound :
      (n : Option Text) (j : Option Json) (s : ProblemSet)
      → load_problems files_ok n j ≡ ok s
      → IsSound s
  unfolding load_problems
  load_problems-IsSound n (some (arr (cons j is))) s h =
      let e = named_ok n (load_entries files_ok [] (cons j is)) s h in
      let (a, b) = load_entries-Loaded [] (cons j is) s.problems e in
      record { problems = a; differ = b; some_problem = load_entries-nonempty [] j is s.problems e }
  load_problems-IsSound n none s h = absurd (cc)
  load_problems-IsSound n (some null) s h = absurd (cc)
  load_problems-IsSound n (some (boolean b)) s h = absurd (cc)
  load_problems-IsSound n (some (int z)) s h = absurd (cc)
  load_problems-IsSound n (some (float a)) s h = absurd (cc)
  load_problems-IsSound n (some (str t)) s h = absurd (cc)
  load_problems-IsSound n (some (arr nil)) s h = absurd (cc)
  load_problems-IsSound n (some (obj f)) s h = absurd (cc)

  -- A problem set that loads has at least one problem, and the ids of its problems differ. Each
  -- problem has a valid id, its two files are there, it names at least one theorem, the names of its
  -- theorems, of its definitions and of its numeric answers are not blank and differ within each
  -- list, and each numeric answer is one of its definitions.
  pub load_problem_set-IsSound :
      (root_name : Text) (j : Json) (s : ProblemSet)
      → load_problem_set files_ok root_name j ≡ ok s
      → IsSound s
  unfolding load_problem_set
  load_problem_set-IsSound root null s h = absurd (cc)
  load_problem_set-IsSound root (boolean b) s h = absurd (cc)
  load_problem_set-IsSound root (int z) s h = absurd (cc)
  load_problem_set-IsSound root (float a) s h = absurd (cc)
  load_problem_set-IsSound root (str t) s h = absurd (cc)
  load_problem_set-IsSound root (arr i) s h = absurd (cc)
  load_problem_set-IsSound root (obj f) s h =
      elim (Bool-cases (is_version (get (codes "schema_version") f))) [
        | inr e ↦ absurd (let k = rw (e, load_problem_set) at h in cc)
        | inl e ↦ load_problems-IsSound _ _ s (rw (e, load_problem_set) at h)
      ]
