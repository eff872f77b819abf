-- ===== src/Transcript/Calls.antt =====
-- The calls of a transcript, told from their own events.
use re_takehome_submission.Common.{
  ◌≡◌, refl, ap, sym, ◌∙◌, Bool, true, false, ◌||◌, Option, none, some, List, [], ◌∷◌, ◌++◌, inl,
  inr, if◌then◌else◌, if_cases, any, is_empty, map, Bool-cases, Option-cases, arith, ◌⊎◌,
}
use mathlib.Core.Path.{subst}
use re_takehome_submission.Common.Text.{Text, codes, text_eq, text_eq_iff, text_eq_refl}
use re_takehome_submission.Common.Json.{Json, Fields, str, arr, end, field, get}
use re_takehome_submission.Engine.Verify.Keys.{member, Distinct, member-append, Distinct-snoc}
use re_takehome_submission.Transcript.{
  CallEvent, call_event_of, record_event, Book, has_call, update_call, call_of, open_call, call_id,
  read_event, read_all, objects, build_transcript,
}

abbrev Calls : Type 0
Calls = List (Text × Fields)

abbrev fresh : Text → Fields
fresh id = field (codes "call_id") (str id) end

or_false : (b : Bool) → b || false ≡ b
or_false true = refl
or_false false = refl

or_true : (b : Bool) → b || true ≡ true
or_true true = refl
or_true false = refl

or_assoc : (a b c : Bool) → (a || b) || c ≡ a || (b || c)
or_assoc true b c = refl
or_assoc false b c = refl

-- The record of a call, opened if it was not.
abbrev base : Text → Calls → Fields
base id cs = if has_call id cs then call_of id cs else fresh id

has_call-append :
    (id i : Text) (r : Fields) (cs : Calls)
    → has_call id (cs ++ (i, r) ∷ []) ≡ has_call id cs || text_eq i id
unfolding has_call
has_call-append id i r [] = ground arith
has_call-append id i r ((k, q) ∷ cs) = ground (arith, has_call-append id i r cs)

has_call-update :
    (id i : Text) (f : Fields → Fields) (cs : Calls)
    → has_call id (update_call i f cs) ≡ has_call id cs
unfolding has_call update_call
has_call-update id i f [] = refl
has_call-update id i f ((k, r) ∷ cs) = elim (Bool-cases (text_eq k i)) [
  | inl e ↦ rw e refl
  | inr e ↦ rw (e, has_call-update id i f cs) refl
]

call_of-append : (id i : Text) (cs : Calls) → base id (cs ++ (i, fresh i) ∷ []) ≡ base id cs
unfolding has_call call_of
call_of-append id i [] = elim (Bool-cases (text_eq i id)) [
  | inl e ↦ rw e (ap fresh ((text_eq_iff i id).0 e))
  | inr e ↦ rw e refl
]
call_of-append id i ((k, r) ∷ cs) = elim (Bool-cases (text_eq k id)) [
  | inl e ↦ rw e refl
  | inr e ↦ rw e (call_of-append id i cs)
]

call_of-update_same :
    (id : Text) (f : Fields → Fields) (cs : Calls)
    → has_call id cs ≡ true
    → call_of id (update_call id f cs) ≡ f (call_of id cs)
unfolding has_call call_of update_call
call_of-update_same id f [] h = absurd (cc)
call_of-update_same id f ((k, r) ∷ cs) h = elim (Bool-cases (text_eq k id)) [
  | inl e ↦ rw e (rw e refl)
  | inr e ↦ rw e (rw e (call_of-update_same id f cs (rw e at h)))
]

call_of-update_other :
    (id i : Text) (f : Fields → Fields) (cs : Calls)
    → text_eq i id ≡ false
    → call_of id (update_call i f cs) ≡ call_of id cs
unfolding call_of update_call
call_of-update_other id i f [] h = refl
call_of-update_other id i f ((k, r) ∷ cs) h = elim (Bool-cases (text_eq k i)) [
  | inl e ↦ let p = ap (λ t. text_eq t id) ((text_eq_iff k i).0 e) ∙ h in rw (e, p) refl
  | inr e ↦ rw e (ap (λ t. if text_eq k id then r else t) (call_of-update_other id i f cs h))
]

-- The kind of an event of this call.
abbrev if_own : (Json → Text) → Text → Fields → CallEvent → Option CallEvent
if_own str_of id e k =
    if is_empty (call_id str_of e)
    then none
    else if text_eq (call_id str_of e) id
    then some k
    else none

abbrev own_kind : (Json → Text) → Text → Fields → Option CallEvent
own_kind str_of id e = elim (call_event_of (get (codes "event") e)) [
  | none ↦ none
  | some k ↦ if_own str_of id e k
]

abbrev write : Option CallEvent → Fields → Fields → Fields
write none e r = r
write (some k) e r = record_event k e r

abbrev is_some : Option CallEvent → Bool
is_some none = false
is_some (some k) = true

is_some_if : (k : CallEvent) (b : Bool) → b ≡ is_some (if b then some k else none)
is_some_if k true = refl
is_some_if k false = refl

write_if :
    (k : CallEvent) (e : Fields) (b : Bool) (r : Fields)
    → (if b then record_event k e r else r) ≡ write (if b then some k else none) e r
write_if k e true r = refl
write_if k e false r = refl

present : (id : Text) (cs : Calls) → has_call id cs ≡ true → base id cs ≡ call_of id cs
present id cs h = rw h refl

map_on_members :
    {A : Type 0} (f g : Text → A) (xs : List Text)
    → ((x : Text) → member x xs ≡ true → f x ≡ g x)
    → map f xs ≡ map g xs
map_on_members f g [] h = refl
map_on_members f g (x ∷ xs) h =
    let head = h x (rw (text_eq_refl x) refl) in
    let tail =
      map_on_members f g xs (λ y m. h y (ap (λ b. text_eq x y || b) m ∙ or_true (text_eq x y))) in
    ap (λ y. y ∷ map f xs) head ∙ ap (λ ys. g x ∷ ys) tail

module _ (str_of : Json → Text) where
  -- The event belongs to this call.
  unfoldable pub is_of : Text → Fields → Bool
  is_of id e = is_some (own_kind str_of id e)

  -- The events of one call, written one after the other.
  unfoldable pub replay : Text → List Fields → Fields → Fields
  replay id [] r = r
  replay id (e ∷ es) r = replay id es (write (own_kind str_of id e) e r)

  -- What the events of the call alone make of it.
  unfoldable pub own_record : Text → List Fields → Fields
  unfolding replay
  own_record id es = replay id es (fresh id)

  -- An event that is skipped, or the event of one call.
  Skips : Fields → Type 0
  Skips e = ((b : Book) → read_event str_of e b ≡ b) × ((id : Text) → own_kind str_of id e ≡ none)

  Writes : Fields → Type 0
  Writes e =
      (k : CallEvent) × (i : Text) × ((b : Book)
        → read_event str_of e b ≡ (
            let o = open_call i b in record o { calls = update_call i (record_event k e) o.calls }))
      × ((id : Text) → own_kind str_of id e ≡ (if text_eq i id then some k else none))

  event-cases : (e : Fields) → Skips e ⊎ Writes e
  unfolding Skips Writes read_event
  event-cases e = elim (Option-cases (call_event_of (get (codes "event") e))) [
    | inl n ↦ inl (λ b. rw (n, read_event) refl, λ id. rw (n, own_kind) refl)
    | inr (k, n) ↦ elim (Bool-cases (is_empty (call_id str_of e))) [
      | inl m ↦ inl (λ b. rw (n, m, read_event) refl, λ id. rw (n, own_kind, if_own, m) refl)
      | inr m ↦ inr (
        k,
        call_id str_of e,
        λ b. rw (n, m, read_event) refl,
        λ id. rw (n, own_kind, if_own, m) refl,
      )
    ]
  ]

  -- The calls are those of the order, each once.
  IsTidy : Book → Type 0
  IsTidy b = ((id : Text) → has_call id b.calls ≡ member id b.order) × Distinct b.order

  open_call-IsTidy : (i : Text) (b : Book) → IsTidy b → IsTidy (open_call i b)
  unfolding open_call IsTidy
  open_call-IsTidy i b t =
      if_cases IsTidy (has_call i b.calls) _ _ (λ _. t)
        (λ e. (
          λ id.
              has_call-append id i (fresh i) b.calls
              ∙ ap (λ x. x || text_eq i id) (t.0 id)
              ∙ sym (
                  member-append id b.order (i ∷ [])
                  ∙ ap (λ x. member id b.order || x) (or_false (text_eq i id))),
          Distinct-snoc b.order i t.1 (sym (t.0 i) ∙ e),
        ))

  open-has_call :
      (id i : Text) (b : Book)
      → has_call id (open_call i b).calls ≡ has_call id b.calls || text_eq i id
  unfolding open_call
  open-has_call id i b = elim (Bool-cases (has_call i b.calls)) [
    | inr e ↦ rw e (has_call-append id i (fresh i) b.calls)
    | inl e ↦ elim (Bool-cases (text_eq i id)) [
      | inr n ↦ rw (e, n) (sym (or_false (has_call id b.calls)))
      | inl n ↦
          let h = ap (λ t. has_call t b.calls) (sym ((text_eq_iff i id).0 n)) ∙ e in
          rw (e, n, h) refl
    ]
  ]

  open-base : (id i : Text) (b : Book) → base id (open_call i b).calls ≡ base id b.calls
  unfolding open_call
  open-base id i b = elim (Bool-cases (has_call i b.calls)) [
    | inr e ↦ rw e (call_of-append id i b.calls)
    | inl e ↦ rw e refl
  ]

  update-base :
      (id i : Text) (f : Fields → Fields) (cs : Calls)
      → has_call i cs ≡ true
      → base id (update_call i f cs) ≡ (if text_eq i id then f (base id cs) else base id cs)
  update-base id i f cs h = elim (Bool-cases (text_eq i id)) [
    | inr n ↦ rw (has_call-update id i f cs, n, call_of-update_other id i f cs n) refl
    | inl n ↦
        let q = (text_eq_iff i id).0 n in
        let k = ap (λ t. has_call t cs) (sym q) ∙ h in
        let c = ap (λ t. call_of id (update_call t f cs)) q ∙ call_of-update_same id f cs k in
        rw (has_call-update id i f cs, n, k, c) refl
  ]

  read_event-IsTidy : (e : Fields) (b : Book) → IsTidy b → IsTidy (read_event str_of e b)
  unfolding Skips Writes IsTidy
  read_event-IsTidy e b t = elim (event-cases e) [
    | inl (s, n) ↦ subst IsTidy (sym (s b)) t
    | inr (k, i, w, n) ↦
        let o = open_call i b in
        let (h, d) = open_call-IsTidy i b t in
        subst IsTidy (sym (w b)) (λ id. has_call-update id i (record_event k e) o.calls ∙ h id, d)
  ]

  read_event-has_call :
      (id : Text) (e : Fields) (b : Book)
      → has_call id (read_event str_of e b).calls ≡ has_call id b.calls || is_of id e
  unfolding Skips Writes is_of
  read_event-has_call id e b = elim (event-cases e) [
    | inl (s, n) ↦ rw (s b, n id) (sym (or_false (has_call id b.calls)))
    | inr (k, i, w, n) ↦
        ap (λ (c : Book). has_call id c.calls) (w b)
        ∙ has_call-update id i (record_event k e) (open_call i b).calls
        ∙ open-has_call id i b
        ∙ ap (λ x. has_call id b.calls || x) (is_some_if k (text_eq i id) ∙ ap is_some (sym (n id)))
  ]

  read_event-base :
      (id : Text) (e : Fields) (b : Book)
      → base id (read_event str_of e b).calls ≡ write (own_kind str_of id e) e (base id b.calls)
  unfolding Skips Writes
  read_event-base id e b = elim (event-cases e) [
    | inl (s, n) ↦ rw (s b, n id) refl
    | inr (k, i, w, n) ↦
        let o = open_call i b in
        let g = record_event k e in
        ap (λ (c : Book). base id c.calls) (w b)
        ∙ update-base id i g o.calls (
            open-has_call i i b
            ∙ ap (λ x. has_call i b.calls || x) (text_eq_refl i)
            ∙ or_true (has_call i b.calls))
        ∙ ap (λ r. if text_eq i id then g r else r) (open-base id i b)
        ∙ write_if k e (text_eq i id) (base id b.calls)
        ∙ ap (λ w. write w e (base id b.calls)) (sym (n id))
  ]

  read_all-IsTidy : (es : List Fields) (b : Book) → IsTidy b → IsTidy (read_all str_of es b)
  unfolding read_all
  read_all-IsTidy [] b t = t
  read_all-IsTidy (e ∷ es) b t =
      read_all-IsTidy es (read_event str_of e b) (read_event-IsTidy e b t)

  read_all-has_call :
      (id : Text) (es : List Fields) (b : Book)
      → has_call id (read_all str_of es b).calls ≡ has_call id b.calls || any (is_of id) es
  unfolding read_all
  read_all-has_call id [] b = sym (or_false (has_call id b.calls))
  read_all-has_call id (e ∷ es) b =
      read_all-has_call id es (read_event str_of e b)
      ∙ ap (λ x. x || any (is_of id) es) (read_event-has_call id e b)
      ∙ or_assoc (has_call id b.calls) (is_of id e) (any (is_of id) es)

  read_all-base :
      (id : Text) (es : List Fields) (b : Book)
      → base id (read_all str_of es b).calls ≡ replay id es (base id b.calls)
  unfolding read_all replay
  read_all-base id [] b = refl
  read_all-base id (e ∷ es) b =
      read_all-base id es (read_event str_of e b) ∙ ap (replay id es) (read_event-base id e b)

  -- For every log, the transcript lists the calls that an event belongs to, each once, and the record
  -- of a call is what the events of this call alone write into it, in their order.
  pub build_transcript-own_record :
      (rounded_sum : List (Option Json) → Json) (problem_id : Text) (es : List Fields)
      → (order : List Text) × Distinct order
        × ((id : Text) → member id order ≡ any (is_of id) es)
        × (get (codes "calls") (build_transcript str_of rounded_sum problem_id es)
            ≡ some (arr (objects (map (λ id. own_record id es) order))))
  unfolding build_transcript own_record get text_eq IsTidy
  build_transcript-own_record rounded_sum problem_id es =
      let start : Book = record { calls = []; order = [] } in
      let last = read_all str_of es start in
      let t = read_all-IsTidy es start ((λ id. refl), tt) in
      (
        last.order,
        t.1,
        λ id. sym (t.0 id) ∙ read_all-has_call id es start,
        ap (λ l. some (arr (objects l)))
            (map_on_members _ _ last.order
              (λ id m. sym (present id last.calls (t.0 id ∙ m)) ∙ read_all-base id es start)),
      )
