-- ===== src/Lean/Lexing.antt =====
-- The mask and the grammar of comments and strings.
use mathlib.Core.List.{append_assoc}
use mathlib.Core.Path.{subst}
use re_takehome_submission.Common.{
  ℕ, suc, ◌+◌, ◌≡◌, refl, ap, sym, ◌∙◌, false, ◌&&◌, [], ◌∷◌, ◌++◌, All, ◌==◌, if◌then◌else◌, map,
  arith, inl, inr, Bool-cases,
}
use re_takehome_submission.Common.Text.{Text}
use re_takehome_submission.Lean.{
  Scan, plain, line_comment, in_string, nested, blank, next_is, leave, scan, mask_from,
  mask_comments,
}

-- No pair of these two characters begins the text.
abbrev NoPair : ℕ → ℕ → Text → Type 0
NoPair c d [] = Unit
NoPair c d (e ∷ s) = ((e == c) && next_is d s) ≡ false

-- What stands behind the opening `/-` of a comment up to its own `-/`, with comments nested in it.
pub data Comment : Text → Type 0 where
  closes : Comment (b'-' ∷ b'/' ∷ [])
  goes_on :
      (c : ℕ) {s : Text}
      → NoPair b'/' b'-' (c ∷ s)
      → NoPair b'-' b'/' (c ∷ s)
      → Comment s
      → Comment (c ∷ s)
  opens : {s t : Text} → Comment s → Comment t → Comment (b'/' ∷ b'-' ∷ (s ++ t))

-- What stands behind the opening quote of a string, with the closing one.
pub data Quoted : Text → Type 0 where
  quote : Quoted (b'"' ∷ [])
  letter : (c : ℕ) {s : Text} → (c == b'"') ≡ false → (c == 92) ≡ false → Quoted s → Quoted (c ∷ s)
  escape : (c : ℕ) {s : Text} → Quoted s → Quoted (92 ∷ c ∷ s)

-- The end of the text or of the line.
abbrev AtEnd : Text → Type 0
AtEnd [] = Unit
AtEnd (c ∷ s) = c ≡ 10

abbrev pub wipe : ℕ → ℕ
wipe c = if c == 10 then c else blank

-- A text that is lexed into code, comments and strings, and the same text with these blanked: of a
-- comment the line feeds stay, of a string nothing does.
pub data Lexed : Text → Text → Type 0 where
  done : Lexed [] []
  code :
      (c : ℕ) {s t : Text}
      → NoPair b'-' b'-' (c ∷ s)
      → NoPair b'/' b'-' (c ∷ s)
      → (c == b'"') ≡ false
      → Lexed s t
      → Lexed (c ∷ s) (c ∷ t)
  line :
      (body : Text) {s t : Text}
      → All (λ c. (c == 10) ≡ false) body
      → AtEnd s
      → Lexed s t
      → Lexed (b'-' ∷ b'-' ∷ (body ++ s)) (blank ∷ blank ∷ (map (λ c. blank) body ++ t))
  block :
      {body s t : Text}
      → Comment body
      → Lexed s t
      → Lexed (b'/' ∷ b'-' ∷ (body ++ s)) (blank ∷ blank ∷ (map wipe body ++ t))
  text :
      {body s t : Text}
      → Quoted body
      → Lexed s t
      → Lexed (b'"' ∷ (body ++ s)) (blank ∷ (map (λ c. blank) body ++ t))

map-append : (f : ℕ → ℕ) (xs ys : Text) → map f (xs ++ ys) ≡ map f xs ++ map f ys
map-append f [] ys = refl
map-append f (x ∷ xs) ys = ap (λ l. f x ∷ l) (map-append f xs ys)

-- A comment is not empty, so what follows it does not matter to its first pair.
next_in : (d : ℕ) {s : Text} → Comment s → (r : Text) → next_is d (s ++ r) ≡ next_is d s
next_in d closes r = refl
next_in d (goes_on c p q h) r = refl
next_in d (opens h k) r = refl

mask_step :
    (k k' : Scan) (c o : ℕ) (s : Text)
    → scan k c s ≡ (o, k')
    → mask_from k (c ∷ s) ≡ o ∷ mask_from k' s
unfolding mask_from
mask_step k k' c o s e = rw e refl

inside :
    (n c : ℕ) (s : Text)
    → NoPair b'/' b'-' (c ∷ s)
    → NoPair b'-' b'/' (c ∷ s)
    → scan (nested n) c s ≡ (wipe c, nested n)
unfolding scan
inside n c s p q = elim (Bool-cases (c == 10)) [
  | inl e ↦ rw (p, q, e) refl
  | inr e ↦ rw (p, q, e) refl
]

-- A pair that does not begin in front of a comment's rest does not begin there with more behind it.
still :
    (c d e : ℕ) {s : Text} → Comment s → (r : Text) → NoPair d e (c ∷ s) → NoPair d e (c ∷ (s ++ r))
still c d e h r p = ap (λ b. (c == d) && b) (next_in e h r) ∙ p

mask-Comment :
    (n : ℕ) {s : Text}
    → Comment s
    → (r : Text) → mask_from (nested n) (s ++ r) ≡ map wipe s ++ mask_from (leave n) r
unfolding mask_from scan
mask-Comment n closes r = refl
mask-Comment n (goes_on c {s} p q h) r =
    mask_step (nested n) (nested n) c (wipe c) (s ++ r)
      (inside n c (s ++ r) (still c b'/' b'-' h r p) (still c b'-' b'/' h r q))
    ∙ ap (λ t. wipe c ∷ t) (mask-Comment n h r)
mask-Comment n (opens {s} {t} h k) r =
    let out = λ (m : ℕ). map wipe s ++ mask_from (leave m) (t ++ r) in
    let deeper : n + 1 ≡ suc n = omega arith in
    ap (λ u. blank ∷ blank ∷ u)
      (ap (mask_from (nested (n + 1))) (append_assoc s t r)
        ∙ mask-Comment (n + 1) h (t ++ r)
        ∙ ap out deeper
        ∙ ap (λ u. map wipe s ++ u) (mask-Comment n k r)
        ∙ sym (append_assoc (map wipe s) (map wipe t) (mask_from (leave n) r))
        ∙ ap (λ u. u ++ mask_from (leave n) r) (sym (map-append wipe s t)))

mask-Quoted :
    {s : Text}
    → Quoted s
    → (r : Text) → mask_from in_string (s ++ r) ≡ map (λ c. blank) s ++ mask_from plain r
unfolding mask_from scan
mask-Quoted quote r = refl
mask-Quoted (letter c p q h) r = rw (p, q) (ap (λ t. blank ∷ t) (mask-Quoted h r))
mask-Quoted (escape c h) r = ap (λ t. blank ∷ blank ∷ t) (mask-Quoted h r)

mask-line :
    (body r : Text)
    → All (λ c. (c == 10) ≡ false) body
    → AtEnd r
    → mask_from line_comment (body ++ r) ≡ map (λ c. blank) body ++ mask_from plain r
unfolding mask_from scan
mask-line [] [] h e = refl
mask-line [] (c ∷ r) h e =
    subst (λ d. mask_from line_comment (d ∷ r) ≡ mask_from plain (d ∷ r)) (sym e) refl
mask-line (c ∷ body) r h e = rw h.0 (ap (λ t. blank ∷ t) (mask-line body r h.1 e))

-- The mask of a text that is lexed into code, comments, nested ones among them, and strings is the text
-- with the comments and the strings blanked: the line feeds of comments stay, and so does all code.
pub mask_comments-Lexed : {s t : Text} → Lexed s t → mask_comments s ≡ t
unfolding mask_comments mask_from scan
mask_comments-Lexed done = refl
mask_comments-Lexed (code c p q e h) = rw (p, q, e) (ap (λ u. c ∷ u) (mask_comments-Lexed h))
mask_comments-Lexed (line body {s} p e h) =
    ap (λ u. blank ∷ blank ∷ u)
      (mask-line body s p e ∙ ap (λ u. map (λ c. blank) body ++ u) (mask_comments-Lexed h))
mask_comments-Lexed (block {body} {s} k h) =
    ap (λ u. blank ∷ blank ∷ u)
      (mask-Comment 0 k s ∙ ap (λ u. map wipe body ++ u) (mask_comments-Lexed h))
mask_comments-Lexed (text {body} {s} k h) =
    ap (λ u. blank ∷ u)
      (mask-Quoted k s ∙ ap (λ u. map (λ c. blank) body ++ u) (mask_comments-Lexed h))
