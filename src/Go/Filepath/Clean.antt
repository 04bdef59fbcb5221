-- ===== src/Go/Filepath/Clean.antt =====
-- filepath.Clean of an absolute path: its elements are plain names, and cleaning again changes
-- nothing.
use mathlib.Core.List.{reverse-cons, reverse-reverse, reverse_aux}
use dlq_download_queue.Prelude.{
  ℕ, Bool, true, false, ◌≡◌, refl, ap, ◌∙◌, List, [], ◌∷◌, ◌++◌, reverse, All, All-append, ◌==◌,
  Bool-cases, inl, inr, sym,
}
use dlq_download_queue.Go.Strings.{Text, is_empty, split_on, cons_piece}
use dlq_download_queue.Go.Filepath.{
  is_abs, is_dot, is_dotdot, clean_step, clean_up, clean_loop, clean_elems, join_slash, render,
  clean,
}

-- A piece between slashes.
abbrev pub IsPiece : Text → Type 0
IsPiece e = All (λ c. (c == b'/') ≡ false) e

-- A name in a directory: not empty, and neither `.` nor `..`.
pub record IsName (e : Text) : Type 0 where
  pub piece : IsPiece e
  pub not_empty : is_empty e ≡ false
  pub not_dot : is_dot e ≡ false
  pub not_dotdot : is_dotdot e ≡ false

cons_piece-IsPiece :
    (t : Bool) (c : ℕ) (ps : List Text)
    → (c == b'/') ≡ t
    → All IsPiece ps
    → All IsPiece (cons_piece t c ps)
cons_piece-IsPiece true c ps e h = (tt, h)
cons_piece-IsPiece false c [] e h = ((e, tt), tt)
cons_piece-IsPiece false c (p ∷ ps) e h = ((e, h.0), h.1)

pub split_on-IsPiece : (s : Text) → All IsPiece (split_on b'/' s)
unfolding split_on
split_on-IsPiece [] = (tt, tt)
split_on-IsPiece (c ∷ s) =
    cons_piece-IsPiece (c == b'/') c (split_on b'/' s) refl (split_on-IsPiece s)

pub split_on-piece : (e : Text) → IsPiece e → split_on b'/' e ≡ e ∷ []
unfolding split_on
split_on-piece [] h = refl
split_on-piece (c ∷ e) h = rw (h.0, split_on-piece e h.1)

split_on-slash : (e r : Text) → IsPiece e → split_on b'/' (e ++ (b'/' ∷ r)) ≡ e ∷ split_on b'/' r
unfolding split_on
split_on-slash [] r h = refl
split_on-slash (c ∷ e) r h = rw (h.0, split_on-slash e r h.1)

pub split_on-join_slash :
    (e : Text) (es : List Text)
    → All IsPiece (e ∷ es)
    → split_on b'/' (join_slash (e ∷ es)) ≡ e ∷ es
unfolding join_slash
split_on-join_slash e [] h = split_on-piece e h.0
split_on-join_slash e (f ∷ es) h =
    split_on-slash e (join_slash (f ∷ es)) h.0
    ∙ ap (λ (l : List Text). e ∷ l) (split_on-join_slash f es h.1)

clean_up-IsName :
    (kept : List Text) (e : Text) → All IsName kept → All IsName (clean_up true kept e)
clean_up-IsName [] e h = tt
clean_up-IsName (k ∷ kept) e h = rw (h.0.not_dotdot) h.1

clean_step-IsName :
    (kept : List Text) (e : Text)
    → All IsName kept
    → IsPiece e
    → All IsName (clean_step true kept e)
unfolding clean_step
clean_step-IsName kept e h p = elim (Bool-cases (is_empty e)) [
  | inl x ↦ rw x h
  | inr x ↦ elim (Bool-cases (is_dot e)) [
    | inl y ↦ rw (x, y) h
    | inr y ↦ elim (Bool-cases (is_dotdot e)) [
      | inl z ↦ rw (x, y, z) (clean_up-IsName kept e h)
      | inr z ↦ rw (x, y, z) (record { piece = p; not_empty = x; not_dot = y; not_dotdot = z }, h)
    ]
  ]
]

clean_loop-IsName :
    (kept es : List Text) → All IsName kept → All IsPiece es → All IsName (clean_loop true kept es)
unfolding clean_loop
clean_loop-IsName kept [] h p = h
clean_loop-IsName kept (e ∷ es) h p =
    clean_loop-IsName (clean_step true kept e) es (clean_step-IsName kept e h p.0) p.1

pub All-reverse : {A : Type 0} (P : A → Type 0) (xs : List A) → All P xs → All P (reverse xs)
All-reverse P [] h = tt
All-reverse P (x ∷ xs) h =
    rw (reverse-cons x xs) (All-append P (reverse xs) (x ∷ []) (All-reverse P xs h.1) (h.0, tt))

-- The elements of a cleaned absolute path are names: none is empty, `.` or `..`.
pub clean_elems-IsName : (s : Text) → is_abs s ≡ true → All IsName (clean_elems s)
unfolding clean_elems
clean_elems-IsName s a =
    rw a (All-reverse IsName _ (clean_loop-IsName [] (split_on b'/' s) tt (split_on-IsPiece s)))

step_name : (kept : List Text) (e : Text) → IsName e → clean_step true kept e ≡ e ∷ kept
unfolding clean_step
step_name kept e n = rw (n.not_empty, n.not_dot, n.not_dotdot)

clean_loop-names :
    (kept es : List Text) → All IsName es → clean_loop true kept es ≡ reverse_aux es kept
unfolding clean_loop
clean_loop-names kept [] h = refl
clean_loop-names kept (e ∷ es) h = rw (step_name kept e h.0) (clean_loop-names (e ∷ kept) es h.1)

pub pieces : (es : List Text) → All IsName es → All IsPiece es
pieces [] h = tt
pieces (e ∷ es) h = (h.0.piece, pieces es h.1)

rooted_elems : (t : Text) → clean_elems (b'/' ∷ t) ≡ reverse (clean_loop true [] (split_on b'/' t))
unfolding clean_elems
rooted_elems t = refl

-- The elements of a rendered absolute path are those that it was rendered from.
pub clean_elems-render : (es : List Text) → All IsName es → clean_elems (render true es) ≡ es
unfolding render
clean_elems-render [] h = unfold clean_elems in refl
clean_elems-render (e ∷ es) h =
    rooted_elems (join_slash (e ∷ es))
    ∙ rw (split_on-join_slash e es (pieces (e ∷ es) h), clean_loop-names [] (e ∷ es) h)
        (reverse-reverse (e ∷ es))

pub clean_abs : (s : Text) → is_abs s ≡ true → clean s ≡ render true (clean_elems s)
unfolding clean
clean_abs s a = ap (λ b. render b (clean_elems s)) a

-- Cleaning an absolute path keeps its elements.
pub clean_elems-clean : (s : Text) → is_abs s ≡ true → clean_elems (clean s) ≡ clean_elems s
clean_elems-clean s a =
    rw (clean_abs s a) (clean_elems-render (clean_elems s) (clean_elems-IsName s a))

is_abs-render : (es : List Text) → is_abs (render true es) ≡ true
unfolding render is_abs
is_abs-render es = refl

pub is_abs-clean : (s : Text) → is_abs s ≡ true → is_abs (clean s) ≡ true
is_abs-clean s a = rw (clean_abs s a) (is_abs-render (clean_elems s))

-- Cleaning an absolute path again changes nothing.
pub clean-clean : (s : Text) → is_abs s ≡ true → clean (clean s) ≡ clean s
clean-clean s a =
    clean_abs (clean s) (is_abs-clean s a)
    ∙ ap (render true) (clean_elems-clean s a)
    ∙ sym (clean_abs s a)
