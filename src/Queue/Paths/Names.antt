-- ===== src/Queue/Paths/Names.antt =====
-- internal/queue/paths.go: the names of files that are accepted hold no path separator.
use dlq_download_queue.Go.Error.{Error, err}
use dlq_download_queue.Go.Strings.{Text, is_empty, contains_any, contains_byte, split_on, codes}
use dlq_download_queue.Go.Filepath.{
  is_abs, clean, clean_elems, clean_step, clean_loop, render, join_slash, is_dot, is_dotdot,
}
use dlq_download_queue.Go.Filepath.Clean.{IsPiece, split_on-piece}
use dlq_download_queue.Queue.Paths.{clean_user_filename, sanitize_filename, separators, ok}
use mathlib.Core.Path.{subst}
use dlq_download_queue.Prelude.{
  text_eq→eq, ◌≡◌, refl, ◌∙◌, sym, ap, Bool, true, false, ◌||◌, ◌⊎◌, inl, inr, [], ◌∷◌,
  if◌then◌else◌, Bool-cases, arith, text_eq,
}

-- A name that stands for itself in a directory.
abbrev pub IsFlat : Text → Type 0
IsFlat c = (contains_any c separators ≡ false) × ((is_dot c ≡ false) × (is_dotdot c ≡ false))

flat-IsPiece : (s : Text) → contains_any s separators ≡ false → IsPiece s
unfolding contains_any contains_byte
flat-IsPiece [] h = tt
flat-IsPiece (c ∷ s) h = (ground arith, flat-IsPiece s (ground arith))

one_step : (s : Text) → is_empty s ≡ false → is_dot s ≡ false → clean_step false [] s ≡ s ∷ []
unfolding clean_step
one_step s e d = ground arith

clean_elems-flat :
    (s : Text)
    → is_empty s ≡ false
    → is_abs s ≡ false
    → contains_any s separators ≡ false
    → is_dot s ≡ false
    → clean_elems s ≡ s ∷ []
unfolding clean_elems clean_loop
clean_elems-flat s e a h d = rw (a, split_on-piece s (flat-IsPiece s h), one_step s e d) refl

clean-flat :
    (s : Text)
    → is_empty s ≡ false
    → is_abs s ≡ false
    → contains_any s separators ≡ false
    → is_dot s ≡ false
    → clean s ≡ s
unfolding clean render join_slash
clean-flat s e a h d =
    ap (λ b. render b (clean_elems s)) a ∙ ap (render false) (clean_elems-flat s e a h d)

clean-dot : (s : Text) → is_dot s ≡ true → is_dot (clean s) ≡ true
unfolding clean clean_elems clean_loop clean_step render split_on is_abs is_empty text_eq
clean-dot s d = rw (text_eq→eq s (codes ".") d) refl

accepted :
    (missing slashes odd : Bool) (m n : Error) (t c : Text)
    → (if missing then ok [] else if slashes then err m else if odd then err n else ok t) ≡ ok c
    → ((missing ≡ true) × ([] ≡ c))
      ⊎ ((missing ≡ false) × ((slashes ≡ false) × ((odd ≡ false) × (t ≡ c))))
accepted true slashes odd m n t c h = inl (refl, ground arith)
accepted false true odd m n t c h = cc
accepted false false true m n t c h = cc
accepted false false false m n t c h = inr (refl, (refl, (refl, ground arith)))

nil : (s : Text) → is_empty s ≡ true → [] ≡ s
unfolding is_empty
nil [] e = refl
nil (c ∷ s) e = cc

kept :
    (name : Text)
    → is_empty name ≡ false
    → (is_abs name || contains_any name separators) ≡ false
    → (is_dot (clean name) || is_dotdot (clean name) || text_eq (clean name) (codes "/")) ≡ false
    → (clean name ≡ name) × IsFlat name
kept name e s o = elim (Bool-cases (is_dot name)) [
  | inl d ↦ let dot = clean-dot name d in ground arith
  | inr d ↦
      let abs : is_abs name ≡ false = ground arith in
      let flat : contains_any name separators ≡ false = ground arith in
      let same = clean-flat name e abs flat d in
      let up : is_dotdot (clean name) ≡ false = ground arith in
      (same, (flat, (d, subst (λ t. is_dotdot t ≡ false) same up)))
]

-- A name that CreateJob accepts is kept as it was asked for. It is empty, or holds no path separator
-- and is neither `.` nor `..`.
pub clean_user_filename-IsFlat :
    (name c : Text)
    → clean_user_filename name ≡ ok c
    → (c ≡ name) × ((is_empty c ≡ true) ⊎ IsFlat c)
unfolding clean_user_filename is_empty
clean_user_filename-IsFlat name c h =
    elim (accepted (is_empty name) (is_abs name || contains_any name separators) _ _ _ (clean name)
      c h) [
        | inl (e, same) ↦ (sym same ∙ nil name e, inl (subst (λ t. is_empty t ≡ true) same refl))
        | inr (e, (s, (o, same))) ↦
            let (whole, flat) = kept name e s o in
            (sym same ∙ whole, inr (subst IsFlat (sym whole ∙ same) flat))
      ]

-- A name that a resolver reports is used without path separators, and never as `.`.
pub sanitize_filename_flat :
    (name : Text)
    → (contains_any (sanitize_filename name) separators ≡ false)
      × (is_dot (sanitize_filename name) ≡ false)
unfolding sanitize_filename contains_any text_eq
sanitize_filename_flat name = (ground arith, ground arith)
