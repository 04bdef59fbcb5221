-- ===== src/Go/Filepath/Relative.antt =====
-- filepath.Clean of a relative path is relative.
use mathlib.Core.Path.{subst}
use dlq_download_queue.Prelude.{
  sym, Bool, true, false, ◌≡◌, refl, List, [], ◌∷◌, reverse, All, ◌||◌, Bool-cases, inl, inr,
  if◌then◌else◌, arith,
}
use dlq_download_queue.Go.Strings.{Text, is_empty, split_on, has_prefix}
use dlq_download_queue.Go.Filepath.{
  is_abs, is_dot, is_dotdot, clean_step, clean_up, clean_loop, clean_elems, join_slash, render,
  clean,
}
use dlq_download_queue.Go.Filepath.Clean.{IsPiece, split_on-IsPiece, All-reverse}

abbrev IsSolid : Text → Type 0
IsSolid e = IsPiece e × (is_empty e ≡ false)

chosen :
    (b d : Bool) (kept : List Text) (e : Text)
    → All IsSolid kept
    → IsPiece e
    → (b ≡ false → is_empty e ≡ false)
    → All IsSolid (if b then kept else if d then clean_up false kept e else e ∷ kept)
chosen true d kept e h p s = h
chosen false false kept e h p s = ((p, s refl), h)
chosen false true [] e h p s = ((p, s refl), tt)
chosen false true (f ∷ kept) e h p s = elim (Bool-cases (is_dotdot f)) [
  | inl up ↦ rw up ((p, s refl), h)
  | inr up ↦ rw up h.1
]

clean_step-IsSolid :
    (kept : List Text) (e : Text)
    → All IsSolid kept
    → IsPiece e
    → All IsSolid (clean_step false kept e)
unfolding clean_step
clean_step-IsSolid kept e h p =
    chosen (is_empty e || is_dot e) (is_dotdot e) kept e h p (λ n. ground arith)

clean_loop-IsSolid :
    (kept es : List Text)
    → All IsSolid kept
    → All IsPiece es
    → All IsSolid (clean_loop false kept es)
unfolding clean_loop
clean_loop-IsSolid kept [] h ps = h
clean_loop-IsSolid kept (e ∷ es) h ps =
    clean_loop-IsSolid (clean_step false kept e) es (clean_step-IsSolid kept e h ps.0) ps.1

render-relative : (es : List Text) → All IsSolid es → is_abs (render false es) ≡ false
unfolding render join_slash is_abs has_prefix is_empty
render-relative [] h = refl
render-relative ([] ∷ es) h = cc
render-relative ((c ∷ e) ∷ []) h = rw h.0.0.0 refl
render-relative ((c ∷ e) ∷ f ∷ es) h = rw h.0.0.0 refl

relative : (s : Text) → is_abs s ≡ false → is_abs (clean s) ≡ false
unfolding clean clean_elems
relative s a =
    subst (λ b. is_abs (render b (reverse (clean_loop b [] (split_on b'/' s)))) ≡ false) (sym a)
      (render-relative (reverse (clean_loop false [] (split_on b'/' s))) (
        All-reverse IsSolid (clean_loop false [] (split_on b'/' s))
          (clean_loop-IsSolid [] (split_on b'/' s) tt (split_on-IsPiece s))))

-- A path is absolute where its cleaned form is.
pub is_abs-clean_only : (s : Text) → is_abs (clean s) ≡ true → is_abs s ≡ true
is_abs-clean_only s h = elim (Bool-cases (is_abs s)) [
  | inl e ↦ e
  | inr e ↦ let no = relative s e in cc
]
