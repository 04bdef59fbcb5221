-- ===== src/Api/Browse/Below.antt =====
-- internal/api/http.go, `isAllowedPath`, against internal/queue/paths.go, which checks the same roots
-- by filepath.Rel.
use dlq_download_queue.Prelude.{
  Bool, true, false, ◌≡◌, refl, sym, ap, ◌∙◌, ◌↔◌, ◌||◌, List, [], ◌∷◌, ◌++◌, All, text_eq,
}
use dlq_download_queue.Go.Strings.{Text, codes}
use dlq_download_queue.Go.Filepath.{is_abs, clean, clean_elems, rel, render}
use dlq_download_queue.Go.Filepath.Clean.{
  clean_elems-IsName, clean_abs, is_abs-clean, clean_elems-clean, IsName,
}
use dlq_download_queue.Go.Filepath.Prefix.{Extends, is_at_or_below, at_or_below_iff}
use dlq_download_queue.Queue.Paths.{allowed_by, stays_inside}
use dlq_download_queue.Queue.Paths.Within.{Below, stays_inside-Below}
use dlq_download_queue.Queue.Paths.Inside.{Below-stays_inside}
use dlq_download_queue.Api.Browse.{is_under, is_allowed_path}

-- A root is absolute, and is not the root directory.
abbrev IsProperRoot : Text → Type 0
IsProperRoot root = (is_abs root ≡ true) × (text_eq (clean root) (codes "/") ≡ false)

same_test : (a b : Bool) → ((a ≡ true) ↔ (b ≡ true)) → a ≡ b
same_test true b h = sym (h.0 refl)
same_test false true h = h.1 refl
same_test false false h = refl

-- Over rendered elements.
rendered_iff :
    (rs ps : List Text)
    → All IsName rs
    → All IsName ps
    → text_eq (render true rs) (codes "/") ≡ false
    → (is_at_or_below (render true ps) (render true rs) ≡ true) ↔ Extends rs ps
unfolding render text_eq
rendered_iff [] ps hr hp h = absurd cc
rendered_iff (r ∷ rs) ps hr hp h = at_or_below_iff r rs ps hr hp

under_iff :
    (path root : Text)
    → is_abs path ≡ true
    → IsProperRoot root
    → (is_under (clean path) root ≡ true) ↔ Below (clean root) (clean path)
under_iff path root a (b, proper) =
    let core =
      rendered_iff (clean_elems root) (clean_elems path) (clean_elems-IsName root b)
        (clean_elems-IsName path a)
        (ap (λ t. text_eq t (codes "/")) (sym (clean_abs root b)) ∙ proper) in
    let same =
      ap (λ x. is_at_or_below x (clean root)) (clean_abs path a)
      ∙ ap (is_at_or_below (render true (clean_elems path))) (clean_abs root b) in
    let path_elems = clean_elems-clean path a in
    let root_elems = clean_elems-clean root b in
    (
      λ h.
          let (rest, e) = core.0 (sym same ∙ h) in
          (rest, path_elems ∙ e ∙ ap (λ l. l ++ rest) (sym root_elems)),
      λ (rest, e). same ∙ core.1 (rest, sym path_elems ∙ e ∙ ap (λ l. l ++ rest) root_elems),
    )

-- Per root.
same_root :
    (path root : Text)
    → is_abs path ≡ true
    → IsProperRoot root
    → is_under (clean path) root ≡ stays_inside (rel (clean root) (clean path))
same_root path root a (b, proper) =
    let iff = under_iff path root a (b, proper) in
    same_test (is_under (clean path) root) (stays_inside (rel (clean root) (clean path))) (
      λ h.
          Below-stays_inside (clean root) (clean path) (is_abs-clean root b) (is_abs-clean path a)
            (iff.0 h),
      λ h. iff.1 (stays_inside-Below (clean root) (clean path) h),
    )

-- For an absolute path, and roots that are absolute and not the root directory, the check of the
-- browsing handlers, by a prefix of the text, accepts the path exactly where the check of
-- CreateJob, by filepath.Rel, accepts the cleaned path.
pub is_allowed_path-allowed_by :
    (path : Text) (roots : List Text)
    → is_abs path ≡ true
    → All IsProperRoot roots
    → is_allowed_path roots path ≡ allowed_by (clean path) roots
unfolding is_allowed_path allowed_by
is_allowed_path-allowed_by path [] a h = refl
is_allowed_path-allowed_by path (root ∷ roots) a (b, h) =
    let here = same_root path root a b in
    let there = is_allowed_path-allowed_by path roots a h in
    ap (λ x. x || is_allowed_path roots path) here
    ∙ ap (λ x. stays_inside (rel (clean root) (clean path)) || x) there
