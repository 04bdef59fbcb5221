-- ===== src/Queue/Paths/Inside.antt =====
-- internal/queue/paths.go: every directory at or below a root stays inside it.
use mathlib.Core.Path.{subst}
use dlq_download_queue.Prelude.{
  Bool, true, false, ◌≡◌, refl, ap, ◌∙◌, List, [], ◌∷◌, ◌++◌, none, some, All, ◌==◌, ◌&&◌, text_eq,
  text_eq_refl,
}
use dlq_download_queue.Go.Strings.{Text, codes, is_empty, has_prefix}
use dlq_download_queue.Go.Filepath.{
  is_abs, is_dotdot, clean_elems, strip_common, rel_rest, rel_elems, rel, render, join_slash,
}
use dlq_download_queue.Go.Filepath.Clean.{IsName, clean_elems-IsName}
use dlq_download_queue.Queue.Paths.{stays_inside}
use dlq_download_queue.Queue.Paths.Within.{Below}

strip_common-append : (bs ts : List Text) → strip_common bs (bs ++ ts) ≡ ([], ts)
unfolding strip_common
strip_common-append [] ts = refl
strip_common-append (b ∷ bs) ts = rw (text_eq_refl b, strip_common-append bs ts)

and_false : (a : Bool) → (a && false) ≡ false
and_false true = refl
and_false false = refl

-- A name before a slash does not begin with `../`.
name_start : (e s : Text) → IsName e → has_prefix (e ++ (b'/' ∷ s)) (codes "../") ≡ false
unfolding has_prefix is_empty text_eq
name_start [] s n = absurd (cc n.not_empty)
name_start (a ∷ []) s n = and_false (a == b'.')
name_start (a ∷ b ∷ []) s n = n.not_dotdot
name_start (a ∷ b ∷ c ∷ e) s n = rw (n.piece.1.1.0, and_false (b == b'.')) (and_false (a == b'.'))

-- A name itself neither.
name_alone : (e : Text) → IsName e → has_prefix e (codes "../") ≡ false
unfolding has_prefix is_empty text_eq
name_alone [] n = refl
name_alone (a ∷ []) n = and_false (a == b'.')
name_alone (a ∷ b ∷ []) n = rw (and_false (b == b'.')) (and_false (a == b'.'))
name_alone (a ∷ b ∷ c ∷ e) n = rw (n.piece.1.1.0, and_false (b == b'.')) (and_false (a == b'.'))

slash_dotdot : (e s : Text) → IsName e → is_dotdot (e ++ (b'/' ∷ s)) ≡ false
unfolding text_eq is_empty
slash_dotdot [] s n = refl
slash_dotdot (a ∷ []) s n = and_false (a == b'.')
slash_dotdot (a ∷ b ∷ []) s n = rw (and_false (b == b'.')) (and_false (a == b'.'))
slash_dotdot (a ∷ b ∷ c ∷ e) s n = rw (and_false (b == b'.')) (and_false (a == b'.'))

names_inside : (es : List Text) → All IsName es → stays_inside (some (render false es)) ≡ true
unfolding render join_slash text_eq has_prefix
names_inside [] h = refl
names_inside (e ∷ []) h = rw (h.0.not_dotdot, name_alone e h.0)
names_inside (e ∷ f ∷ es) h =
    rw (slash_dotdot e (join_slash (f ∷ es)) h.0, name_start e (join_slash (f ∷ es)) h.0)

All-behind : (xs ys : List Text) → All IsName (xs ++ ys) → All IsName ys
All-behind [] ys h = h
All-behind (x ∷ xs) ys h = All-behind xs ys h.1

rel_elems-abs :
    (root target : Text)
    → is_abs root ≡ true
    → is_abs target ≡ true
    → rel_elems root target
      ≡ (let (bs, ts) = strip_common (clean_elems root) (clean_elems target) in rel_rest bs ts)
unfolding rel_elems
rel_elems-abs root target r t = rw (r, t)

-- What is at or below a root is inside it.
pub Below-stays_inside :
    (root target : Text)
    → is_abs root ≡ true
    → is_abs target ≡ true
    → Below root target
    → stays_inside (rel root target) ≡ true
unfolding rel
Below-stays_inside root target r t (rest, e) =
    let names = clean_elems-IsName target t in
    let stripped =
      ap (strip_common (clean_elems root)) e ∙ strip_common-append (clean_elems root) rest in
    let es =
      rel_elems-abs root target r t
      ∙ ap (λ (x : List Text × List Text). rel_rest x.0 x.1) stripped in
    ap (λ o. stays_inside (elim o [ none ↦ none | some es ↦ some (render false es) ])) es
    ∙ names_inside rest (All-behind (clean_elems root) rest (subst (All IsName) e names))
