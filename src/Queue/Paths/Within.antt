-- ===== src/Queue/Paths/Within.antt =====
-- A directory that CreateJob accepts lies in one of the configured roots.
use dlq_download_queue.Go.Filepath.Relative.{is_abs-clean_only}
use mathlib.Core.List.{Memᴰ}
use mathlib.Core.Path.{subst}
use dlq_download_queue.Prelude.{
  Bool, true, false, not, ◌≡◌, refl, List, [], ◌∷◌, ◌++◌, none, some, All, arith, if◌then◌else◌,
  Bool-cases, inl, inr, text_eq, text_eq→eq,
}
use dlq_download_queue.Go.Strings.{Text, codes, is_empty, has_prefix}
use dlq_download_queue.Go.Error.{ok, err, Error}
use dlq_download_queue.Go.Filepath.{
  is_abs, is_dotdot, clean, clean_elems, strip_common, up_all, rel_rest, rel_elems, rel, render,
  join_slash,
}
use dlq_download_queue.Go.Filepath.Clean.{IsName, clean_elems-IsName, clean-clean}
use dlq_download_queue.Queue.Paths.{stays_inside, allowed_by, clean_out_dir, is_nil}

-- The elements of the target are those of the root and more behind them.
abbrev pub Below : Text → Text → Type 0
Below root target = (rest : List Text) × (clean_elems target ≡ clean_elems root ++ rest)

stripped :
    (d : Bool) (b t : Text) (bs ts : List Text)
    → text_eq b t ≡ d
    → (if d then strip_common bs ts else (b ∷ bs, t ∷ ts)).0 ≡ []
    → ((strip_common bs ts).0 ≡ [] → ts ≡ bs ++ (strip_common bs ts).1)
    → t ∷ ts ≡ (b ∷ bs) ++ (if d then strip_common bs ts else (b ∷ bs, t ∷ ts)).1
stripped true b t bs ts e h same = let head : b ≡ t = text_eq→eq b t e in let rest = same h in cc
stripped false b t bs ts e h same = cc

strip_common-nil :
    (bs ts : List Text) → (strip_common bs ts).0 ≡ [] → ts ≡ bs ++ (strip_common bs ts).1
unfolding strip_common
strip_common-nil [] ts h = refl
strip_common-nil (b ∷ bs) [] h = cc
strip_common-nil (b ∷ bs) (t ∷ ts) h = stripped _ b t bs ts refl h (strip_common-nil bs ts)

-- A relative path that begins with `..` leads out.
up_leads_out : (es : List Text) → stays_inside (some (render false (codes ".." ∷ es))) ≡ false
unfolding render join_slash text_eq has_prefix
up_leads_out [] = refl
up_leads_out (e ∷ es) = refl

leads_out :
    (d : Bool) (b : Text) (bs ts : List Text)
    → stays_inside (elim (if d then none else some (up_all (b ∷ bs) ++ ts)) [
      | none ↦ none
      | some es ↦ some (render false es)
    ])
      ≡ true
    → b ∷ bs ≡ []
unfolding up_all
leads_out true b bs ts h = cc
leads_out false b bs ts h = let out = up_leads_out (up_all bs ++ ts) in cc

rel_rest-stays :
    (bs ts : List Text)
    → stays_inside (elim (rel_rest bs ts) [ none ↦ none | some es ↦ some (render false es) ]) ≡ true
    → bs ≡ []
rel_rest-stays [] ts h = refl
rel_rest-stays (b ∷ bs) ts h = leads_out (is_dotdot b) b bs ts h

rel-Below :
    (d : Bool) (bs ts : List Text)
    → stays_inside
        (elim (if d then none else rel_rest (strip_common bs ts).0 (strip_common bs ts).1) [
          | none ↦ none
          | some es ↦ some (render false es)
        ])
      ≡ true
    → ts ≡ bs ++ (strip_common bs ts).1
rel-Below true bs ts h = cc
rel-Below false bs ts h = strip_common-nil bs ts (rel_rest-stays _ _ h)

pub stays_inside-Below :
    (root target : Text) → stays_inside (rel root target) ≡ true → Below root target
unfolding rel rel_elems
stays_inside-Below root target h = (_, rel-Below _ (clean_elems root) (clean_elems target) h)

-- One of the roots has the target below it.
allowed_by-Below :
    (target : Text) (roots : List Text)
    → allowed_by target roots ≡ true
    → (root : Text) × Memᴰ root roots × Below (clean root) target
unfolding allowed_by
allowed_by-Below target [] h = cc
allowed_by-Below target (root ∷ roots) h =
    elim (Bool-cases (stays_inside (rel (clean root) target))) [
      | inl e ↦ (root, Memᴰ.head refl, stays_inside-Below (clean root) target e)
      | inr e ↦
          let (found, at, below) = allowed_by-Below target roots (ground arith) in
          (found, Memᴰ.tail at, below)
    ]

accepted :
    (missing empty abs allowed : Bool) (m n k l : Error) (t c : Text)
    → (if missing
        then err m
        else if empty
        then err n
        else if not abs
        then err k
        else if not allowed
        then err l
        else ok t)
      ≡ ok c
    → (abs ≡ true) × ((allowed ≡ true) × (t ≡ c))
accepted missing empty abs allowed m n k l t c h = ground arith

-- A directory that CreateJob accepts is absolute and clean, its elements are names (none is empty,
-- `.` or `..`), and one of the configured roots, cleaned, has it below or equal to it.
pub clean_out_dir-Below :
    (out_dir : Text) (roots : List Text) (c : Text)
    → clean_out_dir out_dir roots ≡ ok c
    → (is_abs c ≡ true)
      × (clean c ≡ c)
      × (All IsName (clean_elems c) × ((root : Text) × Memᴰ root roots × Below (clean root) c))
unfolding clean_out_dir
clean_out_dir-Below out_dir roots c h =
    let (abs, (allowed, same)) =
      accepted (is_empty out_dir) (is_nil roots) _ _ _ _ _ _ (clean out_dir) c h in
    let rooted : is_abs c ≡ true = subst (λ t. is_abs t ≡ true) same abs in
    let inside : allowed_by c roots ≡ true = subst (λ t. allowed_by t roots ≡ true) same allowed in
    (
      rooted,
      subst (λ t. clean t ≡ t) same (clean-clean out_dir (is_abs-clean_only out_dir abs)),
      (clean_elems-IsName c rooted, allowed_by-Below c roots inside),
    )
