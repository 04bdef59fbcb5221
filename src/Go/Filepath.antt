-- ===== src/Go/Filepath.antt =====
-- Package path/filepath on Unix. A path is read as its elements, the pieces between the slashes.
pub mod Clean
pub mod Relative
pub mod Prefix
use dlq_download_queue.Prelude.{
  Bool, true, false, not, ◌||◌, List, [], ◌∷◌, ◌++◌, reverse, Option, none, some, ◌==◌,
  if◌then◌else◌, text_eq,
}
use dlq_download_queue.Go.Strings.{
  Text, codes, is_empty, has_prefix, trim_left, trim_right, split_on,
}

unfoldable pub is_abs : Text → Bool
unfolding has_prefix
is_abs s = has_prefix s (codes "/")

abbrev pub is_dot : Text → Bool
is_dot e = text_eq e (codes ".")

abbrev pub is_dotdot : Text → Bool
is_dotdot e = text_eq e (codes "..")

-- `..` on the elements kept so far.
abbrev pub clean_up : Bool → List Text → Text → List Text
clean_up true [] e = []
clean_up false [] e = e ∷ []
clean_up rooted (k ∷ kept) e = if is_dotdot k then e ∷ k ∷ kept else kept

-- One element of `Clean`, on the elements kept so far, the last one first. `..` takes the last one
-- back, is dropped at the root, and is kept where a relative path has nothing to take back.
unfoldable pub clean_step : Bool → List Text → Text → List Text
unfolding is_empty text_eq
clean_step rooted kept e =
    if is_empty e || is_dot e
    then kept
    else if is_dotdot e
    then clean_up rooted kept e
    else e ∷ kept

unfoldable pub clean_loop : Bool → List Text → List Text → List Text
unfolding clean_step
clean_loop rooted kept [] = kept
clean_loop rooted kept (e ∷ es) = clean_loop rooted (clean_step rooted kept e) es

-- The elements of `Clean s`.
unfoldable pub clean_elems : Text → List Text
unfolding clean_loop split_on is_abs
clean_elems s = reverse (clean_loop (is_abs s) [] (split_on b'/' s))

unfoldable pub join_slash : List Text → Text
join_slash [] = []
join_slash (e ∷ []) = e
join_slash (e ∷ f ∷ es) = e ++ (b'/' ∷ join_slash (f ∷ es))

unfoldable pub render : Bool → List Text → Text
unfolding join_slash
render true es = b'/' ∷ join_slash es
render false [] = codes "."
render false (e ∷ es) = join_slash (e ∷ es)

-- filepath.Clean
unfoldable pub clean : Text → Text
unfolding render clean_elems is_abs
clean s = render (is_abs s) (clean_elems s)

-- What is left of two lists of elements behind their common beginning.
unfoldable pub strip_common : List Text → List Text → List Text × List Text
unfolding text_eq
strip_common [] ts = ([], ts)
strip_common (b ∷ bs) [] = (b ∷ bs, [])
strip_common (b ∷ bs) (t ∷ ts) = if text_eq b t then strip_common bs ts else (b ∷ bs, t ∷ ts)

unfoldable pub up_all : List Text → List Text
up_all [] = []
up_all (b ∷ bs) = codes ".." ∷ up_all bs

abbrev pub differ : Bool → Bool → Bool
differ true b = not b
differ false b = b

-- A base that still has a `..` to undo is an error; any other rest is undone by one `..` each.
abbrev pub rel_rest : List Text → List Text → Option (List Text)
rel_rest [] ts = some ts
rel_rest (b ∷ bs) ts = if is_dotdot b then none else some (up_all (b ∷ bs) ++ ts)

-- The elements of `filepath.Rel(base, targ)`; `none` is its error.
unfoldable pub rel_elems : Text → Text → Option (List Text)
unfolding strip_common up_all clean_elems is_abs text_eq
rel_elems base targ =
    if differ (is_abs base) (is_abs targ)
    then none
    else let (bs, ts) = strip_common (clean_elems base) (clean_elems targ) in rel_rest bs ts

-- filepath.Rel
unfoldable pub rel : Text → Text → Option Text
unfolding rel_elems render
rel base targ = elim (rel_elems base targ) [ none ↦ none | some es ↦ some (render false es) ]

-- The piece behind the last slash.
unfoldable after_slash : Text → Text
after_slash s = elim (reverse (split_on b'/' s)) [ [] ↦ [] | e ∷ _ ↦ e ]

-- filepath.Base
unfoldable pub base : Text → Text
unfolding is_empty trim_right after_slash split_on
base s =
    let t = trim_right (λ c. c == b'/') s in
    if is_empty s then codes "." else if is_empty t then codes "/" else after_slash t

-- Everything up to the last slash, the slash included.
unfoldable up_to_slash : Text → Text
up_to_slash s = reverse (trim_left (λ c. not (c == b'/')) (reverse s))

-- filepath.Dir
unfoldable pub dir : Text → Text
unfolding clean up_to_slash trim_left
dir s = clean (up_to_slash s)

-- filepath.Join of two parts: empty parts are left out.
unfoldable pub join : Text → Text → Text
unfolding clean is_empty
join d n =
    if is_empty d
    then (if is_empty n then [] else clean n)
    else if is_empty n
    then clean d
    else clean (d ++ (b'/' ∷ n))
