-- ===== src/Queue/Paths.antt =====
-- internal/queue/paths.go: the directories and names that a client may ask for.
pub mod Within
pub mod Names
pub mod Inside
use dlq_download_queue.Prelude.{
  Bool, true, false, not, ◌||◌, List, [], ◌∷◌, Option, none, some, if◌then◌else◌, text_eq,
}
use dlq_download_queue.Go.Strings.{Text, codes, is_empty, trim_space, has_prefix, contains_any}
use dlq_download_queue.Go.Error.{Result, ok, err, plain}
use dlq_download_queue.Go.Filepath.{is_abs, is_dotdot, is_dot, clean, rel, base}

-- `rel` does not lead out of the root.
abbrev pub stays_inside : Option Text → Bool
stays_inside none = false
stays_inside (some r) = not (is_dotdot r || has_prefix r (codes "../"))

unfoldable pub allowed_by : Text → List Text → Bool
unfolding clean rel has_prefix text_eq
allowed_by target [] = false
allowed_by target (root ∷ roots) = stays_inside (rel (clean root) target) || allowed_by target roots

abbrev pub is_nil {ℓ} : {A : Type ℓ} → List A → Bool
is_nil [] = true
is_nil (x ∷ xs) = false

unfoldable pub clean_out_dir : Text → List Text → Result Text
unfolding is_empty clean is_abs allowed_by
clean_out_dir out_dir roots =
    let c = clean out_dir in
    if is_empty out_dir
    then err (plain (codes "missing out_dir"))
    else if is_nil roots
    then err (plain (codes "no DATA_* volumes configured"))
    else if not (is_abs c)
    then err (plain (codes "out_dir must be absolute"))
    else if not (allowed_by c roots)
    then err (plain (codes "out_dir is not within an allowed DATA_* volume"))
    else ok c

-- The two path separators that a name may not hold, `/` and `\`.
abbrev pub separators : Text
separators = b'/' ∷ 92 ∷ []

unfoldable pub clean_user_filename : Text → Result Text
unfolding is_empty clean is_abs contains_any text_eq
clean_user_filename name =
    let c = clean name in
    if is_empty name
    then ok []
    else if is_abs name || contains_any name separators
    then err (plain (codes "name must not contain path separators"))
    else if is_dot c || is_dotdot c || text_eq c (codes "/")
    then err (plain (codes "invalid name"))
    else ok c

unfoldable pub sanitize_filename : Text → Text
unfolding is_empty base trim_space contains_any text_eq
sanitize_filename name =
    let b = base (trim_space name) in
    if is_empty name
    then []
    else if is_empty b || is_dot b || text_eq b (codes "/")
    then []
    else if contains_any b separators
    then []
    else b
