-- ===== src/Api/Browse.antt =====
-- internal/api/http.go: the handlers that list and make directories. What os.Stat, ReadDir and
-- MkdirAll answer is a parameter.
pub mod Below
use dlq_download_queue.Prelude.{
  ℕ, Bool, true, false, not, ◌&&◌, ◌||◌, List, [], ◌∷◌, ◌++◌, Option, none, some, if◌then◌else◌,
  text_eq, any_of, map, keep_if, ltb, ◌==◌,
}
use dlq_download_queue.Go.Strings.{Text, codes, is_empty, has_prefix}
use dlq_download_queue.Go.Error.{Error, Result, ok, err, plain, is_not_exist}
use dlq_download_queue.Go.Filepath.{clean, dir}
use dlq_download_queue.Api.Http.{
  Meta, get, post, other_method, Body, Request, Response, BrowseResponse, listing, made,
  not_allowed_method, write_err, with_body,
}

-- os.Stat tells whether a path is a directory; ReadDir lists names, each with whether it is one.
pub record FileSystem : Type 0 where
  pub stat : Text → Result Bool
  pub read_dir : Text → Result (List (Text × Bool))
  pub mkdir_all : Text → Result (Unit {0})

abbrev pub presets : Option Meta → List Text
presets none = []
presets (some m) = m.out_dir_presets

abbrev pub is_under : Text → Text → Bool
is_under path root = text_eq path (clean root) || has_prefix path (clean root ++ codes "/")

unfoldable pub is_allowed_path : List Text → Text → Bool
unfolding clean text_eq has_prefix
is_allowed_path roots path = any_of (is_under (clean path)) roots

unfoldable is_root_preset : List Text → Text → Bool
unfolding clean text_eq
is_root_preset roots path = any_of (λ root. text_eq (clean path) (clean root)) roots

-- The order of Go's strings, byte by byte.
unfoldable text_leb : Text → Text → Bool
text_leb [] t = true
text_leb (c ∷ s) [] = false
text_leb (c ∷ s) (d ∷ t) = let rest = text_leb s t in ltb c d || c == d && rest

unfoldable pub insert_text : Text → List Text → List Text
unfolding text_leb
insert_text x [] = x ∷ []
insert_text x (y ∷ ys) =
    let rest = insert_text x ys in if text_leb x y then x ∷ y ∷ ys else y ∷ rest

-- sort.Strings
unfoldable pub sort_strings : List Text → List Text
unfolding insert_text
sort_strings [] = []
sort_strings (x ∷ xs) = insert_text x (sort_strings xs)

unfoldable dir_names : List (Text × Bool) → List Text
unfolding sort_strings
dir_names entries =
    sort_strings (map (λ (e : Text × Bool). e.0) (keep_if (λ (e : Text × Bool). e.1) entries))

abbrev browse_entries : List Text → Text → Result (List (Text × Bool)) → Response
browse_entries roots path (err e) = write_err 500 e
browse_entries roots path (ok entries) =
    let parent = dir path in
    record {
      code = 200;
      reply = listing record {
        path = path;
        parent = if text_eq parent path then [] else parent;
        dirs = dir_names entries;
        is_root = is_root_preset roots path;
      };
    }

abbrev browse_found : FileSystem → List Text → Text → Result Bool → Response
browse_found fs roots path (err e) =
    if is_not_exist e then write_err 404 (plain (codes "path not found")) else write_err 500 e
browse_found fs roots path (ok false) = write_err 400 (plain (codes "path is not a directory"))
browse_found fs roots path (ok true) = browse_entries roots path (fs.read_dir path)

unfoldable browse_path : FileSystem → List Text → Text → Response
unfolding is_empty is_allowed_path is_root_preset dir_names dir text_eq
browse_path fs roots path =
    if is_empty path
    then record {
      code = 200;
      reply = listing record { path = []; parent = []; dirs = roots; is_root = true };
    }
    else if not (is_allowed_path roots path)
    then write_err 403 (plain (codes "path not allowed"))
    else browse_found fs roots path (fs.stat path)

unfoldable handle_browse : FileSystem → Option Meta → Request → Response
unfolding browse_path
handle_browse fs m request = elim request.method [
  | get ↦ browse_path fs (presets m) (request.query (codes "path"))
  | _ ↦ not_allowed_method
]

abbrev made_dir : Text → Result (Unit {0}) → Response
made_dir path (err e) = write_err 500 e
made_dir path (ok u) = record { code = 200; reply = made path }

unfoldable make_dir : FileSystem → List Text → Text → Response
unfolding is_empty is_allowed_path
make_dir fs roots path =
    if is_empty path
    then write_err 400 (plain (codes "path required"))
    else if not (is_allowed_path roots path)
    then write_err 403 (plain (codes "path not allowed"))
    else made_dir path (fs.mkdir_all path)

unfoldable handle_browse_mkdir : FileSystem → Option Meta → Request → Body Text → Response
unfolding make_dir
handle_browse_mkdir fs m request body = elim request.method [
  | post ↦ with_body (λ r. r) body (make_dir fs (presets m))
  | _ ↦ not_allowed_method
]
