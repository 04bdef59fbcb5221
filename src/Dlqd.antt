-- ===== src/Dlqd.antt =====
-- cmd/dlqd/main.go: what the daemon takes from its environment, and the resolvers that it registers.
pub mod Presets
use dlq_download_queue.Prelude.{
  ℕ, Bool, true, false, not, List, [], ◌∷◌, ◌++◌, Option, none, some, if◌then◌else◌, ◌==◌, any_of,
  text_eq, length, reverse,
}
use dlq_download_queue.Go.Strings.{
  Text, codes, is_empty, has_prefix, contains, split_on, trim_space,
}
use dlq_download_queue.Go.Sort.{sort_strings}
use dlq_download_queue.Resolver.{Resolver, Registry, new_registry, register_site}

-- os.Getenv, which is the empty text for a variable that is not set, and os.Environ.
pub record Process : Type 0 where
  pub getenv : Text → Text
  pub environ : List Text

unfoldable pub getenv : Process → Text → Text → Text
unfolding is_empty
getenv p key default = if is_empty (p.getenv key) then default else p.getenv key

unfoldable http_listen_addr : Process → Text
unfolding is_empty getenv
http_listen_addr p =
    if is_empty (p.getenv (codes "DLQ_HTTP_ADDR"))
    then getenv p (codes "DLQ_HTTP_HOST") (codes "0.0.0.0")
      ++ (codes ":" ++ getenv p (codes "DLQ_HTTP_PORT") (codes "8099"))
    else p.getenv (codes "DLQ_HTTP_ADDR")

-- The last piece of a mount of three pieces or more where it is a path, else the one before it.
abbrev last_path : List Text → Text
last_path (last ∷ before ∷ rest) =
    if contains (trim_space last) (codes "/") then trim_space last else trim_space before
last_path _ = []

-- By the pieces between colons.
abbrev container_piece : List Text → Text
container_piece (host ∷ path ∷ []) = trim_space path
container_piece pieces = last_path (reverse pieces)

unfoldable container_path_from_mount : Text → Text
unfolding is_empty contains split_on trim_space
container_path_from_mount mount =
    if is_empty mount
    then []
    else if not (contains mount (codes ":"))
    then mount
    else container_piece (split_on b':' mount)

-- What stands behind the first `=`.
unfoldable env_value : Text → Option Text
env_value [] = none
env_value (c ∷ s) = let rest = env_value s in if c == b'=' then some s else rest

abbrev non_empty : Text → Option Text
non_empty t = if is_empty t then none else some t

abbrev preset_of_value : Option Text → Option Text
preset_of_value none = none
preset_of_value (some v) =
    if is_empty (trim_space v) then none else non_empty (container_path_from_mount (trim_space v))

-- The preset that an entry of the environment comes to.
unfoldable pub preset_of : Text → Option Text
unfolding has_prefix env_value container_path_from_mount trim_space is_empty
preset_of entry =
    if has_prefix entry (codes "DATA_") then preset_of_value (env_value entry) else none

-- The loop over the entries, with the presets so far; `seen` has the same paths as they.
abbrev pub add_preset : List Text → Option Text → List Text
add_preset out none = out
add_preset out (some path) = if any_of (text_eq path) out then out else out ++ path ∷ []

unfoldable pub collect_presets : List Text → List Text → List Text
unfolding preset_of text_eq
collect_presets out [] = out
collect_presets out (entry ∷ rest) = collect_presets (add_preset out (preset_of entry)) rest

unfoldable pub out_dir_presets : Process → List Text
unfolding collect_presets sort_strings
out_dir_presets p = sort_strings (collect_presets [] p.environ)

-- The resolvers, in the order in which they are asked, and their names.
unfoldable daemon_registry : Resolver → Resolver → Resolver → Registry
unfolding new_registry register_site
daemon_registry webshare mega http = register_site (codes "https") (some http) (
    register_site (codes "http") (some http) (
      register_site (codes "mega") (some mega) (
        register_site (codes "webshare") (some webshare)
          (new_registry (webshare ∷ mega ∷ http ∷ [])))))
