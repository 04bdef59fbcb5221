-- ===== src/Dlq/Add.antt =====
-- cmd/dlq/add.go: `dlq add`. What the files, the standard input and the server answer are parameters,
-- and so is what a URL's answer is printed as.
pub mod Flags
pub mod Requests
use dlq_download_queue.Prelude.{
  ℕ, suc, Bool, true, false, not, ◌||◌, ◌&&◌, List, [], ◌∷◌, ◌++◌, Option, none, some,
  if◌then◌else◌, ◌==◌, any_of, text_eq, length, ltb, keep_if, map,
}
use dlq_download_queue.Go.Strings.{Text, codes, is_empty, has_prefix, trim_space}
use dlq_download_queue.Go.Error.{Error, Result, ok, err, plain}
use dlq_download_queue.Resolver.Mega.{then_result}

pub record AddArgs : Type 0 where
  pub urls : List Text
  pub out_dir : Text
  pub name : Text
  pub site : Text
  pub archive_password : Text
  pub api : Text
  pub files : List Text
  pub use_stdin : Bool

-- The lines of a file and of the standard input, or the error of opening or reading it.
pub record Inputs : Type 0 where
  pub getenv : Text → Text
  pub file_lines : Text → Result (List Text)
  pub stdin_lines : Result (List Text)

unfoldable pub api_base : Inputs → Text
unfolding is_empty
api_base i =
    if is_empty (i.getenv (codes "DLQ_API"))
    then codes "http://127.0.0.1:8099"
    else i.getenv (codes "DLQ_API")

unfoldable pub set_flag : Text → Text → AddArgs → Result AddArgs
unfolding text_eq
set_flag key val a =
    if text_eq key (codes "--out")
    then ok (record a { out_dir = val })
    else if text_eq key (codes "--name")
    then ok (record a { name = val })
    else if text_eq key (codes "--site")
    then ok (record a { site = val })
    else if text_eq key (codes "--archive-password")
    then ok (record a { archive_password = val })
    else if text_eq key (codes "--password")
    then ok (record a { archive_password = val })
    else if text_eq key (codes "--api")
    then ok (record a { api = val })
    else if text_eq key (codes "--file")
    then ok (record a { files = a.files ++ val ∷ [] })
    else err (plain (codes "unknown flag " ++ key))

-- The texts before and behind the first `=`.
abbrev cons_key : ℕ → Option (Text × Text) → Option (Text × Text)
cons_key c none = none
cons_key c (some (key, val)) = some (c ∷ key, val)

unfoldable pub cut_flag : Text → Option (Text × Text)
cut_flag [] = none
cut_flag (c ∷ s) = let rest = cut_flag s in if c == b'=' then some ([], s) else cons_key c rest

abbrev Parser : Type 0
Parser = AddArgs → Result AddArgs

-- The value that follows a flag, with the parser of what stands behind it.
abbrev with_next : Text → Option (Text × Parser) → Parser
with_next arg none a = err (plain (codes "missing value for " ++ arg))
with_next arg (some (val, behind)) a = then_result (set_flag arg val a) behind

abbrev flag_step : Text → Parser → Option (Text × Parser) → Option (Text × Text) → Parser
flag_step arg rest next (some (key, val)) a = then_result (set_flag key val a) rest
flag_step arg rest next none a =
    if text_eq arg (codes "--stdin")
    then rest (record a { use_stdin = true })
    else with_next arg next a

abbrev arg_step : Text → Parser → Option (Text × Parser) → Parser
arg_step arg rest next a =
    if has_prefix arg (codes "--")
    then flag_step arg rest next (cut_flag arg) a
    else rest (record a { urls = a.urls ++ arg ∷ [] })

-- The loop over the arguments.
unfoldable pub parse_flags : List Text → AddArgs → Result AddArgs
unfolding set_flag cut_flag has_prefix text_eq
parse_flags [] a = ok a
parse_flags (arg ∷ []) a = arg_step arg (parse_flags []) none a
parse_flags (arg ∷ val ∷ rest) a =
    arg_step arg (parse_flags (val ∷ rest)) (some (val, parse_flags rest)) a

unfoldable is_url_line : Text → Bool
unfolding is_empty has_prefix
is_url_line line = not (is_empty line || has_prefix line (codes "#"))

unfoldable read_urls : List Text → List Text
unfolding is_url_line trim_space
read_urls lines = keep_if is_url_line (map trim_space lines)

abbrev add_urls : AddArgs → List Text → AddArgs
add_urls a lines = record a { urls = a.urls ++ read_urls lines }

unfoldable read_files : Inputs → List Text → AddArgs → Result AddArgs
unfolding read_urls
read_files i [] a = ok a
read_files i (path ∷ paths) a =
    then_result (i.file_lines path) (λ lines. read_files i paths (add_urls a lines))

abbrev read_stdin : Inputs → AddArgs → Result AddArgs
read_stdin i a =
    if a.use_stdin then then_result i.stdin_lines (λ lines. ok (add_urls a lines)) else ok a

unfoldable pub parse_add_args : Inputs → List Text → Result AddArgs
unfolding api_base parse_flags read_urls read_files
parse_add_args i args =
    then_result
      (parse_flags args (record {
        urls = [];
        out_dir = [];
        name = [];
        site = [];
        archive_password = [];
        api = api_base i;
        files = [];
        use_stdin = false;
      }))
      (λ a. then_result (read_stdin i a) (read_files i a.files))

-- The body of a request.
pub record Payload : Type 0 where
  pub url : Text
  pub out_dir : Text
  pub name : Text
  pub site : Text
  pub archive_password : Text

-- What the command did: the requests to the server, the lines it printed, and whether it exits with 1.
pub record Outcome : Type 0 where
  pub posts : List (Text × Payload)
  pub lines : List Text
  pub had_err : Bool

-- The answer to a request, by its number: the identifier as it is printed, or the error.
abbrev pub Post : Type 0
Post = ℕ → Text → Payload → Result Text

abbrev pub payload_of : AddArgs → Text → Payload
payload_of a u = record {
  url = u;
  out_dir = a.out_dir;
  name = a.name;
  site = a.site;
  archive_password = a.archive_password;
}

abbrev pub noted : Text → Payload → Result Text → Outcome → Outcome
noted to p (ok id) o = record {
  posts = (to, p) ∷ o.posts;
  lines = (codes "queued job id " ++ (id ++ (codes " (" ++ (p.url ++ codes ")")))) ∷ o.lines;
  had_err = o.had_err;
}
noted to p (err e) o = record {
  posts = (to, p) ∷ o.posts;
  lines = (codes "error for " ++ (p.url ++ (codes ": " ++ e.text))) ∷ o.lines;
  had_err = true;
}

-- The loop over the URLs, in order, with the number of the next request; an error does not end it.
unfoldable pub post_all : Post → AddArgs → List Text → ℕ → Outcome
post_all post a [] n = record { posts = []; lines = []; had_err = false }
post_all post a (u ∷ urls) n =
    let to = a.api ++ codes "/jobs" in
    noted to (payload_of a u) (post n to (payload_of a u)) (post_all post a urls (suc n))

abbrev only_prints : List Text → Outcome
only_prints lines = record { posts = []; lines = lines; had_err = false }

abbrev usage_line : Text
usage_line =
    codes
      "usage: dlq add <url> [<url2> ...] --out /data/downloads [--name optional] [--archive-password batch-pass]"

abbrev pub add_parsed : Post → Result AddArgs → Outcome
add_parsed post (err e) = only_prints ((codes "error: " ++ e.text) ∷ usage_line ∷ [])
add_parsed post (ok a) =
    if length a.urls == 0 || is_empty a.out_dir
    then only_prints (usage_line ∷ [])
    else if ltb 1 (length a.urls) && not (is_empty a.name)
    then only_prints (codes "error: --name can only be used with a single URL" ∷ [])
    else post_all post a a.urls 0

abbrev pub is_help : Text → Bool
is_help arg = text_eq arg (codes "-h") || text_eq arg (codes "--help")

-- `usage` is the text of `dlq help`.
unfoldable pub cmd_add : Inputs → Post → List Text → List Text → Outcome
unfolding parse_add_args post_all text_eq is_empty
cmd_add i post usage args =
    if any_of is_help args then only_prints usage else add_parsed post (parse_add_args i args)
