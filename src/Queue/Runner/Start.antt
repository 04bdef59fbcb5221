-- ===== src/Queue/Runner/Start.antt =====
-- internal/queue/runner.go: resolving a claimed job and starting it in aria2.
pub mod Keeps
use dlq_download_queue.Prelude.{
  ℕ, ◌+◌, Bool, true, false, not, ◌&&◌, ◌||◌, List, [], ◌∷◌, ◌++◌, some, ◌==◌, if◌then◌else◌,
  text_eq, any_of,
}
use dlq_download_queue.Go.Strings.{Text, codes, is_empty, trim_space, equal_fold}
use dlq_download_queue.Go.Error.{Error, Result, ok, err, is_not_exist}
use dlq_download_queue.Go.Filepath.{join}
use dlq_download_queue.Queue.Job.{
  Status, queued, resolving, downloading, paused, decrypting, Job, info, error_level, is_some,
}
use dlq_download_queue.Queue.World.{
  Options, M, pure, fail, ◌>>=◌, ◌>>◌, now, request, attempt, ignore, ask, add_uri, remove_file,
}
use dlq_download_queue.Queue.Paths.{sanitize_filename}
use dlq_download_queue.Queue.Store
use dlq_download_queue.Queue.Store.Marks
use dlq_download_queue.Resolver.{ResolvedTarget, resolve_with_site}
use dlq_download_queue.Queue.Runner.{
  Runner, Failure, map_resolver_error, minutes, output_name_for_job,
}

-- `options[k]`; a missing key is the empty text.
unfoldable option : Text → Options → Text
unfolding text_eq
option k [] = []
option k ((j, v) ∷ m) = if text_eq j k then v else option k m

-- `options[k] = v`
unfoldable set_option : Text → Text → Options → Options
unfolding text_eq
set_option k v [] = (k, v) ∷ []
set_option k v ((j, u) ∷ m) = if text_eq j k then (k, v) ∷ m else (j, u) ∷ set_option k v m

-- The options of the resolver over the ones that are set; empty values are left out.
unfoldable merge_options : Options → Options → Options
unfolding set_option is_empty
merge_options [] opts = opts
merge_options ((k, v) ∷ m) opts = merge_options m (if is_empty v then opts else set_option k v opts)

-- The options of AddURI before the headers: the directory, the output name and the resolver's.
unfoldable pub start_options : Job → Text → Options → Options
unfolding merge_options sanitize_filename is_empty
start_options job filename extra =
    let name = sanitize_filename job.name in
    let opts : Options = (codes "dir", job.out_dir) ∷ [] in
    merge_options extra (
      if not (is_empty name)
      then set_option (codes "out") name opts
      else if not (is_empty filename)
      then set_option (codes "out") filename opts
      else opts)

unfoldable needs_fresh_start : Options → Bool
unfolding option equal_fold trim_space
needs_fresh_start opts =
    equal_fold (trim_space (option (codes "continue") opts)) (codes "false")
    || equal_fold (trim_space (option (codes "always-resume") opts)) (codes "false")

unfoldable is_output_conflict_active_status : Status → Bool
is_output_conflict_active_status queued = true
is_output_conflict_active_status resolving = true
is_output_conflict_active_status downloading = true
is_output_conflict_active_status paused = true
is_output_conflict_active_status decrypting = true
is_output_conflict_active_status _ = false

-- Another live job writes to the same file and has not ended.
unfoldable conflicts : Job → Text → Job → Bool
unfolding text_eq is_output_conflict_active_status output_name_for_job
conflicts job out_name other =
    not (other.id == job.id)
    && text_eq other.out_dir job.out_dir
    && is_output_conflict_active_status other.status
    && text_eq (output_name_for_job other) out_name

abbrev any_conflict : Job → Text → Result (List Job) → Bool
any_conflict job out_name (ok jobs) = any_of (conflicts job out_name) jobs
any_conflict job out_name (err e) = false

unfoldable pub has_active_output_conflict : Job → Text → M Bool
unfolding conflicts is_empty
has_active_output_conflict job out_name =
    if is_empty out_name
    then pure false
    else do jobs ← attempt (Store.list_jobs [] false); pure (any_conflict job out_name jobs)

abbrev control_path : Job → Text → Text
control_path job out_name = join job.out_dir out_name ++ codes ".aria2"

-- os.Remove, where a file that is not there is no error.
abbrev pub removed_file : Result (Unit {0}) → M (Unit {0})
removed_file (ok _) = pure tt
removed_file (err e) = if is_not_exist e then pure tt else fail e

abbrev pub remove_control : Runner → Job → Text → Bool → M (Unit {0})
remove_control r job out_name true = pure tt
remove_control r job out_name false = do
  let path = control_path job out_name
  done ← attempt (request (remove_file path) (r.remove path))
  removed_file done

unfoldable pub prepare_output_for_start : Runner → Job → Text → Options → M (Unit {0})
unfolding needs_fresh_start has_active_output_conflict request join
prepare_output_for_start r job out_name opts = if not (needs_fresh_start opts) then pure tt else do
  conflict ← has_active_output_conflict job out_name
  remove_control r job out_name conflict

-- The lines `name: value`, joined by newlines, in the order of the list; Go's order is that of the
-- iteration over a map, which is not fixed.
unfoldable header_lines : List (Text × Text) → Text
header_lines [] = []
header_lines ((k, v) ∷ []) = k ++ (codes ": " ++ v)
header_lines ((k, v) ∷ h ∷ hs) = k ++ (codes ": " ++ (v ++ (10 ∷ header_lines (h ∷ hs))))

unfoldable pub with_headers : List (Text × Text) → Options → Options
unfolding set_option header_lines
with_headers [] opts = opts
with_headers (h ∷ hs) opts = set_option (codes "header") (header_lines (h ∷ hs)) opts

-- Report a failure as an event, and store it with the time of the next attempt.
unfoldable pub fail_job : ℕ → Text → Text → Text → ℕ → M (Unit {0})
fail_job id event code msg retry_at = do
  ignore (Store.add_event id error_level event)
  Marks.mark_failed id code msg (some retry_at)

-- The failure of a step after which the job waits some minutes.
unfoldable pub fail_in : ℕ → Text → Text → Text → ℕ → M (Unit {0})
unfolding fail_job now
fail_in id event code msg wait = do
  ignore (Store.add_event id error_level event)
  at ← now
  Marks.mark_failed id code msg (some (at + minutes wait))

unfoldable pub resolve_failed : ℕ → Error → M (Unit {0})
unfolding fail_job map_resolver_error now
resolve_failed id e = do
  at ← now
  let f : Failure = map_resolver_error e at
  fail_job id f.msg f.code f.msg f.retry_at

abbrev pub added : Job → Result Text → M (Unit {0})
added job (err e) = fail_in job.id e.text (codes "download_start_failed") e.text 10
added job (ok gid) = do
  ignore (Store.add_event job.id info (codes "download started"))
  Marks.mark_downloading job.id (codes "aria2") gid

unfoldable pub start_in_engine : Runner → Job → ResolvedTarget → Options → M (Unit {0})
unfolding fail_in request
start_in_engine r job res opts = do
  gid ← attempt (request (add_uri res.url opts) (r.downloader.add_uri res.url opts))
  added job gid

abbrev pub prepared : Runner → Job → ResolvedTarget → Options → Result (Unit {0}) → M (Unit {0})
prepared r job res opts (ok _) = start_in_engine r job res (with_headers res.headers opts)
prepared r job res opts (err e) =
    fail_in job.id (codes "prepare output failed: " ++ e.text) (codes "prepare_output_failed")
      e.text 10

-- The part of resolveAndStart behind the check of the engine.
unfoldable pub prepare_and_start : Runner → Job → ResolvedTarget → Options → M (Unit {0})
unfolding option sanitize_filename is_empty prepare_output_for_start with_headers fail_in
    start_in_engine
prepare_and_start r job res opts =
    let out_name = sanitize_filename (option (codes "out") opts) in
    if is_empty out_name
    then prepared r job res opts (ok tt)
    else do p ← attempt (prepare_output_for_start r job out_name opts); prepared r job res opts p

abbrev pub resolved : Runner → Job → Result ResolvedTarget → M (Unit {0})
resolved r job (err e) = resolve_failed job.id e
resolved r job (ok res) = do
  let filename = sanitize_filename res.filename
  Marks.update_resolving job.id res.url filename res.size
  if not (text_eq res.kind (codes "aria2"))
      then fail_in job.id (codes "resolver returned unsupported engine")
          (codes "unsupported_engine") (codes "resolver returned unsupported engine") 30
      else prepare_and_start r job res (start_options job filename res.options)

abbrev is_deleted_row : Result Job → Bool
is_deleted_row (ok j) = is_some j.deleted_at
is_deleted_row (err e) = false

unfoldable pub resolve_and_start : Runner → Job → M (Unit {0})
unfolding sanitize_filename text_eq resolve_failed start_options prepare_and_start fail_in ask
    resolve_with_site
resolve_and_start r job = do
  latest ← attempt (Store.get_job job.id)
  if is_deleted_row latest
      then Store.add_event job.id info (codes "skipped deleted job")
      else do res ← ask (resolve_with_site r.registry job.site job.url); resolved r job res
