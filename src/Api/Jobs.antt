-- ===== src/Api/Jobs.antt =====
-- internal/api/http.go: the handlers of /jobs. Log lines are left out.
pub mod Refused
pub mod Missing
use dlq_download_queue.Prelude.{
  ℕ, Bool, true, false, not, ◌&&◌, ◌||◌, List, [], ◌∷◌, Option, none, some, if◌then◌else◌, text_eq,
  ℤ, pos, negsuc, ltb_ℤ, pos_part, drop, length,
}
use dlq_download_queue.Go.Strings.{Text, codes, is_empty, has_prefix, split_on}
use dlq_download_queue.Go.Strconv.{parse_int}
use dlq_download_queue.Go.Error.{Error, Result, ok, err, plain}
use dlq_download_queue.Queue.World.{M, pure, ◌>>=◌, attempt, ignore}
use dlq_download_queue.Queue.Service
use dlq_download_queue.Queue.Service.{Service}
use dlq_download_queue.Api.Settings.{Settings}
use dlq_download_queue.Api.Http.{
  Method, get, post, other_method, Body, Request, Response, Reply, no_content, status_ok, job_list,
  job_view, created, event_list, not_allowed_method, write_err, write_queue_err, respond, with_body,
}

pub record AddJobRequest : Type 0 where
  pub url : Text
  pub out_dir : Text
  pub name : Text
  pub site : Text
  pub archive_password : Text
  pub max_attempts : ℤ

-- The attempts asked for; those of the settings where the request asks for none.
unfoldable pub attempts_asked : Option Settings → ℤ → ℤ
attempts_asked none n = n
attempts_asked (some s) n =
    if not (ltb_ℤ (pos 0) n) && ltb_ℤ (pos 0) s.max_attempts then s.max_attempts else n

unfoldable pub add_job : Service → Option Settings → AddJobRequest → M Response
unfolding is_empty attempts_asked write_queue_err
add_job s settings q =
    if is_empty q.url || is_empty q.out_dir
    then pure (write_err 400 (plain (codes "missing url or out_dir")))
    else do
      let max = attempts_asked settings q.max_attempts
      r ← attempt (Service.create_job s q.url q.out_dir q.name q.site q.archive_password max)
      pure (respond created write_queue_err r)

unfoldable handle_jobs : Service → Option Settings → Request → Body AddJobRequest → M Response
unfolding add_job text_eq
handle_jobs s settings request body = elim request.method [
  | get ↦ do
    r ← attempt (
        Service.list_jobs (request.query (codes "status"))
          (text_eq (request.query (codes "include_deleted")) (codes "1")))
    pure (respond job_list (write_err 500) r)
  | post ↦ with_body pure body (add_job s settings)
  | other_method ↦ pure not_allowed_method
]

-- The rows are numbered from 1 on: an id below 0 is no row's, as 0 is.
abbrev row_id : ℤ → ℕ
row_id = pos_part

-- An operation of the service on a job, which only POST asks for.
unfoldable pub run_action : Method → M (Unit {0}) → M Response
unfolding write_queue_err
run_action post m = do r ← attempt m; pure (respond (λ _. status_ok) write_queue_err r)
run_action _ m = pure not_allowed_method

unfoldable events_limit : Text → ℕ
unfolding parse_int
events_limit v = elim (parse_int v) [ none ↦ 0 | some n ↦ pos_part n ]

unfoldable show_events : ℕ → Text → M Response
unfolding events_limit write_queue_err
show_events id limit = do
  r ← attempt (Service.list_events id (events_limit limit))
  pure (respond event_list write_queue_err r)

unfoldable show_job : Method → ℕ → M Response
unfolding write_queue_err
show_job get id = do r ← attempt (Service.get_job id); pure (respond job_view write_queue_err r)
show_job _ id = pure not_allowed_method

-- The pause handler reads the job first, for its log line.
abbrev pub pause_logged : Service → ℕ → M (Unit {0})
pause_logged s id = do _ ← attempt (Service.get_job id); Service.pause s id

unfoldable pub job_action : Service → Request → ℕ → Text → M Response
unfolding text_eq run_action show_events
job_action s request id name =
    if text_eq name (codes "events")
    then show_events id (request.query (codes "limit"))
    else if text_eq name (codes "retry")
    then run_action request.method (Service.retry s id)
    else if text_eq name (codes "remove")
    then run_action request.method (Service.remove s id)
    else if text_eq name (codes "pause")
    then run_action request.method (pause_logged s id)
    else if text_eq name (codes "resume")
    then run_action request.method (Service.resume s id)
    else pure (record { code = 404; reply = no_content })

abbrev syntax_error : Error
syntax_error = plain (codes "strconv.ParseInt: invalid id")

abbrev job_path : Service → Request → Option ℤ → List Text → M Response
job_path s request none parts = pure (write_err 400 syntax_error)
job_path s request (some id) [] = show_job request.method (row_id id)
job_path s request (some id) (name ∷ rest) = job_action s request (row_id id) name

-- strings.TrimPrefix(path, "/jobs/")
abbrev below_jobs : Text → Text
below_jobs path = if has_prefix path (codes "/jobs/") then drop 6 path else path

abbrev job_parts : Service → Request → List Text → M Response
job_parts s request [] = pure (record { code = 404; reply = no_content })
job_parts s request (id ∷ rest) = job_path s request (parse_int id) rest

unfoldable handle_job : Service → Request → M Response
unfolding split_on has_prefix parse_int show_job job_action
handle_job s request = job_parts s request (split_on b'/' (below_jobs request.path))

abbrev run_all : Method → M (Unit {0}) → M Response
run_all post m = do r ← attempt m; pure (respond (λ _. status_ok) (write_err 500) r)
run_all _ m = pure not_allowed_method

unfoldable handle_jobs_clear : Request → M Response
handle_jobs_clear request = run_all request.method Service.clear

unfoldable handle_jobs_purge : Request → M Response
handle_jobs_purge request = run_all request.method Service.purge
