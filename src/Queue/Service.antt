-- ===== src/Queue/Service.antt =====
-- internal/queue/service.go: what the HTTP API calls. `redact` is redactURLForLog, whose parsing and
-- printing of URLs is `net/url`'s.
pub mod Done
pub mod Requested
pub mod Created
use dlq_download_queue.Prelude.{
  ℕ, List, [], ◌++◌, Option, none, some, if◌then◌else◌, ℤ, pos, ltb_ℤ, pos_part, Bool, map, ◌||◌,
}
use dlq_download_queue.Go.Strings.{Text, codes, is_empty, trim_space}
use dlq_download_queue.Go.Strconv.{itoa}
use dlq_download_queue.Go.Error.{
  Error, Result, wrap, is_engine_refusal, downloader_not_configured, missing_engine_gid,
  action_not_allowed, ok, err, is_gid_not_found,
}
use dlq_download_queue.Queue.Job.{
  queued, Job, info, same_status, Status, Event, decrypt_failed, paused, resolving,
}
use dlq_download_queue.Queue.World
use dlq_download_queue.Queue.World.{M, pure, ◌>>=◌, ◌>>◌, ignore, request, fail, attempt}
use dlq_download_queue.Queue.Engine.{Downloader}
use dlq_download_queue.Queue.Status.{HostOf, display_status, is_webshare_job}
use dlq_download_queue.Queue.Paths.{clean_out_dir, clean_user_filename}
use dlq_download_queue.Queue.Store
use dlq_download_queue.Queue.Store.Marks

pub record Service : Type 0 where
  pub downloader : Option Downloader
  pub allowed_roots : List Text
  pub host : HostOf
  pub redact : Text → Text

abbrev pub not_configured_error : Error
not_configured_error = record {
  kind = downloader_not_configured;
  text = codes "downloader_not_configured";
}

abbrev missing_gid_error : Error
missing_gid_error = record { kind = missing_engine_gid; text = codes "missing_engine_gid" }

abbrev not_allowed_error : Error
not_allowed_error = record { kind = action_not_allowed; text = codes "action_not_allowed" }

-- A refusal of aria2 becomes the service's own error; any other error is passed on.
abbrev map_refusal : Error → Error
map_refusal e = if is_engine_refusal e then wrap not_allowed_error e else e

abbrev pub lift : {A : Type 0} → Result A → M A
lift r env w = (r, w)

-- The attempts that a request asks for; five where it asks for none.
abbrev pub attempts_or_default : ℤ → ℕ
attempts_or_default n = if ltb_ℤ (pos 0) n then pos_part n else 5

abbrev pub password_column : Text → Option Text
password_column p = if is_empty p then none else some p

abbrev label : Text → Text → Text
label l t = if is_empty t then [] else l ++ t

-- The row that CreateJob hands to the store; the columns that it leaves out have Go's zero values.
unfoldable pub requested_job : Text → Text → Text → Text → Text → ℕ → Job
unfolding is_empty
requested_job url out name site password max = record {
  id = 0;
  url = url;
  site = site;
  out_dir = out;
  name = name;
  archive_password = password_column password;
  resolved_url = none;
  filename = none;
  size_bytes = none;
  bytes_done = pos 0;
  download_speed = none;
  eta_seconds = none;
  status = queued;
  error = none;
  error_code = none;
  engine = [];
  engine_gid = none;
  attempts = 0;
  max_attempts = max;
  next_retry_at = none;
  created_at = 0;
  updated_at = 0;
  started_at = none;
  completed_at = none;
  deleted_at = none;
}

unfoldable pub added_message : (Text → Text) → Text → Text → Text → Text → Text → ℕ → Text
unfolding is_empty itoa
added_message redact url out name site password max =
    codes "added url="
    ++ (redact url
        ++ (codes " out="
            ++ (out
                ++ (label (codes " name=") name
                    ++ (label (codes " site=") site
                        ++ ((if is_empty password then [] else codes " archive_password=***")
                            ++ (codes " max_attempts=" ++ itoa max)))))))

unfoldable pub create_job : Service → Text → Text → Text → Text → Text → ℤ → M ℕ
unfolding requested_job added_message clean_out_dir clean_user_filename trim_space
create_job s url out_dir name site archive_password max_attempts = do
  let max = attempts_or_default max_attempts
  out ← lift (clean_out_dir out_dir s.allowed_roots)
  clean_name ← lift (clean_user_filename name)
  let password = trim_space archive_password
  id ← Store.create_job (requested_job url out clean_name site password max)
  ignore (Store.add_event id info (added_message s.redact url out clean_name site password max))
  pure id

abbrev pub is_blank : Text → Bool
is_blank s = is_empty (trim_space s)

-- The answer of aria2 to `Remove`: a task that it does not know is as good as removed.
abbrev pub removed : Result (Unit {0}) → M (Unit {0})
removed (ok _) = pure tt
removed (err e) = if is_gid_not_found e then pure tt else fail (map_refusal e)

unfoldable pub remove_engine_task : Option Downloader → Text → M (Unit {0})
unfolding is_empty trim_space request
remove_engine_task none gid = pure tt
remove_engine_task (some d) gid =
    if is_blank gid
    then pure tt
    else do r ← attempt (request (World.remove gid) (d.remove gid)); removed r

-- `if job.EngineGID.Valid && s.downloader != nil { removeEngineTask }`
unfoldable pub drop_engine_task : Option Downloader → Option Text → M (Unit {0})
unfolding remove_engine_task
drop_engine_task d none = pure tt
drop_engine_task d (some gid) = remove_engine_task d gid

abbrev pub retry_decrypt : ℕ → Job → M (Unit {0})
retry_decrypt id job = do
  Marks.mark_decrypting_retry id job.bytes_done
  Store.add_event id info (codes "retry decrypt queued")

abbrev pub retry_download : Service → ℕ → Job → M (Unit {0})
retry_download s id job = do
  drop_engine_task s.downloader job.engine_gid
  Marks.requeue id
  Store.add_event id info (codes "retried")

unfoldable pub retry : Service → ℕ → M (Unit {0})
unfolding drop_engine_task
retry s id = do
  job ← Store.get_job id
  if same_status job.status decrypt_failed then retry_decrypt id job else retry_download s id job

unfoldable pub remove : Service → ℕ → M (Unit {0})
unfolding drop_engine_task
remove s id = do
  job ← Store.get_job id
  drop_engine_task s.downloader job.engine_gid
  Marks.remove id
  Store.add_event id info (codes "removed")

unfoldable pub clear : M (Unit {0})
clear = Marks.clear_completed

unfoldable pub purge : M (Unit {0})
purge = Marks.clear_all

abbrev pub paused_with : ℕ → Text → M (Unit {0})
paused_with id message = do Marks.mark_paused id; Store.add_event id info message

-- The answer of aria2 to `Pause`.
abbrev pub pause_answer : ℕ → Text → Result (Unit {0}) → M (Unit {0})
pause_answer id message (ok _) = paused_with id message
pause_answer id message (err e) = fail (map_refusal e)

abbrev pause_gid : Downloader → ℕ → Text → Option Text → M (Unit {0})
pause_gid d id message none = fail missing_gid_error
pause_gid d id message (some gid) = do
  r ← attempt (request (World.pause gid) (d.pause gid))
  pause_answer id message r

-- Pause of a job that may have a task in aria2.
abbrev pub pause_engine : Option Downloader → ℕ → Text → Option Text → M (Unit {0})
pause_engine none id message gid = fail not_configured_error
pause_engine (some d) id message gid = pause_gid d id message gid

unfoldable pub pause : Service → ℕ → M (Unit {0})
unfolding display_status request
pause s id = do
  job ← Store.get_job id
  let message = display_status s.host paused job.site job.url
  if same_status job.status queued || same_status job.status resolving
      then paused_with id message
      else pause_engine s.downloader id message job.engine_gid

abbrev pub resume_requeue : ℕ → M (Unit {0})
resume_requeue id = do Marks.requeue id; Store.add_event id info (codes "resume requeued")

-- The answer of aria2 to `Unpause`.
abbrev pub unpaused : ℕ → Result (Unit {0}) → M (Unit {0})
unpaused id (ok _) = do Marks.mark_downloading_status id; Store.add_event id info (codes "resumed")
unpaused id (err e) = if is_gid_not_found e then resume_requeue id else fail (map_refusal e)

abbrev resume_gid : Downloader → ℕ → Option Text → M (Unit {0})
resume_gid d id none = resume_requeue id
resume_gid d id (some gid) = do
  r ← attempt (request (World.unpause gid) (d.unpause gid))
  unpaused id r

abbrev pub resume_engine : Option Downloader → ℕ → Option Text → M (Unit {0})
resume_engine none id gid = fail not_configured_error
resume_engine (some d) id gid = resume_gid d id gid

abbrev pub resume_webshare : Service → ℕ → Job → M (Unit {0})
resume_webshare s id job = do drop_engine_task s.downloader job.engine_gid; resume_requeue id

unfoldable pub resume : Service → ℕ → M (Unit {0})
unfolding is_webshare_job drop_engine_task request
resume s id = do
  job ← Store.get_job id
  if is_webshare_job s.host job.site job.url
      then resume_webshare s id job
      else resume_engine s.downloader id job.engine_gid

-- What the API shows of a job.
pub record JobView : Type 0 where
  pub id : ℕ
  pub url : Text
  pub site : Text
  pub out_dir : Text
  pub name : Text
  pub status : Status
  pub filename : Text
  pub size_bytes : ℤ
  pub bytes_done : ℤ
  pub download_speed : ℤ
  pub eta_seconds : ℤ
  pub error : Text
  pub error_code : Text
  pub created_at : ℕ
  pub updated_at : ℕ

abbrev pub text_or_empty : Option Text → Text
text_or_empty none = []
text_or_empty (some t) = t

abbrev int_or_zero : Option ℤ → ℤ
int_or_zero none = pos 0
int_or_zero (some n) = n

unfoldable pub to_view : Job → JobView
to_view j = record {
  id = j.id;
  url = j.url;
  site = j.site;
  out_dir = j.out_dir;
  name = j.name;
  status = j.status;
  filename = text_or_empty j.filename;
  size_bytes = int_or_zero j.size_bytes;
  bytes_done = j.bytes_done;
  download_speed = int_or_zero j.download_speed;
  eta_seconds = int_or_zero j.eta_seconds;
  error = text_or_empty j.error;
  error_code = text_or_empty j.error_code;
  created_at = j.created_at;
  updated_at = j.updated_at;
}

unfoldable pub list_jobs : Text → Bool → M (List JobView)
unfolding to_view
list_jobs status include_deleted = do
  jobs ← Store.list_jobs status include_deleted
  pure (map to_view jobs)

unfoldable pub get_job : ℕ → M JobView
unfolding to_view
get_job id = do j ← Store.get_job id; pure (to_view j)

unfoldable pub list_events : ℕ → ℕ → M (List Event)
list_events id limit = Store.list_events id limit
