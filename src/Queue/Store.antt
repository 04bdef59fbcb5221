-- ===== src/Queue/Store.antt =====
-- internal/queue/store.go: reading and creating rows. The rows of a table stand newest first, which
-- is the order of `ORDER BY id DESC`; `ORDER BY id ASC` reads them in reverse.
pub mod Marks
pub mod Claim
pub mod Events
pub mod Rows
pub mod Due
pub mod Retries
use dlq_download_queue.Prelude.{
  ℕ, ◌+◌, Bool, true, false, ◌&&◌, ◌||◌, List, [], ◌∷◌, map, reverse, Option, none, some, ltb, leb,
  ◌==◌, if◌then◌else◌, text_eq, keep_if, find_first, any_of, take, pos,
}
use dlq_download_queue.Go.Strings.{Text, codes, is_empty, trim_left, trim_right}
use dlq_download_queue.Go.Error.{Error, Result, ok, err, no_rows, plain}
use dlq_download_queue.Queue.Job.{
  queued, decrypting, completed, failed, status_text, same_status, Job, Level, Event, is_live,
}
use dlq_download_queue.Queue.World.{Db, M, pure, fail, ◌>>=◌, now, statement, query}

-- What the driver returns for a query with no row.
abbrev pub no_rows_error : Error
no_rows_error = record { kind = no_rows; text = codes "sql: no rows in result set" }

-- What SQLite returns where an event names a job that is not in the table.
abbrev foreign_key_error : Error
foreign_key_error = plain (codes "FOREIGN KEY constraint failed")

-- The row that the INSERT of CreateJob writes: the columns that it does not name have the defaults
-- of the schema.
unfoldable pub new_row : ℕ → ℕ → Job → Job
new_row id at j = record {
  id = id;
  url = j.url;
  site = j.site;
  out_dir = j.out_dir;
  name = j.name;
  archive_password = j.archive_password;
  resolved_url = none;
  filename = none;
  size_bytes = none;
  bytes_done = pos 0;
  download_speed = some (pos 0);
  eta_seconds = none;
  status = queued;
  error = none;
  error_code = none;
  engine = codes "aria2";
  engine_gid = none;
  attempts = 0;
  max_attempts = j.max_attempts;
  next_retry_at = none;
  created_at = at;
  updated_at = at;
  started_at = none;
  completed_at = none;
  deleted_at = none;
}

unfoldable pub insert_job : ℕ → Job → Db → Result ℕ × Db
unfolding new_row
insert_job at j db =
    let id = db.job_seq + 1 in (ok id, record db { jobs = new_row id at j ∷ db.jobs; job_seq = id })

unfoldable pub create_job : Job → M ℕ
unfolding insert_job now statement
create_job j = do at ← now; statement (insert_job at j)

abbrev pub has_id : ℕ → Job → Bool
has_id id j = j.id == id

abbrev pub found : Option Job → M Job
found none = fail no_rows_error
found (some j) = pure j

unfoldable pub get_job : ℕ → M Job
unfolding statement
get_job id = do row ← query (λ db. find_first (has_id id) db.jobs); found row

-- The WHERE clause of ListJobs; an empty status is no filter.
unfoldable pub shown : Text → Bool → Job → Bool
unfolding is_empty text_eq status_text
shown status include_deleted j =
    (include_deleted || is_live j) && (is_empty status || text_eq (status_text j.status) status)

unfoldable pub list_jobs : Text → Bool → M (List Job)
unfolding shown statement
list_jobs status include_deleted = query (λ db. keep_if (shown status include_deleted) db.jobs)

abbrev limited {ℓ} : {A : Type ℓ} → ℕ → List A → List A
limited limit rows = if ltb 0 limit then take limit rows else rows

-- SQLite's TRIM takes spaces off both ends.
abbrev sql_trim : Text → Text
sql_trim s = trim_right (λ c. c == b' ') (trim_left (λ c. c == b' ') s)

abbrev has_password : Option Text → Bool
has_password none = false
has_password (some p) = if is_empty (sql_trim p) then false else true

unfoldable awaits_postprocess : Job → Bool
unfolding is_empty trim_left trim_right
awaits_postprocess j =
    is_live j
    && (same_status j.status decrypting
        || same_status j.status completed && has_password j.archive_password)

unfoldable pub list_pending_postprocess : ℕ → M (List Job)
unfolding awaits_postprocess statement
list_pending_postprocess limit =
    query (λ db. limited limit (reverse (keep_if awaits_postprocess db.jobs)))

unfoldable list_pending_archive_decrypt : ℕ → M (List Job)
unfolding list_pending_postprocess
list_pending_archive_decrypt limit = list_pending_postprocess limit

unfoldable pub insert_event : ℕ → ℕ → Level → Text → Db → Result (Unit {0}) × Db
insert_event at job_id level message db =
    let id = db.event_seq + 1 in
    if any_of (has_id job_id) db.jobs
    then (
      ok tt,
      record db {
        events =
            record { id = id; job_id = job_id; level = level; message = message; created_at = at }
            ∷ db.events;
        event_seq = id;
      },
    )
    else (err foreign_key_error, db)

unfoldable pub add_event : ℕ → Level → Text → M (Unit {0})
unfolding insert_event now statement
add_event job_id level message = do at ← now; statement (insert_event at job_id level message)

-- The rows of the answer; the program prints each as one line of text.
unfoldable pub list_events : ℕ → ℕ → M (List Event)
unfolding statement
list_events job_id limit =
    query (λ db. limited limit (keep_if (λ (v : Event). v.job_id == job_id) db.events))

abbrev pub is_due : ℕ → Option ℕ → Bool
is_due at none = false
is_due at (some t) = leb t at

unfoldable pub retryable : ℕ → Job → Bool
retryable at j =
    same_status j.status failed
    && is_live j
    && is_due at j.next_retry_at
    && ltb j.attempts j.max_attempts

abbrev pub retry_time : Option ℕ → ℕ
retry_time none = 0
retry_time (some t) = t

-- `ORDER BY next_retry_at ASC`, rows of one time in the order of the table.
unfoldable pub insert_by_retry : Job → List Job → List Job
insert_by_retry j [] = j ∷ []
insert_by_retry j (k ∷ rows) =
    if leb (retry_time j.next_retry_at) (retry_time k.next_retry_at)
    then j ∷ k ∷ rows
    else k ∷ insert_by_retry j rows

unfoldable pub sort_by_retry : List Job → List Job
unfolding insert_by_retry
sort_by_retry [] = []
sort_by_retry (j ∷ rows) = insert_by_retry j (sort_by_retry rows)

unfoldable pub list_retryable_failed : ℕ → M (List ℕ)
unfolding retryable sort_by_retry now statement
list_retryable_failed limit = do
  at ← now
  query (λ db.
      map (λ (j : Job). j.id)
        (limited limit (sort_by_retry (reverse (keep_if (retryable at) db.jobs)))))
