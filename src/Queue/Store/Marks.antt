-- ===== src/Queue/Store/Marks.antt =====
-- internal/queue/store.go: the UPDATE statements, each as the change of one row, and ClearAll.
use dlq_download_queue.Prelude.{
  ℕ, ◌+◌, Bool, ◌&&◌, List, [], ◌∷◌, Option, none, some, ltb, leb, if◌then◌else◌, find_first, ℤ,
  pos, ltb_ℤ, is_zero_ℤ, ◌++◌,
}
use dlq_download_queue.Go.Strings.{Text, codes, is_empty, trim_space}
use dlq_download_queue.Go.Strconv.{itoa}
use dlq_download_queue.Go.Error.{Result, ok, err}
use dlq_download_queue.Queue.Job.{
  Status, queued, downloading, paused, decrypting, decrypt_failed, completed, failed, deleted,
  same_status, Job, error_level,
}
use dlq_download_queue.Queue.World.{
  Db, M, pure, ◌>>=◌, ◌>>◌, now, statement, exec, query, transaction, attempt, ignore,
}
use dlq_download_queue.Queue.Store.{has_id, found, add_event}

-- `UPDATE jobs SET f WHERE p`
unfoldable pub update_rows : (Job → Bool) → (Job → Job) → List Job → List Job
update_rows p f [] = []
update_rows p f (j ∷ rows) = (if p j then f j else j) ∷ update_rows p f rows

abbrev pub update_where : (Job → Bool) → (Job → Job) → Db → Db
update_where p f db = record db { jobs = update_rows p f db.jobs }

-- Read the clock, and update the row of one id.
unfoldable pub update_job : ℕ → (ℕ → Job → Job) → M (Unit {0})
unfolding update_rows now statement
update_job id f = do at ← now; exec (update_where (has_id id) (f at))

unfoldable pub update_resolving_row : Text → Text → ℤ → ℕ → Job → Job
update_resolving_row url name size at j = record j {
  resolved_url = some url;
  filename = some name;
  size_bytes = some size;
  updated_at = at;
}

unfoldable pub update_resolving : ℕ → Text → Text → ℤ → M (Unit {0})
unfolding update_job update_resolving_row
update_resolving id url name size = update_job id (update_resolving_row url name size)

unfoldable pub mark_downloading_row : Text → Text → ℕ → Job → Job
mark_downloading_row engine gid at j = record j {
  status = downloading;
  engine = engine;
  engine_gid = some gid;
  updated_at = at;
}

unfoldable pub mark_downloading : ℕ → Text → Text → M (Unit {0})
unfolding update_job mark_downloading_row
mark_downloading id engine gid = update_job id (mark_downloading_row engine gid)

-- MarkPaused and MarkDownloadingStatus change the status alone.
unfoldable pub set_status_row : Status → ℕ → Job → Job
set_status_row s at j = record j { status = s; updated_at = at }

unfoldable pub mark_paused : ℕ → M (Unit {0})
unfolding update_job set_status_row
mark_paused id = update_job id (set_status_row paused)

unfoldable pub mark_downloading_status : ℕ → M (Unit {0})
unfolding update_job set_status_row
mark_downloading_status id = update_job id (set_status_row downloading)

unfoldable pub update_progress_row : ℤ → Status → ℤ → ℤ → ℕ → Job → Job
update_progress_row bytes s speed eta at j = record j {
  bytes_done = bytes;
  status = s;
  download_speed = some speed;
  eta_seconds = some eta;
  updated_at = at;
}

unfoldable pub update_progress : ℕ → ℤ → Status → ℤ → ℤ → M (Unit {0})
unfolding update_job update_progress_row
update_progress id bytes s speed eta = update_job id (update_progress_row bytes s speed eta)

-- The CASE of MarkCompleted.
abbrev completed_bytes : ℤ → Option ℤ → ℤ
completed_bytes bytes none = bytes
completed_bytes bytes (some size) = if is_zero_ℤ bytes then size else bytes

unfoldable pub mark_completed_row : ℕ → Job → Job
mark_completed_row at j = record j {
  status = completed;
  bytes_done = completed_bytes j.bytes_done j.size_bytes;
  download_speed = some (pos 0);
  eta_seconds = none;
  error = none;
  error_code = none;
  updated_at = at;
  completed_at = some at;
}

unfoldable pub mark_completed : ℕ → M (Unit {0})
unfolding update_job mark_completed_row
mark_completed id = update_job id mark_completed_row

-- The CASE of MarkDecrypting and MarkDecryptingRetry.
abbrev positive_or : ℤ → ℤ → ℤ
positive_or bytes old = if ltb_ℤ (pos 0) bytes then bytes else old

unfoldable pub mark_decrypting_row : ℤ → ℕ → Job → Job
mark_decrypting_row bytes at j = record j {
  status = decrypting;
  bytes_done = positive_or bytes j.bytes_done;
  download_speed = some (pos 0);
  eta_seconds = none;
  error = none;
  error_code = none;
  updated_at = at;
}

unfoldable pub mark_decrypting : ℕ → ℤ → M (Unit {0})
unfolding update_job mark_decrypting_row
mark_decrypting id bytes = update_job id (mark_decrypting_row bytes)

unfoldable pub mark_decrypting_retry_row : ℤ → ℕ → Job → Job
mark_decrypting_retry_row bytes at j = record j {
  status = decrypting;
  bytes_done = positive_or bytes j.bytes_done;
  download_speed = some (pos 0);
  eta_seconds = none;
  updated_at = at;
}

unfoldable pub mark_decrypting_retry : ℕ → ℤ → M (Unit {0})
unfolding update_job mark_decrypting_retry_row
mark_decrypting_retry id bytes = update_job id (mark_decrypting_retry_row bytes)

-- COALESCE(completed_at, ?)
abbrev coalesce : Option ℕ → ℕ → Option ℕ
coalesce none at = some at
coalesce (some t) at = some t

unfoldable pub mark_postprocess_failed_row : Text → Text → ℕ → Job → Job
mark_postprocess_failed_row msg code at j = record j {
  status = decrypt_failed;
  error = some msg;
  error_code = some code;
  download_speed = some (pos 0);
  eta_seconds = none;
  updated_at = at;
  completed_at = coalesce j.completed_at at;
}

abbrev pub default_code : Text → Text
default_code code = if is_empty (trim_space code) then codes "archive_decrypt_failed" else code

unfoldable pub mark_postprocess_failed : ℕ → Text → Text → M (Unit {0})
unfolding update_job mark_postprocess_failed_row is_empty trim_space
mark_postprocess_failed id msg code =
    update_job id (mark_postprocess_failed_row msg (default_code code))

unfoldable mark_decrypt_failed : ℕ → Text → M (Unit {0})
unfolding mark_postprocess_failed
mark_decrypt_failed id msg = mark_postprocess_failed id msg (codes "archive_decrypt_failed")

unfoldable pub clear_archive_password_row : ℕ → Job → Job
clear_archive_password_row at j = record j { archive_password = none; updated_at = at }

unfoldable pub clear_archive_password : ℕ → M (Unit {0})
unfolding update_job clear_archive_password_row
clear_archive_password id = update_job id clear_archive_password_row

unfoldable pub mark_failed_row : Text → Text → Option ℕ → ℕ → Job → Job
mark_failed_row code msg retry at j = record j {
  status = failed;
  error = some msg;
  error_code = some code;
  download_speed = some (pos 0);
  eta_seconds = none;
  updated_at = at;
  next_retry_at = retry;
  attempts = j.attempts + 1;
}

unfoldable attempts_message : ℕ → ℕ → Text
unfolding itoa
attempts_message attempts max =
    if ltb max attempts
    then codes "attempts exceeded max (" ++ (itoa max ++ codes "); no further retries")
    else codes "max attempts reached (" ++ (itoa max ++ codes "); no further retries")

-- The event of MarkFailed when the attempts are used up.
unfoldable pub report_attempts : ℕ → Job → M (Unit {0})
unfolding attempts_message add_event
report_attempts id j =
    if ltb 0 j.max_attempts && leb j.max_attempts j.attempts
    then ignore (add_event id error_level (attempts_message j.attempts j.max_attempts))
    else pure tt

-- MarkFailed; a retry time of `none` is the zero time.
unfoldable pub mark_failed : ℕ → Text → Text → Option ℕ → M (Unit {0})
unfolding update_job mark_failed_row report_attempts statement
mark_failed id code msg retry = do
  update_job id (mark_failed_row code msg retry)
  row ← query (λ db. find_first (has_id id) db.jobs)
  j ← found row
  report_attempts id j

unfoldable pub requeue_row : ℕ → Job → Job
requeue_row at j = record j {
  status = queued;
  error = none;
  error_code = none;
  next_retry_at = none;
  deleted_at = none;
  resolved_url = none;
  filename = none;
  size_bytes = none;
  bytes_done = pos 0;
  download_speed = some (pos 0);
  eta_seconds = none;
  engine = codes "aria2";
  engine_gid = none;
  started_at = none;
  completed_at = none;
  updated_at = at;
}

unfoldable pub requeue : ℕ → M (Unit {0})
unfolding update_job requeue_row
requeue id = update_job id requeue_row

unfoldable pub remove_row : ℕ → Job → Job
remove_row at j = record j { status = deleted; deleted_at = some at; updated_at = at }

unfoldable pub remove : ℕ → M (Unit {0})
unfolding update_job remove_row
remove id = update_job id remove_row

unfoldable pub clear_completed : M (Unit {0})
unfolding update_rows remove_row now statement
clear_completed = do
  at ← now
  exec (update_where (λ (j : Job). same_status j.status completed) (remove_row at))

-- The counters are reset only if the query for the table sqlite_sequence succeeds; the schema has
-- AUTOINCREMENT columns, so that the table is there.
abbrev pub reset_sequences : Result (Unit {0}) → M (Unit {0})
reset_sequences (ok _) = exec (λ db. record db { job_seq = 0; event_seq = 0 })
reset_sequences (err _) = pure tt

abbrev pub delete_all : M (Unit {0})
delete_all = do
  exec (λ db. record db { events = [] })
  exec (λ db. record db { jobs = [] })
  seq ← attempt (query (λ db. tt))
  reset_sequences seq

unfoldable pub clear_all : M (Unit {0})
unfolding transaction statement
clear_all = transaction delete_all
