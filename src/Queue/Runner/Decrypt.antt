-- ===== src/Queue/Runner/Decrypt.antt =====
-- internal/queue/runner.go: what is to be done with a finished download, and the goroutine that
-- does it. A goroutine that is started is put on `spawned`; `run_decrypt` is its body once it holds
-- a worker.
pub mod Settles
pub mod Unmarks
use dlq_download_queue.Prelude.{
  ℕ, Bool, true, false, not, ◌&&◌, ◌||◌, List, [], ◌∷◌, ◌++◌, Option, none, some, ◌==◌,
  if◌then◌else◌, text_eq, keep_if, any_of, count_if,
}
use dlq_download_queue.Go.Strings.{Text, codes, is_empty, trim_space}
use dlq_download_queue.Go.Strconv.{itoa}
use dlq_download_queue.Go.Error.{Result, ok, err}
use dlq_download_queue.Go.Filepath.{base}
use dlq_download_queue.Queue.Job.{
  Status, queued, resolving, downloading, paused, decrypting, same_status, Job, info, error_level,
}
use dlq_download_queue.Queue.World.{
  DecryptTask, M, pure, ◌>>=◌, ◌>>◌, request, attempt, ignore, ask, mega_decrypt, archive_decrypt,
}
use dlq_download_queue.Queue.Engine.{EngineStatus}
use dlq_download_queue.Queue.Status.{is_mega_job}
use dlq_download_queue.Queue.Archive.{
  is_archive_file, multipart_archive_first_volume, multipart_archive_group_key,
}
use dlq_download_queue.Queue.Service.{text_or_empty, is_blank}
use dlq_download_queue.Queue.Store
use dlq_download_queue.Queue.Store.Marks
use dlq_download_queue.Queue.Runner.{
  Runner, Decryptor, auto_decrypt_enabled, archive_path_for_job, first_path,
}

-- resolveArchiveEntryPath: the first volume where it exists, else the path itself.
unfoldable pub resolve_archive_entry_path : Runner → Text → M Text
unfolding trim_space is_empty multipart_archive_first_volume text_eq ask
resolve_archive_entry_path r path =
    let c = trim_space path in
    let candidate = multipart_archive_first_volume c in
    if is_empty c
    then pure c
    else if text_eq candidate c
    then pure c
    else do there ← ask (r.exists candidate); pure (if there then candidate else c)

unfoldable is_multipart_sibling_pending : Status → Bool
is_multipart_sibling_pending queued = true
is_multipart_sibling_pending resolving = true
is_multipart_sibling_pending downloading = true
is_multipart_sibling_pending paused = true
is_multipart_sibling_pending _ = false

-- Another job of the same directory whose file belongs to the set.
unfoldable is_sibling : Job → Text → Job → Bool
unfolding text_eq archive_path_for_job multipart_archive_group_key is_empty
is_sibling job key other =
    let other_key = (multipart_archive_group_key (archive_path_for_job other)).0 in
    not (other.id == job.id)
    && text_eq other.out_dir job.out_dir
    && not (is_empty other_key)
    && text_eq other_key key

abbrev is_explicit : Job → Bool
is_explicit other = (multipart_archive_group_key (archive_path_for_job other)).1

-- What the scan over the other jobs comes to: how many parts are pending, whether a sibling was
-- seen, and whether a name says that it is one of several.
pub record Siblings : Type 0 where
  pub pending_parts : ℕ
  pub seen : Bool
  pub explicit : Bool

unfoldable pub scan_siblings : Job → Text → Bool → List Job → Siblings
unfolding is_sibling is_multipart_sibling_pending
scan_siblings job key explicit jobs =
    let siblings = keep_if (is_sibling job key) jobs in
    record {
      pending_parts = count_if (λ (j : Job). is_multipart_sibling_pending j.status) siblings;
      seen = any_of (is_sibling job key) jobs;
      explicit = explicit || any_of is_explicit siblings;
    }

unfoldable wait_text : Siblings → Text
wait_text s =
    if not s.explicit && not s.seen
    then []
    else if s.pending_parts == 0
    then []
    else codes "archive decrypt waiting: multipart set still downloading ("
      ++ (itoa s.pending_parts ++ codes " part job(s))")

abbrev wait_from : Job → Text → Bool → Result (List Job) → Text
wait_from job key explicit (ok jobs) = wait_text (scan_siblings job key explicit jobs)
wait_from job key explicit (err e) = []

unfoldable pub archive_decrypt_wait_message : Job → Text → M Text
unfolding multipart_archive_group_key is_empty scan_siblings wait_text
archive_decrypt_wait_message job path = do
  let (key, explicit) = multipart_archive_group_key path
  if is_empty key
      then pure []
      else do jobs ← attempt (Store.list_jobs [] false); pure (wait_from job key explicit jobs)

-- A MEGA file is decrypted once: a job that went back to decrypting with an error code has been.
unfoldable pub should_decrypt_mega : Runner → Job → Text → Bool
unfolding is_mega_job is_archive_file is_empty trim_space
should_decrypt_mega r job path = elim r.mega_decryptor [
  | none ↦ false
  | some d ↦
      if not (is_mega_job r.host job.site job.url)
      then false
      else not (
          same_status job.status decrypting
          && is_archive_file path
          && not (is_blank (text_or_empty job.error_code)))
]

unfoldable pub wants_archive : Text → Text → Bool
unfolding is_empty trim_space is_archive_file
wants_archive path password = not (is_blank password) || is_archive_file path

-- A job that is already decrypting goes on whatever the setting is.
abbrev pub archive_wanted : Runner → Option Decryptor → Job → Text → Text → M Bool
archive_wanted r none job path password = pure false
archive_wanted r (some d) job path password =
    if same_status job.status decrypting
    then pure (wants_archive path password)
    else do on ← auto_decrypt_enabled r; pure (on && wants_archive path password)

unfoldable pub should_decrypt_archive : Runner → Job → Text → Text → M Bool
unfolding wants_archive auto_decrypt_enabled
should_decrypt_archive r job path password = archive_wanted r r.archive_decryptor job path password

-- The four results of buildDecryptTask.
pub record Plan : Type 0 where
  pub task : DecryptTask
  pub should_process : Bool
  pub wait_msg : Text
  pub fail_msg : Text

abbrev pub status_path : Option EngineStatus → Text
status_path none = []
status_path (some st) = first_path st.files

abbrev plan_process : DecryptTask → Text → Text → Plan
plan_process t wait failure = record {
  task = t;
  should_process = true;
  wait_msg = wait;
  fail_msg = failure;
}

abbrev pub plan_for : Job → DecryptTask → M Plan
plan_for job t =
    if not t.decrypt_mega && not t.decrypt_arch
    then pure (record { task = t; should_process = false; wait_msg = []; fail_msg = [] })
    else if t.decrypt_mega && is_blank t.mega_path
    then pure (plan_process t [] (codes "postprocess failed: missing file path for mega decrypt"))
    else if t.decrypt_arch && is_blank t.archive_path
    then pure
        (plan_process t [] (codes "postprocess failed: missing file path for archive decrypt"))
    else if t.decrypt_arch
    then (do wait ← archive_decrypt_wait_message job t.archive_path; pure (plan_process t wait []))
    else pure (plan_process t [] [])

unfoldable pub build_decrypt_task : Runner → Job → Option EngineStatus → M Plan
unfolding trim_space is_empty archive_path_for_job resolve_archive_entry_path should_decrypt_mega
    should_decrypt_archive archive_decrypt_wait_message
build_decrypt_task r job st = do
  let password = trim_space (text_or_empty job.archive_password)
  let reported = status_path st
  let path = if is_empty reported then archive_path_for_job job else reported
  entry ← resolve_archive_entry_path r path
  arch ← should_decrypt_archive r job entry password
  plan_for job (record {
    job_id = job.id;
    mega_path = path;
    archive_path = entry;
    out_dir = job.out_dir;
    password = password;
    raw_url = job.url;
    site = job.site;
    decrypt_mega = should_decrypt_mega r job path;
    decrypt_arch = arch;
  })

abbrev pub is_pending : ℕ → List ℕ → Bool
is_pending id ids = any_of (λ i. i == id) ids

-- markDecryptPending and the `go` statement of scheduleDecrypt.
unfoldable pub schedule_decrypt : DecryptTask → M (Unit {0})
schedule_decrypt t env w =
    if is_pending t.job_id w.pending
    then (ok tt, w)
    else (ok tt, record w { pending = t.job_id ∷ w.pending; spawned = t ∷ w.spawned })

unfoldable pub unmark_decrypt_pending : ℕ → M (Unit {0})
unmark_decrypt_pending id env w =
    (ok tt, record w { pending = keep_if (λ i. not (i == id)) w.pending })

-- The events, the status and the password of a job whose decryptor failed.
unfoldable pub decrypt_failed_as : ℕ → Text → Text → Text → M (Unit {0})
decrypt_failed_as id event msg code = do
  ignore (Store.add_event id error_level event)
  ignore (Marks.mark_postprocess_failed id msg code)
  ignore (Marks.clear_archive_password id)

-- The MEGA step; `true` where the body goes on.
abbrev pub mega_done : DecryptTask → Result Bool → M Bool
mega_done t (err e) = do
  decrypt_failed_as t.job_id (codes "mega decrypt failed: " ++ e.text) (codes "mega decrypt failed")
      (codes "mega_decrypt_failed")
  pure false
mega_done t (ok false) = pure true
mega_done t (ok true) = do
  ignore (Store.add_event t.job_id info (codes "mega decrypted: " ++ base t.mega_path))
  pure true

abbrev pub mega_step : DecryptTask → Decryptor → M Bool
mega_step t d = do
  ignore (Store.add_event t.job_id info (codes "mega decrypt started: " ++ base t.mega_path))
  done ← attempt (request (mega_decrypt t.mega_path) (d t.site t.raw_url t.mega_path))
  mega_done t done

abbrev pub archive_done : DecryptTask → Result Bool → M Bool
archive_done t (err e) = do
  decrypt_failed_as t.job_id (codes "archive decrypt failed: " ++ e.text)
      (codes "archive decrypt failed") (codes "archive_decrypt_failed")
  pure false
archive_done t (ok true) = do
  ignore (Store.add_event t.job_id info (codes "archive decrypted: " ++ base t.archive_path))
  pure true
archive_done t (ok false) = do
  ignore (Store.add_event t.job_id info (codes "archive decrypt skipped: not an archive"))
  pure true

abbrev pub archive_step : DecryptTask → Decryptor → M Bool
archive_step t d = do
  ignore (Store.add_event t.job_id info (codes "archive decrypt started: " ++ base t.archive_path))
  done ← attempt (request (archive_decrypt t.archive_path) (d t.archive_path t.out_dir t.password))
  archive_done t done

-- A step that is wanted and has a decryptor.
abbrev pub when_wanted : Bool → Option Decryptor → (Decryptor → M Bool) → M Bool
when_wanted false d step = pure true
when_wanted true none step = pure true
when_wanted true (some d) step = step d

abbrev pub finish_decrypt : ℕ → M (Unit {0})
finish_decrypt id = do ignore (Marks.mark_completed id); ignore (Marks.clear_archive_password id)

abbrev pub archive_phase : Runner → DecryptTask → M (Unit {0})
archive_phase r t = do
  on ← when_wanted t.decrypt_arch r.archive_decryptor (archive_step t)
  if on then finish_decrypt t.job_id else pure tt

-- The steps of runDecrypt between taking a worker and giving it back.
unfoldable pub decrypt_steps : Runner → DecryptTask → M (Unit {0})
unfolding decrypt_failed_as request base
decrypt_steps r t = do
  on ← when_wanted t.decrypt_mega r.mega_decryptor (mega_step t)
  if on then archive_phase r t else pure tt

-- runDecrypt; `got_worker` is what acquireDecryptWorker returned, false when the runner is stopped.
unfoldable pub run_decrypt : Runner → DecryptTask → Bool → M (Unit {0})
unfolding decrypt_steps unmark_decrypt_pending
run_decrypt r t got_worker =
    if not got_worker
    then unmark_decrypt_pending t.job_id
    else do decrypt_steps r t; unmark_decrypt_pending t.job_id
