-- ===== src/Queue/Runner/Active.antt =====
-- internal/queue/runner.go: following the downloads that run, and the files that wait for
-- decryption.
pub mod Eta
use dlq_download_queue.Prelude.{
  ℕ, ◌+◌, ◌-◌, ◌/◌, ◌^◌, Bool, true, false, not, ◌&&◌, List, [], ◌∷◌, Option, none, some, ltb, ◌==◌,
  if◌then◌else◌, text_eq, ℤ, pos, negsuc, pos_part, neg_part, ltb_ℤ, is_zero_ℤ,
}
use dlq_download_queue.Go.Strings.{Text, codes, is_empty}
use dlq_download_queue.Go.Strconv.{parse_int64, max_int64}
use dlq_download_queue.Go.Error.{Error, Result, ok, err, is_gid_not_found}
use dlq_download_queue.Queue.Job.{
  downloading, decrypting, completed, same_status, status_text, Job, info, error_level,
}
use dlq_download_queue.Queue.World.{
  M, pure, ◌>>=◌, ◌>>◌, now, request, attempt, ignore, tell_status,
}
use dlq_download_queue.Queue.Engine.{EngineStatus}
use dlq_download_queue.Queue.Store
use dlq_download_queue.Queue.Store.Marks
use dlq_download_queue.Queue.Runner.{
  Runner, Failure, map_download_error, minutes, auto_decrypt_enabled, archive_path_for_job,
}
use dlq_download_queue.Queue.Runner.Decrypt.{
  Plan, build_decrypt_task, schedule_decrypt, should_decrypt_mega,
}

-- `total - done` in int64, for a positive total above `done`.
abbrev remaining : ℤ → ℤ → ℕ
remaining total done = pos_part total + neg_part done - pos_part done

-- The quotient of a difference that may have wrapped, cut towards zero.
unfoldable pub quotient_int64 : ℕ → ℕ → ℤ
quotient_int64 n speed =
    if ltb max_int64 n
    then (let q = (2 ^ 64 - n) / speed in if q == 0 then pos 0 else negsuc (q - 1))
    else pos (n / speed)

unfoldable pub eta : ℤ → ℤ → ℤ → ℤ
unfolding quotient_int64
eta total done speed =
    if ltb_ℤ (pos 0) speed && ltb_ℤ (pos 0) total && ltb_ℤ done total
    then quotient_int64 (remaining total done) (pos_part speed)
    else pos 0

abbrev pub postprocess_failed : ℕ → Text → M (Unit {0})
postprocess_failed id msg = do
  ignore (Store.add_event id error_level msg)
  ignore (Marks.mark_postprocess_failed id msg (codes "postprocess_failed"))
  ignore (Marks.clear_archive_password id)

abbrev pub decrypting_marked : ℕ → Plan → Result (Unit {0}) → M Bool
decrypting_marked id p (err e) = pure false
decrypting_marked id p (ok _) = do
  ignore (Store.add_event id info (codes "download finished"))
  if is_empty p.wait_msg
      then schedule_decrypt p.task
      else ignore (Store.add_event id info p.wait_msg)
  pure true

-- `true` where the job is taken over by the decryption.
unfoldable pub queue_decrypt_from_status : Runner → Job → EngineStatus → ℤ → M Bool
unfolding build_decrypt_task is_empty schedule_decrypt
queue_decrypt_from_status r job st bytes = do
  p ← build_decrypt_task r job (some st)
  if not p.should_process
      then pure false
      else if is_empty p.fail_msg
      then (do
        marked ← attempt (Marks.mark_decrypting job.id bytes)
        decrypting_marked job.id p marked)
      else do postprocess_failed job.id p.fail_msg; pure true

abbrev pub finish_download : ℕ → ℤ → M (Unit {0})
finish_download id bytes = do
  ignore (Marks.update_progress id bytes completed (pos 0) (pos 0))
  ignore (Store.add_event id info (codes "download finished"))
  ignore (Marks.mark_completed id)

abbrev final_bytes : ℤ → ℤ → ℤ
final_bytes done total = if is_zero_ℤ done && ltb_ℤ (pos 0) total then total else done

abbrev pub engine_failed : ℕ → Text → M (Unit {0})
engine_failed id message = do
  let msg = if is_empty message then codes "download error" else message
  at ← now
  let f : Failure = map_download_error msg at
  ignore (Store.add_event id error_level msg)
  ignore (Marks.mark_failed id f.code msg (some f.retry_at))

-- What aria2 reports of one download.
unfoldable pub follow_status : Runner → Job → EngineStatus → M (Unit {0})
unfolding text_eq parse_int64 eta queue_decrypt_from_status map_download_error is_empty now
follow_status r job st =
    let done = parse_int64 st.completed_len in
    let total = parse_int64 st.total_length in
    let speed = parse_int64 st.download_speed in
    if text_eq st.status (codes "complete")
    then (do
      handled ← queue_decrypt_from_status r job st (final_bytes done total)
      if handled then pure tt else finish_download job.id (final_bytes done total))
    else if text_eq st.status (codes "error")
    then engine_failed job.id st.error_message
    else ignore (Marks.update_progress job.id done downloading speed (eta total done speed))

abbrev pub gid_lost : ℕ → Error → M (Unit {0})
gid_lost id e = do
  at ← now
  ignore (Marks.mark_failed id (codes "gid_not_found") e.text (some (at + minutes 2)))

abbrev pub told : Runner → Job → Result EngineStatus → M (Unit {0})
told r job (ok st) = follow_status r job st
told r job (err e) =
    if is_gid_not_found e
    then gid_lost job.id e
    else ignore (Store.add_event job.id error_level e.text)

abbrev pub follow_gid : Runner → Job → Option Text → M (Unit {0})
follow_gid r job none = pure tt
follow_gid r job (some gid) = do
  st ← attempt (request (tell_status gid) (r.downloader.tell_status gid))
  told r job st

-- One round of the loop of updateActive.
unfoldable pub follow_job : Runner → Job → M (Unit {0})
unfolding follow_status now request
follow_job r job = follow_gid r job job.engine_gid

unfoldable pub follow_all : Runner → List Job → M (Unit {0})
unfolding follow_job
follow_all r [] = pure tt
follow_all r (j ∷ jobs) = do follow_job r j; follow_all r jobs

unfoldable pub update_active : Runner → M (Unit {0})
unfolding follow_all status_text
update_active r = do jobs ← Store.list_jobs (status_text downloading) false; follow_all r jobs

-- The job of a plan that says nothing is to be done.
abbrev pub nothing_to_do : Job → M (Unit {0})
nothing_to_do job =
    if same_status job.status decrypting
    then (do ignore (Marks.mark_completed job.id); ignore (Marks.clear_archive_password job.id))
    else pure tt

abbrev pub wait_or_schedule : Job → Plan → Bool → M (Unit {0})
wait_or_schedule job p marked =
    if is_empty p.wait_msg
    then schedule_decrypt p.task
    else if marked
    then ignore (Store.add_event job.id info p.wait_msg)
    else pure tt

abbrev pub dispatch_marked : Job → Plan → Result (Unit {0}) → M (Unit {0})
dispatch_marked job p (err e) = pure tt
dispatch_marked job p (ok _) = wait_or_schedule job p true

abbrev pub dispatch_plan : Job → Plan → M (Unit {0})
dispatch_plan job p =
    if not p.should_process
    then nothing_to_do job
    else if not (is_empty p.fail_msg)
    then postprocess_failed job.id p.fail_msg
    else if same_status job.status decrypting
    then wait_or_schedule job p false
    else do
      marked ← attempt (Marks.mark_decrypting job.id job.bytes_done)
      dispatch_marked job p marked

-- Decryption is off, and the job neither waits for it already nor has a MEGA payload.
abbrev skips_dispatch : Runner → Job → Bool → Bool
skips_dispatch r job on =
    not on
    && not (same_status job.status decrypting)
    && not (should_decrypt_mega r job (archive_path_for_job job))

abbrev plan_and_dispatch : Runner → Job → M (Unit {0})
plan_and_dispatch r job = do p ← build_decrypt_task r job none; dispatch_plan job p

-- One round of the loop of dispatchCompletedDecrypt.
unfoldable pub dispatch_job : Runner → Job → M (Unit {0})
unfolding build_decrypt_task schedule_decrypt is_empty auto_decrypt_enabled should_decrypt_mega
    archive_path_for_job
dispatch_job r job = do
  on ← auto_decrypt_enabled r
  if skips_dispatch r job on then pure tt else plan_and_dispatch r job

unfoldable pub dispatch_all : Runner → List Job → M (Unit {0})
unfolding dispatch_job
dispatch_all r [] = pure tt
dispatch_all r (j ∷ jobs) = do dispatch_job r j; dispatch_all r jobs

abbrev has_decryptor : Runner → Bool
has_decryptor r = elim r.archive_decryptor [
  | some d ↦ true
  | none ↦ elim r.mega_decryptor [ some d ↦ true | none ↦ false ]
]

unfoldable pub dispatch_completed_decrypt : Runner → M (Unit {0})
unfolding dispatch_all
dispatch_completed_decrypt r =
    if not (has_decryptor r)
    then pure tt
    else do jobs ← Store.list_pending_postprocess 100; dispatch_all r jobs
