-- ===== src/Queue/Consistent/Marks.antt =====
-- Every operation of the store keeps the tables consistent.
use dlq_download_queue.Prelude.{ℕ, ◌≢◌, refl, arith, ℤ}
use dlq_download_queue.Go.Strings.{Text}
use dlq_download_queue.Queue.Job.{Status, queued, deleted, Job, paused, downloading}
use dlq_download_queue.Queue.World.{M, now}
use dlq_download_queue.Queue.World.Keeps.{Keeps, Keeps-bind, Keeps-now, Keeps-exec}
use dlq_download_queue.Queue.Store.{has_id}
use dlq_download_queue.Queue.Store.Marks
use dlq_download_queue.Queue.Store.Marks.{update_job, update_where}
use dlq_download_queue.Queue.Consistent.{IsConsistent}
use dlq_download_queue.Queue.Consistent.Rows.{IsRowStepAt, update_where-IsConsistent}

abbrev pub Safe : {A : Type 0} → M A → Type 0
Safe m = Keeps IsConsistent m

pub update_job-Safe :
    (id : ℕ) (f : ℕ → Job → Job)
    → ((at : ℕ) → IsRowStepAt (has_id id) (f at))
    → Safe (update_job id f)
unfolding update_job
update_job-Safe id f step =
    Keeps-bind now _ Keeps-now
      (λ at. Keeps-exec _ (λ db h. update_where-IsConsistent (has_id id) (f at) (step at) db h))

pub update_resolving-Safe :
    (id : ℕ) (url name : Text) (size : ℤ) → Safe (Marks.update_resolving id url name size)
unfolding Marks.update_resolving
update_resolving-Safe id url name size =
    update_job-Safe id (Marks.update_resolving_row url name size)
      (λ at. record { same_id = λ j. refl; row_ok = λ j _ h. ground arith })

pub mark_downloading-Safe :
    (id : ℕ) (engine gid : Text) → Safe (Marks.mark_downloading id engine gid)
unfolding Marks.mark_downloading
mark_downloading-Safe id engine gid =
    update_job-Safe id (Marks.mark_downloading_row engine gid)
      (λ at. record { same_id = λ j. refl; row_ok = λ j _ h. ground arith })

pub mark_paused-Safe : (id : ℕ) → Safe (Marks.mark_paused id)
unfolding Marks.mark_paused
mark_paused-Safe id =
    update_job-Safe id (Marks.set_status_row paused)
      (λ at. record { same_id = λ j. refl; row_ok = λ j _ h. ground arith })

pub mark_downloading_status-Safe : (id : ℕ) → Safe (Marks.mark_downloading_status id)
unfolding Marks.mark_downloading_status
mark_downloading_status-Safe id =
    update_job-Safe id (Marks.set_status_row downloading)
      (λ at. record { same_id = λ j. refl; row_ok = λ j _ h. ground arith })

pub mark_completed-Safe : (id : ℕ) → Safe (Marks.mark_completed id)
unfolding Marks.mark_completed
mark_completed-Safe id =
    update_job-Safe id (Marks.mark_completed_row)
      (λ at. record { same_id = λ j. refl; row_ok = λ j _ h. ground arith })

pub mark_decrypting-Safe : (id : ℕ) (bytes : ℤ) → Safe (Marks.mark_decrypting id bytes)
unfolding Marks.mark_decrypting
mark_decrypting-Safe id bytes =
    update_job-Safe id (Marks.mark_decrypting_row bytes)
      (λ at. record { same_id = λ j. refl; row_ok = λ j _ h. ground arith })

pub mark_decrypting_retry-Safe : (id : ℕ) (bytes : ℤ) → Safe (Marks.mark_decrypting_retry id bytes)
unfolding Marks.mark_decrypting_retry
mark_decrypting_retry-Safe id bytes =
    update_job-Safe id (Marks.mark_decrypting_retry_row bytes)
      (λ at. record { same_id = λ j. refl; row_ok = λ j _ h. ground arith })

pub mark_postprocess_failed-Safe :
    (id : ℕ) (msg code : Text) → Safe (Marks.mark_postprocess_failed id msg code)
unfolding Marks.mark_postprocess_failed
mark_postprocess_failed-Safe id msg code =
    update_job-Safe id (Marks.mark_postprocess_failed_row msg (Marks.default_code code))
      (λ at. record { same_id = λ j. refl; row_ok = λ j _ h. ground arith })

pub clear_archive_password-Safe : (id : ℕ) → Safe (Marks.clear_archive_password id)
unfolding Marks.clear_archive_password
clear_archive_password-Safe id =
    update_job-Safe id (Marks.clear_archive_password_row)
      (λ at. record { same_id = λ j. refl; row_ok = λ j _ h. ground arith })

pub requeue-Safe : (id : ℕ) → Safe (Marks.requeue id)
unfolding Marks.requeue
requeue-Safe id =
    update_job-Safe id (Marks.requeue_row)
      (λ at. record { same_id = λ j. refl; row_ok = λ j _ h. ground arith })

pub remove-Safe : (id : ℕ) → Safe (Marks.remove id)
unfolding Marks.remove
remove-Safe id =
    update_job-Safe id (Marks.remove_row)
      (λ at. record { same_id = λ j. refl; row_ok = λ j _ h. ground arith })

-- UpdateProgress takes its status from the caller, who never passes `deleted` or `queued`.
pub update_progress-Safe :
    (id : ℕ) (bytes : ℤ) (s : Status) (speed eta : ℤ)
    → s ≢ deleted
    → s ≢ queued
    → Safe (Marks.update_progress id bytes s speed eta)
unfolding Marks.update_progress
update_progress-Safe id bytes s speed eta nd nq =
    update_job-Safe id (Marks.update_progress_row bytes s speed eta)
      (λ at. record { same_id = λ j. refl; row_ok = λ j _ h. ground arith })
