-- ===== src/Examples/Requests.antt =====
-- The theorems on the requests of the API, applied to concrete tables.
use dlq_download_queue.Examples.{quiet_env, service, world}
use dlq_download_queue.Queue.Service
use dlq_download_queue.Queue.Store
use dlq_download_queue.Queue.Store.Marks
use dlq_download_queue.Queue.Service.Done.{
  Shows, Paused, Removed, Resumed, Retried, pause-Shows, remove-Shows, resume-Shows, retry-Shows,
}
use dlq_download_queue.Queue.Service.Created.{create_job-get_job, HasRequest}
use dlq_download_queue.Queue.Store.{retryable, list_retryable_failed, new_row}
use dlq_download_queue.Prelude.{refl, [], pos}
use dlq_download_queue.Go.Strings.{codes}
use dlq_download_queue.Queue.Service.{Service, requested_job, to_view}

pause-Shows_example : Shows 1 Paused (Service.pause service 1 quiet_env world).1.db
unfolding Service.pause new_row requested_job Store.get_job Marks.mark_paused Store.add_event
pause-Shows_example = pause-Shows service 1 quiet_env world refl

remove-Shows_example : Shows 1 Removed (Service.remove service 1 quiet_env world).1.db
unfolding Service.remove new_row requested_job Store.get_job Marks.remove Store.add_event
remove-Shows_example = remove-Shows service 1 quiet_env world refl

resume-Shows_example : Shows 2 Resumed (Service.resume service 2 quiet_env world).1.db
unfolding Service.resume new_row requested_job Store.get_job Marks.requeue Store.add_event
resume-Shows_example = resume-Shows service 2 quiet_env world refl

retry-Shows_example : Shows 2 Retried (Service.retry service 2 quiet_env world).1.db
unfolding Service.retry new_row requested_job Store.get_job Marks.requeue Store.add_event
retry-Shows_example = retry-Shows service 2 quiet_env world refl

create_job-get_job_example :
    HasRequest service
      (codes "https://a/3")
      (codes "/data/x/")
      (codes "a.zip")
      []
      (codes " secret ")
      (pos 7)
      0
      quiet_env
      3
      (Service.create_job service
        (codes "https://a/3")
        (codes "/data/x/")
        (codes "a.zip")
        []
        (codes " secret ")
        (pos 7)
        quiet_env
        world).1
unfolding Service.create_job Store.create_job
create_job-get_job_example =
    create_job-get_job service (codes "https://a/3") (codes "/data/x/") (codes "a.zip") []
      (codes " secret ") (pos 7) quiet_env quiet_env world 3 (λ n. refl) refl
