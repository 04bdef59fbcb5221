-- ===== src/Api/Jobs/Missing.antt =====
-- internal/api/http.go: a request about a job that is not in the table.
use dlq_download_queue.Queue.Job.{Job}
use dlq_download_queue.Prelude.{
  ℕ, Bool, true, false, ◌≡◌, refl, none, find_first, text_eq, if◌then◌else◌,
}
use dlq_download_queue.Go.Strings.{Text, codes}
use dlq_download_queue.Go.Error.{Result, ok, err}
use dlq_download_queue.Queue.World.{Env, World, M, Quiet, statement, tick, ◌>>=◌}
use dlq_download_queue.Queue.Store
use dlq_download_queue.Queue.Store.{has_id, no_rows_error}
use dlq_download_queue.Queue.Service
use dlq_download_queue.Queue.Service.{Service}
use dlq_download_queue.Api.Http.{
  Request, Response, post, write_queue_err, status_for_queue_err, no_content,
}
use dlq_download_queue.Api.Jobs.{job_action, run_action, pause_logged, pure}

abbrev IsMissing : ℕ → World → Type 0
IsMissing id w = find_first (has_id id) w.db.jobs ≡ none

abbrev pub AnswersQuietly : ℕ → World → Result Response × World → Type 0
AnswersQuietly code w x = (r : Response) × (x.0 ≡ ok r) × (r.code ≡ code) × (x.1.db ≡ w.db)

module _ (env : Env) (quiet : Quiet env) (id : ℕ) where
  get_job_missing :
      (w : World) → IsMissing id w → Store.get_job id env w ≡ (err no_rows_error, tick w)
  unfolding Store.get_job statement
  get_job_missing w h = rw (quiet w.steps, h, Store.get_job, statement)

  -- An operation that reads the job first fails where there is none.
  read_first :
      {A : Type 0} (f : Job → M A) (w : World)
      → IsMissing id w
      → (Store.get_job id >>= f) env w ≡ (err no_rows_error, tick w)
  read_first f w h = rw (get_job_missing w h)

  -- A POST of an operation that fails so is answered 404.
  refused_post :
      (m : M (Unit {0})) (w w' : World)
      → m env w ≡ (err no_rows_error, w')
      → w'.db ≡ w.db
      → AnswersQuietly 404 w (run_action post m env w)
  unfolding run_action write_queue_err status_for_queue_err
  refused_post m w w' h same = rw (h, run_action) (write_queue_err no_rows_error, refl, refl, same)

  either :
      {w : World} (b : Bool) (m n : M Response)
      → AnswersQuietly 404 w (m env w)
      → AnswersQuietly 404 w (n env w)
      → AnswersQuietly 404 w ((if b then m else n) env w)
  either true m n hm hn = hm
  either false m n hm hn = hn

  module _ (s : Service) (w : World) (missing : IsMissing id w) where
    retry_missing : Service.retry s id env w ≡ (err no_rows_error, tick w)
    unfolding Service.retry
    retry_missing = read_first _ w missing

    remove_missing : Service.remove s id env w ≡ (err no_rows_error, tick w)
    unfolding Service.remove
    remove_missing = read_first _ w missing

    resume_missing : Service.resume s id env w ≡ (err no_rows_error, tick w)
    unfolding Service.resume
    resume_missing = read_first _ w missing

    pause_missing :
        (w' : World) → IsMissing id w' → Service.pause s id env w' ≡ (err no_rows_error, tick w')
    unfolding Service.pause
    pause_missing w' h = read_first _ w' h

    pause_logged_missing : pause_logged s id env w ≡ (err no_rows_error, tick (tick w))
    unfolding Service.get_job
    pause_logged_missing = rw (read_first _ w missing) (pause_missing (tick w) missing)

    -- Where the database answers, a POST to a job that is not in the table, of any action but
    -- `events`, is answered 404 and changes no table.
    pub job_action-404 :
        (request : Request) (name : Text)
        → request.method ≡ post
        → text_eq name (codes "events") ≡ false
        → AnswersQuietly 404 w (job_action s request id name env w)
    unfolding job_action
    job_action-404 request name h n =
        rw (n, h, job_action)
          (either (text_eq name (codes "retry")) (run_action post (Service.retry s id)) _
            (refused_post (Service.retry s id) w (tick w) retry_missing refl)
            (either (text_eq name (codes "remove")) (run_action post (Service.remove s id)) _
              (refused_post (Service.remove s id) w (tick w) remove_missing refl)
              (either (text_eq name (codes "pause")) (run_action post (pause_logged s id)) _
                (refused_post (pause_logged s id) w (tick (tick w)) pause_logged_missing refl)
                (either (text_eq name (codes "resume")) (run_action post (Service.resume s id))
                  (pure (record { code = 404; reply = no_content }))
                  (refused_post (Service.resume s id) w (tick w) resume_missing refl)
                  (record { code = 404; reply = no_content }, refl, refl, refl)))))
