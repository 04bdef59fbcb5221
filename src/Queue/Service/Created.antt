-- ===== src/Queue/Service/Created.antt =====
-- internal/queue/service.go, CreateJob and GetJob: what is asked for is what is shown.
use dlq_download_queue.Queue.Store.Events.{add_event-Keeps}
use dlq_download_queue.Queue.Job.{info}
use dlq_download_queue.Queue.World.{statement, Env, now, World, Db, Quiet, continue, ◌>>=◌, ◌>>◌}
use dlq_download_queue.Queue.Service.{
  Job, Text, ok, Service, Result, M, to_view, err, ignore, requested_job, added_message, lift, pure,
  clean_out_dir, clean_user_filename, trim_space, attempts_or_default, password_column, JobView,
}
use dlq_download_queue.Queue.Store.{insert_event, insert_job, has_id, new_row}
use dlq_download_queue.Queue.World
use dlq_download_queue.Queue.Store
use dlq_download_queue.Queue.Service
use dlq_download_queue.Prelude.{
  refl, ℕ, ◌≡◌, List, ◌∷◌, some, inl, inr, ◌∙◌, find_first, ◌+◌, Option-cases, ap, ==_refl, ℤ,
}
use dlq_download_queue.Queue.Service.Requested.{
  ShowsRequest, StoresRequest, new_row-ShowsRequest, new_row-StoresRequest,
}

get_job_found :
    (id : ℕ) (j : Job) (env : Env) (w : World)
    → Quiet env
    → find_first (has_id id) w.db.jobs ≡ some j
    → (Store.get_job id env w).0 ≡ ok j
unfolding Store.get_job statement
get_job_found id j env w q f = rw (q w.steps, statement, f) refl

shown_found :
    (id : ℕ) (j : Job) (env : Env) (w : World)
    → Quiet env
    → find_first (has_id id) w.db.jobs ≡ some j
    → (Service.get_job id env w).0 ≡ ok (to_view j)
unfolding Service.get_job
shown_found id j env w q f =
    ap (λ r. (continue r (λ k. World.pure (to_view k)) env (Store.get_job id env w).1).0)
      (get_job_found id j env w q f)

new_row_first :
    (id k at : ℕ) (j : Job) (rows jobs : List Job)
    → rows ≡ new_row k at j ∷ jobs
    → k ≡ id
    → find_first (has_id id) rows ≡ some (new_row id at j)
unfolding new_row
new_row_first id k at j rows jobs e same = rw (e, same, ==_refl id) refl

inserted :
    (at : ℕ) (j : Job) (env : Env) (w : World) (id : ℕ)
    → (statement (insert_job at j) env w).0 ≡ ok id
    → (w.db.job_seq + 1 ≡ id)
      × ((statement (insert_job at j) env w).1.db.jobs
          ≡ new_row (w.db.job_seq + 1) at j ∷ w.db.jobs)
unfolding insert_job statement
inserted at j env w id = elim (Option-cases (env.db_error w.steps)) [
  | inl e ↦ rw (e, statement) (λ h. (cc, refl))
  | inr (t, e) ↦ rw (e, statement) (λ h. cc)
]

-- What CreateJob does once the directory and the name are cleaned, or refused.
abbrev creation : Service → Text → Text → Text → ℕ → Result Text → Result Text → M ℕ
creation s url site password max out name = do
  o ← lift out
  n ← lift name
  id ← Store.create_job (requested_job url o n site password max)
  ignore (Store.add_event id info (added_message s.redact url o n site password max))
  pure id

finished :
    (f : ℕ → Text) (r : Result ℕ) (env : Env) (w : World) (id : ℕ)
    → (continue r (λ k. ignore (Store.add_event k info (f k)) >> pure k) env w).0 ≡ ok id
    → (r ≡ ok id)
      × ((continue r (λ k. ignore (Store.add_event k info (f k)) >> pure k) env w).1.db.jobs
          ≡ w.db.jobs)
finished f (err e) env w id h = cc
finished f (ok k) env w id h = (h, (add_event-Keeps w.db.jobs k info (f k)).at env w refl)

module _ (s : Service) (url site password : Text) (max : ℕ) (env env' : Env) (w : World)
    (id : ℕ) where
  abbrev Shown : Result Text → Result Text → Type 0
  Shown out name =
      (o : Text) × (n : Text) × (out ≡ ok o)
      × (name ≡ ok n)
      × ((Store.get_job id env' (creation s url site password max out name env w).1).0
          ≡ ok (new_row id (env.clock w.steps) (requested_job url o n site password max)))
      × ((Service.get_job id env' (creation s url site password max out name env w).1).0
          ≡ ok (to_view (new_row id (env.clock w.steps) (requested_job url o n site password max))))

  created :
      (out name : Result Text)
      → Quiet env'
      → (creation s url site password max out name env w).0 ≡ ok id
      → Shown out name
  unfolding Store.create_job Service.get_job now
  created (err e) name q h = cc
  created (ok o) (err e) q h = cc
  created (ok o) (ok n) q h =
      let f : ℕ → Text = λ k. added_message s.redact url o n site password max in
      let j : Job = requested_job url o n site password max in
      let (stored, same) = finished f _ env _ id h in
      let (new, rows) = inserted (env.clock w.steps) j env (World.tick w) id stored in
      let first =
        new_row_first id (w.db.job_seq + 1) (env.clock w.steps) j _ w.db.jobs (same ∙ rows) new in
      (
        o,
        n,
        refl,
        refl,
        get_job_found id (new_row id (env.clock w.steps) j) env' _ q first,
        shown_found id (new_row id (env.clock w.steps) j) env' _ q first,
      )

-- The job with the identifier, in the tables of the world, is the one that was asked for.
abbrev pub HasRequest :
    Service → Text → Text → Text → Text → Text → ℤ → ℕ → Env → ℕ → World → Type 0
HasRequest s url out name site password max at env id w =
    (o : Text) × (n : Text) × (clean_out_dir out s.allowed_roots ≡ ok o)
    × (clean_user_filename name ≡ ok n)
    × ((v : JobView) × ((Service.get_job id env w).0 ≡ ok v) × ShowsRequest id at url site o n v)
    × ((j : Job) × ((Store.get_job id env w).0 ≡ ok j) × StoresRequest password max j)

-- A job that CreateJob accepted is shown by GetJob, where the database answers then, as a queued job
-- with the URL and the site asked for, the cleaned directory and name, and nothing done; its row has
-- the attempts asked for, or five where none are, no attempt made, and the trimmed password, if any.
pub create_job-get_job :
    (s : Service) (url out name site password : Text) (max : ℤ) (env env' : Env) (w : World)
    (id : ℕ)
    → Quiet env'
    → (Service.create_job s url out name site password max env w).0 ≡ ok id
    → HasRequest s url out name site password max
        (env.clock w.steps)
        env'
        id
        (Service.create_job s url out name site password max env w).1
unfolding Service.create_job
create_job-get_job s url out name site password max env env' w id q h =
    let at : ℕ = env.clock w.steps in
    let (o, n, cleaned, named, stored, shown) =
      created s url site (trim_space password) (attempts_or_default max) env env' w id
        (clean_out_dir out s.allowed_roots) (clean_user_filename name) q h in
    (
      o,
      n,
      cleaned,
      named,
      (
        _,
        shown,
        new_row-ShowsRequest id at url o n site (trim_space password) (attempts_or_default max),
      ),
      (_, stored, new_row-StoresRequest id at url o n site password max),
    )
