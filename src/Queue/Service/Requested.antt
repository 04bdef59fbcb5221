-- ===== src/Queue/Service/Requested.antt =====
-- internal/queue/service.go, CreateJob: what the new row keeps and shows of the request.
use dlq_download_queue.Queue.Job.{queued}
use dlq_download_queue.Queue.Service.{
  Job, Text, to_view, requested_job, trim_space, attempts_or_default, password_column, JobView,
}
use dlq_download_queue.Queue.Store.{new_row}
use dlq_download_queue.Go.Strings.{is_empty}
use dlq_download_queue.Prelude.{
  pos_part, sym, suc, zero, pos, negsuc, none, Option, [], ◌⊎◌, ◌≢◌, arith, refl, ℕ, ◌≡◌, ◌∷◌, some,
  inl, inr, ap, ℤ,
}

-- What a client sees of a job that was asked for at a time: a queued job with nothing done.
pub record ShowsRequest (id at : ℕ) (url site out name : Text) (v : JobView) : Type 0 where
  pub same_id : v.id ≡ id
  pub same_url : v.url ≡ url
  pub same_site : v.site ≡ site
  pub same_out_dir : v.out_dir ≡ out
  pub same_name : v.name ≡ name
  pub is_waiting : v.status ≡ queued
  pub no_filename : v.filename ≡ []
  pub no_size : v.size_bytes ≡ pos 0
  pub nothing_done : v.bytes_done ≡ pos 0
  pub no_speed : v.download_speed ≡ pos 0
  pub no_eta : v.eta_seconds ≡ pos 0
  pub no_error : v.error ≡ []
  pub no_error_code : v.error_code ≡ []
  pub created_then : v.created_at ≡ at
  pub updated_then : v.updated_at ≡ at

-- The number that is asked for where it is positive, and else five.
abbrev pub IsAttempts : ℤ → ℕ → Type 0
IsAttempts max n =
    ((k : ℕ) × (max ≡ pos (suc k)) × (n ≡ suc k)) ⊎ (((k : ℕ) → ¬ (max ≡ pos (suc k))) × (n ≡ 5))

-- The password without the spaces around it, or none.
abbrev pub IsPassword : Text → Option Text → Type 0
IsPassword password column =
    ((trim_space password ≡ []) × (column ≡ none))
    ⊎ ((trim_space password ≢ []) × (column ≡ some (trim_space password)))

-- What stands in the table of it and is not shown.
pub record StoresRequest (password : Text) (max : ℤ) (j : Job) : Type 0 where
  pub no_attempt : j.attempts ≡ 0
  pub same_attempts : IsAttempts max j.max_attempts
  pub same_password : IsPassword password j.archive_password
  pub no_task : j.engine_gid ≡ none
  pub no_retry : j.next_retry_at ≡ none
  pub not_started : j.started_at ≡ none
  pub not_completed : j.completed_at ≡ none
  pub not_deleted : j.deleted_at ≡ none

pub new_row-ShowsRequest :
    (id at : ℕ) (url out name site password : Text) (max : ℕ)
    → ShowsRequest id at url site out name
        (to_view (new_row id at (requested_job url out name site password max)))
unfolding to_view new_row requested_job
new_row-ShowsRequest id at url out name site password max = record {
  same_id = refl;
  same_url = refl;
  same_site = refl;
  same_out_dir = refl;
  same_name = refl;
  is_waiting = refl;
  no_filename = refl;
  no_size = refl;
  nothing_done = refl;
  no_speed = refl;
  no_eta = refl;
  no_error = refl;
  no_error_code = refl;
  created_then = refl;
  updated_then = refl;
}

attempts_or_default-IsAttempts : (max : ℤ) → IsAttempts max (attempts_or_default max)
attempts_or_default-IsAttempts (pos zero) = inr ((λ k h. cc (ap pos_part h)), refl)
attempts_or_default-IsAttempts (pos (suc k)) = inl (k, refl, ground arith)
attempts_or_default-IsAttempts (negsuc n) = inr ((λ k h. cc), ground arith)

password_column-IsPassword :
    (password t : Text) → trim_space password ≡ t → IsPassword password (password_column t)
unfolding is_empty
password_column-IsPassword password [] h = inl (h, refl)
password_column-IsPassword password (c ∷ t) h = inr ((λ e. absurd cc), ap some (sym h))

pub new_row-StoresRequest :
    (id at : ℕ) (url out name site password : Text) (max : ℤ)
    → StoresRequest password max (
        new_row id at
          (requested_job url out name site (trim_space password) (attempts_or_default max)))
unfolding new_row requested_job
new_row-StoresRequest id at url out name site password max = record {
  no_attempt = refl;
  same_attempts = attempts_or_default-IsAttempts max;
  same_password = password_column-IsPassword password (trim_space password) refl;
  no_task = refl;
  no_retry = refl;
  not_started = refl;
  not_completed = refl;
  not_deleted = refl;
}
