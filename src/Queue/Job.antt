-- ===== src/Queue/Job.antt =====
-- internal/queue/store.go: the statuses of a job and its row, and the rows of job_events.
use dlq_download_queue.Prelude.{ℕ, Bool, true, false, ◌≡◌, arith, Option, none, some, ℤ, text_eq}
use dlq_download_queue.Go.Strings.{Text, codes}

-- The constants StatusQueued to StatusDeleted; no code writes another value to the column.
pub data Status : Type 0 where
  queued resolving downloading paused decrypting decrypt_failed completed failed deleted : Status

pub Status-discrete : Discrete Status
Status-discrete = hlevel

-- The text of a status in the column.
unfoldable pub status_text : Status → Text
status_text queued = codes "queued"
status_text resolving = codes "resolving"
status_text downloading = codes "downloading"
status_text paused = codes "paused"
status_text decrypting = codes "decrypting"
status_text decrypt_failed = codes "decrypt_failed"
status_text completed = codes "completed"
status_text failed = codes "failed"
status_text deleted = codes "deleted"

abbrev pub same_status : Status → Status → Bool
same_status queued queued = true
same_status resolving resolving = true
same_status downloading downloading = true
same_status paused paused = true
same_status decrypting decrypting = true
same_status decrypt_failed decrypt_failed = true
same_status completed completed = true
same_status failed failed = true
same_status deleted deleted = true
same_status _ _ = false

-- A column that may be NULL is an `Option`. A time is its whole seconds, which is what RFC 3339
-- texts in UTC keep and in which order they compare. `int64` columns hold signed integers.
pub record Job : Type 0 where
  pub id : ℕ
  pub url : Text
  pub site : Text
  pub out_dir : Text
  pub name : Text
  pub archive_password : Option Text
  pub resolved_url : Option Text
  pub filename : Option Text
  pub size_bytes : Option ℤ
  pub bytes_done : ℤ
  pub download_speed : Option ℤ
  pub eta_seconds : Option ℤ
  pub status : Status
  pub error : Option Text
  pub error_code : Option Text
  pub engine : Text
  pub engine_gid : Option Text
  pub attempts : ℕ
  pub max_attempts : ℕ
  pub next_retry_at : Option ℕ
  pub created_at : ℕ
  pub updated_at : ℕ
  pub started_at : Option ℕ
  pub completed_at : Option ℕ
  pub deleted_at : Option ℕ

pub data Level : Type 0 where
  info error_level : Level

pub record Event : Type 0 where
  pub id : ℕ
  pub job_id : ℕ
  pub level : Level
  pub message : Text
  pub created_at : ℕ

abbrev pub is_some {ℓ} : {A : Type ℓ} → Option A → Bool
is_some none = false
is_some (some a) = true

abbrev is_none {ℓ} : {A : Type ℓ} → Option A → Bool
is_none none = true
is_none (some a) = false

-- The column that decides whether a row is shown.
abbrev pub is_live : Job → Bool
is_live j = is_none j.deleted_at

-- Comparing the texts is comparing the statuses.
pub text_eq-status_text : (s t : Status) → text_eq (status_text s) (status_text t) ≡ same_status s t
unfolding text_eq status_text
text_eq-status_text s t = ground arith

-- What the tests of a row say of its columns.
pub same_status→eq : (s t : Status) → same_status s t ≡ true → s ≡ t
same_status→eq s t h = ground arith

pub is_live→none : (j : Job) → is_live j ≡ true → j.deleted_at ≡ none
is_live→none j h = ground arith
