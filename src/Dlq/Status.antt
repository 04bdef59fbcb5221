-- ===== src/Dlq/Status.antt =====
-- cmd/dlq/jobs.go and cmd/dlq/format.go: the numbers of `dlq status`, when its loop goes on, and the
-- names that are printed.
pub mod Counts
use dlq_download_queue.Prelude.{
  ℕ, ◌+◌, Bool, true, false, ◌||◌, List, [], ◌∷◌, ◌++◌, if◌then◌else◌, text_eq, length, take, ltb,
  count_if, ℤ, any_of, ◌==◌,
}
use dlq_download_queue.Go.Strings.{Text, codes, is_empty, trim_right}

pub record JobView : Type 0 where
  pub id : ℤ
  pub url : Text
  pub site : Text
  pub out_dir : Text
  pub name : Text
  pub status : Text
  pub filename : Text
  pub size_bytes : ℤ
  pub bytes_done : ℤ
  pub download_speed : ℤ
  pub eta_seconds : ℤ
  pub error : Text
  pub error_code : Text
  pub created_at : Text
  pub updated_at : Text

-- `counts[status]`
unfoldable pub counts : Text → List JobView → ℕ
unfolding text_eq
counts status jobs = count_if (λ (j : JobView). text_eq j.status status) jobs

unfoldable pub active : List JobView → ℕ
unfolding counts
active jobs =
    counts (codes "queued") jobs
    + counts (codes "resolving") jobs
    + counts (codes "downloading") jobs
    + counts (codes "paused") jobs
    + counts (codes "decrypting") jobs

unfoldable pub done : List JobView → ℕ
unfolding counts
done jobs =
    counts (codes "completed") jobs
    + counts (codes "failed") jobs
    + counts (codes "decrypt_failed") jobs

unfoldable pub is_active : Text → Bool
unfolding text_eq
is_active s =
    text_eq s (codes "queued")
    || text_eq s (codes "resolving")
    || text_eq s (codes "downloading")
    || text_eq s (codes "paused")
    || text_eq s (codes "decrypting")

unfoldable pub has_active_jobs : List JobView → Bool
unfolding is_active
has_active_jobs [] = false
has_active_jobs (j ∷ jobs) = if is_active j.status then true else has_active_jobs jobs

-- With --watch, the jobs are asked for again while one of them is active.
unfoldable pub watches_on : Bool → List JobView → Bool
unfolding has_active_jobs
watches_on watch jobs = if watch then has_active_jobs jobs else false

unfoldable short_url : Text → Text
short_url u = if ltb 64 (length u) then take 61 u ++ codes "..." else u

unfoldable display_name : JobView → Text
unfolding is_empty short_url
display_name j =
    let name = if is_empty j.filename then j.name else j.filename in
    if is_empty name then short_url j.url else name

unfoldable pub file_path : JobView → Text
unfolding is_empty short_url trim_right
file_path j =
    let name = if is_empty j.filename then j.name else j.filename in
    if is_empty name
    then short_url j.url
    else trim_right (λ c. c == b'/') j.out_dir ++ (codes "/" ++ name)
