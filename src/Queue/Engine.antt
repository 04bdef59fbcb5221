-- ===== src/Queue/Engine.antt =====
-- internal/queue/downloader.go and the status record of internal/downloader/aria2.go. What aria2
-- answers is outside the program: each answer may depend on the number of the step.
use dlq_download_queue.Prelude.{ℕ, List}
use dlq_download_queue.Go.Strings.{Text}
use dlq_download_queue.Go.Error.{Result}
use dlq_download_queue.Queue.World.{Options}

pub record EngineStatus : Type 0 where
  pub gid : Text
  pub status : Text
  pub total_length : Text
  pub completed_len : Text
  pub download_speed : Text
  pub error_code : Text
  pub error_message : Text
  pub files : List Text

pub record Downloader : Type 0 where
  pub add_uri : Text → Options → ℕ → Result Text
  pub tell_status : Text → ℕ → Result EngineStatus
  pub pause : Text → ℕ → Result (Unit {0})
  pub unpause : Text → ℕ → Result (Unit {0})
  pub remove : Text → ℕ → Result (Unit {0})
