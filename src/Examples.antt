-- ===== src/Examples.antt =====
-- Concrete tables and surroundings, to which the modules below apply the theorems.
pub mod Resolvers
pub mod Dlq
pub mod Dlqd
pub mod Daemon
pub mod Requests
pub mod Names
pub mod Mega
pub mod Api
use dlq_download_queue.Queue.Runner.Decrypt.{run_decrypt, is_pending}
use dlq_download_queue.Queue.Paths.{
  clean_out_dir, clean_user_filename, sanitize_filename, separators,
}
use dlq_download_queue.Queue.Paths.Within.{Below, clean_out_dir-Below}
use mathlib.Core.List.{Memᴰ, Perm}
use dlq_download_queue.Go.Filepath.{is_abs, clean, clean_elems, is_dot}
use dlq_download_queue.Queue.Daemon.{serve, Action, create, tick, pause}
use dlq_download_queue.Queue.Job.{Job, failed}
use dlq_download_queue.Resolver.{
  new_registry, http_resolver, resolve_with_site, register_site, site_key,
}
use dlq_download_queue.Go.Error.{ok, err, plain}
use dlq_download_queue.Queue.Consistent.{IsConsistent, RowOk}
use dlq_download_queue.Queue.Service
use dlq_download_queue.Queue.Store
use dlq_download_queue.Queue.Store.Marks
use dlq_download_queue.Queue.Service.Done.{
  Shows, Paused, Removed, Resumed, Retried, pause-Shows, remove-Shows, resume-Shows, retry-Shows,
}
use dlq_download_queue.Queue.Service.Created.{create_job-get_job}
use dlq_download_queue.Queue.Store.Claim.Rounds.{claim_loop_rounds}
use dlq_download_queue.Queue.Runner.Decrypt.Settles.{SettledOf, run_decrypt-SettledOf}
use dlq_download_queue.Queue.Runner.Decrypt.Unmarks.{run_decrypt_unmarks}
use dlq_download_queue.Resolver.Lookup.{resolve_with_site-register_site}
use dlq_download_queue.Queue.Paths.Names.{
  IsFlat, clean_user_filename-IsFlat, sanitize_filename_flat,
}
use dlq_download_queue.Queue.Runner.Active.{eta}
use dlq_download_queue.Queue.Runner.Active.Eta.{eta_bounds}
use dlq_download_queue.Queue.Store.{retryable, list_retryable_failed, new_row}
use dlq_download_queue.Queue.Store.Retries.{Ordered, list_retryable_failed-Ordered}
use dlq_download_queue.Prelude.{
  keep_if, map, ◌*◌, ◌-◌, ◌+◌, ◌<◌, ◌⊎◌, refl, List, none, if◌then◌else◌, some, [], ℕ, arith, ◌==◌,
  ◌∷◌, pos, false, ◌≡◌, ◌≤◌, All, true, text_eq,
}
use dlq_download_queue.Go.Strings.{Text, codes, trim_space, is_empty, contains_any}
use dlq_download_queue.Queue.Service.{Service, requested_job, to_view}
use dlq_download_queue.Queue.Runner.{Runner, concurrency_at}
use dlq_download_queue.Queue.Engine.{EngineStatus, Downloader}
use dlq_download_queue.Queue.Status.{HostOf}
use dlq_download_queue.Queue.World.{Env, Db, World, DecryptTask}
use dlq_download_queue.Queue.Daemon.Consistent.{serve-IsConsistent}
use dlq_download_queue.Queue.Runner.Tick
use dlq_download_queue.Queue.Runner.Tick.Ends.{tick_ends}
use dlq_download_queue.Queue.Runner.Tick.Bound.{start_jobs_bounded, running}
use dlq_download_queue.Queue.Store.Claim.{claim_next_queued, claim_loop}
use dlq_download_queue.Queue.Store.Claim.Oldest.{claim_next_queued-IsOldest, IsOldest}
use dlq_download_queue.Queue.Store.Claim.Atomic.{claim_error_unchanged}
use dlq_download_queue.Go.Filepath.Clean.{clean-clean, IsName}

-- A database that never fails, with a clock that goes by one second a step.
abbrev pub quiet_env : Env
quiet_env = record { clock = λ n. n; db_error = λ n. none; commit_kept = λ n. false }

-- A database whose second statement fails.
abbrev pub failing_env : Env
failing_env = record {
  clock = λ n. n;
  db_error = λ n. if n == 2 then some (codes "disk full") else none;
  commit_kept = λ n. false;
}

abbrev no_host : HostOf
no_host url = none

abbrev gid_one : EngineStatus
gid_one = record {
  gid = codes "g1";
  status = codes "active";
  total_length = codes "10";
  completed_len = codes "4";
  download_speed = codes "2";
  error_code = [];
  error_message = [];
  files = [];
}

abbrev pub engine : Downloader
engine = record {
  add_uri = λ url options n. ok (codes "g1");
  tell_status = λ gid n. ok gid_one;
  pause = λ gid n. ok tt;
  unpause = λ gid n. ok tt;
  remove = λ gid n. ok tt;
}

abbrev pub runner : Runner
runner = record {
  registry = new_registry (http_resolver ∷ []);
  downloader = engine;
  mega_decryptor = none;
  archive_decryptor = none;
  static_concurrency = pos 2;
  get_concurrency = none;
  get_auto_decrypt = none;
  host = no_host;
  remove = λ path n. ok tt;
  exists = λ path n. false;
}

abbrev pub service : Service
service = record {
  downloader = some engine;
  allowed_roots = codes "/data" ∷ [];
  host = no_host;
  redact = λ url. url;
}

abbrev pub asked : Text → Job
asked url = requested_job url (codes "/data/films") [] [] [] 5

-- Two queued jobs.
abbrev pub two_jobs : Db
two_jobs = record {
  jobs = new_row 2 1 (asked (codes "https://a/2")) ∷ new_row 1 1 (asked (codes "https://a/1")) ∷ [];
  job_seq = 2;
  events = [];
  event_seq = 0;
}

abbrev pub world : World
world = record { db = two_jobs; steps = 0; calls = []; pending = []; spawned = [] }
