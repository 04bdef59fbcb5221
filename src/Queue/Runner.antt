-- ===== src/Queue/Runner.antt =====
-- internal/queue/runner.go: the record of the runner, and what its methods share.
pub mod Start
pub mod Decrypt
pub mod Active
pub mod Tick
use dlq_download_queue.Prelude.{
  ℕ, ◌+◌, ◌*◌, Bool, false, Option, none, some, ℤ, pos, ltb_ℤ, pos_part, if◌then◌else◌, ◌||◌, List,
  [], ◌∷◌,
}
use dlq_download_queue.Go.Strings.{Text, codes, is_empty, trim_space, to_lower, contains}
use dlq_download_queue.Go.Error.{
  Error, Result, login_required, quota_exceeded, captcha_needed, temporarily_off, unknown_site,
}
use dlq_download_queue.Go.Filepath.{join}
use dlq_download_queue.Queue.Job.{Job}
use dlq_download_queue.Queue.World.{M, pure, ask}
use dlq_download_queue.Queue.Engine.{Downloader}
use dlq_download_queue.Queue.Status.{HostOf}
use dlq_download_queue.Queue.Paths.{sanitize_filename}
use dlq_download_queue.Resolver.{Registry}

-- MaybeDecrypt of the two decryptors: site, URL and path, or path, directory and password.
abbrev pub Decryptor : Type 0
Decryptor = Text → Text → Text → ℕ → Result Bool

-- `none` stands for a nil interface or function. `remove` is os.Remove, and `exists` tells whether
-- os.Stat returns no error.
pub record Runner : Type 0 where
  pub registry : Registry
  pub downloader : Downloader
  pub mega_decryptor : Option Decryptor
  pub archive_decryptor : Option Decryptor
  pub static_concurrency : ℤ
  pub get_concurrency : Option (ℕ → ℤ)
  pub get_auto_decrypt : Option (ℕ → Bool)
  pub host : HostOf
  pub remove : Text → ℕ → Result (Unit {0})
  pub exists : Text → ℕ → Bool

abbrev pub positive_int_or : ℤ → ℕ → ℕ
positive_int_or n other = if ltb_ℤ (pos 0) n then pos_part n else other

-- The getter where it is set and positive, else the static value where positive, else 2.
unfoldable pub concurrency_at : Runner → ℕ → ℕ
concurrency_at r n = elim r.get_concurrency [
  | none ↦ positive_int_or r.static_concurrency 2
  | some g ↦ positive_int_or (g n) (positive_int_or r.static_concurrency 2)
]

unfoldable pub concurrency : Runner → M ℕ
unfolding concurrency_at ask
concurrency r = ask (concurrency_at r)

abbrev pub ask_or_false : Option (ℕ → Bool) → M Bool
ask_or_false none = pure false
ask_or_false (some g) = ask g

unfoldable pub auto_decrypt_enabled : Runner → M Bool
unfolding ask
auto_decrypt_enabled r = ask_or_false r.get_auto_decrypt

abbrev pub minutes : ℕ → ℕ
minutes n = n * 60

abbrev hours : ℕ → ℕ
hours n = n * 3600

-- A failure as MarkFailed stores it: its code, its message and the time of the next attempt.
pub record Failure : Type 0 where
  pub code : Text
  pub msg : Text
  pub retry_at : ℕ

unfoldable pub map_resolver_error : Error → ℕ → Failure
map_resolver_error e now = elim e.kind [
  | login_required ↦ record {
    code = codes "login_required";
    msg = codes "login required or file not public";
    retry_at = now + hours 6;
  }
  | quota_exceeded ↦ record {
    code = codes "quota_exceeded";
    msg = codes "quota exceeded; retry later";
    retry_at = now + hours 2;
  }
  | captcha_needed ↦ record {
    code = codes "captcha_needed";
    msg = codes "captcha required; cannot proceed in headless mode";
    retry_at = now + hours 24;
  }
  | temporarily_off ↦ record {
    code = codes "temporarily_unavailable";
    msg = codes "temporarily unavailable; retry later";
    retry_at = now + minutes 30;
  }
  | unknown_site ↦ record {
    code = codes "unknown_site";
    msg = codes "unknown site; cannot resolve";
    retry_at = now + hours 6;
  }
  | _ ↦ record { code = codes "resolve_failed"; msg = e.text; retry_at = now + minutes 30 }
]

unfoldable pub map_download_error : Text → ℕ → Failure
unfolding to_lower trim_space contains
map_download_error msg now =
    let lower = to_lower (trim_space msg) in
    if contains lower (codes "status=509")
      || contains lower (codes "status code 509")
      || contains lower (codes "status 509")
    then record { code = codes "quota_exceeded"; msg = msg; retry_at = now + hours 2 }
    else record { code = codes "download_error"; msg = msg; retry_at = now + minutes 10 }

abbrev name_of : Option Text → Text
name_of none = []
name_of (some name) = sanitize_filename name

-- outputNameForJob: the client's name, else the resolved one.
unfoldable pub output_name_for_job : Job → Text
unfolding sanitize_filename is_empty
output_name_for_job j =
    let name = sanitize_filename j.name in if is_empty name then name_of j.filename else name

unfoldable pub archive_path_for_job : Job → Text
unfolding output_name_for_job join is_empty
archive_path_for_job j =
    let name = output_name_for_job j in if is_empty name then [] else join j.out_dir name

abbrev pub first_path : List Text → Text
first_path [] = []
first_path (f ∷ fs) =
    let rest = first_path fs in if is_empty (trim_space f) then rest else trim_space f
