-- ===== src/Examples/Api.antt =====
-- The theorems on the HTTP API, the settings and the aria2 client, applied to concrete values.
use dlq_download_queue.Prelude.{
  ℕ, ◌≡◌, ◌↔◌, refl, Bool, true, false, [], ◌∷◌, none, some, text_eq, inl, if◌then◌else◌, ℤ, pos,
  negsuc, zero, suc, ap, sym, ◌∙◌, arith,
}
use dlq_download_queue.Go.Strings.{Text, codes}
use dlq_download_queue.Go.Error.{Result, ok, err, plain}
use dlq_download_queue.Go.Os.{Disk, OsEnv, may_fail, write_file}
use dlq_download_queue.Go.Filepath.{clean, is_abs}
use dlq_download_queue.Queue.Paths.{allowed_by, clean_out_dir}
use dlq_download_queue.Queue.Store.{new_row}
use dlq_download_queue.Aria2.{Aria2Client, Transport, remove}
use dlq_download_queue.Aria2.Remove.{Removed, remove-Removed}
use dlq_download_queue.Api.Settings.{
  Settings, Updates, number, update, new_defaults, Codec, number_field, save, is_integer,
  is_outside, boolean_field,
}
use dlq_download_queue.Api.Settings.Accepted.{
  Updated, update_iff, WithinLimits, update-WithinLimits,
}
use dlq_download_queue.Api.Http.{Request, post, decoded}
use dlq_download_queue.Api.Configure.{handle_settings}
use dlq_download_queue.Api.Configure.Restart.{Configured, handle_settings-Configured}
use dlq_download_queue.Api.Settings.File.{ReadsBack}
use dlq_download_queue.Api.Jobs.{AddJobRequest, add_job, job_action}
use dlq_download_queue.Api.Jobs.Refused.{Answers, add_job-400}
use dlq_download_queue.Api.Jobs.Missing.{AnswersQuietly, job_action-404}
use dlq_download_queue.Api.Browse.{is_allowed_path}
use dlq_download_queue.Api.Browse.Below.{is_allowed_path-allowed_by}
use dlq_download_queue.Examples.{quiet_env, service, world, clean_out_dir, is_abs}

abbrev client : Aria2Client
client = record { endpoint = codes "http://127.0.0.1:6800/jsonrpc"; secret = codes "s" }

-- aria2 refuses the removal at first.
abbrev refusing : Transport
refusing n request = ok (record {
  result = codes "\"g1\"";
  error =
      if text_eq request.method (codes "aria2.remove")
      then some (record { code = pos 1; message = codes "GID#g1 cannot be removed now" })
      else none;
})

remove-Removed_example : Removed client (codes "g1") (remove client refusing (codes "g1") [])
remove-Removed_example = remove-Removed client refusing (codes "g1") []

abbrev defaults : Settings
defaults = new_defaults (codes "/state")

-- Three downloads at once.
abbrev three : Updates
three k =
    if text_eq k (codes "concurrency")
    then some (number (record { num = pos 6; shift = 1 }))
    else none

update_iff_example :
    (update defaults three ≡ (ok tt, record defaults { concurrency = pos 3 }))
    ↔ Updated three defaults (record defaults { concurrency = pos 3 })
update_iff_example = update_iff three defaults (record defaults { concurrency = pos 3 })

update-WithinLimits_example : WithinLimits (update defaults three).1
unfolding WithinLimits new_defaults
update-WithinLimits_example =
    update-WithinLimits three defaults
      ((2, refl, omega arith, omega arith), (5, refl, omega arith, omega arith))

abbrev outside : AddJobRequest
outside = record {
  url = codes "https://a/1";
  out_dir = codes "/etc";
  name = [];
  site = [];
  archive_password = [];
  max_attempts = pos 0;
}

add_job-400_example : Answers 400 world (add_job service none outside quiet_env world)
unfolding clean_out_dir
add_job-400_example = add_job-400 service none outside quiet_env world (inl (_, refl))

abbrev posted : Request
posted = record { method = post; path = codes "/jobs/9/retry"; query = λ k. [] }

job_action-404_example :
    AnswersQuietly 404 world (job_action service posted 9 (codes "retry") quiet_env world)
unfolding text_eq new_row
job_action-404_example =
    job_action-404 quiet_env (λ n. refl) 9 service world refl posted (codes "retry") refl refl

is_allowed_path-allowed_by_example :
    is_allowed_path (codes "/data" ∷ []) (codes "/data/x/..")
    ≡ allowed_by (clean (codes "/data/x/..")) (codes "/data" ∷ [])
unfolding clean is_abs text_eq
is_allowed_path-allowed_by_example =
    is_allowed_path-allowed_by (codes "/data/x/..") (codes "/data" ∷ []) refl ((refl, refl), tt)

-- A file of five numbers in place of JSON.
abbrev sign : ℤ → ℕ
sign (pos n) = 0
sign (negsuc n) = 1

abbrev size : ℤ → ℕ
size (pos n) = n
size (negsuc n) = n

abbrev signed_number : ℕ → ℕ → ℤ
signed_number zero n = pos n
signed_number (suc k) n = negsuc n

abbrev flag : ℕ → Bool
flag zero = false
flag (suc k) = true

abbrev bit : Bool → ℕ
bit false = 0
bit true = 1

abbrev read_numbers : Text → Settings → Result Settings
read_numbers (a ∷ b ∷ c ∷ d ∷ e ∷ []) s = ok (record s {
  concurrency = signed_number a b;
  max_attempts = signed_number c d;
  auto_decrypt = flag e;
})
read_numbers _ s = err (plain (codes "unexpected end of input"))

abbrev numbers_of : Settings → Text
numbers_of s =
    sign s.concurrency
    ∷ size s.concurrency
    ∷ sign s.max_attempts
    ∷ size s.max_attempts
    ∷ bit s.auto_decrypt
    ∷ []

abbrev numbers : Codec
numbers = record { marshal = λ s. ok (numbers_of s); unmarshal = read_numbers }

signed_again : (z : ℤ) → signed_number (sign z) (size z) ≡ z
signed_again (pos n) = refl
signed_again (negsuc n) = refl

flag_again : (b : Bool) → flag (bit b) ≡ b
flag_again true = refl
flag_again false = refl

text_of : Result Text → Text
text_of (ok t) = t
text_of (err e) = []

numbers-ReadsBack : ReadsBack numbers
unfolding text_of
numbers-ReadsBack s s0 t h p =
    ap (λ x. read_numbers x s0) (sym (ap text_of h))
    ∙ ap
        (λ x. ok (record {
          concurrency = x;
          max_attempts = signed_number (sign s.max_attempts) (size s.max_attempts);
          auto_decrypt = flag (bit s.auto_decrypt);
          path = s0.path;
        }))
        (signed_again s.concurrency)
    ∙ ap
        (λ x.
          ok (record s {
            max_attempts = x;
            auto_decrypt = flag (bit s.auto_decrypt);
            path = s0.path;
          }))
        (signed_again s.max_attempts)
    ∙ ap (λ x. ok (record s { auto_decrypt = x; path = s0.path })) (flag_again s.auto_decrypt)
    ∙ ap (λ x. ok (record s { path = x })) (sym p)

abbrev empty_disk : Disk
empty_disk = record { content = λ p. none; steps = 0 }

abbrev calm_os : OsEnv
calm_os = record { failure = λ n. none; read_more = λ n. 0; random = λ n. [] }

handle_settings-Configured_example :
    let request : Request = record {
      method = post;
      path = codes "/api/settings";
      query = λ k. [];
    } in
    Configured numbers calm_os calm_os empty_disk
      (codes "/state")
      defaults
      three
      (handle_settings numbers calm_os empty_disk (some defaults) request (decoded three))
unfolding update number_field handle_settings text_eq save may_fail write_file is_integer is_outside
    boolean_field
handle_settings-Configured_example =
    handle_settings-Configured numbers calm_os calm_os empty_disk (codes "/state") defaults three
      numbers-ReadsBack (λ x. (numbers_of x, refl)) (λ n. refl) (λ n. refl) refl
      (codes "/api/settings") (λ k. []) refl
