-- ===== src/Api/Configure.antt =====
-- internal/api/http.go, `handleSettings`: an update changes the settings at hand, and is then saved.
pub mod Restart
use dlq_download_queue.Prelude.{Option, none, some}
use dlq_download_queue.Go.Strings.{codes}
use dlq_download_queue.Go.Error.{Error, Result, ok, err, plain}
use dlq_download_queue.Go.Os.{OsEnv, Disk}
use dlq_download_queue.Api.Settings.{Settings, Updates, Codec, update, save}
use dlq_download_queue.Api.Http.{
  get, post, other_method, Body, Request, Response, settings, not_allowed_method, write_err,
  with_body,
}

-- The response, with the settings and the files behind it.
abbrev pub Answer : Type 0
Answer = Response × Option Settings × Disk

abbrev pub saved : Settings → Result (Unit {0}) × Disk → Answer
saved s (ok u, d) = (record { code = 200; reply = settings s }, some s, d)
saved s (err e, d) = (write_err 500 e, some s, d)

abbrev pub updated : Codec → OsEnv → Disk → Result (Unit {0}) × Settings → Answer
updated codec env d (ok u, s) = saved s (save codec s env d)
updated codec env d (err e, s) = (write_err 400 e, some s, d)

abbrev change_settings : Codec → OsEnv → Disk → Settings → Updates → Answer
change_settings codec env d s u = updated codec env d (update s u)

unfoldable pub handle_settings :
    Codec → OsEnv → Disk → Option Settings → Request → Body Updates → Answer
unfolding update save
handle_settings codec env d none request body =
    (write_err 500 (plain (codes "settings not initialized")), none, d)
handle_settings codec env d (some s) request body = elim request.method [
  | get ↦ (record { code = 200; reply = settings s }, some s, d)
  | post ↦ with_body (λ r. (r, some s, d)) body (change_settings codec env d s)
  | other_method ↦ (not_allowed_method, some s, d)
]
