-- ===== src/Api/Http.antt =====
-- internal/api/http.go: requests and responses, and the status of an error. What encoding/json makes
-- of a body is part of the request.
use dlq_download_queue.Prelude.{
  ℕ, Bool, List, [], ◌∷◌, Option, none, some, if◌then◌else◌, text_eq, any_of,
}
use dlq_download_queue.Go.Strings.{Text, codes}
use dlq_download_queue.Go.Error.{
  Error, no_rows, downloader_not_configured, missing_engine_gid, action_not_allowed, Result, ok,
  err,
}
use dlq_download_queue.Queue.Job.{Event}
use dlq_download_queue.Queue.Service.{JobView}
use dlq_download_queue.Api.Settings.{Settings}

pub data Method : Type 0 where
  get post other_method : Method

-- What decoding a request's body comes to; http.MaxBytesReader makes the first of the errors.
pub data Body (A : Type 0) : Type 0 where
  too_large : Body A
  malformed : Error → Body A
  decoded : A → Body A

-- `query` is URL.Query().Get, which is empty for a missing parameter.
pub record Request : Type 0 where
  pub method : Method
  pub path : Text
  pub query : Text → Text

pub record Meta : Type 0 where
  pub out_dir_presets : List Text
  pub version : Text

pub record BrowseResponse : Type 0 where
  pub path : Text
  pub parent : Text
  pub dirs : List Text
  pub is_root : Bool

-- What is written as JSON, or nothing but the status.
pub data Reply : Type 0 where
  no_content status_ok : Reply
  error_text : Text → Reply
  meta : Meta → Reply
  job_list : List JobView → Reply
  job_view : JobView → Reply
  created : ℕ → Reply
  event_list : List Event → Reply
  settings : Settings → Reply
  listing : BrowseResponse → Reply
  made : Text → Reply

pub record Response : Type 0 where
  pub code : ℕ
  pub reply : Reply

abbrev pub not_allowed_method : Response
not_allowed_method = record { code = 405; reply = no_content }

abbrev pub write_err : ℕ → Error → Response
write_err code e = record { code = code; reply = error_text e.text }

-- The errors of CreateJob's checks, told by their texts.
abbrev client_errors : List Text
client_errors =
    codes "missing out_dir"
    ∷ codes "no DATA_* volumes configured"
    ∷ codes "out_dir must be absolute"
    ∷ codes "out_dir is not within an allowed DATA_* volume"
    ∷ codes "name must not contain path separators"
    ∷ codes "invalid name"
    ∷ []

unfoldable pub status_for_queue_err : Error → ℕ
unfolding text_eq
status_for_queue_err e = elim e.kind [
  | no_rows ↦ 404
  | missing_engine_gid ↦ 409
  | action_not_allowed ↦ 409
  | downloader_not_configured ↦ 503
  | _ ↦ if any_of (text_eq e.text) client_errors then 400 else 500
]

unfoldable pub write_queue_err : Error → Response
unfolding status_for_queue_err
write_queue_err e = write_err (status_for_queue_err e) e

-- The response to a result: the reply, or the error.
abbrev pub respond : {A : Type 0} → (A → Reply) → (Error → Response) → Result A → Response
respond reply failed (ok a) = record { code = 200; reply = reply a }
respond reply failed (err e) = failed e

-- A body is used where it was decoded.
abbrev pub with_body : {A R : Type 0} → (Response → R) → Body A → (A → R) → R
with_body refuse too_large use_it =
    refuse (record { code = 413; reply = error_text (codes "request body too large") })
with_body refuse (malformed e) use_it = refuse (write_err 400 e)
with_body refuse (decoded a) use_it = use_it a

unfoldable handle_meta : Option Meta → Request → Response
handle_meta m request = elim request.method [
  | get ↦ record {
    code = 200;
    reply = meta (elim m [ none ↦ record { out_dir_presets = []; version = [] } | some x ↦ x ]);
  }
  | _ ↦ not_allowed_method
]
