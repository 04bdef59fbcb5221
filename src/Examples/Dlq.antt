-- ===== src/Examples/Dlq.antt =====
-- The theorems on the command line, applied to short commands.
use dlq_download_queue.Prelude.{
  ◌==◌, if◌then◌else◌, text_eq, ◌≡◌, refl, List, [], ◌∷◌, false, map, true, ◌+◌, length, ltb, pos,
}
use dlq_download_queue.Go.Strings.{Text, codes, has_prefix, contains_byte}
use dlq_download_queue.Go.Error.{ok, err, plain}
use dlq_download_queue.Dlq.Add.{AddArgs, Inputs, Post, parse_flags, parse_add_args, cmd_add}
use dlq_download_queue.Dlq.Status.{JobView, active, done, counts, watches_on}
use dlq_download_queue.Dlq.Status.Counts.{status_counts}
use dlq_download_queue.Queue.Job.{paused, failed, deleted, status_text}
use dlq_download_queue.Dlq.Add.Flags.{parse_flags_forms}
use dlq_download_queue.Dlq.Add.Requests.{Requested, cmd_add-Requested}

abbrev no_args : AddArgs
no_args = record {
  urls = [];
  out_dir = [];
  name = [];
  site = [];
  archive_password = [];
  api = [];
  files = [];
  use_stdin = false;
}

abbrev inputs : Inputs
inputs = record {
  getenv = λ key. [];
  file_lines = λ path. ok (codes "# films" ∷ codes " https://a/2 " ∷ []);
  stdin_lines = err (plain (codes "closed"));
}

-- The first request fails.
abbrev post : Post
post n to p = if n == 0 then err (plain (codes "http 500")) else ok (codes "7")

abbrev args : List Text
args = codes "https://a/1" ∷ codes "--file=films.txt" ∷ codes "--out" ∷ codes "/data" ∷ []

sent_both :
    map (λ q. q.1.url) (cmd_add inputs post [] args).posts
    ≡ codes "https://a/1" ∷ codes "https://a/2" ∷ []
unfolding cmd_add
sent_both = refl

parse_flags_forms_example :
    parse_flags (codes "--out" ∷ codes "/data" ∷ codes "https://a" ∷ []) no_args
    ≡ parse_flags (codes "--out=/data" ∷ codes "https://a" ∷ []) no_args
unfolding has_prefix contains_byte text_eq
parse_flags_forms_example =
    parse_flags_forms (codes "--out") (codes "/data") (codes "https://a" ∷ []) no_args refl refl
      refl

cmd_add-Requested_example :
    Requested (parse_add_args inputs args) (cmd_add inputs post [] args).posts
cmd_add-Requested_example = cmd_add-Requested inputs post [] args

abbrev view : Text → JobView
view status = record {
  id = pos 1;
  url = codes "https://a/1";
  site = [];
  out_dir = codes "/data";
  name = [];
  status = status;
  filename = [];
  size_bytes = pos 0;
  bytes_done = pos 0;
  download_speed = pos 0;
  eta_seconds = pos 0;
  error = [];
  error_code = [];
  created_at = [];
  updated_at = [];
}

abbrev views : List JobView
views = view (codes "paused") ∷ view (codes "failed") ∷ view (codes "deleted") ∷ []

status_counts_example :
    (active views + done views + counts (codes "deleted") views ≡ length views)
    × (watches_on true views ≡ ltb 0 (active views))
unfolding status_text
status_counts_example =
    status_counts views ((paused, refl), ((failed, refl), ((deleted, refl), tt)))
