-- ===== src/Queue/Status.antt =====
-- internal/queue/status.go: which site a job belongs to. `net/url` is not modelled: `host` returns
-- the host name of a URL that parses, and the tests of the program need nothing else of it.
use dlq_download_queue.Prelude.{Bool, true, false, ◌&&◌, ◌||◌, Option, none, some, if◌then◌else◌}
use dlq_download_queue.Go.Strings.{
  Text, codes, is_empty, trim_space, to_lower, contains, equal_fold,
}
use dlq_download_queue.Queue.Job.{Status, paused, same_status, status_text}

-- `url.Parse(s)` and `Hostname()`; `none` where it does not parse.
abbrev pub HostOf : Type 0
HostOf = Text → Option Text

abbrev host_has : Text → Option Text → Bool
host_has needle none = false
host_has needle (some h) = contains (to_lower (trim_space h)) needle

unfoldable pub is_webshare_job : HostOf → Text → Text → Bool
unfolding is_empty trim_space to_lower contains equal_fold
is_webshare_job host site raw_url =
    let url = trim_space raw_url in
    if equal_fold (trim_space site) (codes "webshare")
    then true
    else if is_empty url
    then false
    else host_has (codes "webshare.cz") (host url) || contains (to_lower url) (codes "webshare.cz")

unfoldable pub is_mega_job : HostOf → Text → Text → Bool
unfolding is_empty trim_space to_lower contains equal_fold
is_mega_job host site raw_url =
    let url = trim_space raw_url in
    if equal_fold (trim_space site) (codes "mega")
    then true
    else if is_empty url
    then false
    else host_has (codes "mega.nz") (host url)
      || host_has (codes "mega.co.nz") (host url)
      || contains (to_lower url) (codes "mega.nz")
      || contains (to_lower url) (codes "mega.co.nz")

unfoldable pub display_status : HostOf → Status → Text → Text → Text
unfolding is_webshare_job status_text
display_status host s site raw_url =
    if same_status s paused && is_webshare_job host site raw_url
    then codes "stopped"
    else status_text s
