-- ===== src/Resolver/Webshare.antt =====
-- internal/resolver/webshare.go: the resolver of Webshare links. The exchange with the server and the
-- decoding of its XML are parameters.
pub mod Idents
use dlq_download_queue.Prelude.{
  ℕ, Bool, true, false, not, ◌&&◌, ◌||◌, List, [], ◌∷◌, ◌++◌, Option, none, some, if◌then◌else◌,
  leb, length, reverse, find_first, ℤ, ◌==◌, text_eq,
}
use dlq_download_queue.Go.Strings.{
  Text, codes, is_empty, trim_space, trim_left, trim_right, to_lower, contains, split_on,
}
use dlq_download_queue.Go.Strconv.{parse_int64}
use dlq_download_queue.Go.Error.{Error, Result, ok, err, plain}
use dlq_download_queue.Resolver.{
  Resolver, ResolvedTarget, login_required_error, quota_exceeded_error, temporarily_off_error,
  captcha_needed_error,
}
use dlq_download_queue.Resolver.Mega.{then_result}

-- What url.Parse makes of a text, as far as this resolver looks at it.
pub record SiteUrl : Type 0 where
  pub host : Text
  pub path : Text
  pub fragment : Text
  pub query : Text → Text

pub record InfoResponse : Type 0 where
  pub status : Text
  pub name : Text
  pub size : Text
  pub message : Text
  pub code : Text
  pub removed : Text
  pub password : Text
  pub available : Text

pub record LinkResponse : Type 0 where
  pub status : Text
  pub link : Text
  pub message : Text
  pub code : Text

-- The two requests by the identifier, with the XML of the answers decoded.
pub record WebshareResolver : Type 0 where
  pub parse : Text → Result SiteUrl
  pub post_info : Text → ℕ → Result InfoResponse
  pub post_link : Text → ℕ → Result LinkResponse

abbrev can_handle_url : Result SiteUrl → Bool
can_handle_url (err e) = false
can_handle_url (ok u) = contains (to_lower u.host) (codes "webshare.cz")

unfoldable pub can_handle : WebshareResolver → Text → Bool
unfolding to_lower contains
can_handle r url = can_handle_url (r.parse url)

unfoldable is_alphanumeric : ℕ → Bool
is_alphanumeric c = leb b'A' c && leb c b'Z' || leb b'a' c && leb c b'z' || leb b'0' c && leb c b'9'

unfoldable all_alphanumeric : Text → Bool
unfolding is_alphanumeric
all_alphanumeric [] = true
all_alphanumeric (c ∷ s) = is_alphanumeric c && all_alphanumeric s

-- ^[A-Za-z0-9]{5,}$
unfoldable pub is_ident : Text → Bool
unfolding all_alphanumeric
is_ident s = leb 5 (length s) && all_alphanumeric s

abbrev pub text_of : Option Text → Text
text_of none = []
text_of (some t) = t

-- The last piece between slashes that is an identifier.
unfoldable pub last_ident : Text → Option Text
unfolding is_ident split_on
last_ident s = find_first is_ident (reverse (split_on b'/' s))

abbrev is_slash : ℕ → Bool
is_slash c = c == b'/'

unfoldable pub extract_webshare_ident : SiteUrl → Text
unfolding is_empty last_ident trim_left trim_right
extract_webshare_ident u =
    if not (is_empty (u.query (codes "ident")))
    then u.query (codes "ident")
    else if not (is_empty (u.query (codes "id")))
    then u.query (codes "id")
    else elim (last_ident (trim_right is_slash (trim_left is_slash u.path))) [
      | some seg ↦ seg
      | none ↦ if is_empty u.fragment then [] else text_of (last_ident u.fragment)
    ]

-- `strings.ToUpper(status) == "OK"`
unfoldable is_ok_status : Text → Bool
unfolding to_lower text_eq
is_ok_status s = text_eq (to_lower s) (codes "ok")

unfoldable info_of : InfoResponse → Result (Text × ℤ)
unfolding is_ok_status parse_int64 trim_space
info_of out =
    if not (is_ok_status out.status)
    then err (plain (codes "webshare_info_error:" ++ (out.code ++ (codes ":" ++ out.message))))
    else ok (out.name, parse_int64 (trim_space out.size))

unfoldable link_error : LinkResponse → Error
unfolding text_eq
link_error out =
    if text_eq out.code (codes "FILE_LINK_FATAL_1")
    then login_required_error
    else if text_eq out.code (codes "FILE_LINK_FATAL_2")
    then captcha_needed_error
    else if text_eq out.code (codes "FILE_LINK_FATAL_3")
    then quota_exceeded_error
    else if text_eq out.code (codes "FILE_LINK_FATAL_4")
    then temporarily_off_error
    else plain (codes "webshare_link_error:" ++ (out.code ++ (codes ":" ++ out.message)))

unfoldable link_of : LinkResponse → Result Text
unfolding is_ok_status link_error
link_of out = if not (is_ok_status out.status) then err (link_error out) else ok out.link

abbrev webshare_options : List (Text × Text)
webshare_options =
    (codes "max-connection-per-server", codes "1")
    ∷ (codes "split", codes "1")
    ∷ (codes "continue", codes "false")
    ∷ (codes "always-resume", codes "false")
    ∷ (codes "allow-overwrite", codes "true")
    ∷ (codes "auto-file-renaming", codes "false")
    ∷ []

abbrev webshare_headers : List (Text × Text)
webshare_headers =
    (codes "Referer", codes "https://webshare.cz/")
    ∷ (
      codes "User-Agent",
      codes
          "Mozilla/5.0 (X11; Linux x86_64) AppleWebKit/537.36 (KHTML, like Gecko) Chrome/120.0.0.0 Safari/537.36",
    )
    ∷ []

abbrev webshare_target : Text → Text × ℤ → ResolvedTarget
webshare_target link (name, size) = record {
  kind = codes "aria2";
  url = link;
  headers = webshare_headers;
  options = webshare_options;
  filename = name;
  size = size;
}

abbrev resolve_ident : WebshareResolver → Text → ℕ → Result ResolvedTarget
resolve_ident r ident n =
    if is_empty ident
    then err (plain (codes "webshare_ident_not_found"))
    else then_result (then_result (r.post_info ident n) info_of) (λ info.
      then_result (then_result (r.post_link ident n) link_of)
        (λ link. ok (webshare_target link info)))

unfoldable resolve_webshare : WebshareResolver → Text → ℕ → Result ResolvedTarget
unfolding extract_webshare_ident is_empty info_of link_of
resolve_webshare r raw_url n =
    then_result (r.parse raw_url) (λ u. resolve_ident r (extract_webshare_ident u) n)

unfoldable webshare_resolver : WebshareResolver → Resolver
unfolding can_handle resolve_webshare
webshare_resolver r = record { can_handle = can_handle r; resolve = resolve_webshare r }
