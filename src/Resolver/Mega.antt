-- ===== src/Resolver/Mega.antt =====
-- internal/resolver/mega.go: the resolver of MEGA links. The exchange with the server, JSON, base64
-- and AES are parameters.
pub mod Keys
use dlq_download_queue.Prelude.{
  ℕ, zero, suc, ◌+◌, ◌%◌, ◌^◌, Bool, true, false, not, ◌&&◌, ◌||◌, List, [], ◌∷◌, ◌++◌, Option,
  none, some, if◌then◌else◌, leb, ltb, ◌==◌, length, take, drop, ℤ, pos, negsuc, is_zero_ℤ,
}
use dlq_download_queue.Go.Strings.{
  Text, codes, is_empty, trim_space, trim_left, trim_right, to_lower, has_prefix, contains,
  split_on, xor_bytes,
}
use dlq_download_queue.Go.Strconv.{itoa}
use dlq_download_queue.Go.Error.{Error, Result, ok, err, plain}
use dlq_download_queue.Mega.{Link, ParseUrl, Decode, nth_trimmed}
use dlq_download_queue.Resolver.{
  Resolver, ResolvedTarget, login_required_error, quota_exceeded_error, temporarily_off_error,
}

-- The answer to a POST: the status, and the raw items of the JSON array or the error of decoding it.
pub record HttpReply : Type 0 where
  pub status : ℕ
  pub items : Result (List Text)

pub record MegaFileInfo : Type 0 where
  pub download_url : Text
  pub size : ℤ
  pub attributes : Text
  pub error_code : ℤ

-- `host` is url.Parse with Host; `post` sends the request for a file to a URL; `read_int`,
-- `read_info` and `read_name` are json.Unmarshal; `decrypt` is AES in CBC mode from an IV of zeros.
pub record MegaResolver : Type 0 where
  pub host : Text → Option Text
  pub parse : ParseUrl
  pub decode : Decode
  pub post : Text → Text → ℕ → Result HttpReply
  pub read_int : Text → Option ℤ
  pub read_info : Text → Result MegaFileInfo
  pub read_name : Text → Result Text
  pub decrypt : Text → Text → Result Text
  pub api_url : Text
  pub request_id : ℕ → ℕ

unfoldable pub can_handle : MegaResolver → Text → Bool
unfolding to_lower contains
can_handle r url = elim (r.host url) [
  | none ↦ false
  | some h ↦ contains (to_lower h) (codes "mega.nz") || contains (to_lower h) (codes "mega.co.nz")
]

unfoldable pub is_token_byte : ℕ → Bool
is_token_byte c =
    leb b'a' c && leb c b'z'
    || leb b'A' c && leb c b'Z'
    || leb b'0' c && leb c b'9'
    || c == b'-'
    || c == b'_'

unfoldable pub all_token_bytes : Text → Bool
unfolding is_token_byte
all_token_bytes [] = true
all_token_bytes (c ∷ s) = is_token_byte c && all_token_bytes s

unfoldable pub is_valid_mega_token : Text → Bool
unfolding is_empty all_token_bytes
is_valid_mega_token v = if is_empty v then false else all_token_bytes v

abbrev is_slash : ℕ → Bool
is_slash c = c == b'/'

abbrev bang_tokens : List Text → Text × Text
bang_tokens (id ∷ key ∷ rest) = (trim_space id, trim_space key)
bang_tokens _ = ([], [])

unfoldable pub file_tokens : Link → Text × Text
unfolding trim_left trim_right trim_space has_prefix split_on
file_tokens u =
    let path = trim_right is_slash (trim_left is_slash u.path) in
    let fragment = trim_space u.fragment in
    if has_prefix path (codes "file/")
    then (nth_trimmed 1 (split_on b'/' path), trim_space fragment)
    else if has_prefix fragment (codes "!")
    then bang_tokens (split_on b'!' (drop 1 fragment))
    else ([], [])

unfoldable pub check_tokens : Text × Text → Result (Text × Text)
unfolding is_valid_mega_token is_empty
check_tokens (id, key) =
    if is_empty id || is_empty key
    then err (plain (codes "mega_public_file_link_required"))
    else if is_valid_mega_token id && is_valid_mega_token key
    then ok (id, key)
    else err (plain (codes "mega_link_invalid_tokens"))

abbrev pub file_link : Result Link → Result (Text × Text)
file_link (err e) = err e
file_link (ok u) = check_tokens (file_tokens u)

unfoldable pub parse_mega_file_link : ParseUrl → Text → Result (Text × Text)
unfolding check_tokens file_tokens
parse_mega_file_link parse raw_url = file_link (parse raw_url)

abbrev is_minus : ℕ → ℤ → Bool
is_minus n (pos k) = false
is_minus n (negsuc k) = suc k == n

abbrev itoa_ℤ : ℤ → Text
itoa_ℤ (pos n) = itoa n
itoa_ℤ (negsuc n) = codes "-" ++ itoa (suc n)

unfoldable map_mega_api_error : ℤ → Error
unfolding itoa
map_mega_api_error code =
    if is_minus 17 code
    then quota_exceeded_error
    else if is_minus 18 code || is_minus 4 code
    then temporarily_off_error
    else if is_minus 11 code || is_minus 14 code || is_minus 16 code
    then login_required_error
    else plain (codes "mega_api_error:" ++ itoa_ℤ code)

abbrev pub decode_failed : Result Text → Result Text
decode_failed (ok b) = ok b
decode_failed (err e) = err (plain (codes "mega_base64_decode_failed:" ++ e.text))

unfoldable pub decode_mega_base64 : Decode → Text → Result Text
decode_mega_base64 decode raw = decode_failed (decode raw)

unfoldable pub aes_key_of : Text → Result Text
unfolding xor_bytes itoa
aes_key_of raw =
    if length raw == 16
    then ok raw
    else if length raw == 32
    then ok (xor_bytes (take 16 raw) (drop 16 raw))
    else err (plain (codes "mega_invalid_key_length:" ++ itoa (length raw)))

abbrev pub then_result : {A B : Type 0} → Result A → (A → Result B) → Result B
then_result (ok a) f = f a
then_result (err e) f = err e

unfoldable pub derive_mega_aes_key : Decode → Text → Result Text
unfolding decode_mega_base64 aes_key_of
derive_mega_aes_key decode file_key = then_result (decode_mega_base64 decode file_key) aes_key_of

-- The decrypted attributes behind the prefix `MEGA`, read as JSON.
unfoldable pub named : MegaResolver → Text → Result Text
unfolding trim_right has_prefix is_empty trim_space
named r plain_text =
    let p = trim_right (λ c. c == 0) plain_text in
    if is_empty p || not (has_prefix p (codes "MEGA"))
    then err (plain (codes "mega_attributes_invalid_prefix"))
    else then_result (r.read_name (drop 4 p)) (λ name.
      if is_empty (trim_space name) then err (plain (codes "mega_filename_missing")) else ok name)

unfoldable decrypt_attributes : MegaResolver → Text → Text → Result Text
unfolding named
decrypt_attributes r key enc =
    if length enc == 0 || not (length enc % 16 == 0)
    then err (plain (codes "mega_attributes_invalid_length"))
    else then_result (r.decrypt key enc) (named r)

unfoldable decrypt_mega_filename : MegaResolver → Text → Text → Result Text
unfolding derive_mega_aes_key decode_mega_base64 decrypt_attributes
decrypt_mega_filename r attributes file_key =
    then_result (derive_mega_aes_key r.decode file_key)
      (λ key. then_result (decode_mega_base64 r.decode attributes) (decrypt_attributes r key))

unfoldable checked_info : MegaFileInfo → Result MegaFileInfo
unfolding map_mega_api_error is_empty
checked_info out =
    if not (is_zero_ℤ out.error_code)
    then err (map_mega_api_error out.error_code)
    else if is_empty out.download_url
    then err (plain (codes "mega_download_url_missing"))
    else if is_empty out.attributes
    then err (plain (codes "mega_attributes_missing"))
    else ok out

-- The first item is an error code or a file.
unfoldable info_of_items : MegaResolver → List Text → Result MegaFileInfo
unfolding map_mega_api_error checked_info
info_of_items r [] = err (plain (codes "mega_api_empty_response"))
info_of_items r (item ∷ items) = elim (r.read_int item) [
  | some code ↦ err (map_mega_api_error code)
  | none ↦ then_result (r.read_info item) checked_info
]

unfoldable info_of_reply : MegaResolver → HttpReply → Result MegaFileInfo
unfolding info_of_items itoa
info_of_reply r reply =
    if ltb reply.status 200 || leb 300 reply.status
    then err (plain (codes "mega_api_http_status:" ++ itoa reply.status))
    else then_result reply.items (info_of_items r)

-- The request's URL with a number that wraps around at 64 bits.
unfoldable request_url : Text → ℕ → Text
unfolding trim_space is_empty contains itoa
request_url api_url last_id =
    let t = trim_space api_url in
    let url = if is_empty t then codes "https://g.api.mega.co.nz/cs" else t in
    let id = itoa (suc last_id % 2 ^ 64) in
    if contains url (codes "?") then url ++ (codes "&id=" ++ id) else url ++ (codes "?id=" ++ id)

unfoldable file_info : MegaResolver → Text → ℕ → Result MegaFileInfo
unfolding request_url info_of_reply
file_info r file_id n =
    then_result (r.post (request_url r.api_url (r.request_id n)) file_id n) (info_of_reply r)

abbrev target_of : MegaFileInfo → Text → ResolvedTarget
target_of info name = record {
  kind = codes "aria2";
  url = info.download_url;
  headers = [];
  options = [];
  filename = name;
  size = info.size;
}

unfoldable resolve_mega : MegaResolver → Text → ℕ → Result ResolvedTarget
unfolding parse_mega_file_link file_info decrypt_mega_filename
resolve_mega r raw_url n = then_result (parse_mega_file_link r.parse raw_url) (λ tokens.
    then_result (file_info r tokens.0 n) (λ info.
      then_result (decrypt_mega_filename r info.attributes tokens.1)
        (λ name. ok (target_of info name))))

unfoldable mega_resolver : MegaResolver → Resolver
unfolding can_handle resolve_mega
mega_resolver r = record { can_handle = can_handle r; resolve = resolve_mega r }
