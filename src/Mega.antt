-- ===== src/Mega.antt =====
-- internal/queue/mega_decryptor.go: links and keys of MEGA files, and the decryption of a file.
pub mod Mac
pub mod Files
use dlq_download_queue.Prelude.{
  ℕ, zero, suc, Bool, true, false, ◌&&◌, ◌||◌, List, [], ◌∷◌, ◌++◌, leb, ◌==◌, if◌then◌else◌,
  length, take, drop, bit_xor,
}
use dlq_download_queue.Go.Strings.{
  Text, codes, is_empty, trim_space, trim_left, trim_right, has_prefix, split_on, xor_bytes, zeros,
}
use dlq_download_queue.Go.Strconv.{itoa}
use dlq_download_queue.Go.Error.{Error, Result, ok, err, plain}

-- What url.Parse makes of a text: the path and the fragment, decoded.
pub record Link : Type 0 where
  pub path : Text
  pub fragment : Text

-- net/url's Parse.
abbrev pub ParseUrl : Type 0
ParseUrl = Text → Result Link

-- base64.RawURLEncoding.DecodeString.
abbrev pub Decode : Type 0
Decode = Text → Result Text

unfoldable pub is_token_byte : ℕ → Bool
is_token_byte c =
    leb b'a' c && leb c b'z'
    || leb b'A' c && leb c b'Z'
    || leb b'0' c && leb c b'9'
    || c == b'-'
    || c == b'_'

unfoldable pub all_token_bytes : Text → Bool
unfolding is_token_byte
all_token_bytes [] = true
all_token_bytes (c ∷ s) = is_token_byte c && all_token_bytes s

unfoldable pub is_valid_mega_token : Text → Bool
unfolding is_empty all_token_bytes
is_valid_mega_token v = if is_empty v then false else all_token_bytes v

-- The pieces that a link's parts are split into: the identifier stands at `id`, the key at `key`.
abbrev pub nth_trimmed : ℕ → List Text → Text
nth_trimmed n [] = []
nth_trimmed zero (p ∷ ps) = trim_space p
nth_trimmed (suc n) (p ∷ ps) = nth_trimmed n ps

abbrev pub is_slash : ℕ → Bool
is_slash c = c == b'/'

-- strings.Trim(path, "/")
unfoldable pub trim_slashes : Text → Text
unfolding trim_left trim_right
trim_slashes s = trim_right is_slash (trim_left is_slash s)

-- The parts of `#!id!key` behind the first `!`: both are empty where there are fewer than two.
abbrev legacy_tokens : List Text → Text × Text
legacy_tokens (id ∷ key ∷ rest) = (trim_space id, trim_space key)
legacy_tokens _ = ([], [])

-- The identifier and the key of a link, empty where it has none.
unfoldable pub link_tokens : Link → Text × Text
unfolding trim_slashes trim_space has_prefix split_on
link_tokens u =
    let path = trim_slashes u.path in
    let fragment = trim_space u.fragment in
    if has_prefix path (codes "file/")
    then (nth_trimmed 1 (split_on b'/' path), trim_space fragment)
    else if has_prefix fragment (codes "!")
    then legacy_tokens (split_on b'!' (drop 1 fragment))
    else ([], [])

unfoldable pub checked_tokens : Text × Text → Result (Text × Text)
unfolding is_valid_mega_token is_empty
checked_tokens (id, key) =
    if is_empty id || is_empty key
    then err (plain (codes "mega public file link required"))
    else if is_valid_mega_token id && is_valid_mega_token key
    then ok (id, key)
    else err (plain (codes "mega link invalid tokens"))

abbrev pub tokens_of : Result Link → Result (Text × Text)
tokens_of (err e) = err e
tokens_of (ok u) = checked_tokens (link_tokens u)

unfoldable pub parse_mega_file_link : ParseUrl → Text → Result (Text × Text)
unfolding trim_space
parse_mega_file_link parse raw = tokens_of (parse (trim_space raw))

pub record ContentKey : Type 0 where
  pub aes_key : Text
  pub nonce : Text
  pub expect_mac : Text
  pub verify_mac : Bool

unfoldable pub key_of_bytes : Text → Result ContentKey
unfolding xor_bytes itoa
key_of_bytes raw =
    if length raw == 32
    then ok record {
      aes_key = xor_bytes (take 16 raw) (drop 16 raw);
      nonce = take 8 (drop 16 raw);
      expect_mac = take 8 (drop 24 raw);
      verify_mac = true;
    }
    else if length raw == 16
    then ok record { aes_key = raw; nonce = zeros 8; expect_mac = zeros 8; verify_mac = false }
    else err (plain (codes "mega invalid key length: " ++ itoa (length raw)))

abbrev pub decoded_key : Result Text → Result ContentKey
decoded_key (err e) = err (plain (codes "mega key decode failed: " ++ e.text))
decoded_key (ok raw) = key_of_bytes raw

unfoldable pub parse_mega_content_key : Decode → Text → Result ContentKey
unfolding trim_space
parse_mega_content_key decode token = decoded_key (decode (trim_space token))
