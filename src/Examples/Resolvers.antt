-- ===== src/Examples/Resolvers.antt =====
-- The theorems on the resolvers, applied to a MEGA link with a key of 32 bytes and to a Webshare link.
use dlq_download_queue.Prelude.{◌≡◌, refl, take, drop, ◌&&◌, not, []}
use dlq_download_queue.Go.Strings.{Text, codes, xor_bytes, is_empty}
use dlq_download_queue.Go.Error.{ok}
use dlq_download_queue.Mega.{Link, ParseUrl, Decode, parse_mega_content_key}
use dlq_download_queue.Mega
use dlq_download_queue.Resolver.Mega.{parse_mega_file_link, derive_mega_aes_key}
use dlq_download_queue.Resolver.Webshare.{SiteUrl, extract_webshare_ident}
use dlq_download_queue.Resolver.Webshare.Idents.{
  has_ident, trimmed_path, is_empty-extract_webshare_ident,
}
use dlq_download_queue.Resolver.Mega.Keys.{HasAesKey, parse_mega_file_link_agrees}

abbrev link : Text
link = codes " https://mega.nz/file/AbC_1#k3y-x "

abbrev key_bytes : Text
key_bytes = codes "0123456789abcdefFEDCBA9876543210"

abbrev parse : ParseUrl
parse = λ t. ok (record { path = codes "/file/AbC_1"; fragment = codes "k3y-x" })

abbrev decode : Decode
decode = λ t. ok key_bytes

parse_mega_file_link_agrees_example :
    (Mega.parse_mega_file_link parse link ≡ ok (codes "AbC_1", codes "k3y-x"))
    × HasAesKey
        (xor_bytes (take 16 key_bytes) (drop 16 key_bytes))
        (parse_mega_content_key decode (codes "k3y-x"))
unfolding parse_mega_file_link derive_mega_aes_key
parse_mega_file_link_agrees_example =
    parse_mega_file_link_agrees parse decode link (codes "AbC_1") (codes "k3y-x")
      (xor_bytes (take 16 key_bytes) (drop 16 key_bytes)) refl refl

abbrev site_url : SiteUrl
site_url = record {
  host = codes "webshare.cz";
  path = codes "/";
  fragment = codes "/file/aB3xYz9/film";
  query = λ key. [];
}

has_fragment_ident : extract_webshare_ident site_url ≡ codes "aB3xYz9"
unfolding extract_webshare_ident
has_fragment_ident = refl

is_empty-extract_webshare_ident_example : is_empty (extract_webshare_ident site_url) ≡ (
    is_empty (site_url.query (codes "ident"))
    && is_empty (site_url.query (codes "id"))
    && not (has_ident (trimmed_path site_url))
    && not (has_ident site_url.fragment))
is_empty-extract_webshare_ident_example = is_empty-extract_webshare_ident site_url
