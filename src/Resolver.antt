-- ===== src/Resolver.antt =====
-- internal/resolver/resolver.go: the registry of resolvers, and the pass-through resolver. What a
-- site's server answers is outside the program, so that a resolver is a record of functions.
pub mod Lookup
pub mod Mega
pub mod Webshare
use dlq_download_queue.Prelude.{
  ℕ, Bool, ◌||◌, List, [], ◌∷◌, Option, none, some, if◌then◌else◌, ℤ, pos, text_eq,
}
use dlq_download_queue.Go.Strings.{Text, codes, is_empty, trim_space, to_lower, has_prefix}
use dlq_download_queue.Go.Error.{
  Error, Result, ok, err, unknown_site, plain, login_required, quota_exceeded, captcha_needed,
  temporarily_off,
}

pub record ResolvedTarget : Type 0 where
  pub kind : Text
  pub url : Text
  pub headers : List (Text × Text)
  pub options : List (Text × Text)
  pub filename : Text
  pub size : ℤ

-- `resolve` may ask a server: its answer may depend on the number of the step.
pub record Resolver : Type 0 where
  pub can_handle : Text → Bool
  pub resolve : Text → ℕ → Result ResolvedTarget

pub record Registry : Type 0 where
  pub resolvers : List Resolver
  pub site_resolvers : List (Text × Resolver)

unfoldable pub new_registry : List Resolver → Registry
new_registry rs = record { resolvers = rs; site_resolvers = [] }

abbrev unknown_site_error : Error
unknown_site_error = record { kind = unknown_site; text = codes "unknown_site" }

abbrev pub login_required_error : Error
login_required_error = record { kind = login_required; text = codes "login_required" }

abbrev pub quota_exceeded_error : Error
quota_exceeded_error = record { kind = quota_exceeded; text = codes "quota_exceeded" }

abbrev pub captcha_needed_error : Error
captcha_needed_error = record { kind = captcha_needed; text = codes "captcha_needed" }

abbrev pub temporarily_off_error : Error
temporarily_off_error = record { kind = temporarily_off; text = codes "temporarily_unavailable" }

-- The first resolver that can handle the URL.
unfoldable resolve_first : List Resolver → Text → ℕ → Result ResolvedTarget
resolve_first [] url n = err (plain (codes "no_resolver"))
resolve_first (r ∷ rs) url n = if r.can_handle url then r.resolve url n else resolve_first rs url n

unfoldable pub resolve : Registry → Text → ℕ → Result ResolvedTarget
unfolding resolve_first
resolve r url n = resolve_first r.resolvers url n

unfoldable pub lookup_site : Text → List (Text × Resolver) → Option Resolver
unfolding text_eq
lookup_site key [] = none
lookup_site key ((k, r) ∷ rest) = if text_eq k key then some r else lookup_site key rest

unfoldable pub site_key : Text → Text
unfolding to_lower trim_space
site_key name = to_lower (trim_space name)

-- A name that is registered again hides the earlier resolver; `none` is a nil resolver.
unfoldable pub register_site : Text → Option Resolver → Registry → Registry
unfolding site_key is_empty
register_site name none r = r
register_site name (some res) r =
    if is_empty (site_key name)
    then r
    else record r { site_resolvers = (site_key name, res) ∷ r.site_resolvers }

abbrev pub resolve_found : Option Resolver → Text → ℕ → Result ResolvedTarget
resolve_found none url n = err unknown_site_error
resolve_found (some res) url n = res.resolve url n

unfoldable pub resolve_with_site : Registry → Text → Text → ℕ → Result ResolvedTarget
unfolding resolve lookup_site trim_space is_empty to_lower
resolve_with_site r site url n =
    let s = trim_space site in
    if is_empty s
    then resolve r url n
    else resolve_found (lookup_site (to_lower s) r.site_resolvers) url n

-- NewHTTPResolver
unfoldable pub http_resolver : Resolver
unfolding has_prefix
http_resolver = record {
  can_handle = λ url. has_prefix url (codes "http://") || has_prefix url (codes "https://");
  resolve = λ url n. ok (record {
    kind = codes "aria2";
    url = url;
    headers = [];
    options = [];
    filename = [];
    size = pos 0;
  });
}
