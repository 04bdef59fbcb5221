-- ===== src/Resolver/Lookup.antt =====
-- internal/resolver/resolver.go: a registered resolver is the one that its site's jobs are given to.
use dlq_download_queue.Resolver.{
  to_lower, resolve_with_site, register_site, site_key, lookup_site, Registry, Text, Resolver,
  is_empty, resolve_found,
}
use dlq_download_queue.Go.Strings.{Text, is_empty, to_lower, trim_space}
use dlq_download_queue.Prelude.{
  ◌∙◌, if◌then◌else◌, text_eq, ◌≡◌, refl, ℕ, Bool, true, false, [], ◌∷◌, Option, some,
}

is_empty-to_lower : (s : Text) → is_empty (to_lower s) ≡ is_empty s
unfolding to_lower is_empty
is_empty-to_lower [] = refl
is_empty-to_lower (c ∷ s) = refl

if_false : {A : Type 0} (b : Bool) (x y : A) → b ≡ false → (if b then x else y) ≡ y
if_false true x y h = cc
if_false false x y h = refl

registered :
    (r : Registry) (name : Text) (res : Resolver)
    → is_empty (trim_space name) ≡ false
    → register_site name (some res) r
      ≡ record r { site_resolvers = (site_key name, res) ∷ r.site_resolvers }
unfolding register_site site_key
registered r name res a =
    if_false (is_empty (to_lower (trim_space name))) r _ (is_empty-to_lower (trim_space name) ∙ a)

resolve_named :
    (r : Registry) (site url : Text) (n : ℕ)
    → is_empty (trim_space site) ≡ false
    → resolve_with_site r site url n
      ≡ resolve_found (lookup_site (site_key site) r.site_resolvers) url n
unfolding resolve_with_site site_key
resolve_named r site url n b = if_false (is_empty (trim_space site)) _ _ b

found_or :
    (b : Bool) (res : Resolver) (o : Option Resolver) (url : Text) (n : ℕ)
    → resolve_found (if b then some res else o) url n
      ≡ (if b then res.resolve url n else resolve_found o url n)
found_or true res o url n = refl
found_or false res o url n = refl

-- A job that names a site, in any case and with spaces around, is given to the resolver that was
-- registered last under the site's name. The name of another site is looked up as before.
pub resolve_with_site-register_site :
    (r : Registry) (name site url : Text) (res : Resolver) (n : ℕ)
    → is_empty (trim_space name) ≡ false
    → is_empty (trim_space site) ≡ false
    → resolve_with_site (register_site name (some res) r) site url n ≡ (
        if text_eq (site_key name) (site_key site)
        then res.resolve url n
        else resolve_with_site r site url n)
unfolding lookup_site
resolve_with_site-register_site r name site url res n a b =
    rw
      (
        registered r name res a,
        resolve_named r site url n b,
        resolve_named (record r { site_resolvers = (site_key name, res) ∷ r.site_resolvers }) site
            url n b,
      )
      (found_or (text_eq (site_key name) (site_key site)) res
        (lookup_site (site_key site) r.site_resolvers) url n)
