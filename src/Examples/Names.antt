-- ===== src/Examples/Names.antt =====
-- The theorems on paths, names, sites and the ETA, applied to concrete values.
use dlq_download_queue.Queue.Paths.{
  clean_out_dir, clean_user_filename, sanitize_filename, separators,
}
use dlq_download_queue.Queue.Paths.Within.{Below, clean_out_dir-Below}
use mathlib.Core.List.{Memᴰ}
use dlq_download_queue.Go.Filepath.{is_abs, clean, clean_elems, is_dot}
use dlq_download_queue.Resolver.{
  new_registry, http_resolver, resolve_with_site, register_site, site_key,
}
use dlq_download_queue.Resolver.Lookup.{resolve_with_site-register_site}
use dlq_download_queue.Queue.Paths.Names.{
  IsFlat, clean_user_filename-IsFlat, sanitize_filename_flat,
}
use dlq_download_queue.Queue.Runner.Active.{eta}
use dlq_download_queue.Queue.Runner.Active.Eta.{eta_bounds}
use dlq_download_queue.Prelude.{
  ◌*◌, ◌-◌, ◌+◌, ◌<◌, ◌⊎◌, refl, if◌then◌else◌, some, [], ℕ, arith, ◌∷◌, pos, false, ◌≡◌, ◌≤◌, All,
  true, text_eq,
}
use dlq_download_queue.Go.Strings.{Text, codes, trim_space, is_empty, contains_any}
use dlq_download_queue.Go.Filepath.Clean.{IsName}

clean_out_dir-Below_example :
    (is_abs (codes "/data/films") ≡ true)
    × (clean (codes "/data/films") ≡ codes "/data/films")
    × (All IsName (clean_elems (codes "/data/films"))
        × ((root : Text) × Memᴰ root (codes "/data" ∷ [])
            × Below (clean root) (codes "/data/films")))
unfolding clean_out_dir
clean_out_dir-Below_example =
    clean_out_dir-Below (codes "/data/x/../films/") (codes "/data" ∷ []) (codes "/data/films") refl

-- A resolver of one site, which answers as the pass-through resolver does.
resolve_with_site-register_site_example :
    resolve_with_site
      (register_site (codes "Mega") (some http_resolver) (new_registry []))
      (codes " MEGA")
      (codes "https://a/1")
      0
    ≡ (if text_eq (site_key (codes "Mega")) (site_key (codes " MEGA"))
        then http_resolver.resolve (codes "https://a/1") 0
        else resolve_with_site (new_registry []) (codes " MEGA") (codes "https://a/1") 0)
unfolding trim_space is_empty
resolve_with_site-register_site_example =
    resolve_with_site-register_site (new_registry []) (codes "Mega") (codes " MEGA")
      (codes "https://a/1") http_resolver 0 refl refl

clean_user_filename-IsFlat_example :
    (codes "a..zip" ≡ codes "a..zip")
    × ((is_empty (codes "a..zip") ≡ true) ⊎ IsFlat (codes "a..zip"))
unfolding clean_user_filename
clean_user_filename-IsFlat_example =
    clean_user_filename-IsFlat (codes "a..zip") (codes "a..zip") refl

sanitize_filename_flat_example :
    (contains_any (sanitize_filename (codes " /tmp/a.zip")) separators ≡ false)
    × (is_dot (sanitize_filename (codes " /tmp/a.zip")) ≡ false)
sanitize_filename_flat_example = sanitize_filename_flat (codes " /tmp/a.zip")

-- A resolver's name `..` is used as it is.
sanitize_dotdot : sanitize_filename (codes "..") ≡ codes ".."
unfolding sanitize_filename
sanitize_dotdot = refl

eta_bounds_example :
    (q : ℕ) × ((eta (pos 10) (pos 3) (pos 2) ≡ pos q) × ((2 * q ≤ 10 - 3) × (10 - 3 < 2 * q + 2)))
eta_bounds_example = eta_bounds 10 3 2 (omega arith) (omega arith) (omega arith)
