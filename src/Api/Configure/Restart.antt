-- ===== src/Api/Configure/Restart.antt =====
-- internal/api/http.go, `handleSettings`: the settings that a start reads behind an update.
use dlq_download_queue.Prelude.{◌≡◌, refl, ap, ◌∙◌, some, ℕ, arith}
use dlq_download_queue.Go.Strings.{Text}
use dlq_download_queue.Go.Error.{Result, ok, err}
use dlq_download_queue.Go.Os.{OsEnv, Disk}
use dlq_download_queue.Go.Os.Calm.{Calm}
use dlq_download_queue.Api.Settings.{
  Settings, Updates, Codec, update, save, new_settings, new_defaults,
}
use dlq_download_queue.Api.Settings.Accepted.{Updated, update_iff}
use dlq_download_queue.Api.Settings.File.{ReadsBack, new_settings-save}
use dlq_download_queue.Api.Http.{post, Request, decoded}
use dlq_download_queue.Api.Configure.{Answer, saved, updated, handle_settings}

differ : ◌≡◌ {A = ℕ} 400 200 → ⊥
differ h = omega (arith, h)

module _ (codec : Codec) (env env' : OsEnv) (d : Disk) (state_dir : Text) (s : Settings)
    (u : Updates) where
  -- The answer to an accepted update: the settings that it leads to, also behind a restart.
  unfoldable pub Configured : Answer → Type 0
  Configured (r, kept, d') =
      (s' : Settings) × Updated u s s'
      × (kept ≡ some s')
      × ((new_settings codec state_dir env' d').0 ≡ ok s')

  module _ (reads : ReadsBack codec)
      (writes : (x : Settings) → (t : Text) × (codec.marshal x ≡ ok t)) (calm : Calm env)
      (calm' : Calm env') (here : s.path ≡ (new_defaults state_dir).path) where
    -- The file behind a save, read by a start.
    restarted :
        (s' : Settings)
        → Updated u s s'
        → (x : Result (Unit {0}) × Disk) → x ≡ save codec s' env d
        → (new_settings codec state_dir env' x.1).0 ≡ ok s'
    unfolding Updated
    restarted s' h x e =
        let (t, m) = writes s' in
        ap (λ (y : Result (Unit {0}) × Disk). (new_settings codec state_dir env' y.1).0) e
        ∙ new_settings-save codec env env' d state_dir s' t reads calm calm' m (h.3 ∙ here)

    saved-Configured :
        (s' : Settings)
        → Updated u s s'
        → (x : Result (Unit {0}) × Disk) → x ≡ save codec s' env d
        → Configured (saved s' x)
    unfolding Configured
    saved-Configured s' h (ok v, d') e = (s', h, refl, restarted s' h (ok v, d') e)
    saved-Configured s' h (err v, d') e = (s', h, refl, restarted s' h (err v, d') e)

    updated-Configured :
        (x : Result (Unit {0}) × Settings)
        → update s u ≡ x
        → (updated codec env d x).0.code ≡ 200
        → Configured (updated codec env d x)
    updated-Configured (ok v, s') e h = saved-Configured s' ((update_iff u s s').0 e) _ refl
    updated-Configured (err v, s') e h = absurd (differ h)

    -- Where no operation of the system fails, the settings are written and read back as JSON is,
    -- and the path is that of the state directory, a POST of an update that is answered 200 leads
    -- to settings that the update describes, which the next start reads from the file.
    pub handle_settings-Configured :
        (path : Text) (query : Text → Text)
        → let request : Request = record { method = post; path = path; query = query } in
          (handle_settings codec env d (some s) request (decoded u)).0.code ≡ 200
          → Configured (handle_settings codec env d (some s) request (decoded u))
    unfolding handle_settings
    handle_settings-Configured path query h = updated-Configured (update s u) refl h
