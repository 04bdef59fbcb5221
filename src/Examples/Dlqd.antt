-- ===== src/Examples/Dlqd.antt =====
-- The theorem on the presets, applied to an environment with a mount that stands in it twice.
use dlq_download_queue.Prelude.{◌≡◌, refl, [], ◌∷◌, any_of, text_eq}
use dlq_download_queue.Go.Strings.{Text, codes}
use dlq_download_queue.Go.Sort.Ascending.{Ascending}
use dlq_download_queue.Dlqd.{Process, out_dir_presets}
use dlq_download_queue.Dlqd.Presets.{is_mounted, out_dir_presets_lem}

abbrev process : Process
process = record {
  getenv = λ key. [];
  environ =
      codes "DATA_B=/srv/b:/data/b"
      ∷ codes "HOME=/root"
      ∷ codes "DATA_A=/srv/a:/data/a:ro"
      ∷ codes "DATA_C=/data/b"
      ∷ [];
}

two_presets : out_dir_presets process ≡ codes "/data/a" ∷ codes "/data/b" ∷ []
unfolding out_dir_presets
two_presets = refl

out_dir_presets_lem_example :
    Ascending (out_dir_presets process)
    × ((path : Text)
        → any_of (text_eq path) (out_dir_presets process) ≡ is_mounted path process.environ)
out_dir_presets_lem_example = out_dir_presets_lem process
