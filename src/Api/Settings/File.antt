-- ===== src/Api/Settings/File.antt =====
-- internal/api/settings.go: the settings that a start reads back from their file.
use dlq_download_queue.Prelude.{suc, ◌≡◌, sym, ap, ◌∙◌, some}
use dlq_download_queue.Go.Strings.{Text}
use dlq_download_queue.Go.Error.{ok}
use dlq_download_queue.Go.Os.{OsEnv, Disk, may_fail, open_file, write_file, operation}
use dlq_download_queue.Go.Os.Calm.{Calm, put_file_there}
use dlq_download_queue.Api.Settings.{
  Settings, Codec, load, save, new_settings, new_defaults, loaded_or,
}

-- The fields come back as they were written; the path is not written.
abbrev pub ReadsBack : Codec → Type 0
ReadsBack codec =
    (s s0 : Settings) (t : Text)
    → codec.marshal s ≡ ok t
    → s.path ≡ s0.path
    → codec.unmarshal t s0 ≡ ok s

save_writes :
    (codec : Codec) (env : OsEnv) (d : Disk) (s : Settings) (t : Text)
    → Calm env
    → codec.marshal s ≡ ok t
    → (save codec s env d).1.content s.path ≡ some t
unfolding save may_fail write_file operation
save_writes codec env d s t calm m =
    rw (save, may_fail, write_file, operation, m, calm d.steps, calm (suc d.steps))
      (put_file_there s.path (some t) d.content)

load_reads :
    (codec : Codec) (env : OsEnv) (d : Disk) (s : Settings) (t : Text)
    → Calm env
    → d.content s.path ≡ some t
    → (load codec s env d).0 ≡ codec.unmarshal t s
unfolding load open_file operation
load_reads codec env d s t calm here = rw (load, open_file, operation, calm d.steps, here)

-- The settings that were saved are those that the next start loads.
pub new_settings-save :
    (codec : Codec) (env env' : OsEnv) (d : Disk) (state_dir : Text) (s : Settings) (t : Text)
    → ReadsBack codec
    → Calm env
    → Calm env'
    → codec.marshal s ≡ ok t
    → s.path ≡ (new_defaults state_dir).path
    → (new_settings codec state_dir env' (save codec s env d).1).0 ≡ ok s
unfolding new_settings
new_settings-save codec env env' d state_dir s t back calm calm' m p =
    let s0 = new_defaults state_dir in
    let d' = (save codec s env d).1 in
    let here = ap d'.content (sym p) ∙ save_writes codec env d s t calm m in
    let loaded = load_reads codec env' d' s0 t calm' here ∙ back s s0 t m p in
    ap (λ r. (loaded_or codec s0 r env' (load codec s0 env' d').1).0) loaded
