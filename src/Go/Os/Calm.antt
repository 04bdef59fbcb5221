-- ===== src/Go/Os/Calm.antt =====
-- Package os where no operation fails.
use dlq_download_queue.Prelude.{ℕ, ◌≡◌, Option, none, text_eq_refl}
use dlq_download_queue.Go.Strings.{Text}
use dlq_download_queue.Go.Os.{OsEnv, put_file}

-- No operation of the system fails.
abbrev pub Calm : OsEnv → Type 0
Calm env = (n : ℕ) → env.failure n ≡ none

pub put_file_there :
    (path : Text) (c : Option Text) (files : Text → Option Text) → put_file path c files path ≡ c
unfolding put_file
put_file_there path c files = rw (text_eq_refl path)
