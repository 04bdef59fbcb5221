-- ===== src/Go/Os.antt =====
-- Package os: files by their paths. An operation takes the surroundings and the files, and returns
-- its result or error with the files as it leaves them.
pub mod Then
pub mod Calm
use dlq_download_queue.Prelude.{
  ℕ, suc, ◌+◌, Bool, true, false, ◌≡◌, Option, none, some, List, [], ◌∷◌, ◌++◌, if◌then◌else◌,
  text_eq, take,
}
use dlq_download_queue.Go.Strings.{Text, codes, has_suffix}
use dlq_download_queue.Go.Error.{Error, Result, ok, err, not_exist, other}

-- `steps` counts the operations so far.
pub record Disk : Type 0 where
  pub content : Text → Option Text
  pub steps : ℕ

-- The operations that fail, the bytes beyond the first that a read returns, and the random part of
-- a temporary file's name.
pub record OsEnv : Type 0 where
  pub failure : ℕ → Option Error
  pub read_more : ℕ → ℕ
  pub random : ℕ → Text

abbrev pub Os : Type 0 → Type 0
Os A = OsEnv → Disk → Result A × Disk

abbrev pub pure : {A : Type 0} → A → Os A
pure a env d = (ok a, d)

abbrev pub fail : {A : Type 0} → Error → Os A
fail e env d = (err e, d)

-- A result at hand.
abbrev pub lift : {A : Type 0} → Result A → Os A
lift r env d = (r, d)

abbrev pub continue : {A B : Type 0} → Result A → (A → Os B) → Os B
continue (ok a) f = f a
continue (err e) f = fail e

infixl 5 ◌>>=◌ ◌>>◌
abbrev pub ◌>>=◌ : {A B : Type 0} → Os A → (A → Os B) → Os B
◌>>=◌ m f env d = let (r, d') = m env d in continue r f env d'

abbrev pub ◌>>◌ : {B : Type 0} → Os (Unit {0}) → Os B → Os B
m >> k = m >>= λ _. k

abbrev pub step : Disk → Disk
step d = record d { steps = suc d.steps }

-- An operation fails and changes nothing, or is carried out.
unfoldable pub operation : {A : Type 0} → (OsEnv → Disk → Result A × Disk) → Os A
operation f env d = elim (env.failure d.steps) [ some e ↦ (err e, step d) | none ↦ f env (step d) ]

-- An operation that changes no file: a Stat, Chmod, Sync or Close, or the check of a context.
unfoldable pub may_fail : Os (Unit {0})
unfolding operation
may_fail = operation (pure tt)

-- The files with the contents of one replaced, or with one removed.
unfoldable pub put_file : Text → Option Text → (Text → Option Text) → Text → Option Text
put_file path c files p = if text_eq p path then c else files p

abbrev pub missing : Error
missing = record { kind = not_exist; text = codes "no such file or directory" }

abbrev pub found_or : {A : Type 0} → Error → Option A → Result A
found_or e none = err e
found_or e (some a) = ok a

-- os.Open, with the contents that reads will return.
unfoldable pub open_file : Text → Os Text
unfolding operation
open_file path = operation (λ env d. (found_or missing (d.content path), d))

-- How os.CreateTemp joins a directory and a prefix with the random part.
unfoldable pub temp_name : Text → Text → Text → Text
unfolding has_suffix
temp_name dir prefix random =
    (if has_suffix dir (codes "/") then dir else dir ++ codes "/") ++ (prefix ++ random)

abbrev pub exists : Error
exists = record { kind = other; text = codes "file exists" }

abbrev pub created : Text → Option Text → Os Text
created path (some c) env d = (err exists, d)
created path none env d = (ok path, record d { content = put_file path (some []) d.content })

-- os.CreateTemp makes a file that was not there.
unfoldable pub create_temp : Text → Text → Os Text
unfolding operation temp_name put_file
create_temp dir prefix = operation (λ env d.
    let path = temp_name dir prefix (env.random d.steps) in created path (d.content path) env d)

-- A file's contents, with none for a missing file.
abbrev pub contents_or_none : Option Text → Text
contents_or_none none = []
contents_or_none (some c) = c

-- Write at the end of an open file.
unfoldable pub append_file : Text → Text → Os (Unit {0})
unfolding operation put_file
append_file path p = operation (λ env d. (
  ok tt,
  record d { content = put_file path (some (contents_or_none (d.content path) ++ p)) d.content },
))

-- os.Remove
unfoldable pub remove_file : Text → Os (Unit {0})
unfolding operation put_file
remove_file path = operation (λ env d. (ok tt, record d { content = put_file path none d.content }))

-- os.Rename of an existing file.
unfoldable pub rename_file : Text → Text → Os (Unit {0})
unfolding operation put_file
rename_file from to = operation (λ env d.
    (ok tt, record d { content = put_file from none (put_file to (d.content from) d.content) }))

-- Read of an open file into a buffer of `size` bytes: at least one byte while any are left, none at
-- the end of the file.
unfoldable pub read_file : ℕ → Text → Os Text
unfolding operation
read_file size rest =
    operation (λ env d. (ok (take (suc (env.read_more d.steps)) (take size rest)), d))

-- The result or error of an action, as a value.
abbrev pub attempt : {A : Type 0} → Os A → Os (Result A)
attempt m env d = let (r, d') = m env d in (ok r, d')

-- os.WriteFile
unfoldable pub write_file : Text → Text → Os (Unit {0})
unfolding operation put_file
write_file path p =
    operation (λ env d. (ok tt, record d { content = put_file path (some p) d.content }))
