-- ===== src/Mega/Files.antt =====
-- internal/queue/mega_decryptor.go: a MEGA file is decrypted into a temporary file beside it, which
-- then takes its place. AES and its counter mode are those of crypto/aes and crypto/cipher.
pub mod Copies
pub mod Into
pub mod InPlace
pub mod Calm
use dlq_download_queue.Prelude.{
  ℕ, zero, suc, ◌+◌, ◌-◌, Bool, true, false, not, ◌&&◌, List, [], ◌∷◌, ◌++◌, Option, none, some,
  if◌then◌else◌, text_eq, length, drop, bit_xor, ◌*◌,
}
use dlq_download_queue.Go.Strings.{Text, codes, is_empty, trim_space, zeros}
use dlq_download_queue.Go.Error.{Error, Result, ok, err, plain}
use dlq_download_queue.Go.Filepath.{dir, base}
use dlq_download_queue.Go.Os.{
  Os, pure, fail, lift, ◌>>=◌, ◌>>◌, may_fail, open_file, create_temp, append_file, remove_file,
  rename_file, read_file,
}
use dlq_download_queue.Queue.Status.{HostOf, is_mega_job}
use dlq_download_queue.Mega.{
  ContentKey, ParseUrl, Decode, parse_mega_file_link, parse_mega_content_key,
}
use dlq_download_queue.Mega.Mac.{MacCalculator, new_mac_calculator, write, sum}

-- aes.NewCipher, and the bytes of the key stream that cipher.NewCTR makes of a block and an IV.
pub record Crypto : Type 0 where
  pub new_cipher : Text → Result (Text → Text)
  pub key_stream : (Text → Text) → Text → ℕ → ℕ

-- XORKeyStream from the position `pos` on.
unfoldable pub xor_stream : (ℕ → ℕ) → ℕ → Text → Text
xor_stream ks pos [] = []
xor_stream ks pos (c ∷ p) = bit_xor c (ks pos) ∷ xor_stream ks (suc pos) p

abbrev pub buffer_size : ℕ
buffer_size = 1024 * 1024

-- `macCalc`, which is nil where the key has no MAC.
unfoldable pub write_mac : (Text → Text) → Option MacCalculator → Text → Option MacCalculator
unfolding write
write_mac block none p = none
write_mac block (some m) p = some (write block m p)

unfoldable pub start_mac : ContentKey → Option MacCalculator
unfolding new_mac_calculator
start_mac key = if key.verify_mac then some (new_mac_calculator key.nonce) else none

module _ (block : Text → Text) (ks : ℕ → ℕ) (tmp : Text) where
  -- A round behind its read, with the rounds that follow: `pos` bytes are done, `rest` was left.
  unfoldable pub copy_buffer :
      (Option MacCalculator → ℕ → Text → Os (Option MacCalculator))
      → Option MacCalculator
      → ℕ
      → Text
      → Text
      → Os (Option MacCalculator)
  unfolding append_file xor_stream write_mac is_empty
  copy_buffer next mac pos rest buf =
      let out = xor_stream ks pos buf in
      if is_empty buf then pure mac else do
        append_file tmp out
        next (write_mac block mac out) (pos + length buf) (drop (length buf) rest)

  -- The loop over the reads. A round beyond the fuel fails.
  unfoldable pub copy_loop : ℕ → Option MacCalculator → ℕ → Text → Os (Option MacCalculator)
  unfolding may_fail read_file copy_buffer
  copy_loop zero mac pos rest = fail (plain [])
  copy_loop (suc fuel) mac pos rest = do
    may_fail
    buf ← read_file buffer_size rest
    copy_buffer (copy_loop fuel) mac pos rest buf

-- The MAC of the contents against the one that the key states.
unfoldable pub check_mac : (Text → Text) → ContentKey → Option MacCalculator → Result (Unit {0})
unfolding sum text_eq
check_mac block key none = ok tt
check_mac block key (some m) =
    if text_eq (sum block m) key.expect_mac
    then ok tt
    else err (plain (codes "mega content mac mismatch"))

abbrev pub drop_temp : {A : Type 0} → Text → Result A → Os A
drop_temp tmp (ok a) env d = (ok a, d)
drop_temp tmp (err e) env d = (err e, (remove_file tmp env d).1)

-- The deferred removal of the temporary file, unless it was kept.
unfoldable pub unless_kept : {A : Type 0} → Text → Os A → Os A
unfolding remove_file
unless_kept tmp m env d = let (r, d') = m env d in drop_temp tmp r env d'

-- Sync, the two Close and Rename.
unfoldable pub finish_file : Text → Text → Os (Unit {0})
unfolding may_fail rename_file
finish_file path tmp = do may_fail; may_fail; may_fail; rename_file tmp path

-- What comes behind the loop over the reads.
unfoldable pub finish_copy :
    (Text → Text) → ContentKey → Text → Text → Option MacCalculator → Os (Unit {0})
unfolding check_mac finish_file
finish_copy block key path tmp mac = do lift (check_mac block key mac); finish_file path tmp

unfoldable pub decrypt_into :
    (Text → Text) → (ℕ → ℕ) → ContentKey → Text → Text → Text → Os (Unit {0})
unfolding copy_loop start_mac may_fail finish_copy
decrypt_into block ks key path contents tmp = do
  may_fail
  mac ← copy_loop block ks tmp (suc (length contents)) (start_mac key) 0 contents
  finish_copy block key path tmp mac

-- What comes behind os.Open and Stat.
unfoldable pub decrypt_opened : Crypto → Text → ContentKey → Text → Os (Unit {0})
unfolding decrypt_into unless_kept create_temp dir base
decrypt_opened crypto path key contents = do
  block ← lift (crypto.new_cipher key.aes_key)
  let ks = crypto.key_stream block (key.nonce ++ zeros 8)
  tmp ← create_temp (dir path) (codes "." ++ (base path ++ codes ".dlq-mega-"))
  unless_kept tmp (decrypt_into block ks key path contents tmp)

unfoldable pub decrypt_mega_file_in_place : Crypto → Text → ContentKey → Os (Unit {0})
unfolding decrypt_opened open_file may_fail
decrypt_mega_file_in_place crypto path key = do
  contents ← open_file path
  may_fail
  decrypt_opened crypto path key contents

-- Beside an error the source returns true.
unfoldable maybe_decrypt : HostOf → ParseUrl → Decode → Crypto → Text → Text → Text → Os Bool
unfolding is_mega_job trim_space is_empty parse_mega_file_link parse_mega_content_key
    decrypt_mega_file_in_place
maybe_decrypt host parse decode crypto site raw_url file_path =
    let path = trim_space file_path in
    if not (is_mega_job host site raw_url)
    then pure false
    else if is_empty path
    then fail (plain (codes "missing file path"))
    else do
      (id, token) ← lift (parse_mega_file_link parse raw_url)
      key ← lift (parse_mega_content_key decode token)
      decrypt_mega_file_in_place crypto path key
      pure true
