-- ===== src/Mega/Files/Calm.antt =====
-- internal/queue/mega_decryptor.go, `decryptMegaFileInPlace` where no operation of the system fails.
use dlq_download_queue.Go.Os.Calm.{Calm, put_file_there}
use dlq_download_queue.Mega.Files.Into.{start_mac-MacReady}
use dlq_download_queue.Mega.Files.Copies.{Copied, copy_loop-Copied}
use dlq_download_queue.Mega.Mac.Reference.Agrees.{sum-mac_of}
use dlq_download_queue.Mega.Mac.Reference.{mac_of}
use dlq_download_queue.Prelude.{
  ℕ, zero, suc, ◌<◌, ◌≡◌, refl, ap, ◌∙◌, [], ◌∷◌, ◌++◌, Option, none, some, true, length, take,
  arith, inl, inr, Bool-cases, text_eq_refl, length-drop_le,
}
use dlq_download_queue.Go.Strings.{Text, zeros, codes, is_empty}
use dlq_download_queue.Go.Error.{ok}
use dlq_download_queue.Go.Filepath.{dir, base}
use dlq_download_queue.Go.Os.{
  Disk, OsEnv, Os, step, operation, may_fail, read_file, append_file, open_file, create_temp,
  rename_file, temp_name,
}
use dlq_download_queue.Mega.{ContentKey}
use dlq_download_queue.Mega.Mac.{MacCalculator}
use dlq_download_queue.Mega.Files.{
  xor_stream, start_mac, write_mac, check_mac, finish_file, finish_copy, decrypt_into,
  decrypt_opened, unless_kept, decrypt_mega_file_in_place, Crypto, copy_buffer, copy_loop,
  finish_copy, finish_file,
}

module _ (block : Text → Text) (ks : ℕ → ℕ) (tmp : Text) (env : OsEnv) (calm : Calm env) where
  -- The fuel of one round more than there are bytes is enough.
  copy_loop_calm :
      (fuel : ℕ) (d : Disk) (mac : Option MacCalculator) (pos : ℕ) (rest : Text)
      → length rest < fuel
      → (mac' : Option MacCalculator) × ((copy_loop block ks tmp fuel mac pos rest env d).0
          ≡ ok mac')
  unfolding copy_loop copy_buffer may_fail read_file append_file operation is_empty
  copy_loop_calm zero d mac pos rest h = absurd (omega arith)
  copy_loop_calm (suc fuel) d mac pos [] h =
      rw (calm d.steps, calm (suc d.steps), copy_loop, copy_buffer, may_fail, read_file, operation)
        (mac, refl)
  copy_loop_calm (suc fuel) d mac pos (c ∷ rest) h =
      rw
        (
          calm d.steps,
          calm (suc d.steps),
          calm (suc (suc d.steps)),
          copy_loop,
          copy_buffer,
          may_fail,
          read_file,
          append_file,
          operation,
        )
        (copy_loop_calm fuel _ _ _ _ (
          omega (
            arith,
            length-drop_le (length (take (env.read_more (suc (suc d.steps))) (take 0xFFFFF rest)))
                rest,
          )))

  finish_copy_calm :
      (key : ContentKey) (path : Text) (mac : Option MacCalculator) (d : Disk)
      → check_mac block key mac ≡ ok tt
      → (finish_copy block key path tmp mac env d).0 ≡ ok tt
  unfolding finish_copy
  finish_copy_calm key path mac d h = rw (
    finish_copy,
    h,
    finish_file,
    may_fail,
    rename_file,
    operation,
    calm d.steps,
    calm (suc d.steps),
    calm (suc (suc d.steps)),
    calm (suc (suc (suc d.steps))),
  )

  check_mac_passes :
      (key : ContentKey) (p : Text)
      → (key.verify_mac ≡ true → mac_of block key.nonce p ≡ key.expect_mac)
      → check_mac block key (write_mac block (start_mac key) p) ≡ ok tt
  unfolding write_mac start_mac check_mac
  check_mac_passes key p h = elim (Bool-cases key.verify_mac) [
    | inl v ↦ rw (v, check_mac, sum-mac_of block key.nonce p, h v, text_eq_refl key.expect_mac)
    | inr v ↦ rw (v, check_mac)
  ]

  decrypt_into_calm :
      (key : ContentKey) (path contents : Text) (d : Disk)
      → d.content tmp ≡ some []
      → (key.verify_mac ≡ true → mac_of block key.nonce (xor_stream ks 0 contents) ≡ key.expect_mac)
      → (decrypt_into block ks key path contents tmp env d).0 ≡ ok tt
  unfolding decrypt_into may_fail operation Copied
  decrypt_into_calm key path contents d fresh h =
      let fuel = suc (length contents) in
      let mac = start_mac key in
      let run = copy_loop block ks tmp fuel mac 0 contents env (step d) in
      let (mac', done) = copy_loop_calm fuel (step d) mac 0 contents (omega arith) in
      let copied =
        copy_loop-Copied block ks tmp env fuel (step d) mac [] 0 contents (start_mac-MacReady key)
          fresh in
      rw (calm d.steps, decrypt_into, may_fail, operation, done)
        (finish_copy_calm key path mac' run.1 (
          ap (check_mac block key) (copied.1 mac' done).1
          ∙ check_mac_passes key (xor_stream ks 0 contents) h))

unless_kept_ok :
    (tmp : Text) (m : Os (Unit {0})) (env : OsEnv) (d : Disk)
    → (m env d).0 ≡ ok tt
    → (unless_kept tmp m env d).0 ≡ ok tt
unfolding unless_kept
unless_kept_ok tmp m env d h = rw (unless_kept, h)

-- Where no operation fails, the file is there, the cipher takes the key and the names of temporary
-- files are free, the decryption succeeds if the MAC of the decrypted contents is the one that the
-- key states, or the key states none.
pub decrypt_mega_file_in_place-Calm :
    (crypto : Crypto) (path : Text) (key : ContentKey) (env : OsEnv) (d : Disk) (contents : Text)
    (block : Text → Text)
    → Calm env
    → d.content path ≡ some contents
    → crypto.new_cipher key.aes_key ≡ ok block
    → ((n : ℕ)
        → d.content
            (temp_name (dir path) (codes "." ++ (base path ++ codes ".dlq-mega-")) (env.random n))
          ≡ none)
    → (key.verify_mac ≡ true
        → mac_of block key.nonce
            (xor_stream (crypto.key_stream block (key.nonce ++ zeros 8)) 0 contents)
          ≡ key.expect_mac)
    → (decrypt_mega_file_in_place crypto path key env d).0 ≡ ok tt
unfolding decrypt_mega_file_in_place decrypt_opened unless_kept open_file create_temp may_fail
    operation
decrypt_mega_file_in_place-Calm crypto path key env d contents block calm here cipher free h =
    let prefix = codes "." ++ (base path ++ codes ".dlq-mega-") in
    let tmp = temp_name (dir path) prefix (env.random (suc (suc (suc d.steps)))) in
    rw
      (
        decrypt_mega_file_in_place,
        decrypt_opened,
        unless_kept,
        open_file,
        create_temp,
        may_fail,
        operation,
        calm d.steps,
        here,
        calm (suc d.steps),
        cipher,
        calm (suc (suc d.steps)),
        free (suc (suc (suc d.steps))),
      )
      (unless_kept_ok tmp (decrypt_into block _ key path contents tmp) env _ (
        decrypt_into_calm block _ tmp env calm key path contents _
          (put_file_there tmp (some []) d.content) h))
