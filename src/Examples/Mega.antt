-- ===== src/Examples/Mega.antt =====
-- The theorems on the decryption of MEGA files, applied to a small cipher and a short file.
use dlq_download_queue.Prelude.{
  ◌%◌, ◌≡◌, refl, true, ◌++◌, none, some, reverse, text_eq, if◌then◌else◌,
}
use dlq_download_queue.Go.Strings.{Text, codes}
use dlq_download_queue.Go.Error.{ok}
use dlq_download_queue.Go.Os.{Disk, OsEnv, temp_name}
use dlq_download_queue.Go.Filepath.{dir}
use dlq_download_queue.Mega.{ContentKey}
use dlq_download_queue.Mega.Mac.{new_mac_calculator, write, sum}
use dlq_download_queue.Mega.Mac.Bytes.{write-append, new_mac_calculator-IsReady}
use dlq_download_queue.Mega.Mac.Reference.{mac_of}
use dlq_download_queue.Mega.Mac.Reference.Agrees.{sum-mac_of}
use dlq_download_queue.Mega.Files.{Crypto, xor_stream, decrypt_mega_file_in_place}
use dlq_download_queue.Mega.Files.InPlace.{InPlace, decrypt_mega_file_in_place-InPlace}
use dlq_download_queue.Mega.Files.Calm.{decrypt_mega_file_in_place-Calm}

abbrev nonce : Text
nonce = codes "12345678"

-- In place of AES, a block is turned around.
abbrev crypto : Crypto
crypto = record {
  new_cipher = λ key. ok (λ (b : Text). reverse b);
  key_stream = λ block iv n. n % 7;
}

abbrev film : Text
film = codes "/data/film"

abbrev stored : Text
stored = codes "the encrypted film"

-- A key that states the MAC of the decrypted film.
abbrev key : ContentKey
key = record {
  aes_key = codes "0123456789abcdef";
  nonce = nonce;
  expect_mac = mac_of (λ (b : Text). reverse b) nonce (xor_stream (λ n. n % 7) 0 stored);
  verify_mac = true;
}

abbrev disk : Disk
disk = record { content = λ p. if text_eq p film then some stored else none; steps = 0 }

-- Reads of five bytes, and no failure.
abbrev calm_os : OsEnv
calm_os = record { failure = λ n. none; read_more = λ n. 4; random = λ n. codes "1" }

write-append_example :
    write reverse
      (write reverse (new_mac_calculator nonce) (codes "a piece of the film"))
      (codes " and more")
    ≡ write reverse (new_mac_calculator nonce) (codes "a piece of the film" ++ codes " and more")
write-append_example =
    write-append reverse (new_mac_calculator nonce) (codes "a piece of the film")
      (codes " and more") (new_mac_calculator-IsReady nonce)

sum-mac_of_example :
    sum reverse (write reverse (new_mac_calculator nonce) stored) ≡ mac_of reverse nonce stored
sum-mac_of_example = sum-mac_of reverse nonce stored

decrypt_mega_file_in_place-InPlace_example :
    InPlace crypto film key disk (decrypt_mega_file_in_place crypto film key calm_os disk)
decrypt_mega_file_in_place-InPlace_example =
    decrypt_mega_file_in_place-InPlace crypto film key calm_os disk

decrypt_mega_file_in_place-Calm_example :
    (decrypt_mega_file_in_place crypto film key calm_os disk).0 ≡ ok tt
unfolding temp_name text_eq dir
decrypt_mega_file_in_place-Calm_example =
    decrypt_mega_file_in_place-Calm crypto film key calm_os disk stored (λ (b : Text). reverse b)
      (λ n. refl) refl refl (λ n. refl) (λ v. refl)
