-- ===== src/Mega/Files/InPlace.antt =====
-- internal/queue/mega_decryptor.go, `decryptMegaFileInPlace`: what it leaves of the files.
use dlq_download_queue.Prelude.{
  ℕ, suc, ◌≡◌, ◌∙◌, inl, inr, [], ◌++◌, none, some, true, false, text_eq, text_eq_refl, text_eq→eq,
  Bool-cases,
}
use dlq_download_queue.Go.Strings.{Text, zeros, codes}
use dlq_download_queue.Go.Error.{Result, ok, err}
use dlq_download_queue.Go.Filepath.{dir, base}
use dlq_download_queue.Go.Os.{Disk, OsEnv, step, put_file, may_fail, create_temp, lift, ◌>>=◌, ◌>>◌}
use dlq_download_queue.Go.Os.Then.{action_then, may_fail_then, open_then, create_then}
use dlq_download_queue.Mega.{ContentKey}
use dlq_download_queue.Mega.Mac.Reference.{mac_of}
use dlq_download_queue.Mega.Files.{
  Crypto, xor_stream, drop_temp, unless_kept, decrypt_into, decrypt_opened,
  decrypt_mega_file_in_place,
}
use dlq_download_queue.Mega.Files.Into.{Into, decrypt_into-Into, drop_temp-Into}

-- No file that was there has changed.
abbrev pub Unchanged : Disk → Disk → Type 0
Unchanged d d' = (p c : Text) → d.content p ≡ some c → d'.content p ≡ some c

-- The file holds its old contents decrypted, with the MAC that the key states, if it states one;
-- no other file that was there has changed.
unfoldable Decrypted : Crypto → Text → ContentKey → Disk → Disk → Type 0
Decrypted crypto path key d d' =
    (contents : Text) × (block : (Text → Text)) × (d.content path ≡ some contents)
    × (crypto.new_cipher key.aes_key ≡ ok block)
    × (let out = xor_stream (crypto.key_stream block (key.nonce ++ zeros 8)) 0 contents in
        (d'.content path ≡ some out)
        × (key.verify_mac ≡ true → mac_of block key.nonce out ≡ key.expect_mac))
    × ((p c : Text) → text_eq p path ≡ false → d.content p ≡ some c → d'.content p ≡ some c)

unfoldable pub InPlace : Crypto → Text → ContentKey → Disk → Result (Unit {0}) × Disk → Type 0
unfolding Decrypted
InPlace crypto path key d (ok _, d') = Decrypted crypto path key d d'
InPlace crypto path key d (err e, d') = Unchanged d d'

module _ (crypto : Crypto) (path : Text) (key : ContentKey) (env : OsEnv) (d : Disk) where
  -- What was there cannot be the temporary file.
  other : (tmp p c : Text) → d.content tmp ≡ none → d.content p ≡ some c → text_eq p tmp ≡ false
  other tmp p c h e = elim (Bool-cases (text_eq p tmp)) [
    | inl s ↦ absurd (cc (text_eq→eq p tmp s, h, e))
    | inr s ↦ s
  ]

  -- The files with a new temporary file.
  with_temp : Text → ℕ → Disk
  with_temp tmp n = record { content = put_file tmp (some []) d.content; steps = n }

  same_as_before :
      (tmp p c : Text) (n : ℕ)
      → d.content tmp ≡ none
      → d.content p ≡ some c
      → (with_temp tmp n).content p ≡ some c
  unfolding with_temp put_file
  same_as_before tmp p c n h e = rw (other tmp p c h e, e)

  Into-InPlace :
      (contents tmp : Text) (n : ℕ) (block : Text → Text)
      → d.content path ≡ some contents
      → crypto.new_cipher key.aes_key ≡ ok block
      → d.content tmp ≡ none
      → (x : Result (Unit {0}) × Disk)
      → Into block
          (crypto.key_stream block (key.nonce ++ zeros 8))
          key
          path
          contents
          tmp
          env
          (with_temp tmp n)
          x
      → InPlace crypto path key d x
  unfolding Into InPlace Decrypted
  Into-InPlace contents tmp n block here cipher fresh (ok u, d') (out, mac, same) = (
    contents,
    block,
    here,
    cipher,
    (out, mac),
    λ p c h e. same p (other tmp p c fresh e) h ∙ same_as_before tmp p c n fresh e,
  )
  Into-InPlace contents tmp n block here cipher fresh (err x, d') same =
      λ p c e. same p (other tmp p c fresh e) ∙ same_as_before tmp p c n fresh e

  temp-InPlace :
      (contents tmp : Text) (n : ℕ) (block : Text → Text)
      → d.content path ≡ some contents
      → crypto.new_cipher key.aes_key ≡ ok block
      → d.content tmp ≡ none
      → let ks = crypto.key_stream block (key.nonce ++ zeros 8) in
        InPlace crypto path key d
          (unless_kept tmp (decrypt_into block ks key path contents tmp) env (with_temp tmp n))
  unfolding unless_kept with_temp put_file
  temp-InPlace contents tmp n block here cipher fresh =
      let ks = crypto.key_stream block (key.nonce ++ zeros 8) in
      let d2 = with_temp tmp n in
      let x = decrypt_into block ks key path contents tmp env d2 in
      Into-InPlace contents tmp n block here cipher fresh (drop_temp tmp x.0 env x.1) (
        drop_temp-Into block ks key path contents tmp env d2 x (
          decrypt_into-Into block ks key path contents tmp env d2
            (other tmp path contents fresh here) (rw (text_eq_refl tmp))))

  decrypt_opened-InPlace :
      (contents : Text) (n : ℕ)
      → d.content path ≡ some contents
      → InPlace crypto path key d
          (decrypt_opened crypto path key contents env (record { content = d.content; steps = n }))
  unfolding decrypt_opened InPlace with_temp
  decrypt_opened-InPlace contents n here =
      let Q = InPlace crypto path key d in
      let d1 : Disk = record { content = d.content; steps = n } in
      let prefix = codes "." ++ (base path ++ codes ".dlq-mega-") in
      let ks = λ (block : Text → Text). crypto.key_stream block (key.nonce ++ zeros 8) in
      let work = λ (block : Text → Text) (tmp : Text).
        unless_kept tmp (decrypt_into block (ks block) key path contents tmp) in
      action_then env d1 Q (lift (crypto.new_cipher key.aes_key))
        (λ block. create_temp (dir path) prefix >>= work block) (λ e h p c x. x)
        (λ block cipher.
          create_then env d1 Q (dir path) prefix (work block) (λ e p c x. x)
            (λ tmp fresh. temp-InPlace contents tmp (suc n) block here cipher fresh))

  -- A decryption of a MEGA file that returns no error has replaced the file by its old contents
  -- decrypted, whose MAC is the one that the key states, if it states one, and has changed no
  -- other file that was there; one that returns an error has changed no file that was there,
  -- whatever pieces the reads return and whichever operations fail.
  pub decrypt_mega_file_in_place-InPlace :
      InPlace crypto path key d (decrypt_mega_file_in_place crypto path key env d)
  unfolding decrypt_mega_file_in_place InPlace
  decrypt_mega_file_in_place-InPlace =
      let Q = InPlace crypto path key d in
      open_then env d Q path (λ contents. may_fail >> decrypt_opened crypto path key contents)
        (λ e p c h. h)
        (λ contents here.
          may_fail_then env (step d) Q (decrypt_opened crypto path key contents) (λ e p c h. h)
            (decrypt_opened-InPlace contents (suc (suc d.steps)) here))
