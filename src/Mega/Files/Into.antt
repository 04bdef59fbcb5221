-- ===== src/Mega/Files/Into.antt =====
-- internal/queue/mega_decryptor.go, `decryptMegaFileInPlace`: what the work on the temporary
-- file comes to.
use dlq_download_queue.Prelude.{
  ℕ, suc, ◌≡◌, refl, sym, ap, ◌∙◌, inl, inr, [], Option, none, some, Bool, true, false, length,
  text_eq, text_eq_refl, text_eq→eq, Bool-cases, if◌then◌else◌,
}
use dlq_download_queue.Go.Strings.{Text}
use dlq_download_queue.Go.Error.{Error, Result, ok, err}
use dlq_download_queue.Go.Os.{
  Disk, OsEnv, step, put_file, may_fail, remove_file, rename_file, lift, ◌>>=◌, ◌>>◌,
}
use dlq_download_queue.Go.Os.Then.{action_then, may_fail_then, rename_last, remove_last}
use dlq_download_queue.Mega.{ContentKey}
use dlq_download_queue.Mega.Mac.{MacCalculator, new_mac_calculator, write, sum}
use dlq_download_queue.Mega.Mac.Bytes.{new_mac_calculator-IsReady}
use dlq_download_queue.Mega.Mac.Reference.{mac_of}
use dlq_download_queue.Mega.Mac.Reference.Agrees.{sum-mac_of}
use dlq_download_queue.Mega.Files.{
  xor_stream, start_mac, write_mac, check_mac, copy_loop, drop_temp, decrypt_into, finish_file,
  finish_copy,
}
use dlq_download_queue.Mega.Files.Copies.{MacReady, OnlyAt, Copied, copy_loop-Copied}

pub start_mac-MacReady : (key : ContentKey) → MacReady (start_mac key)
unfolding start_mac
start_mac-MacReady key = elim (Bool-cases key.verify_mac) [
  | inl h ↦ rw h (new_mac_calculator-IsReady key.nonce)
  | inr h ↦ rw h tt
]

if_ok : (b : Bool) (e : Error) → (if b then ok (tt {0}) else err e) ≡ ok tt → b ≡ true
if_ok true e h = refl
if_ok false e h = absurd cc

check_mac-some :
    (block : Text → Text) (key : ContentKey) (m : MacCalculator)
    → check_mac block key (some m) ≡ ok tt
    → sum block m ≡ key.expect_mac
unfolding check_mac
check_mac-some block key m h = text_eq→eq (sum block m) key.expect_mac (if_ok _ _ h)

-- A check that passed, where the key states a MAC, has compared the MAC of the contents.
check_mac-mac_of :
    (block : Text → Text) (key : ContentKey) (p : Text)
    → check_mac block key (write_mac block (start_mac key) p) ≡ ok tt
    → key.verify_mac ≡ true
    → mac_of block key.nonce p ≡ key.expect_mac
unfolding write_mac start_mac
check_mac-mac_of block key p h v =
    let m = new_mac_calculator key.nonce in
    let started = λ (b : Bool). write_mac block (if b then some m else none) p in
    sym (sum-mac_of block key.nonce p)
    ∙ check_mac-some block key (write block m p)
        (sym (ap (λ b. check_mac block key (started b)) v) ∙ h)

module _ (block : Text → Text) (ks : ℕ → ℕ) (key : ContentKey) (path contents tmp : Text)
    (env : OsEnv) where
  -- What the work on the temporary file leaves.
  unfoldable pub Into : Disk → Result (Unit {0}) × Disk → Type 0
  Into d (ok _, d') =
      (d'.content path ≡ some (xor_stream ks 0 contents))
      × (key.verify_mac ≡ true → mac_of block key.nonce (xor_stream ks 0 contents) ≡ key.expect_mac)
      × ((p : Text) → text_eq p tmp ≡ false → text_eq p path ≡ false → d'.content p ≡ d.content p)
  Into d (err e, d') = OnlyAt tmp d d'

  -- The temporary file with the contents decrypted, to the end.
  finish_file-Into :
      (d d' : Disk)
      → OnlyAt tmp d d'
      → text_eq path tmp ≡ false
      → d'.content tmp ≡ some (xor_stream ks 0 contents)
      → (key.verify_mac ≡ true → mac_of block key.nonce (xor_stream ks 0 contents) ≡ key.expect_mac)
      → Into d (finish_file path tmp env d')
  unfolding Into put_file finish_file
  finish_file-Into d d' same apart here mac =
      let last = rename_file tmp path in
      let d1 = step d' in
      let d2 = step d1 in
      may_fail_then env d' (Into d) (may_fail >> (may_fail >> last)) (λ e. same)
        (may_fail_then env d1 (Into d) (may_fail >> last) (λ e. same)
          (may_fail_then env d2 (Into d) last (λ e. same)
            (rename_last env (step d2) (Into d) tmp path (λ e. same)
              (rw (apart, text_eq_refl path, here), mac, λ p t h. rw (t, h, same p t)))))

  finish_copy-Into :
      (d d' : Disk) (mac : Option MacCalculator)
      → text_eq path tmp ≡ false
      → Copied block ks tmp env d (start_mac key) [] 0 contents (ok mac, d')
      → Into d (finish_copy block key path tmp mac env d')
  unfolding finish_copy Copied Into
  finish_copy-Into d d' mac apart (same, out) =
      let done = out mac refl in
      action_then env d' (Into d) (lift (check_mac block key mac)) (λ _. finish_file path tmp)
        (λ e h. same)
        (λ u h. finish_file-Into d d' same apart done.0 (
          check_mac-mac_of block key (xor_stream ks 0 contents)
            (sym (ap (check_mac block key) done.1) ∙ h)))

  Copied-only :
      (d : Disk) (mac : Option MacCalculator) (x : Result (Option MacCalculator) × Disk)
      → Copied block ks tmp env d mac [] 0 contents x
      → OnlyAt tmp d x.1
  unfolding Copied
  Copied-only d mac (r, d') c = c.0

  Copied-ok :
      (d : Disk) (mac mac' : Option MacCalculator) (x : Result (Option MacCalculator) × Disk)
      → x.0 ≡ ok mac'
      → Copied block ks tmp env d mac [] 0 contents x
      → Copied block ks tmp env d mac [] 0 contents (ok mac', x.1)
  unfolding Copied
  Copied-ok d mac mac' (r, d') h (only, out) = (only, λ m e. out m (h ∙ e))

  pub decrypt_into-Into :
      (d : Disk)
      → text_eq path tmp ≡ false
      → d.content tmp ≡ some []
      → Into d (decrypt_into block ks key path contents tmp env d)
  unfolding decrypt_into Into
  decrypt_into-Into d apart fresh =
      let fuel = suc (length contents) in
      let mac = start_mac key in
      let loop = copy_loop block ks tmp fuel mac 0 contents in
      let ready = start_mac-MacReady key in
      let d1 = step d in
      let copied = copy_loop-Copied block ks tmp env fuel d1 mac [] 0 contents ready fresh in
      let d2 = (loop env d1).1 in
      may_fail_then env d (Into d) (loop >>= finish_copy block key path tmp) (λ e p h. refl)
        (action_then env d1 (Into d) loop (finish_copy block key path tmp)
          (λ e h. Copied-only d1 mac (loop env d1) copied)
          (λ mac' h.
            finish_copy-Into d1 d2 mac' apart (Copied-ok d1 mac mac' (loop env d1) h copied)))

  -- What removing the temporary file leaves.
  removed_only : (d d' : Disk) → OnlyAt tmp d d' → OnlyAt tmp d (remove_file tmp env d').1
  unfolding put_file
  removed_only d d' same =
      remove_last env d' (λ x. OnlyAt tmp d x.1) tmp (λ e. same) (λ p h. rw (h, same p h))

  pub drop_temp-Into :
      (d : Disk) (x : Result (Unit {0}) × Disk) → Into d x → Into d (drop_temp tmp x.0 env x.1)
  unfolding Into
  drop_temp-Into d (ok u, d') h = h
  drop_temp-Into d (err e, d') h = removed_only d d' h
