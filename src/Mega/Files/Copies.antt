-- ===== src/Mega/Files/Copies.antt =====
-- internal/queue/mega_decryptor.go, the loop over the reads: what it leaves in the temporary file
-- and in the calculator, however long the pieces are that the reads return.
use dlq_download_queue.Prelude.{
  ℕ, zero, suc, ◌+◌, ◌≡◌, refl, sym, ap, ◌∙◌, [], ◌∷◌, ◌++◌, Option, none, some, false, length,
  take, drop, bit_xor, text_eq, text_eq_refl, arith,
}
use mathlib.Core.List.{append-nil, append_assoc}
use dlq_download_queue.Go.Strings.{Text, is_empty}
use dlq_download_queue.Go.Error.{Error, Result, ok, err}
use dlq_download_queue.Go.Os.{Disk, OsEnv, Os, read_file, ◌>>=◌, put_file, step, contents_or_none}
use dlq_download_queue.Go.Os.Then.{may_fail_then, append_then, read_then}
use dlq_download_queue.Mega.Mac.{MacCalculator, write, write_loop}
use dlq_download_queue.Mega.Mac.Bytes.{IsReady, write-append, write-IsReady}
use dlq_download_queue.Mega.Files.{
  xor_stream, write_mac, copy_buffer, copy_loop, buffer_size, copy_buffer,
}

xor_stream-append :
    (ks : ℕ → ℕ) (pos : ℕ) (p q : Text)
    → xor_stream ks pos (p ++ q) ≡ xor_stream ks pos p ++ xor_stream ks (pos + length p) q
unfolding xor_stream
xor_stream-append ks pos [] q = ap (λ n. xor_stream ks n q) (omega arith)
xor_stream-append ks pos (c ∷ p) q =
    ap (λ s. bit_xor c (ks pos) ∷ s) (xor_stream-append ks (suc pos) p q)
    ∙ ap (λ n. bit_xor c (ks pos) ∷ (xor_stream ks (suc pos) p ++ xor_stream ks n q)) (omega arith)

-- A read returns the start of what is left.
take-take-drop : (a b : ℕ) (s : Text) → take a (take b s) ++ drop (length (take a (take b s))) s ≡ s
take-take-drop zero b s = refl
take-take-drop (suc a) zero s = refl
take-take-drop (suc a) (suc b) [] = refl
take-take-drop (suc a) (suc b) (c ∷ s) = ap (λ t. c ∷ t) (take-take-drop a b s)

abbrev pub MacReady : Option MacCalculator → Type 0
MacReady none = Unit
MacReady (some m) = IsReady m

module _ (block : Text → Text) where
  write_mac-append :
      (m : Option MacCalculator) (p q : Text)
      → MacReady m
      → write_mac block (write_mac block m p) q ≡ write_mac block m (p ++ q)
  unfolding write_mac
  write_mac-append none p q r = refl
  write_mac-append (some m) p q r = ap some (write-append block m p q r)

  write_mac-MacReady :
      (m : Option MacCalculator) (p : Text) → MacReady m → MacReady (write_mac block m p)
  unfolding write_mac
  write_mac-MacReady none p r = tt
  write_mac-MacReady (some m) p r = write-IsReady block m p r

-- Only the file `tmp` may have changed.
abbrev pub OnlyAt : Text → Disk → Disk → Type 0
OnlyAt tmp d d' = (p : Text) → text_eq p tmp ≡ false → d'.content p ≡ d.content p

module _ (block : Text → Text) (ks : ℕ → ℕ) (tmp : Text) (env : OsEnv) where
  -- The loop, from `done` in the temporary file, `pos` bytes read and `rest` left.
  unfoldable pub Copied :
      Disk → Option MacCalculator → Text → ℕ → Text → Result (Option MacCalculator) × Disk → Type 0
  Copied d mac done pos rest (r, d') =
      OnlyAt tmp d d'
      × ((mac' : Option MacCalculator)
          → r ≡ ok mac'
          → (d'.content tmp ≡ some (done ++ xor_stream ks pos rest))
            × (mac' ≡ write_mac block mac (xor_stream ks pos rest)))

  failed :
      (d d' : Disk) (mac : Option MacCalculator) (done : Text) (pos : ℕ) (rest : Text) (e : Error)
      → OnlyAt tmp d d'
      → Copied d mac done pos rest (err e, d')
  unfolding Copied
  failed d d' mac done pos rest e h = (h, λ mac' x. absurd cc)

  -- What is in the temporary file behind a write of `out`.
  appended : Disk → Text → Disk
  appended d out = record (step d) {
    content = put_file tmp (some (contents_or_none (d.content tmp) ++ out)) d.content;
  }

  appended_tmp :
      (d : Disk) (done out : Text)
      → d.content tmp ≡ some done
      → (appended d out).content tmp ≡ some (done ++ out)
  unfolding appended put_file
  appended_tmp d done out e = rw (text_eq_refl tmp, e)

  appended_other : (d : Disk) (out : Text) → OnlyAt tmp d (appended d out)
  unfolding appended put_file
  appended_other d out p h = rw h refl

  write_mac-nil : (m : Option MacCalculator) → write_mac block m [] ≡ m
  unfolding write_mac write write_loop
  write_mac-nil none = refl
  write_mac-nil (some m) = refl

  -- The rounds that follow a piece do the rest.
  Copied-more :
      (d : Disk) (mac : Option MacCalculator) (done : Text) (pos : ℕ) (buf rest : Text)
      (x : Result (Option MacCalculator) × Disk)
      → MacReady mac
      → buf ++ drop (length buf) rest ≡ rest
      → Copied
          (appended d (xor_stream ks pos buf))
          (write_mac block mac (xor_stream ks pos buf))
          (done ++ xor_stream ks pos buf)
          (pos + length buf)
          (drop (length buf) rest)
          x
      → Copied d mac done pos rest x
  unfolding Copied
  Copied-more d mac done pos buf rest x r h (same, out) =
      let split =
        sym (xor_stream-append ks pos buf (drop (length buf) rest)) ∙ ap (xor_stream ks pos) h in
      (
        λ p e. same p e ∙ appended_other d (xor_stream ks pos buf) p e,
        λ mac' e. (
          (out mac' e).0
              ∙ ap some (append_assoc done (xor_stream ks pos buf) _ ∙ ap (λ t. done ++ t) split),
          (out mac' e).1
              ∙ write_mac-append block mac (xor_stream ks pos buf) _ r
              ∙ ap (write_mac block mac) split,
        ),
      )

  Copied-nothing :
      (d : Disk) (mac : Option MacCalculator) (done : Text) (pos : ℕ)
      → d.content tmp ≡ some done
      → Copied d mac done pos [] (ok mac, d)
  unfolding Copied xor_stream
  Copied-nothing d mac done pos e =
      (λ p h. refl, λ mac' h. (e ∙ ap some (sym (append-nil done)), cc (write_mac-nil mac, h)))

  buffer_then :
      (next : Option MacCalculator → ℕ → Text → Os (Option MacCalculator)) (d : Disk)
      (mac : Option MacCalculator) (done : Text) (pos n : ℕ) (rest : Text)
      → MacReady mac
      → d.content tmp ≡ some done
      → ((d' : Disk) (mac' : Option MacCalculator) (done' : Text) (pos' : ℕ) (rest' : Text)
          → MacReady mac'
          → d'.content tmp ≡ some done'
          → Copied d' mac' done' pos' rest' (next mac' pos' rest' env d'))
      → Copied d mac done pos rest
          (copy_buffer block ks tmp next mac pos rest (take (suc n) (take buffer_size rest)) env d)
  unfolding copy_buffer is_empty appended
  buffer_then next d mac done pos n [] r e go = Copied-nothing d mac done pos e
  buffer_then next d mac done pos n (c ∷ rest) r e go =
      let buf = take (suc n) (take buffer_size (c ∷ rest)) in
      let out = xor_stream ks pos buf in
      let left = drop (length buf) (c ∷ rest) in
      append_then env d (Copied d mac done pos (c ∷ rest)) tmp out
        (next (write_mac block mac out) (pos + length buf) left)
        (λ x. failed d (step d) mac done pos (c ∷ rest) x (λ p h. refl))
        (Copied-more d mac done pos buf (c ∷ rest)
          (next (write_mac block mac out) (pos + length buf) left env (appended d out)) r
          (take-take-drop (suc n) buffer_size (c ∷ rest))
          (go (appended d out) (write_mac block mac out) (done ++ out) (pos + length buf) left
            (write_mac-MacReady block mac out r) (appended_tmp d done out e)))

  -- Steps that change no file.
  Copied-from :
      (d d' : Disk) (mac : Option MacCalculator) (done : Text) (pos : ℕ) (rest : Text)
      (x : Result (Option MacCalculator) × Disk)
      → ((p : Text) → d'.content p ≡ d.content p)
      → Copied d' mac done pos rest x
      → Copied d mac done pos rest x
  unfolding Copied
  Copied-from d d' mac done pos rest x h (same, out) = (λ p e. same p e ∙ h p, out)

  pub copy_loop-Copied :
      (fuel : ℕ) (d : Disk) (mac : Option MacCalculator) (done : Text) (pos : ℕ) (rest : Text)
      → MacReady mac
      → d.content tmp ≡ some done
      → Copied d mac done pos rest (copy_loop block ks tmp fuel mac pos rest env d)
  unfolding copy_loop
  copy_loop-Copied zero d mac done pos rest r e = failed d d mac done pos rest _ (λ p h. refl)
  copy_loop-Copied (suc fuel) d mac done pos rest r e =
      let Q = Copied d mac done pos rest in
      let next = copy_loop block ks tmp fuel in
      let k = copy_buffer block ks tmp next mac pos rest in
      may_fail_then env d Q (read_file buffer_size rest >>= k)
        (λ x. failed d (step d) mac done pos rest x (λ p h. refl))
        (read_then env (step d) Q buffer_size rest k
          (λ x. failed d (step (step d)) mac done pos rest x (λ p h. refl))
          (λ n.
            Copied-from d (step (step d)) mac done pos rest _ (λ p. refl)
              (buffer_then next (step (step d)) mac done pos n rest r e (copy_loop-Copied fuel))))
