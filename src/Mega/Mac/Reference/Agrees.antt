-- ===== src/Mega/Mac/Reference/Agrees.antt =====
-- internal/queue/mega_decryptor.go: the calculator against the MAC of contents at hand.
use dlq_download_queue.Prelude.{
  ℕ, zero, suc, ◌-◌, ◌++◌, ◌≤◌, ◌<◌, ◌≡◌, refl, sym, ap, ◌∙◌, [], ◌∷◌, false, arith, length, take,
  drop, inl, inr, lt-cases, take-all, drop-all, length-take, length-drop, take-append-drop,
}
use dlq_download_queue.Go.Strings.{Text, xor_bytes, zeros}
use dlq_download_queue.Mega.Mac.{
  MacCalculator, finalize_chunk, next_chunk, end_chunk, mega_chunk_size, mixed_pending, mix_block,
  write, sum, condensed, new_mac_calculator,
}
use dlq_download_queue.Mega.Mac.Blocks.{put_all, put_all_at}
use dlq_download_queue.Mega.Mac.Bytes.{
  write_bytes, write_some, write_bytes-append, write-write_bytes, end_open,
  new_mac_calculator-IsReady,
}
use dlq_download_queue.Mega.Mac.Reference.{chunk_mac_of, chain_chunks, mac_of, chunk_size, folded}
use dlq_download_queue.Mega.Mac.Reference.Chunks.{finalize_chunk-put_all}

mega_chunk_size-chunk_size : (i : ℕ) → mega_chunk_size i ≡ chunk_size i
unfolding mega_chunk_size chunk_size
mega_chunk_size-chunk_size i = ground arith

condensed-folded : (encrypt : Text → Text) (mac : Text) → condensed encrypt mac ≡ folded mac
unfolding condensed folded
condensed-folded encrypt mac = refl

-- At the start of a chunk: nothing is pending.
abbrev AtStart : MacCalculator → Type 0
AtStart m =
    (m.pending ≡ [])
    × (m.chunk_mac ≡ m.base)
    × (m.chunk_has_data ≡ false)
    × (m.chunk_remaining ≡ chunk_size m.chunk_index)

module _ (encrypt : Text → Text) where
  finalize_at :
      (m : MacCalculator) (k : ℕ)
      → (finalize_chunk encrypt (record m { chunk_remaining = k })).file_mac
        ≡ (finalize_chunk encrypt m).file_mac
  unfolding finalize_chunk mixed_pending mix_block
  finalize_at m k = ground arith

  finalize_none :
      (m : MacCalculator)
      → m.chunk_has_data ≡ false
      → (finalize_chunk encrypt m).file_mac ≡ m.file_mac
  unfolding finalize_chunk
  finalize_none m d = rw d refl

  chunk_size_positive : (i : ℕ) → 0 < chunk_size i
  unfolding chunk_size
  chunk_size_positive i = ground arith

  -- The last chunk, which is not full.
  last_chunk :
      (m : MacCalculator) (c : ℕ) (p : Text)
      → AtStart m
      → length (c ∷ p) < chunk_size m.chunk_index
      → (finalize_chunk encrypt (write_bytes encrypt m (c ∷ p))).file_mac
        ≡ encrypt (xor_bytes m.file_mac (chunk_mac_of encrypt m.base (c ∷ p)))
  last_chunk m c p (e, b, d, r) h =
      let k = m.chunk_remaining - length (c ∷ p) in
      let m' = record (put_all encrypt m (c ∷ p)) { chunk_remaining = k } in
      ap (λ x. (finalize_chunk encrypt x).file_mac)
        (write_some encrypt m (c ∷ p) (omega arith) (omega arith)
          ∙ end_open encrypt m' (omega arith))
      ∙ finalize_at (put_all encrypt m (c ∷ p)) k
      ∙ ap (λ (x : MacCalculator). x.file_mac) (finalize_chunk-put_all encrypt m c p e b)

  -- The state behind a chunk that was finalized.
  after : MacCalculator → MacCalculator
  after m = record m {
    chunk_index = suc m.chunk_index;
    chunk_mac = m.base;
    chunk_remaining = chunk_size (suc m.chunk_index);
  }

  next_chunk-after : (m : MacCalculator) → next_chunk encrypt m ≡ after (finalize_chunk encrypt m)
  unfolding next_chunk after
  next_chunk-after m =
      let m' = finalize_chunk encrypt m in
      ap
        (λ k. record m' {
          chunk_index = suc m'.chunk_index;
          chunk_mac = m'.base;
          chunk_remaining = k;
        })
        (mega_chunk_size-chunk_size (suc m'.chunk_index))

  end_closed :
      (m : MacCalculator) → m.chunk_remaining ≡ 0 → end_chunk encrypt m ≡ next_chunk encrypt m
  unfolding end_chunk
  end_closed m h = rw h refl

  chain_last :
      (fuel : ℕ) (m : MacCalculator) (c : ℕ) (p : Text)
      → length (c ∷ p) < chunk_size m.chunk_index
      → chain_chunks encrypt (suc fuel) m.base m.chunk_index m.file_mac (c ∷ p)
        ≡ encrypt (xor_bytes m.file_mac (chunk_mac_of encrypt m.base (c ∷ p)))
  unfolding chain_chunks
  chain_last fuel m c p h =
      let n = chunk_size m.chunk_index in
      ap
        (λ q.
          chain_chunks encrypt fuel m.base (suc m.chunk_index)
            (encrypt (xor_bytes m.file_mac (chunk_mac_of encrypt m.base (take n (c ∷ p))))) q)
        (drop-all n (c ∷ p) (omega arith))
      ∙ ap (λ q. encrypt (xor_bytes m.file_mac (chunk_mac_of encrypt m.base q)))
          (take-all n (c ∷ p) (omega arith))

  -- A full chunk leads to the start of the next.
  full_chunk :
      (m : MacCalculator) (p : Text)
      → AtStart m
      → length p ≡ chunk_size m.chunk_index
      → write_bytes encrypt m p ≡ record m {
        file_mac = encrypt (xor_bytes m.file_mac (chunk_mac_of encrypt m.base p));
        chunk_mac = m.base;
        pending = [];
        chunk_index = suc m.chunk_index;
        chunk_remaining = chunk_size (suc m.chunk_index);
        chunk_has_data = false;
      }
  unfolding after
  full_chunk m [] s h = absurd (omega (arith, chunk_size_positive m.chunk_index))
  full_chunk m (c ∷ p) (e, b, d, r) h =
      let k = m.chunk_remaining - length (c ∷ p) in
      let m' = record m { chunk_remaining = k } in
      write_some encrypt m (c ∷ p) (omega arith) (omega arith)
      ∙ end_closed (record (put_all encrypt m (c ∷ p)) { chunk_remaining = k }) (omega arith)
      ∙ ap (next_chunk encrypt) (sym (put_all_at encrypt m k (c ∷ p)))
      ∙ next_chunk-after (put_all encrypt m' (c ∷ p))
      ∙ ap after (finalize_chunk-put_all encrypt m' c p e b)

  started_after :
      (m : MacCalculator) (p : Text)
      → AtStart m
      → length p ≡ chunk_size m.chunk_index
      → AtStart (write_bytes encrypt m p)
  started_after m p s h = rw (full_chunk m p s h) (refl, refl, refl, refl)

  -- From the start of a chunk, the calculator goes on as the chain does.
  write_bytes-chain_chunks :
      (fuel : ℕ) (m : MacCalculator) (p : Text)
      → length p ≤ fuel
      → AtStart m
      → (finalize_chunk encrypt (write_bytes encrypt m p)).file_mac
        ≡ chain_chunks encrypt fuel m.base m.chunk_index m.file_mac p
  unfolding chain_chunks write_bytes
  write_bytes-chain_chunks fuel m [] h (e, b, d, r) = finalize_none m d
  write_bytes-chain_chunks zero m (c ∷ p) h s = absurd (omega arith)
  write_bytes-chain_chunks (suc fuel) m (c ∷ p) h s =
      let n = chunk_size m.chunk_index in
      elim (lt-cases (length (c ∷ p)) n) [
        | inl short ↦ last_chunk m c p s short ∙ sym (chain_last fuel m c p short)
        | inr long ↦
            let full = length-take n (c ∷ p) long in
            let rest = drop n (c ∷ p) in
            let m' = write_bytes encrypt m (take n (c ∷ p)) in
            ap (λ x. (finalize_chunk encrypt x).file_mac)
              (ap (write_bytes encrypt m) (sym (take-append-drop n (c ∷ p)))
                ∙ write_bytes-append encrypt m (take n (c ∷ p)) rest)
            ∙ write_bytes-chain_chunks fuel m' rest
                (omega (arith, length-drop n (c ∷ p) long, chunk_size_positive m.chunk_index))
                (started_after m (take n (c ∷ p)) s full)
            ∙ ap
                (λ (x : MacCalculator).
                  chain_chunks encrypt fuel x.base x.chunk_index x.file_mac rest)
                (full_chunk m (take n (c ∷ p)) s full)
      ]

  -- The MAC that the calculator sums up for a file's contents is that of MEGA's format, written out
  -- apart from it: the contents cut into chunks of one to eight times 128 KiB and then always eight
  -- times, a CBC-MAC of each chunk's blocks of 16 bytes filled up with zeros, and the chain of these
  -- with its four words folded to two.
  pub sum-mac_of :
      (nonce p : Text)
      → sum encrypt (write encrypt (new_mac_calculator nonce) p) ≡ mac_of encrypt nonce p
  unfolding sum mac_of new_mac_calculator mega_chunk_size chunk_size
  sum-mac_of nonce p =
      ap (λ x. condensed encrypt (finalize_chunk encrypt x).file_mac)
        (write-write_bytes encrypt (new_mac_calculator nonce) p (new_mac_calculator-IsReady nonce))
      ∙ ap (condensed encrypt) (
          write_bytes-chain_chunks (length p) (new_mac_calculator nonce) p (omega arith)
            (refl, refl, refl, refl))
      ∙ condensed-folded encrypt (chain_chunks encrypt (length p) (nonce ++ nonce) 0 (zeros 16) p)
