-- ===== src/Mega/Mac/Bytes.antt =====
-- internal/queue/mega_decryptor.go, `Write` byte by byte: whatever the pieces
-- that a text is written in, the calculator comes to the same state.
use dlq_download_queue.Mega.Mac.{
  MacCalculator, Text, end_chunk, mix_block, write_chunk_bytes, next_chunk, write_loop,
  finalize_chunk, mixed_pending, mega_chunk_size, write, new_mac_calculator,
}
use dlq_download_queue.Prelude.{
  ℕ, zero, suc, ◌-◌, ◌≤◌, ◌<◌, ◌≡◌, refl, sym, ap, ◌∙◌, [], ◌∷◌, ◌++◌, true, arith, length, take,
  drop, min, length-append, take-append-drop, length-take, length-drop,
}
use dlq_download_queue.Mega.Mac.Blocks.{
  put, put_all, put_all_at, put_room, flush_room, write_chunk_bytes-put_all,
}

-- The pending block has room, and something of the chunk remains.
unfoldable pub IsReady : MacCalculator → Type 0
IsReady m = (length m.pending < 16) × (0 < m.chunk_remaining)

room : (m : MacCalculator) → IsReady m → length m.pending < 16
unfolding IsReady
room m r = r.0

positive : (m : MacCalculator) → IsReady m → 0 < m.chunk_remaining
unfolding IsReady
positive m r = r.1

module _ (encrypt : Text → Text) where
  -- One byte of the file.
  unfoldable write_byte : MacCalculator → ℕ → MacCalculator
  unfolding put end_chunk
  write_byte m c =
      let m' = put encrypt m c in
      end_chunk encrypt (record m' { chunk_remaining = m.chunk_remaining - 1 })

  unfoldable pub write_bytes : MacCalculator → Text → MacCalculator
  unfolding write_byte
  write_bytes m [] = m
  write_bytes m (c ∷ p) = write_bytes (write_byte m c) p

  pub write_bytes-append :
      (m : MacCalculator) (p q : Text) → write_bytes m (p ++ q) ≡ write_bytes (write_bytes m p) q
  unfolding write_bytes
  write_bytes-append m [] q = refl
  write_bytes-append m (c ∷ p) q = write_bytes-append (write_byte m c) p q

  pub end_open : (m : MacCalculator) → 0 < m.chunk_remaining → end_chunk encrypt m ≡ m
  unfolding end_chunk
  end_open m h = ground arith

  -- Bytes that the chunk has room for.
  write_within :
      (m : MacCalculator) (c : ℕ) (p : Text)
      → length (c ∷ p) ≤ m.chunk_remaining
      → write_bytes m (c ∷ p)
        ≡ end_chunk encrypt (record (put_all encrypt m (c ∷ p)) {
          chunk_remaining = m.chunk_remaining - length (c ∷ p);
        })
  unfolding write_bytes write_byte put_all
  write_within m c [] h = refl
  write_within m c (d ∷ p) h =
      let m' = record (put encrypt m c) { chunk_remaining = m.chunk_remaining - 1 } in
      ap (λ x. write_bytes x (d ∷ p)) (end_open m' (omega arith))
      ∙ write_within m' d p (omega arith)
      ∙ ap
          (λ x.
            end_chunk encrypt
              (record x { chunk_remaining = m.chunk_remaining - 1 - length (d ∷ p) }))
          (put_all_at encrypt (put encrypt m c) (m.chunk_remaining - 1) (d ∷ p))
      ∙ ap (λ k. end_chunk encrypt (record (put_all encrypt m (c ∷ d ∷ p)) { chunk_remaining = k }))
          (omega arith)

  pub write_some :
      (m : MacCalculator) (p : Text)
      → 0 < length p
      → length p ≤ m.chunk_remaining
      → write_bytes m p
        ≡ end_chunk encrypt
            (record (put_all encrypt m p) { chunk_remaining = m.chunk_remaining - length p })
  write_some m [] h l = absurd (omega arith)
  write_some m (c ∷ p) h l = write_within m c p l

  end_chunk-IsReady : (m : MacCalculator) → length m.pending < 16 → IsReady (end_chunk encrypt m)
  unfolding IsReady end_chunk next_chunk finalize_chunk mixed_pending mix_block mega_chunk_size
  end_chunk-IsReady m h = ground arith

  -- One round of the loop over the chunks.
  write_round :
      (m : MacCalculator) (n : ℕ) (p : Text)
      → IsReady m
      → 0 < n
      → n ≤ length p
      → n ≤ m.chunk_remaining
      → write_bytes
          (end_chunk encrypt (record (write_chunk_bytes encrypt m (take n p)) {
            chunk_remaining = m.chunk_remaining - n;
          }))
          (drop n p)
        ≡ write_bytes m p
  unfolding IsReady
  write_round m n p r h l b =
      ap
        (λ x.
          write_bytes (end_chunk encrypt (record x { chunk_remaining = m.chunk_remaining - n }))
            (drop n p))
        (write_chunk_bytes-put_all encrypt m (take n p) r.0)
      ∙ ap
          (λ k.
            write_bytes
              (end_chunk encrypt
                (record (put_all encrypt m (take n p)) { chunk_remaining = m.chunk_remaining - k }))
              (drop n p))
          (sym (length-take n p l))
      ∙ ap (λ x. write_bytes x (drop n p))
          (sym (
            write_some m (take n p) (omega (arith, length-take n p))
              (omega (arith, length-take n p))))
      ∙ sym (write_bytes-append m (take n p) (drop n p))
      ∙ ap (write_bytes m) (take-append-drop n p)

  write_loop-write_bytes :
      (fuel : ℕ) (m : MacCalculator) (p : Text)
      → length p ≤ fuel
      → IsReady m
      → write_loop encrypt fuel m p ≡ write_bytes m p
  unfolding write_loop write_bytes
  write_loop-write_bytes fuel m [] h r = refl
  write_loop-write_bytes zero m (c ∷ p) h r = absurd (omega arith)
  write_loop-write_bytes (suc fuel) m (c ∷ p) h r =
      let n = min (length (c ∷ p)) m.chunk_remaining in
      let written = write_chunk_bytes encrypt m (take n (c ∷ p)) in
      write_loop-write_bytes fuel
        (end_chunk encrypt (record written { chunk_remaining = m.chunk_remaining - n }))
        (drop n (c ∷ p)) (omega (arith, length-drop n (c ∷ p), positive m r))
        (end_chunk-IsReady (record written { chunk_remaining = m.chunk_remaining - n })
          (rw (write_chunk_bytes-put_all encrypt m (take n (c ∷ p)) (room m r))
            (put_room encrypt m (take n (c ∷ p)) (room m r))))
      ∙ write_round m n (c ∷ p) r (omega (arith, positive m r)) (omega arith) (omega arith)

  pub write-write_bytes :
      (m : MacCalculator) (p : Text) → IsReady m → write encrypt m p ≡ write_bytes m p
  unfolding write
  write-write_bytes m p r = write_loop-write_bytes (length p) m p (omega arith) r

  write_bytes-IsReady : (m : MacCalculator) (p : Text) → IsReady m → IsReady (write_bytes m p)
  unfolding write_bytes write_byte put
  write_bytes-IsReady m [] r = r
  write_bytes-IsReady m (c ∷ p) r =
      let m' = record m { pending = m.pending ++ c ∷ []; chunk_has_data = true } in
      write_bytes-IsReady (write_byte m c) p (
        end_chunk-IsReady (record (put encrypt m c) { chunk_remaining = m.chunk_remaining - 1 })
          (flush_room encrypt m' (omega (arith, length-append m.pending (c ∷ []), room m r))))

  -- From a calculator whose pending block has room and whose chunk is not full, two texts written
  -- one after the other lead to the state that both written at once lead to.
  pub write-append :
      (m : MacCalculator) (p q : Text)
      → IsReady m
      → write encrypt (write encrypt m p) q ≡ write encrypt m (p ++ q)
  write-append m p q r = rw (
    write-write_bytes m p r,
    write-write_bytes (write_bytes m p) q (write_bytes-IsReady m p r),
    write-write_bytes m (p ++ q) r,
    write_bytes-append m p q,
  )

  pub write-IsReady : (m : MacCalculator) (p : Text) → IsReady m → IsReady (write encrypt m p)
  write-IsReady m p r = rw (write-write_bytes m p r) (write_bytes-IsReady m p r)

pub new_mac_calculator-IsReady : (nonce : Text) → IsReady (new_mac_calculator nonce)
unfolding IsReady new_mac_calculator mega_chunk_size
new_mac_calculator-IsReady nonce = ground arith
