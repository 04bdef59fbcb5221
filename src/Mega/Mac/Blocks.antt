-- ===== src/Mega/Mac/Blocks.antt =====
-- internal/queue/mega_decryptor.go, `writeChunkBytes` byte by byte.
use dlq_download_queue.Mega.Mac.{
  MacCalculator, Text, flush_block, mix_block, fill_blocks, write_chunk_bytes,
}
use dlq_download_queue.Prelude.{
  ℕ, zero, suc, ◌+◌, ◌-◌, ◌≤◌, ◌<◌, ◌≡◌, refl, sym, ap, ◌∙◌, [], ◌∷◌, ◌++◌, true, arith, length,
  take, drop, min, length-append, take-append-drop, length-take, length-drop,
}
use mathlib.Core.List.{append_assoc}

module _ (encrypt : Text → Text) where
  -- One byte into the pending block.
  unfoldable pub put : MacCalculator → ℕ → MacCalculator
  unfolding flush_block
  put m c = flush_block encrypt (record m { pending = m.pending ++ c ∷ []; chunk_has_data = true })

  unfoldable pub put_all : MacCalculator → Text → MacCalculator
  unfolding put
  put_all m [] = m
  put_all m (c ∷ p) = put_all (put m c) p

  put_all-append : (m : MacCalculator) (p q : Text) → put_all m (p ++ q) ≡ put_all (put_all m p) q
  unfolding put_all
  put_all-append m [] q = refl
  put_all-append m (c ∷ p) q = put_all-append (put m c) p q

  pub flush_short : (m : MacCalculator) → length m.pending < 16 → flush_block encrypt m ≡ m
  unfolding flush_block
  flush_short m h = ground arith

  pub put_block :
      (m : MacCalculator) (c : ℕ) (p : Text)
      → length m.pending + length (c ∷ p) ≤ 16
      → put_all m (c ∷ p)
        ≡ flush_block encrypt (record m { pending = m.pending ++ (c ∷ p); chunk_has_data = true })
  unfolding put_all put
  put_block m c [] h = refl
  put_block m c (d ∷ p) h =
      let m' = record m { pending = m.pending ++ c ∷ []; chunk_has_data = true } in
      rw (
        flush_short m' (omega (arith, length-append m.pending (c ∷ []))),
        put_block m' d p (omega (arith, length-append m.pending (c ∷ []))),
        append_assoc m.pending (c ∷ []) (d ∷ p),
      )

  pub flush_room :
      (m : MacCalculator) → length m.pending ≤ 16 → length (flush_block encrypt m).pending < 16
  unfolding flush_block
  flush_room m h = ground arith

  pub flush_data : (m : MacCalculator) → (flush_block encrypt m).chunk_has_data ≡ m.chunk_has_data
  unfolding flush_block mix_block
  flush_data m = ground arith

  pub put_all-split :
      (m : MacCalculator) (n : ℕ) (p : Text)
      → put_all (put_all m (take n p)) (drop n p) ≡ put_all m p
  put_all-split m n p =
      sym (put_all-append m (take n p) (drop n p)) ∙ ap (put_all m) (take-append-drop n p)

  pub put_some :
      (m : MacCalculator) (p : Text)
      → 0 < length p
      → length m.pending + length p ≤ 16
      → put_all m p
        ≡ flush_block encrypt (record m { pending = m.pending ++ p; chunk_has_data = true })
  put_some m [] h b = absurd (omega arith)
  put_some m (c ∷ p) h b = put_block m c p b

  -- One round of the loop over the blocks.
  put_round :
      (m : MacCalculator) (n : ℕ) (p : Text)
      → 0 < n
      → n ≤ length p
      → length m.pending + n ≤ 16
      → m.chunk_has_data ≡ true
      → put_all (flush_block encrypt (record m { pending = m.pending ++ take n p })) (drop n p)
        ≡ put_all m p
  put_round m n p h l b d =
      ap
        (λ t.
          put_all
            (flush_block encrypt (record m { pending = m.pending ++ take n p; chunk_has_data = t }))
            (drop n p))
        d
      ∙ ap (λ x. put_all x (drop n p))
          (sym (
            put_some m (take n p) (omega (arith, length-take n p))
              (omega (arith, length-take n p))))
      ∙ put_all-split m n p

  -- The loop over the blocks puts the bytes one by one.
  fill_blocks-put_all :
      (fuel : ℕ) (m : MacCalculator) (p : Text)
      → length p ≤ fuel
      → length m.pending < 16
      → m.chunk_has_data ≡ true
      → fill_blocks encrypt fuel m p ≡ put_all m p
  unfolding fill_blocks put_all
  fill_blocks-put_all fuel m [] h r d = refl
  fill_blocks-put_all zero m (c ∷ p) h r d = absurd (omega arith)
  fill_blocks-put_all (suc fuel) m (c ∷ p) h r d =
      let n = min (16 - length m.pending) (length (c ∷ p)) in
      let m' = record m { pending = m.pending ++ take n (c ∷ p) } in
      fill_blocks-put_all fuel (flush_block encrypt m') (drop n (c ∷ p))
        (omega (arith, length-drop n (c ∷ p)))
        (flush_room m'
          (omega (arith, length-append m.pending (take n (c ∷ p)), length-take n (c ∷ p))))
        (flush_data m' ∙ d)
      ∙ put_round m n (c ∷ p) (omega arith) (omega arith) (omega arith) d

  pub write_chunk_bytes-put_all :
      (m : MacCalculator) (p : Text)
      → length m.pending < 16
      → write_chunk_bytes encrypt m p ≡ put_all m p
  unfolding write_chunk_bytes put_all put
  write_chunk_bytes-put_all m [] r = refl
  write_chunk_bytes-put_all m (c ∷ p) r =
      fill_blocks-put_all (length (c ∷ p)) (record m { chunk_has_data = true }) (c ∷ p)
        (omega arith) r refl

  flush_at :
      (m : MacCalculator) (k : ℕ)
      → flush_block encrypt (record m { chunk_remaining = k })
        ≡ record (flush_block encrypt m) { chunk_remaining = k }
  unfolding flush_block mix_block
  flush_at m k = ground arith

  pub put_all_at :
      (m : MacCalculator) (k : ℕ) (p : Text)
      → put_all (record m { chunk_remaining = k }) p ≡ record (put_all m p) { chunk_remaining = k }
  unfolding put_all put
  put_all_at m k [] = refl
  put_all_at m k (c ∷ p) =
      let m' = record m { pending = m.pending ++ c ∷ []; chunk_has_data = true } in
      ap (λ x. put_all x p) (flush_at m' k) ∙ put_all_at (put m c) k p

  pub put_room :
      (m : MacCalculator) (p : Text) → length m.pending < 16 → length (put_all m p).pending < 16
  unfolding put_all put
  put_room m [] h = h
  put_room m (c ∷ p) h =
      let m' = record m { pending = m.pending ++ c ∷ []; chunk_has_data = true } in
      put_room (put m c) p (flush_room m' (omega (arith, length-append m.pending (c ∷ []))))
