-- ===== src/Mega/Mac/Reference/Chunks.antt =====
-- internal/queue/mega_decryptor.go, `finalizeChunk`: the MAC of a chunk that was put in byte by byte.
use dlq_download_queue.Prelude.{
  ℕ, zero, suc, ◌≤◌, ◌<◌, ◌+◌, ◌-◌, ◌≡◌, refl, sym, ap, ◌∙◌, [], ◌∷◌, ◌++◌, true, false, arith,
  length, take, drop, inl, inr, lt-cases, take-all, drop-all, length-take, length-drop,
}
use mathlib.Core.List.{append-nil}
use dlq_download_queue.Go.Strings.{Text, xor_bytes, zeros}
use dlq_download_queue.Mega.Mac.{
  MacCalculator, padded, mixed_pending, mix_block, flush_block, finalize_chunk,
}
use dlq_download_queue.Mega.Mac.Blocks.{
  put, put_all, put_all-split, put_block, put_some, flush_short, flush_data,
}
use dlq_download_queue.Mega.Mac.Reference.{chain_blocks, chunk_mac_of, block_of}

take-zeros : (n m : ℕ) → n ≤ m → take n (zeros m) ≡ zeros n
take-zeros zero m h = refl
take-zeros (suc n) zero h = absurd (omega arith)
take-zeros (suc n) (suc m) h = cc (take-zeros n m (omega arith))

-- Filled up with zeros, or cut out of what has more of them.
take_fill :
    (n m : ℕ) (s : Text)
    → length s ≤ n
    → n ≤ length s + m
    → take n (s ++ zeros m) ≡ s ++ zeros (n - length s)
take_fill n m [] h g = take-zeros n m (omega arith) ∙ ap zeros (omega arith)
take_fill zero m (c ∷ s) h g = absurd (omega arith)
take_fill (suc n) m (c ∷ s) h g =
    ap (λ x. c ∷ x) (take_fill n m s (omega arith) (omega arith))
    ∙ ap (λ k. c ∷ (s ++ zeros k)) (omega arith)

module _ (encrypt : Text → Text) where
  padded-block_of : (s : Text) → length s ≤ 16 → padded s ≡ block_of s
  unfolding padded block_of
  padded-block_of s h = sym (take_fill 16 16 s h (omega arith))

  mixed_short :
      (m : MacCalculator) (c : ℕ) (p : Text)
      → m.pending ≡ []
      → length (c ∷ p) < 16
      → mixed_pending encrypt (put_all encrypt m (c ∷ p)) ≡ record m {
        chunk_mac = encrypt (xor_bytes m.chunk_mac (block_of (c ∷ p)));
        pending = [];
        chunk_has_data = true;
      }
  unfolding mixed_pending mix_block
  mixed_short m c p e h =
      let m' = record m { pending = m.pending ++ (c ∷ p); chunk_has_data = true } in
      rw (
        put_block encrypt m c p (rw e (omega arith)),
        flush_short encrypt m' (rw e (omega arith)),
        e,
        padded-block_of (c ∷ p) (omega arith),
      )

  full_block :
      (m : MacCalculator)
      → length m.pending ≡ 16
      → flush_block encrypt m
        ≡ record m { chunk_mac = encrypt (xor_bytes m.chunk_mac m.pending); pending = [] }
  unfolding flush_block mix_block
  full_block m h = ground arith

  put_full :
      (m : MacCalculator) (p : Text)
      → m.pending ≡ []
      → length p ≡ 16
      → put_all encrypt m p ≡ record m {
        chunk_mac = encrypt (xor_bytes m.chunk_mac p);
        pending = [];
        chunk_has_data = true;
      }
  put_full m p e h =
      let m' = record m { pending = m.pending ++ p; chunk_has_data = true } in
      rw (put_some encrypt m p (omega arith) (rw e (omega arith)), full_block m' (rw e h), e)

  block_of_full : (p : Text) → length p ≡ 16 → block_of p ≡ p
  unfolding padded
  block_of_full p h = sym (padded-block_of p (omega arith)) ∙ rw h (append-nil p)

  mixed_nothing : (m : MacCalculator) → m.pending ≡ [] → mixed_pending encrypt m ≡ m
  unfolding mixed_pending
  mixed_nothing m e = rw e refl

  -- What is known to be set may be set.
  set_data :
      (m : MacCalculator) (x : Text)
      → m.chunk_has_data ≡ true
      → record m { chunk_mac = x; pending = []; chunk_has_data = true }
        ≡ record m { chunk_mac = x; pending = [] }
  set_data m x d = ap (λ b. record m { chunk_mac = x; pending = []; chunk_has_data = b }) (sym d)

  chain_short :
      (fuel : ℕ) (mac : Text) (c : ℕ) (p : Text)
      → length (c ∷ p) < 16
      → chain_blocks encrypt (suc fuel) mac (c ∷ p) ≡ encrypt (xor_bytes mac (block_of (c ∷ p)))
  unfolding chain_blocks
  chain_short fuel mac c p h =
      ap (λ q. chain_blocks encrypt fuel (encrypt (xor_bytes mac (block_of (take 16 (c ∷ p))))) q)
        (drop-all 16 (c ∷ p) (omega arith))
      ∙ ap (λ q. encrypt (xor_bytes mac (block_of q))) (take-all 16 (c ∷ p) (omega arith))

  -- What is put into a chunk from its start, mixed to its end, is the chain of the blocks.
  mixed_chain :
      (fuel : ℕ) (m : MacCalculator) (p : Text)
      → length p ≤ fuel
      → m.pending ≡ []
      → m.chunk_has_data ≡ true
      → mixed_pending encrypt (put_all encrypt m p)
        ≡ record m { chunk_mac = chain_blocks encrypt fuel m.chunk_mac p; pending = [] }
  unfolding chain_blocks put_all
  mixed_chain fuel m [] h e d = mixed_nothing m e ∙ ap (λ x. record m { pending = x }) e
  mixed_chain zero m (c ∷ p) h e d = absurd (omega arith)
  mixed_chain (suc fuel) m (c ∷ p) h e d = elim (lt-cases (length (c ∷ p)) 16) [
    | inl short ↦
        mixed_short m c p e short
        ∙ ap (λ x. record m { chunk_mac = x; pending = []; chunk_has_data = true })
            (sym (chain_short fuel m.chunk_mac c p short))
        ∙ set_data m (chain_blocks encrypt (suc fuel) m.chunk_mac (c ∷ p)) d
    | inr long ↦
        let full = length-take 16 (c ∷ p) long in
        let block = take 16 (c ∷ p) in
        let m' = record m {
          chunk_mac = encrypt (xor_bytes m.chunk_mac block);
          pending = [];
          chunk_has_data = true;
        } in
        ap (mixed_pending encrypt) (
          sym (put_all-split encrypt m 16 (c ∷ p))
          ∙ ap (λ x. put_all encrypt x (drop 16 (c ∷ p))) (put_full m block e full))
        ∙ mixed_chain fuel m' (drop 16 (c ∷ p)) (omega (arith, length-drop 16 (c ∷ p) long)) refl
            refl
        ∙ ap
            (λ b. record m {
              chunk_mac =
                  chain_blocks encrypt fuel (encrypt (xor_bytes m.chunk_mac b)) (drop 16 (c ∷ p));
              pending = [];
              chunk_has_data = true;
            })
            (sym (block_of_full block full))
        ∙ set_data m (chain_blocks encrypt (suc fuel) m.chunk_mac (c ∷ p)) d
  ]

  put_all_data :
      (m : MacCalculator) (p : Text)
      → m.chunk_has_data ≡ true
      → (put_all encrypt m p).chunk_has_data ≡ true
  unfolding put_all put
  put_all_data m [] d = d
  put_all_data m (c ∷ p) d =
      let m' = record m { pending = m.pending ++ c ∷ []; chunk_has_data = true } in
      put_all_data (put encrypt m c) p (flush_data encrypt m')

  finalize_data :
      (m : MacCalculator)
      → m.chunk_has_data ≡ true
      → finalize_chunk encrypt m ≡ record (mixed_pending encrypt m) {
        file_mac =
            encrypt
              (xor_bytes (mixed_pending encrypt m).file_mac (mixed_pending encrypt m).chunk_mac);
        chunk_has_data = false;
      }
  unfolding finalize_chunk
  finalize_data m d = rw d refl

  -- A chunk that was put in from its start is finalized to the chain of its blocks.
  pub finalize_chunk-put_all :
      (m : MacCalculator) (c : ℕ) (p : Text)
      → m.pending ≡ []
      → m.chunk_mac ≡ m.base
      → finalize_chunk encrypt (put_all encrypt m (c ∷ p)) ≡ record m {
        file_mac = encrypt (xor_bytes m.file_mac (chunk_mac_of encrypt m.base (c ∷ p)));
        chunk_mac = chunk_mac_of encrypt m.base (c ∷ p);
        pending = [];
        chunk_has_data = false;
      }
  unfolding put_all put chunk_mac_of
  finalize_chunk-put_all m c p e b =
      let m' = record m { chunk_has_data = true } in
      finalize_data (put_all encrypt m' (c ∷ p)) (put_all_data m' (c ∷ p) refl)
      ∙ ap
          (λ (x : MacCalculator). record x {
            file_mac = encrypt (xor_bytes x.file_mac x.chunk_mac);
            chunk_has_data = false;
          })
          (mixed_chain (length (c ∷ p)) m' (c ∷ p) (omega arith) e refl)
      ∙ ap
          (λ x. record m {
            file_mac =
                encrypt (xor_bytes m.file_mac (chain_blocks encrypt (length (c ∷ p)) x (c ∷ p)));
            chunk_mac = chain_blocks encrypt (length (c ∷ p)) x (c ∷ p);
            pending = [];
            chunk_has_data = false;
          })
          b
