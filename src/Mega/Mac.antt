-- ===== src/Mega/Mac.antt =====
-- internal/queue/mega_decryptor.go, `megaMACCalculator`: the MAC of a file's contents, computed
-- while they are written, in pieces of any length. `encrypt` is the Encrypt of the AES block.
pub mod Blocks
pub mod Bytes
pub mod Reference
use dlq_download_queue.Prelude.{
  ℕ, zero, suc, ◌+◌, ◌-◌, ◌*◌, Bool, true, false, not, List, [], ◌∷◌, ◌++◌, ltb, ◌==◌,
  if◌then◌else◌, length, take, drop, min,
}
use dlq_download_queue.Go.Strings.{Text, is_empty, xor_bytes, zeros}

-- `pending` is pendingBlock[:pendingLen].
pub record MacCalculator : Type 0 where
  pub base : Text
  pub file_mac : Text
  pub chunk_mac : Text
  pub pending : Text
  pub chunk_index : ℕ
  pub chunk_remaining : ℕ
  pub chunk_has_data : Bool

unfoldable pub mega_chunk_size : ℕ → ℕ
mega_chunk_size index = if ltb index 8 then (index + 1) * 0x20000 else 0x100000

unfoldable pub new_mac_calculator : Text → MacCalculator
unfolding mega_chunk_size
new_mac_calculator nonce = record {
  base = nonce ++ nonce;
  file_mac = zeros 16;
  chunk_mac = nonce ++ nonce;
  pending = [];
  chunk_index = 0;
  chunk_remaining = mega_chunk_size 0;
  chunk_has_data = false;
}

-- The block filled up with zeros.
unfoldable pub padded : Text → Text
padded s = s ++ zeros (16 - length s)

module _ (encrypt : Text → Text) where
  unfoldable pub mix_block : MacCalculator → Text → MacCalculator
  unfolding xor_bytes
  mix_block m block = record m { chunk_mac = encrypt (xor_bytes m.chunk_mac block) }

  unfoldable pub mixed_pending : MacCalculator → MacCalculator
  unfolding is_empty padded mix_block
  mixed_pending m =
      if is_empty m.pending then m else record (mix_block m (padded m.pending)) { pending = [] }

  unfoldable pub finalize_chunk : MacCalculator → MacCalculator
  unfolding mixed_pending xor_bytes
  finalize_chunk m =
      if not m.chunk_has_data
      then m
      else let m' = mixed_pending m in
        record m' {
          file_mac = encrypt (xor_bytes m'.file_mac m'.chunk_mac);
          chunk_has_data = false;
        }

  -- A block that has come together is mixed in.
  unfoldable pub flush_block : MacCalculator → MacCalculator
  unfolding mix_block
  flush_block m =
      if length m.pending == 16 then record (mix_block m m.pending) { pending = [] } else m

  -- The loop of writeChunkBytes: each round copies what fits into the pending block.
  unfoldable pub fill_blocks : ℕ → MacCalculator → Text → MacCalculator
  unfolding flush_block
  fill_blocks fuel m [] = m
  fill_blocks zero m (c ∷ p) = m
  fill_blocks (suc fuel) m (c ∷ p) =
      let n = min (16 - length m.pending) (length (c ∷ p)) in
      let filled = flush_block (record m { pending = m.pending ++ take n (c ∷ p) }) in
      fill_blocks fuel filled (drop n (c ∷ p))

  unfoldable pub write_chunk_bytes : MacCalculator → Text → MacCalculator
  unfolding fill_blocks is_empty
  write_chunk_bytes m p =
      if is_empty p then m else fill_blocks (length p) (record m { chunk_has_data = true }) p

  unfoldable pub next_chunk : MacCalculator → MacCalculator
  unfolding finalize_chunk mega_chunk_size
  next_chunk m =
      let m' = finalize_chunk m in
      record m' {
        chunk_index = suc m'.chunk_index;
        chunk_mac = m'.base;
        chunk_remaining = mega_chunk_size (suc m'.chunk_index);
      }

  -- The chunk ends where nothing of it remains.
  unfoldable pub end_chunk : MacCalculator → MacCalculator
  unfolding next_chunk
  end_chunk m = if m.chunk_remaining == 0 then next_chunk m else m

  -- The loop of Write: each round takes what is left of the chunk.
  unfoldable pub write_loop : ℕ → MacCalculator → Text → MacCalculator
  unfolding write_chunk_bytes end_chunk
  write_loop fuel m [] = m
  write_loop zero m (c ∷ p) = m
  write_loop (suc fuel) m (c ∷ p) =
      let n = min (length (c ∷ p)) m.chunk_remaining in
      let written = write_chunk_bytes m (take n (c ∷ p)) in
      let rest = end_chunk (record written { chunk_remaining = m.chunk_remaining - n }) in
      write_loop fuel rest (drop n (c ∷ p))

  unfoldable pub write : MacCalculator → Text → MacCalculator
  unfolding write_loop
  write m p = write_loop (length p) m p

  -- The words 0 and 1 of the file's MAC combined, and the words 2 and 3.
  unfoldable pub condensed : Text → Text
  unfolding xor_bytes
  condensed mac =
      xor_bytes (take 4 mac) (take 4 (drop 4 mac))
      ++ xor_bytes (take 4 (drop 8 mac)) (take 4 (drop 12 mac))

  unfoldable pub sum : MacCalculator → Text
  unfolding finalize_chunk condensed
  sum m = condensed (finalize_chunk m).file_mac
