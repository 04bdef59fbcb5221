-- ===== src/Mega/Mac/Reference.antt =====
-- internal/queue/mega_decryptor.go: the MAC of MEGA's format for a file whose contents are at hand.
-- The file is cut into chunks, each chunk has the CBC-MAC of its blocks, the last one filled up
-- with zeros, and these are chained. Sizes, padding and folding are written out here, apart from the
-- calculator, which is compared to it.
use dlq_download_queue.Mega.Mac.{
  Text, xor_bytes, condensed, MacCalculator, mixed_pending, flush_block, padded, mega_chunk_size,
  zeros, mix_block,
}
pub mod Chunks
pub mod Agrees
use dlq_download_queue.Prelude.{
  ℕ, zero, suc, ◌+◌, ◌-◌, ◌*◌, ◌≤◌, ◌<◌, ◌≡◌, refl, sym, ap, ◌∙◌, List, [], ◌∷◌, ◌++◌, Bool, true,
  false, arith, length, take, drop, min, leb, ◌⊎◌, inl, inr, lt-cases, take-all, drop-all,
  length-take, length-drop,
}
use mathlib.Core.List.{append-nil}
use dlq_download_queue.Go.Strings.{Text, xor_bytes, zeros}
use dlq_download_queue.Mega.Mac
use dlq_download_queue.Mega.Mac.Blocks.{put_all, put_all-split, put_block, put_some, flush_short}
use dlq_download_queue.Mega.Mac.Bytes.{
  IsReady, write_bytes, write-write_bytes, write_some, write_bytes-append,
  new_mac_calculator-IsReady,
}

-- A block of 16 bytes, filled up with zeros.
unfoldable pub block_of : Text → Text
block_of s = take 16 (s ++ zeros 16)

-- The chunks have one to eight times 128 KiB, and then always eight times.
unfoldable pub chunk_size : ℕ → ℕ
chunk_size index = min (suc index) 8 * 131072

-- The word of four bytes at a position.
abbrev word : ℕ → Text → Text
word i mac = take 4 (drop (i * 4) mac)

-- The four words of a MAC folded to two.
unfoldable pub folded : Text → Text
unfolding xor_bytes
folded mac = xor_bytes (word 0 mac) (word 1 mac) ++ xor_bytes (word 2 mac) (word 3 mac)

module _ (encrypt : Text → Text) where
  -- The CBC-MAC of a chunk from a chaining value: a block of 16 bytes a step.
  unfoldable pub chain_blocks : ℕ → Text → Text → Text
  unfolding xor_bytes block_of
  chain_blocks fuel mac [] = mac
  chain_blocks zero mac (c ∷ p) = mac
  chain_blocks (suc fuel) mac (c ∷ p) =
      chain_blocks fuel (encrypt (xor_bytes mac (block_of (take 16 (c ∷ p))))) (drop 16 (c ∷ p))

  unfoldable pub chunk_mac_of : Text → Text → Text
  unfolding chain_blocks
  chunk_mac_of base chunk = chain_blocks (length chunk) base chunk

  -- The chain of the chunks' MACs, from the chunk of number `index` on.
  unfoldable pub chain_chunks : ℕ → Text → ℕ → Text → Text → Text
  unfolding xor_bytes chunk_mac_of chunk_size
  chain_chunks fuel base index mac [] = mac
  chain_chunks zero base index mac (c ∷ p) = mac
  chain_chunks (suc fuel) base index mac (c ∷ p) =
      let n = chunk_size index in
      let mac' = encrypt (xor_bytes mac (chunk_mac_of base (take n (c ∷ p)))) in
      chain_chunks fuel base (suc index) mac' (drop n (c ∷ p))

  unfoldable pub mac_of : Text → Text → Text
  unfolding chain_chunks folded
  mac_of nonce p = folded (chain_chunks (length p) (nonce ++ nonce) 0 (zeros 16) p)
