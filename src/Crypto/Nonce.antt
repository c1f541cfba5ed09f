-- ===== src/Crypto/Nonce.antt =====
-- `deriveChunkNonce` of KasumiCryptoService and of stream-crypto.worker.ts.
pub mod Layout
use Prim.Native.Nat.{bit_xor}
use save_box.Prelude.{ℕ, zero, suc, ◌+◌, ◌-◌, ◌/◌, ◌%◌, get_or, set}
use save_box.Prelude.Words.{Bytes}
use save_box.Crypto.Platform.{nonce_size}

-- The loop, with the rounds that are left, `i` and `current`. On a number below 2^53 the low byte
-- `current & 0xff` is the remainder by 256.
unfoldable pub xor_index : ℕ → ℕ → Bytes → ℕ → Bytes
xor_index zero i nonce current = nonce
xor_index (suc rounds) i nonce current =
    xor_index rounds (i + 1)
      (set nonce (nonce_size - 1 - i)
        (bit_xor (get_or nonce (nonce_size - 1 - i) 0) (current % 256)))
      (current / 256)

unfoldable pub derive_chunk_nonce : Bytes → ℕ → Bytes
unfolding xor_index
derive_chunk_nonce base_nonce chunk_index = xor_index 8 0 base_nonce chunk_index
