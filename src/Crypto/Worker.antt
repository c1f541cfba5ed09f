-- ===== src/Crypto/Worker.antt =====
-- The decryption worker (frontend/src/app/features/drive/workers/stream-crypto.worker.ts).
-- Its globals are `sodiumReady` and `logsEnabled`; what it logs is not modelled.
use Prim.Native.Nat.{bit_xor}
use save_box.Prelude.{
  ℕ, zero, suc, ◌+◌, ◌-◌, ◌/◌, ◌%◌, ◌≡◌, refl, Bool, true, Option, some, none, ok, throw, ◌++◌,
  arith, length, take, drop, get_or, set, ltb, if◌then◌else◌, le→ltb, take-append, drop-append,
  length-append, ◌≤◌,
}
use save_box.Prelude.Words.{Bytes}
use save_box.Crypto.Platform.{nonce_size, mac_size, Sealed, Platform, IsSound}
use save_box.Crypto.Nonce.{xor_index, derive_chunk_nonce as kasumi_nonce}
use save_box.Crypto.Kasumi.{decrypt_file_chunk}

xor_remaining : ℕ → ℕ → Bytes → ℕ → Bytes
xor_remaining zero i nonce remaining = nonce
xor_remaining (suc rounds) i nonce remaining =
    let position = nonce_size - 1 - i in
    xor_remaining rounds (i + 1)
      (set nonce position (bit_xor (get_or nonce position 0) (remaining % 256))) (remaining / 256)

pub derive_chunk_nonce : Bytes → ℕ → Bytes
unfolding xor_remaining
derive_chunk_nonce base_nonce chunk_index = xor_remaining 8 0 base_nonce chunk_index

pub data Message : Type 0 where
  init : (logs : Bool) → Message
  decrypt_chunk : (encrypted_chunk fdk base_nonce : Bytes) (chunk_index : ℕ) → Message
  other : Message

pub data Failure : Type 0 where
  too_small not_authentic : Failure

pub data Reply : Type 0 where
  chunk_decrypted : Bytes → ℕ → Reply
  error : ℕ → Failure → Reply

pub record State : Type 0 where
  pub sodium_ready : Bool
  pub logs_enabled : Bool

module _ (p : Platform) where
  -- The body of the `try`, once libsodium is ready.
  pub decrypt : Bytes → Bytes → Bytes → ℕ → Reply
  unfolding derive_chunk_nonce
  decrypt encrypted_chunk fdk base_nonce chunk_index =
      if ltb (length encrypted_chunk) mac_size
      then error chunk_index too_small
      else elim (p.decrypt_detached (drop mac_size encrypted_chunk) (take mac_size encrypted_chunk)
          (derive_chunk_nonce base_nonce chunk_index) fdk) [
            | some plaintext ↦ chunk_decrypted plaintext chunk_index
            | none ↦ error chunk_index not_authentic
          ]

  pub on_message : State → Message → State × Option Reply
  unfolding decrypt
  on_message s (init logs) = (record s { logs_enabled = logs }, none)
  on_message s (decrypt_chunk encrypted_chunk fdk base_nonce chunk_index) =
      (record s { sodium_ready = true }, some (decrypt encrypted_chunk fdk base_nonce chunk_index))
  on_message s other = (s, none)

xor_remaining-eq : (r i : ℕ) (n : Bytes) (c : ℕ) → xor_remaining r i n c ≡ xor_index r i n c
unfolding xor_remaining xor_index
xor_remaining-eq zero i n c = refl
xor_remaining-eq (suc r) i n c = xor_remaining-eq r (i + 1) _ (c / 256)

-- The worker derives the nonces that KasumiCryptoService derives.
pub derive_chunk_nonce-eq : (n : Bytes) (c : ℕ) → derive_chunk_nonce n c ≡ kasumi_nonce n c
unfolding derive_chunk_nonce kasumi_nonce
derive_chunk_nonce-eq n c = xor_remaining-eq 8 0 n c

module _ (p : Platform) where
  -- A chunk that was encrypted under the nonce for its index is answered by the worker with its plaintext
  -- and its index, whatever the worker's state, over a sound platform.
  pub on_message-sealed :
      (st : State) (m base_nonce key : Bytes) (index : ℕ) (s : Sealed)
      → IsSound p
      → p.encrypt_detached m (kasumi_nonce base_nonce index) key ≡ some s
      → on_message p st (decrypt_chunk (s.mac ++ s.ciphertext) key base_nonce index)
        ≡ (record st { sodium_ready = true }, some (chunk_decrypted m index))
  unfolding on_message
  on_message-sealed st m base_nonce key index s sound sealed =
      let mac = sound.length-mac sealed in
      let long : mac_size ≤ length (s.mac ++ s.ciphertext) =
        omega (arith, length-append s.mac s.ciphertext) in
      rw
        (
          le→ltb _ _ long,
          drop-append mac_size s.mac s.ciphertext mac,
          take-append mac_size s.mac s.ciphertext mac,
        )
        (rw (derive_chunk_nonce-eq base_nonce index, sound.opens sealed) refl)

  -- On a chunk that can hold a MAC the worker answers what `decryptFileChunk` returns.
  pub on_message-decrypt_file_chunk :
      (st : State) (chunk base_nonce key : Bytes) (index : ℕ)
      → mac_size ≤ length chunk
      → (on_message p st (decrypt_chunk chunk key base_nonce index)).1
        ≡ some
            (elim (decrypt_file_chunk p
              (drop mac_size chunk)
              (take mac_size chunk)
              base_nonce
              index
              key) [ ok m ↦ chunk_decrypted m index | throw e ↦ error index not_authentic ])
  unfolding on_message decrypt_file_chunk
  on_message-decrypt_file_chunk st chunk base_nonce key index long =
      rw (le→ltb _ _ long, derive_chunk_nonce-eq base_nonce index) (ground arith)
