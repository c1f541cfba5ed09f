-- ===== src/Crypto/Kasumi.antt =====
-- KasumiCryptoService (frontend/src/app/core/crypto/kasumi-crypto.service.ts): the encrypted file
-- format. A Blob is the list of its bytes; every method awaits libsodium first, which is ready.
pub mod Chunks
pub mod Headers
pub mod RoundTrip
pub mod Guarantees
pub mod Sizes
pub mod Names
use text.Mathlib.Text.{◌==◌ as str_eq}
use save_box.Prelude.{
  ℕ, zero, suc, ◌+◌, ◌-◌, ◌*◌, min, Bool, true, false, not, Option, none, some, List, [], ◌∷◌, ◌++◌,
  flatten, String, Result, ok, throw, or_throw, ◌>>=◌, ◌>>◌, length, take, drop, ltb, leb, ◌==◌,
  if◌then◌else◌,
}
use save_box.Prelude.Words.{Bytes, zeros, slice, write_at, le_bytes, le_value}
use save_box.Crypto.Platform.{nonce_size, mac_size, key_size, Platform}
use save_box.Crypto.Nonce.{derive_chunk_nonce}

abbrev pub chunk_size : ℕ
chunk_size = 4 * 1024 * 1024

-- The index under which the metadata chunk is encrypted, 0xFFFFFFFF.
abbrev pub metadata_index : ℕ
metadata_index = 0xffffffff

-- The errors that the methods throw. `library` stands for an exception of libsodium or of a
-- `set` out of range, and `diverged` for a loop that ran out of its fuel.
pub data Error : Type 0 where
  key_must_be_32_bytes invalid_ciphertext_length too_small_for_header truncated : Error
  authentication_failed : ℕ → Error
  size_mismatch : ℕ → ℕ → Error
  partial_without_header partial_without_metadata metadata_failed library diverged : Error

abbrev pub guard : Bool → Error → Result Error (Unit {0})
guard true e = ok tt
guard false e = throw e

-- `if (metadata)`: undefined and the empty string are both false.
abbrev pub truthy : Option String → Option String
truthy none = none
truthy (some s) = if str_eq s "" then none else some s

-- What `extractMetadata` returns.
pub record Metadata : Type 0 where
  pub metadata : Option String
  pub data_start : ℕ
  pub size : ℕ

module _ (p : Platform) where
  open p use {encrypt_detached, decrypt_detached, to_base64, from_base64, encode, decode}

  -- `baseNonce` and the size, written into a fresh buffer of `size` bytes.
  unfoldable pub header : ℕ → Bytes → ℕ → Result Error Bytes
  header size base_nonce file_size = do
    named ← or_throw library (write_at (zeros size) 0 base_nonce)
    or_throw library (write_at named nonce_size (le_bytes 8 file_size))

  -- The Kasumi v2 header with its encrypted metadata chunk.
  unfoldable pub header_v2 : Bytes → ℕ → Bytes → Bytes → Result Error Bytes
  unfolding header
  header_v2 base_nonce file_size meta_bytes key = do
    sized ← header (nonce_size + 8 + 4 + 4) base_nonce file_size
    magic ← or_throw library (write_at sized (nonce_size + 8) (encode "KAS2"))
    full ← or_throw library (write_at magic (nonce_size + 12) (le_bytes 4 (length meta_bytes)))
    sealed ←
        or_throw library
          (encrypt_detached meta_bytes (derive_chunk_nonce base_nonce metadata_index) key)
    ok (full ++ (sealed.mac ++ sealed.ciphertext))

  -- The `while` loop of `encryptFile`: the chunks that it pushes.
  unfoldable pub encrypt_chunks : Bytes → Bytes → Bytes → ℕ → ℕ → ℕ → Result Error (List Bytes)
  encrypt_chunks file base_nonce key zero offset chunk_index = throw diverged
  encrypt_chunks file base_nonce key (suc fuel) offset chunk_index =
      elim (ltb offset (length file)) [
        | false ↦ ok []
        | true ↦ do
          sealed ← or_throw library (
              encrypt_detached (slice file offset (offset + chunk_size))
                (derive_chunk_nonce base_nonce chunk_index) key)
          rest ← encrypt_chunks file base_nonce key fuel (offset + chunk_size) (chunk_index + 1)
          ok ((sealed.mac ++ sealed.ciphertext) ∷ rest)
      ]

  unfoldable pub file_header : Bytes → Bytes → Bytes → Option String → Result Error Bytes
  unfolding header header_v2
  file_header file key base_nonce metadata = elim (truthy metadata) [
    | some text ↦ header_v2 base_nonce (length file) (encode text) key
    | none ↦ header (nonce_size + 8) base_nonce (length file)
  ]

  -- `base_nonce` is the fixed nonce if one is given, and a fresh random one otherwise.
  unfoldable pub encrypt_file : Bytes → Bytes → Bytes → Option String → Result Error Bytes
  unfolding file_header encrypt_chunks
  encrypt_file file key base_nonce metadata = do
    guard (length key == key_size) key_must_be_32_bytes
    start ← file_header file key base_nonce metadata
    chunks ← encrypt_chunks file base_nonce key (suc (length file)) 0 0
    ok (flatten (start ∷ chunks))

  -- One round of the loop of `decryptFile`: how many bytes it takes, and the plaintext.
  unfoldable pub decrypt_chunk : Bytes → Bytes → Bytes → ℕ → ℕ → ℕ → Result Error Bytes
  decrypt_chunk blob base_nonce key wanted offset chunk_index = do
    guard (not (ltb (length blob - offset) wanted)) truncated
    let chunk = slice blob offset (offset + wanted)
    or_throw (authentication_failed chunk_index) (
        decrypt_detached (drop mac_size chunk) (take mac_size chunk)
          (derive_chunk_nonce base_nonce chunk_index) key)

  -- The `while` loop: the chunks that it pushes and the final `totalDecrypted`.
  unfoldable pub decrypt_chunks :
      Bytes → Bytes → Bytes → ℕ → ℕ → ℕ → ℕ → ℕ → Result Error (List Bytes × ℕ)
  unfolding decrypt_chunk
  decrypt_chunks blob base_nonce key expected zero offset chunk_index total = throw diverged
  decrypt_chunks blob base_nonce key expected (suc fuel) offset chunk_index total =
      elim (ltb offset (length blob)) [
        | false ↦ ok ([], total)
        | true ↦ do
          let wanted = mac_size + min chunk_size (expected - total)
          plaintext ← decrypt_chunk blob base_nonce key wanted offset chunk_index
          (rest, sum) ←
              decrypt_chunks blob base_nonce key expected fuel (offset + wanted) (chunk_index + 1)
                (total + length plaintext)
          ok (plaintext ∷ rest, sum)
      ]

  -- The four bytes behind the v1 header are "KAS2", and a size field follows them.
  unfoldable pub has_metadata : Bytes → Bool
  has_metadata blob =
      if leb (nonce_size + 8 + 8) (length blob)
      then str_eq (decode (slice blob (nonce_size + 8) (nonce_size + 12))) "KAS2"
      else false

  abbrev pub metadata_size : Bytes → ℕ
  metadata_size blob = le_value (slice blob (nonce_size + 12) (nonce_size + 16))

  -- Where the encrypted chunks start.
  unfoldable pub data_offset : Bytes → ℕ
  unfolding has_metadata
  data_offset blob =
      if has_metadata blob
      then nonce_size + 8 + 8 + mac_size + metadata_size blob
      else nonce_size + 8

  abbrev pub expected_size : Bytes → ℕ
  expected_size blob = le_value (slice blob nonce_size (nonce_size + 8))

  unfoldable pub decrypt_file : Bytes → Bytes → Result Error Bytes
  unfolding data_offset decrypt_chunks
  decrypt_file blob key = do
    guard (length key == key_size) key_must_be_32_bytes
    guard (not (ltb (length blob) (nonce_size + 8))) too_small_for_header
    let expected = expected_size blob
    (chunks, total) ←
        decrypt_chunks blob (slice blob 0 nonce_size) key expected (suc (length blob))
          (data_offset blob) 0 0
    guard (total == expected) (size_mismatch expected total)
    ok (flatten chunks)

  unfoldable pub decrypt_file_chunk : Bytes → Bytes → Bytes → ℕ → Bytes → Result Error Bytes
  decrypt_file_chunk ciphertext mac base_nonce chunk_index key =
      or_throw (authentication_failed chunk_index)
        (decrypt_detached ciphertext mac (derive_chunk_nonce base_nonce chunk_index) key)

  unfoldable pub extract_metadata : Bytes → Bytes → Result Error Metadata
  unfolding has_metadata
  extract_metadata blob key = do
    guard (length key == key_size) key_must_be_32_bytes
    guard (not (ltb (length blob) (nonce_size + 8))) partial_without_header
    if has_metadata blob
        then (do
          let total = nonce_size + 8 + 8 + mac_size + metadata_size blob
          guard (not (ltb (length blob) total)) partial_without_metadata
          let chunk = slice blob (nonce_size + 16) total
          text ← or_throw metadata_failed (
              decrypt_detached (drop mac_size chunk) (take mac_size chunk)
                (derive_chunk_nonce (slice blob 0 nonce_size) metadata_index) key)
          ok (record {
            metadata = some (decode text);
            data_start = total;
            size = expected_size blob;
          }))
        else ok (record { metadata = none; data_start = nonce_size + 8; size = expected_size blob })

  -- The name format: nonce, mac and ciphertext in base64.
  unfoldable pub encrypt_name : String → Bytes → Bytes → Result Error String
  encrypt_name name key nonce = do
    guard (length key == key_size) key_must_be_32_bytes
    sealed ← or_throw library (encrypt_detached (encode name) nonce key)
    let buffer = zeros (nonce_size + mac_size + length sealed.ciphertext)
    with_nonce ← or_throw library (write_at buffer 0 nonce)
    with_mac ← or_throw library (write_at with_nonce nonce_size sealed.mac)
    full ← or_throw library (write_at with_mac (nonce_size + mac_size) sealed.ciphertext)
    ok (to_base64 full)

  unfoldable pub decrypt_name : String → Bytes → Result Error String
  decrypt_name ciphertext_base64 key = do
    guard (length key == key_size) key_must_be_32_bytes
    bytes ← or_throw library (from_base64 ciphertext_base64)
    guard (not (ltb (length bytes) (nonce_size + mac_size))) invalid_ciphertext_length
    plaintext ← or_throw library (
        decrypt_detached (drop (nonce_size + mac_size) bytes)
          (slice bytes nonce_size (nonce_size + mac_size)) (slice bytes 0 nonce_size) key)
    ok (decode plaintext)
