-- ===== src/Crypto/Platform.antt =====
-- What the encryption layer calls and does not implement: libsodium's XChaCha20-Poly1305 and
-- base64, and the browser's TextEncoder and TextDecoder.
use save_box.Prelude.{ℕ, ◌≡◌, ◌∷◌, [], Option, some, length, String}
use save_box.Prelude.Words.{Bytes}

abbrev pub nonce_size : ℕ
nonce_size = 24

abbrev pub mac_size : ℕ
mac_size = 16

abbrev pub key_size : ℕ
key_size = 32

-- The bytes of "KAS2".
abbrev pub magic_bytes : Bytes
magic_bytes = 75 ∷ 65 ∷ 83 ∷ 50 ∷ []

-- A detached ciphertext, as libsodium returns it.
pub record Sealed : Type 0 where
  pub ciphertext : Bytes
  pub mac : Bytes

pub record Platform : Type 0 where
  -- plaintext, nonce, key; `none` is an exception of the library
  pub encrypt_detached : Bytes → Bytes → Bytes → Option Sealed
  -- ciphertext, mac, nonce, key
  pub decrypt_detached : Bytes → Bytes → Bytes → Bytes → Option Bytes
  pub to_base64 : Bytes → String
  pub from_base64 : String → Option Bytes
  pub encode : String → Bytes
  pub decode : Bytes → String

-- The documented behaviour that the theorems rely on.
pub record IsSound (p : Platform) : Type 0 where
  -- With a nonce and a key of the right sizes encryption succeeds.
  pub seals :
      (m n k : Bytes)
      → length n ≡ nonce_size
      → length k ≡ key_size
      → (s : Sealed) × (p.encrypt_detached m n k ≡ some s)
  pub length-mac :
      {m n k : Bytes} {s : Sealed} → p.encrypt_detached m n k ≡ some s → length s.mac ≡ mac_size
  pub length-ciphertext :
      {m n k : Bytes} {s : Sealed}
      → p.encrypt_detached m n k ≡ some s
      → length s.ciphertext ≡ length m
  -- Decryption undoes encryption under the same nonce and key.
  pub opens :
      {m n k : Bytes} {s : Sealed}
      → p.encrypt_detached m n k ≡ some s
      → p.decrypt_detached s.ciphertext s.mac n k ≡ some m
  -- A stream cipher: the plaintext is as long as the ciphertext.
  pub length-opened :
      {c a n k m : Bytes} → p.decrypt_detached c a n k ≡ some m → length m ≡ length c
  pub from-to : (b : Bytes) → p.from_base64 (p.to_base64 b) ≡ some b
  pub from-empty : p.from_base64 "" ≡ some []
  pub encode-magic : p.encode "KAS2" ≡ magic_bytes
  pub decode-magic : p.decode magic_bytes ≡ "KAS2"
