-- ===== src/Drive/Uploads/Recovery.antt =====
-- What a recovered upload sends.
use text.Mathlib.Text.{◌==◌ as str_eq}
use save_box.Prelude.{
  ℕ, ◌^◌, ◌<◌, ◌≡◌, refl, Bool, false, Option, some, none, [], ◌++◌, flatten, append_assoc, String,
  ok, length, ==_iff, lt→ltb,
}
use save_box.Prelude.Words.{Bytes, slice, le_bytes}
use save_box.Crypto.Platform.{nonce_size, key_size, Platform, IsSound}
use save_box.Crypto.Kasumi.{encrypt_file}
use save_box.Crypto.Kasumi.Headers.{read_start}
use save_box.Crypto.Kasumi.RoundTrip.{encrypt_file_v1}
use save_box.Session.Vault.{Vault, Browser, shown_name}
use save_box.Upload.Engine.{upload_local, total_chunks}
use save_box.Upload.Engine.Complete.{Held, IsPartOf, indices, fetch_all, fetch_all-upload_local}
use save_box.Drive.Uploads.{recover_blob, recovered_nonce}

module _ (p : Platform) (sound : IsSound p) (b : Browser) (v : Vault)
    (file base_nonce key fresh : Bytes) (encrypted_fdk : String)
    (sized : length base_nonce ≡ nonce_size) (keyed : length key ≡ key_size)
    (small : length file < 2 ^ 64) (named : str_eq (shown_name p v encrypted_fdk) "" ≡ false)
    (opens : b.atob (shown_name p v encrypted_fdk) ≡ some key) where
  -- A nonce of the right size is taken over.
  recovered_nonce-some :
      (uploaded : ℕ) → 0 < uploaded → recovered_nonce uploaded (some base_nonce) ≡ some base_nonce
  unfolding recovered_nonce
  recovered_nonce-some uploaded begun = rw (lt→ltb _ _ begun) (rw ((==_iff _ _).1 sized) refl)

  -- With the nonce of the first run the file is encrypted as if it had no metadata.
  recover_blob-encrypt_file :
      (uploaded : ℕ) (blob : Bytes)
      → 0 < uploaded
      → encrypt_file p file key base_nonce none ≡ ok blob
      → recover_blob p b v encrypted_fdk uploaded (some base_nonce) fresh file ≡ ok blob
  unfolding recover_blob
  recover_blob-encrypt_file uploaded blob begun made =
      rw (named, opens) (rw (recovered_nonce-some uploaded begun) (rw made refl))

  -- What the server holds begins with the nonce.
  slice-encrypt_file :
      (blob : Bytes)
      → encrypt_file p file key base_nonce none ≡ ok blob
      → slice blob 0 24 ≡ base_nonce
  slice-encrypt_file blob made =
      let (chunks, e, made') =
        encrypt_file_v1 p sound file base_nonce key sized keyed small none refl in
      let shape : blob ≡ (base_nonce ++ (le_bytes 8 (length file) ++ [])) ++ flatten chunks = cc in
      rw
        (
          shape,
          append_assoc base_nonce (le_bytes 8 (length file) ++ []) (flatten chunks),
          append_assoc (le_bytes 8 (length file)) [] (flatten chunks),
        )
        (read_start p base_nonce sized (length file) (flatten chunks) small).0

  -- For a key and a nonce of the right sizes, a file below 2^64 bytes that was encrypted without metadata, and
  -- a name that decrypts to its key: when chunks have been uploaded, and the server answers with its first 24
  -- bytes, recoverUpload makes the same blob again, and a run that ends leaves the server with all of it,
  -- whatever chunks it had.
  pub recover_blob-fetch_all :
      (uploaded : ℕ) (blob : Bytes) (held : Held) (stops : ℕ → Bool) (fails : ℕ → Option ℕ)
      → 0 < uploaded
      → encrypt_file p file key base_nonce none ≡ ok blob
      → IsPartOf blob held
      → (upload_local blob (total_chunks blob) (some (indices held)) stops fails).result ≡ ok false
      → (recover_blob p b v encrypted_fdk uploaded (some (slice blob 0 24)) fresh file ≡ ok blob)
        × (fetch_all
              (held
                ++ (upload_local blob (total_chunks blob) (some (indices held)) stops fails).sent)
              (total_chunks blob)
              0
            ≡ some blob)
  recover_blob-fetch_all uploaded blob held stops fails begun made part done =
      let start : slice blob 0 24 ≡ base_nonce = slice-encrypt_file blob made in
      (
        rw start (recover_blob-encrypt_file uploaded blob begun made),
        fetch_all-upload_local blob held stops fails part done,
      )
