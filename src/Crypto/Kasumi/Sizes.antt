-- ===== src/Crypto/Kasumi/Sizes.antt =====
-- Termination and sizes of the encrypted file format.
use save_box.Prelude.{
  ℕ, zero, suc, ◌+◌, ◌-◌, ◌*◌, ◌/◌, ◌^◌, ◌<◌, ◌≡◌, ◌≢◌, ap, ◌∙◌, Bool, true, false, not, inl, inr,
  Option, some, none, List, [], ◌∷◌, ◌++◌, flatten, Result, ok, throw, ◌>>=◌, ◌>>◌, >>=-eq-ok,
  >>=-ne-throw, arith, length, length-append, min, ltb→lt, ltb→le, Bool-cases, Option-cases, String,
  ==_iff, ltb, ◌==◌,
}
use save_box.Prelude.Words.{Bytes, slice, le_bytes}
use save_box.Crypto.Platform.{nonce_size, mac_size, key_size, Platform, IsSound}
use save_box.Crypto.Kasumi.{
  Error, diverged, key_must_be_32_bytes, too_small_for_header, size_mismatch, guard, truthy,
  chunk_size, encrypt_chunks, decrypt_chunk, decrypt_chunks, encrypt_file, decrypt_file,
  data_offset, expected_size,
}
use save_box.Crypto.Kasumi.Chunks.{encrypt_chunks_more, encrypt_chunks_done, length-slice_chunk}
use save_box.Crypto.Kasumi.RoundTrip.{encrypt_file_v1, encrypt_file_v2, length-start_v2, start_v2}

-- `decryptFile` around its loop: the outcomes of the two guards, the stated size and the loop's result.
abbrev around : Bool → Bool → ℕ → Result Error (List Bytes × ℕ) → Result Error Bytes
around keyed long expected loop = do
  guard keyed key_must_be_32_bytes
  guard long too_small_for_header
  (chunks, total) ← loop
  guard (total == expected) (size_mismatch expected total)
  ok (flatten chunks)

around-ne-diverged :
    (keyed long : Bool) (expected : ℕ) (loop : Result Error (List Bytes × ℕ))
    → loop ≢ throw diverged
    → around keyed long expected loop ≢ throw diverged
around-ne-diverged false long expected loop h e = cc
around-ne-diverged true false expected loop h e = cc
around-ne-diverged true true expected (throw d) h e = h (cc)
around-ne-diverged true true expected (ok (parts, total)) h e = ground arith

around-eq-ok :
    (keyed long : Bool) (expected : ℕ) (loop : Result Error (List Bytes × ℕ)) (file : Bytes)
    → around keyed long expected loop ≡ ok file
    → (parts : List Bytes) × (loop ≡ ok (parts, expected)) × (file ≡ flatten parts)
around-eq-ok false long expected loop file e = cc
around-eq-ok true false expected loop file e = cc
around-eq-ok true true expected (throw d) file e = cc
around-eq-ok true true expected (ok (parts, total)) file e = elim (Bool-cases (total == expected)) [
  | inl same ↦
      (parts, ap (λ (n : ℕ). ok (parts, n)) ((==_iff total expected).0 same), cc (rw same at e))
  | inr other ↦ cc (rw other at e)
]

module _ (p : Platform) where
  decrypt_chunk-ne-diverged :
      (blob base_nonce key : Bytes) (wanted offset index : ℕ)
      → decrypt_chunk p blob base_nonce key wanted offset index ≢ throw diverged
  unfolding decrypt_chunk
  decrypt_chunk-ne-diverged blob base_nonce key wanted offset index = ground arith

  decrypt_chunks-ne-diverged :
      (blob base_nonce key : Bytes) (expected f start index total : ℕ)
      → length blob - start < f
      → decrypt_chunks p blob base_nonce key expected f start index total ≢ throw diverged
  unfolding decrypt_chunks
  decrypt_chunks-ne-diverged blob base_nonce key expected zero start index total h = elim h [ ]
  decrypt_chunks-ne-diverged blob base_nonce key expected (suc f) start index total h =
      elim (Bool-cases (ltb start (length blob))) [
        | inl more ↦
            let before = ltb→lt _ _ more in
            let wanted = mac_size + min chunk_size (expected - total) in
            rw (more, decrypt_chunks)
              (>>=-ne-throw (decrypt_chunk p blob base_nonce key wanted start index) _
                (decrypt_chunk-ne-diverged blob base_nonce key wanted start index)
                λ m.
                  >>=-ne-throw
                    (decrypt_chunks p blob base_nonce key expected f (start + wanted) (index + 1)
                      (total + length m))
                    _
                    (decrypt_chunks-ne-diverged blob base_nonce key expected f (start + wanted)
                      (index + 1) (total + length m) (omega arith))
                    λ r h'. cc)
        | inr done ↦ rw (done, decrypt_chunks) (λ h'. cc)
      ]

  -- The loop of decryptFile ends on every blob and key: as much fuel as the blob has bytes, and one more,
  -- never runs out.
  pub decrypt_file-ne-diverged : (blob key : Bytes) → decrypt_file p blob key ≢ throw diverged
  unfolding decrypt_file
  decrypt_file-ne-diverged blob key =
      around-ne-diverged (length key == key_size) (not (ltb (length blob) (nonce_size + 8)))
        (expected_size p blob) _
        (decrypt_chunks-ne-diverged blob (slice blob 0 nonce_size) key (expected_size p blob)
          (suc (length blob)) (data_offset p blob) 0 0 (omega arith))

  -- One round of the loop of `decryptFile`, taken apart.
  decrypt_chunks-step :
      (m : Result Error Bytes) (k : Bytes → Result Error (List Bytes × ℕ)) (parts : List Bytes)
      (sum : ℕ)
      → ◌>>=◌ {B = List Bytes × ℕ} m
          (λ x. ◌>>=◌ {B = List Bytes × ℕ} (k x) (λ r. ok (x ∷ r.0, r.1)))
        ≡ ok (parts, sum)
      → (x : Bytes) × (rest : List Bytes) × (m ≡ ok x) × (k x ≡ ok (rest, sum)) × (parts ≡ x ∷ rest)
  decrypt_chunks-step m k parts sum e =
      let (x, opened, e') = >>=-eq-ok m _ e in
      let (r, later, same) = >>=-eq-ok (k x) _ e' in (x, r.0, opened, cc, cc)

  decrypt_chunks-total :
      (blob base_nonce key : Bytes) (expected f start index total sum : ℕ) (parts : List Bytes)
      → decrypt_chunks p blob base_nonce key expected f start index total ≡ ok (parts, sum)
      → sum ≡ total + length (flatten parts)
  unfolding decrypt_chunks flatten
  decrypt_chunks-total blob base_nonce key expected zero start index total sum parts e = cc
  decrypt_chunks-total blob base_nonce key expected (suc f) start index total sum parts e =
      elim (Bool-cases (ltb start (length blob))) [
        | inl more ↦
            let (m, rest, opened, later, same) =
              decrypt_chunks-step
                (decrypt_chunk p blob base_nonce key (mac_size + min chunk_size (expected - total))
                  start index)
                (λ m.
                  decrypt_chunks p blob base_nonce key expected f
                    (start + (mac_size + min chunk_size (expected - total))) (index + 1)
                    (total + length m))
                parts sum (rw (more, decrypt_chunks) at e) in
            rw same (
              omega (
                arith,
                decrypt_chunks-total blob base_nonce key expected f _ (index + 1) _ sum rest later,
                length-append m (flatten rest),
              ))
        | inr done ↦
            let same : sum ≡ total = cc (rw (done, decrypt_chunks) at e) in
            let empty : parts ≡ [] = cc (rw (done, decrypt_chunks) at e) in
            rw empty (omega (arith, same))
      ]

  -- What decryptFile returns has the size that the header of the blob states.
  pub length-decrypt_file :
      (blob key file : Bytes)
      → decrypt_file p blob key ≡ ok file
      → length file ≡ expected_size p blob
  unfolding decrypt_file
  length-decrypt_file blob key file e =
      let (parts, ran, same) =
        around-eq-ok (length key == key_size) (not (ltb (length blob) (nonce_size + 8)))
          (expected_size p blob)
          (decrypt_chunks p blob (slice blob 0 nonce_size) key (expected_size p blob)
            (suc (length blob)) (data_offset p blob) 0 0)
          file e in
      let sum =
        decrypt_chunks-total blob (slice blob 0 nonce_size) key (expected_size p blob)
          (suc (length blob)) (data_offset p blob) 0 0 (expected_size p blob) parts ran in
      ap length same ∙ (omega (arith, sum))

module _ (p : Platform) (sound : IsSound p) (file base_nonce key : Bytes)
    (sized : length base_nonce ≡ nonce_size) (keyed : length key ≡ key_size) where
  -- Each chunk adds a MAC to what is left of the file.
  length-encrypt_chunks :
      (f offset index : ℕ) (chunks : List Bytes)
      → encrypt_chunks p file base_nonce key f offset index ≡ ok chunks
      → length (flatten chunks)
        ≡ (length file - offset)
          + mac_size * ((length file - offset + (chunk_size - 1)) / chunk_size)
  unfolding encrypt_chunks flatten
  length-encrypt_chunks zero offset index chunks e = cc
  length-encrypt_chunks (suc f) offset index chunks e =
      elim (Bool-cases (ltb offset (length file))) [
        | inl more ↦
            let (s, rest, sealed, later, same) =
              encrypt_chunks_more p sound base_nonce key sized keyed file f offset index chunks
                (ltb→lt _ _ more) e in
            rw same (
              omega (
                arith,
                ltb→lt _ _ more,
                length-encrypt_chunks f (offset + chunk_size) (index + 1) rest later,
                length-append (s.mac ++ s.ciphertext) (flatten rest),
                length-append s.mac s.ciphertext,
                sound.length-mac sealed,
                sound.length-ciphertext sealed,
                length-slice_chunk p sound base_nonce key sized keyed file offset,
              ))
        | inr done ↦
            let past = ltb→le _ _ done in
            rw
              (encrypt_chunks_done p sound base_nonce key sized keyed file f offset index chunks
                past e)
              (omega arith)
      ]

  -- What stands in front of the encrypted chunks.
  abbrev pub header_size : Option String → ℕ
  header_size none = 32
  header_size (some text) = 56 + length (p.encode text)

  -- With a nonce and a key of the right sizes and a file below 2^64 bytes, the blob of encryptFile has the
  -- bytes of its header, those of the file, and 16 for each chunk of 4 MiB that was begun.
  pub length-encrypt_file :
      (metadata : Option String) (blob : Bytes)
      → length file < 2 ^ 64
      → encrypt_file p file key base_nonce metadata ≡ ok blob
      → length blob
        ≡ header_size (truthy metadata)
          + (length file + mac_size * ((length file + (chunk_size - 1)) / chunk_size))
  length-encrypt_file metadata blob small made = elim (Option-cases (truthy metadata)) [
    | inl plain ↦
        let (chunks, e, made') =
          encrypt_file_v1 p sound file base_nonce key sized keyed small metadata plain in
        let shape : blob ≡ (base_nonce ++ (le_bytes 8 (length file) ++ [])) ++ flatten chunks =
          cc in
        rw (plain, shape)
          (omega (
            arith,
            sized,
            length-append (base_nonce ++ (le_bytes 8 (length file) ++ [])) (flatten chunks),
            length-append base_nonce (le_bytes 8 (length file) ++ []),
            length-encrypt_chunks (suc (length file)) 0 0 chunks e,
          ))
    | inr (text, given) ↦
        let (s, chunks, sealed, e, made') =
          encrypt_file_v2 p sound file base_nonce key sized keyed small metadata text given in
        let m = length (p.encode text) in
        let shape : blob ≡ start_v2 base_nonce (length file) m s ++ flatten chunks = cc in
        rw (given, shape)
          (omega (
            arith,
            length-append (start_v2 base_nonce (length file) m s) (flatten chunks),
            length-start_v2 p sound base_nonce key sized keyed (length file) m s
                (sound.length-mac sealed) (sound.length-ciphertext sealed),
            length-encrypt_chunks (suc (length file)) 0 0 chunks e,
          ))
  ]
