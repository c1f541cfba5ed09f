-- ===== src/Crypto/Kasumi/Guarantees.antt =====
-- The promises of the encrypted file format.
use save_box.Prelude.{
  ℕ, ◌+◌, ◌-◌, ◌^◌, ◌≤◌, ◌<◌, ◌≡◌, refl, ap, ◌∙◌, true, false, Option, some, none, [], ◌++◌,
  flatten, append_assoc, ok, throw, arith, length, take, drop, length-append, drop-append, le→ltb,
  lt→ltb, String, length-take, take-append_le,
}
use save_box.Prelude.Words.{Bytes, slice, le_bytes}
use save_box.Crypto.Platform.{nonce_size, key_size, magic_bytes, Platform, IsSound}
use save_box.Crypto.Kasumi.{
  has_metadata, metadata_size, data_offset, truthy, encrypt_file, decrypt_file, extract_metadata,
  partial_without_metadata,
}
use save_box.Crypto.Kasumi.Headers.{read_start, read_v2}
use save_box.Crypto.Kasumi.RoundTrip.{
  start_v2, decrypt_file_core, data_offset_plain, encrypt_file_v1, encrypt_file_v2,
  start_v2-ReadsV2, length-start_v2, extract_metadata_v2,
}

module _ (p : Platform) (sound : IsSound p) (file base_nonce key : Bytes) (metadata : Option String)
    (sized : length base_nonce ≡ nonce_size) (keyed : length key ≡ key_size)
    (small : length file < 2 ^ 64) where
  -- With a nonce and a key of the right sizes, a file below 2^64 bytes and metadata below 2^32 bytes,
  -- encryptFile makes a blob, and decryptFile returns the file from it.
  pub decrypt-encrypt_with_metadata :
      (text : String)
      → truthy metadata ≡ some text
      → length (p.encode text) < 2 ^ 32
      → (blob : Bytes) × (encrypt_file p file key base_nonce metadata ≡ ok blob)
        × (decrypt_file p blob key ≡ ok file)
  decrypt-encrypt_with_metadata text given fits =
      let (s, chunks, sealed, e, made) =
        encrypt_file_v2 p sound file base_nonce key sized keyed small metadata text given in
      let m = length (p.encode text) in
      let start : Bytes = start_v2 base_nonce (length file) m s in
      let blob : Bytes = start ++ flatten chunks in
      let r =
        start_v2-ReadsV2 p sound base_nonce key sized keyed (length file) m s (flatten chunks) small
          fits in
      let wide =
        length-start_v2 p sound base_nonce key sized keyed (length file) m s
          (sound.length-mac sealed) (sound.length-ciphertext sealed) in
      let suffix : drop (data_offset p blob) blob ≡ flatten chunks =
        ap (λ (o : ℕ). drop o blob) r.behind ∙ drop-append (56 + m) start (flatten chunks) wide in
      (
        blob,
        made,
        decrypt_file_core p sound file base_nonce key sized keyed small blob chunks e suffix r.nonce
            r.size r.long,
      )

  -- With a nonce and a key of the right sizes, a file below 2^64 bytes and no metadata, decryptFile
  -- returns the file from the blob that encryptFile made, unless the blob reads as one with metadata.
  pub decrypt-encrypt_without_metadata :
      (blob : Bytes)
      → truthy metadata ≡ none
      → encrypt_file p file key base_nonce metadata ≡ ok blob
      → has_metadata p blob ≡ false
      → decrypt_file p blob key ≡ ok file
  decrypt-encrypt_without_metadata blob plain made unmarked =
      let (chunks, e, made') =
        encrypt_file_v1 p sound file base_nonce key sized keyed small metadata plain in
      let rest : Bytes = flatten chunks in
      let shape : blob ≡ base_nonce ++ (le_bytes 8 (length file) ++ rest) =
        cc (append_assoc base_nonce (le_bytes 8 (length file) ++ []) rest) in
      let (nonce, size, long) = read_start p base_nonce sized (length file) rest small in
      let suffix : drop (data_offset p blob) blob ≡ rest =
        rw (data_offset_plain p blob unmarked, shape)
          (rw (← append_assoc base_nonce (le_bytes 8 (length file)) rest) (
            drop-append 32 (base_nonce ++ le_bytes 8 (length file)) rest
              (omega (arith, sized, length-append base_nonce (le_bytes 8 (length file)))))) in
      decrypt_file_core p sound file base_nonce key sized keyed small blob chunks e suffix
        (rw shape nonce) (rw shape size) (rw shape long)

  -- What is read from a prefix of the blob, decoded.
  pub extract_metadata-encrypt_file_decoded :
      (text : String) (n : ℕ) (blob : Bytes)
      → truthy metadata ≡ some text
      → length (p.encode text) < 2 ^ 32
      → 56 + length (p.encode text) ≤ n
      → encrypt_file p file key base_nonce metadata ≡ ok blob
      → extract_metadata p (slice blob 0 n) key
        ≡ ok (record {
          metadata = some (p.decode (p.encode text));
          data_start = 56 + length (p.encode text);
          size = length file;
        })
  extract_metadata-encrypt_file_decoded text n blob given fits room made =
      let (s, chunks, sealed, e, made') =
        encrypt_file_v2 p sound file base_nonce key sized keyed small metadata text given in
      let m = length (p.encode text) in
      let start : Bytes = start_v2 base_nonce (length file) m s in
      let shape : blob ≡ start ++ flatten chunks = cc in
      let wide =
        length-start_v2 p sound base_nonce key sized keyed (length file) m s
          (sound.length-mac sealed) (sound.length-ciphertext sealed) in
      let front : take n blob ≡ start ++ take (n - length start) (flatten chunks) =
        rw shape (take-append_le n start (flatten chunks) (omega arith)) in
      let whole : n - 0 ≡ n = omega arith in
      rw (whole, front)
        (extract_metadata_v2 p sound base_nonce key sized keyed (length file) (p.encode text)
          (take (n - length start) (flatten chunks)) s small fits sealed)

  -- With a nonce and a key of the right sizes, a file below 2^64 bytes and metadata below 2^32 bytes,
  -- extractMetadata reads the metadata, the start of the chunks and the size of the file from any prefix
  -- of the blob that reaches to the end of the metadata chunk, if the platform decodes the text of the
  -- metadata from its bytes.
  pub extract_metadata-encrypt_file :
      (text : String) (n : ℕ) (blob : Bytes)
      → truthy metadata ≡ some text
      → length (p.encode text) < 2 ^ 32
      → p.decode (p.encode text) ≡ text
      → 56 + length (p.encode text) ≤ n
      → encrypt_file p file key base_nonce metadata ≡ ok blob
      → extract_metadata p (slice blob 0 n) key
        ≡ ok (record {
          metadata = some text;
          data_start = 56 + length (p.encode text);
          size = length file;
        })
  extract_metadata-encrypt_file text n blob given fits readable room made =
      let read = extract_metadata-encrypt_file_decoded text n blob given fits room made in
      rw readable at read

  -- With a nonce and a key of the right sizes, a file below 2^64 bytes and metadata below 2^32 bytes,
  -- extractMetadata throws on a prefix of the blob that holds the fixed fields of its header and not the
  -- whole metadata chunk.
  pub extract_metadata_oversized :
      (text : String) (n : ℕ) (blob : Bytes)
      → truthy metadata ≡ some text
      → length (p.encode text) < 2 ^ 32
      → 40 ≤ n
      → n < 56 + length (p.encode text)
      → encrypt_file p file key base_nonce metadata ≡ ok blob
      → extract_metadata p (slice blob 0 n) key ≡ throw partial_without_metadata
  unfolding extract_metadata
  extract_metadata_oversized text n blob given fits low high made =
      let (s, chunks, sealed, e, made') =
        encrypt_file_v2 p sound file base_nonce key sized keyed small metadata text given in
      let m = length (p.encode text) in
      let fixed : Bytes =
        base_nonce ++ (le_bytes 8 (length file) ++ (magic_bytes ++ le_bytes 4 m)) in
      let rest : Bytes = (s.mac ++ s.ciphertext) ++ flatten chunks in
      let shape : blob ≡ fixed ++ rest =
        cc (append_assoc fixed (s.mac ++ s.ciphertext) (flatten chunks)) in
      let wide : length fixed ≡ 40 = omega (
        arith,
        sized,
        length-append base_nonce (le_bytes 8 (length file) ++ (magic_bytes ++ le_bytes 4 m)),
      ) in
      let tail : Bytes = take (n - length fixed) rest in
      let cut : take n blob ≡ fixed ++ tail =
        rw shape (take-append_le n fixed rest (omega arith)) in
      let front : take n blob
          ≡ base_nonce ++ (le_bytes 8 (length file) ++ (magic_bytes ++ (le_bytes 4 m ++ tail))) =
        cut
        ∙ append_assoc base_nonce (le_bytes 8 (length file) ++ (magic_bytes ++ le_bytes 4 m))
            tail in
      let (marked, counted) = read_v2 p base_nonce sized sound (length file) m tail fits in
      let (nonce, size, long) =
        read_start p base_nonce sized (length file) (magic_bytes ++ (le_bytes 4 m ++ tail)) small in
      let short : length (take n blob) < 56 + m = omega (arith, length-take n blob) in
      let whole : n - 0 ≡ n = omega arith in
      let marked' : has_metadata p (take n blob) ≡ true = rw front marked in
      let counted' : metadata_size p (take n blob) ≡ m = rw front counted in
      let long' : 32 ≤ length (take n blob) = rw front long in
      rw (whole, keyed, le→ltb _ _ long', marked', counted', lt→ltb _ _ short) refl
