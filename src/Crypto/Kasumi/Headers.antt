-- ===== src/Crypto/Kasumi/Headers.antt =====
-- The bytes in front of the encrypted chunks, and what the readers find there.
use text.Mathlib.TextEquality.{eq_iff}
use save_box.Prelude.{
  ℕ, ◌+◌, ◌^◌, ◌≤◌, ◌<◌, ◌≡◌, refl, ap, ◌∙◌, true, some, [], ◌++◌, ok, arith, length, length-append,
  le→leb,
}
use save_box.Prelude.Words.{
  Bytes, zeros, slice, write_middle, slice_middle, write_third, slice_third, le_bytes, le_value,
  le_value-le_bytes,
}
use save_box.Crypto.Platform.{nonce_size, magic_bytes, Sealed, Platform, IsSound}
use save_box.Crypto.Nonce.{derive_chunk_nonce}
use save_box.Crypto.Kasumi.{
  header, header_v2, has_metadata, metadata_size, metadata_index, expected_size,
}

module _ (p : Platform) (base_nonce : Bytes) (sized : length base_nonce ≡ nonce_size) where
  -- The nonce and the size, in front of what is left of the buffer.
  pub header_lem :
      (size spare file_size : ℕ)
      → zeros size ≡ zeros 24 ++ (zeros 8 ++ zeros spare)
      → header p size base_nonce file_size
        ≡ ok (base_nonce ++ (le_bytes 8 file_size ++ zeros spare))
  unfolding header
  header_lem size spare file_size e =
      let named = write_middle [] (zeros 24) (zeros 8 ++ zeros spare) base_nonce 0 refl sized in
      let both =
        write_middle base_nonce (zeros 8) (zeros spare) (le_bytes 8 file_size) 24 sized refl in
      rw (e, named, both) refl

  pub header_v2_lem :
      IsSound p
      → (file_size : ℕ) (meta key : Bytes) (s : Sealed)
      → p.encrypt_detached meta (derive_chunk_nonce base_nonce metadata_index) key ≡ some s
      → header_v2 p base_nonce file_size meta key
        ≡ ok (
            (base_nonce ++ (le_bytes 8 file_size ++ (magic_bytes ++ le_bytes 4 (length meta))))
            ++ (s.mac ++ s.ciphertext))
  unfolding header_v2
  header_v2_lem sound file_size meta key s e =
      let size_bytes : Bytes = le_bytes 8 file_size in
      let count : Bytes = le_bytes 4 (length meta) in
      let first = header_lem 40 8 file_size refl in
      let second =
        write_third base_nonce size_bytes (zeros 4) (zeros 4) magic_bytes 32 (omega (arith, sized))
          refl in
      let third =
        write_third base_nonce (size_bytes ++ magic_bytes) (zeros 4) [] count 36
          (omega (arith, sized)) refl in
      rw (first, sound.encode-magic, second, third, e) refl

  -- Any blob that begins with the nonce and the size gives both back.
  pub read_start :
      (file_size : ℕ) (rest : Bytes)
      → file_size < 2 ^ 64
      → (slice (base_nonce ++ (le_bytes 8 file_size ++ rest)) 0 nonce_size ≡ base_nonce)
        × (expected_size p (base_nonce ++ (le_bytes 8 file_size ++ rest)) ≡ file_size)
        × (nonce_size + 8 ≤ length (base_nonce ++ (le_bytes 8 file_size ++ rest)))
  read_start file_size rest small = (
    slice_middle [] base_nonce (le_bytes 8 file_size ++ rest) 0 nonce_size refl
        (omega (arith, sized)),
    ap le_value (slice_middle base_nonce (le_bytes 8 file_size) rest nonce_size 32 sized refl)
        ∙ le_value-le_bytes 8 file_size small,
    omega (arith, length-append base_nonce (le_bytes 8 file_size ++ rest)),
  )

  -- With a v2 header all readers see the metadata.
  pub read_v2 :
      IsSound p
      → (file_size meta_size : ℕ) (rest : Bytes) → meta_size < 2 ^ 32
      → (has_metadata p (
            base_nonce ++ (le_bytes 8 file_size ++ (magic_bytes ++ (le_bytes 4 meta_size ++ rest))))
          ≡ true)
        × (metadata_size p (
              base_nonce
              ++ (le_bytes 8 file_size ++ (magic_bytes ++ (le_bytes 4 meta_size ++ rest))))
            ≡ meta_size)
  unfolding has_metadata
  read_v2 sound file_size meta_size rest small =
      let size_bytes : Bytes = le_bytes 8 file_size in
      let count : Bytes = le_bytes 4 meta_size in
      let blob : Bytes = base_nonce ++ (size_bytes ++ (magic_bytes ++ (count ++ rest))) in
      let long : nonce_size + 8 + 8 ≤ length blob =
        omega (arith, length-append base_nonce (size_bytes ++ (magic_bytes ++ (count ++ rest)))) in
      let magic =
        slice_third base_nonce size_bytes magic_bytes (count ++ rest) 32 36 (omega (arith, sized))
          refl in
      (
        rw (le→leb _ _ long, magic, sound.decode-magic) ((eq_iff "KAS2" "KAS2").1 refl),
        ap le_value (
              slice_third base_nonce (size_bytes ++ magic_bytes) count rest 36 40
                (omega (arith, sized)) refl)
            ∙ le_value-le_bytes 4 meta_size small,
      )
