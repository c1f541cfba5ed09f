-- ===== src/Drive/Download/Round.antt =====
-- A download that stands where a chunk of the encrypted file begins.
use save_box.Prelude.{
  ℕ, zero, suc, ◌+◌, ◌-◌, ◌≤◌, ◌<◌, min, ◌≡◌, refl, sym, ap, ◌∙◌, inl, inr, some, List, [], ◌∷◌,
  ◌++◌, flatten, append_assoc, append-nil, ok, arith, length, take, drop, ltb, ltb→le, le→ltb,
  Bool-cases, length-take, length-drop, length-append, drop-append, drop-drop, take-drop_add,
}
use save_box.Prelude.Words.{Bytes, slice}
use save_box.Crypto.Platform.{nonce_size, mac_size, key_size, Sealed, Platform, IsSound}
use save_box.Crypto.Kasumi.{chunk_size, encrypt_chunks, decrypt_chunk, decrypt_file_chunk}
use save_box.Crypto.Nonce.{derive_chunk_nonce}
use save_box.Crypto.Kasumi.Chunks.{encrypt_chunks_more, decrypt_chunk_front, length-slice_chunk}
use save_box.Drive.Download.{DownloadState, take_chunk, plaintext_size, encrypted_size}

-- `decryptFile` opens a chunk as `decryptFileChunk` does, once the blob is long enough.
decrypt_chunk-ok :
    (p : Platform) (blob base_nonce key m : Bytes) (wanted offset index : ℕ)
    → decrypt_chunk p blob base_nonce key wanted offset index ≡ ok m
    → (wanted ≤ length blob - offset)
      × (decrypt_file_chunk p
            (drop mac_size (slice blob offset (offset + wanted)))
            (take mac_size (slice blob offset (offset + wanted)))
            base_nonce
            index
            key
          ≡ ok m)
unfolding decrypt_chunk decrypt_file_chunk
decrypt_chunk-ok p blob base_nonce key m wanted offset index h =
    elim (Bool-cases (ltb (length blob - offset) wanted)) [
      | inl short ↦ cc (rw short at h)
      | inr long ↦ (ltb→le _ _ long, rw long at h)
    ]

abbrev advanced : DownloadState → Bytes → DownloadState
advanced s m = record s {
  plaintext_chunks = s.plaintext_chunks ++ m ∷ [];
  decrypted_bytes = s.decrypted_bytes + plaintext_size s;
  current_offset = s.current_offset + encrypted_size s;
  chunk_index = s.chunk_index + 1;
}

take_chunk-ok :
    (p : Platform) (s : DownloadState) (chunk m : Bytes)
    → encrypted_size s ≤ length chunk
    → decrypt_file_chunk p
        (drop mac_size chunk)
        (take mac_size chunk)
        s.base_nonce
        s.chunk_index
        s.fdk
      ≡ ok m
    → take_chunk p s chunk ≡ ok (advanced s m)
unfolding take_chunk
take_chunk-ok p s chunk m long opened = rw (le→ltb _ _ long, opened) refl

module _ (p : Platform) (sound : IsSound p) (file blob base_nonce key : Bytes)
    (sized : length base_nonce ≡ nonce_size) (keyed : length key ≡ key_size) where
  -- `offset` bytes of the file have been decrypted, and what is left of the blob is what encryptFile
  -- pushes from there on.
  pub record IsAt (s : DownloadState) : Type 0 where
    pub fuel : ℕ
    pub offset : ℕ
    pub chunks : List Bytes
    pub nonce : s.base_nonce ≡ base_nonce
    pub fdk : s.fdk ≡ key
    pub expected : s.expected_size ≡ length file
    pub counted : s.decrypted_bytes ≡ min offset (length file)
    pub encrypted : encrypt_chunks p file base_nonce key fuel offset s.chunk_index ≡ ok chunks
    pub left : drop s.current_offset blob ≡ flatten chunks
    pub decrypted : flatten s.plaintext_chunks ≡ take offset file

  flatten-snoc : (xs : List Bytes) (m : Bytes) → flatten (xs ++ m ∷ []) ≡ flatten xs ++ m
  unfolding flatten
  flatten-snoc [] m = append-nil m
  flatten-snoc (x ∷ xs) m =
      ap (λ (r : Bytes). x ++ r) (flatten-snoc xs m) ∙ sym (append_assoc x (flatten xs) m)

  take-chunk :
      (offset : ℕ)
      → take offset file ++ slice file offset (offset + chunk_size)
        ≡ take (offset + chunk_size) file
  take-chunk offset =
      let width : offset + chunk_size - offset ≡ chunk_size = omega arith in
      rw width (take-drop_add offset chunk_size file)

  -- The chunk that comes next, from whatever fuel its encryption had.
  pub next_chunk :
      (f offset index : ℕ) (chunks : List Bytes)
      → offset < length file
      → encrypt_chunks p file base_nonce key f offset index ≡ ok chunks
      → (g : ℕ) × (s : Sealed) × (rest : List Bytes) × (p.encrypt_detached
            (slice file offset (offset + chunk_size))
            (derive_chunk_nonce base_nonce index)
            key
          ≡ some s)
        × (encrypt_chunks p file base_nonce key g (offset + chunk_size) (index + 1) ≡ ok rest)
        × (chunks ≡ (s.mac ++ s.ciphertext) ∷ rest)
  unfolding encrypt_chunks
  next_chunk zero offset index chunks h e = cc
  next_chunk (suc f) offset index chunks h e =
      let (s, rest, sealed, later, shape) =
        encrypt_chunks_more p sound base_nonce key sized keyed file f offset index chunks h e in
      (f, s, rest, sealed, later, shape)

  -- What the blob holds where the download stands, and what follows it.
  record Front (s : DownloadState) : Type 0 where
    fuel : ℕ
    offset : ℕ
    rest : List Bytes
    before : offset < length file
    plain : plaintext_size s ≡ length (slice file offset (offset + chunk_size))
    room : encrypted_size s ≤ length blob - s.current_offset
    opened :
        decrypt_file_chunk p
          (drop mac_size (slice blob s.current_offset (s.current_offset + encrypted_size s)))
          (take mac_size (slice blob s.current_offset (s.current_offset + encrypted_size s)))
          base_nonce
          s.chunk_index
          key
        ≡ ok (slice file offset (offset + chunk_size))
    later :
        encrypt_chunks p file base_nonce key fuel (offset + chunk_size) (s.chunk_index + 1)
        ≡ ok rest
    behind : drop (s.current_offset + encrypted_size s) blob ≡ flatten rest
    decrypted : flatten s.plaintext_chunks ≡ take offset file
    counted : s.decrypted_bytes ≡ offset

  IsAt-Front : (s : DownloadState) → IsAt s → s.decrypted_bytes < s.expected_size → Front s
  unfolding flatten
  IsAt-Front s h more =
      let before : h.offset < length file = omega (arith, h.counted, h.expected, more) in
      let (g, c, rest, sealed, later, shape) =
        next_chunk h.fuel h.offset s.chunk_index h.chunks before h.encrypted in
      let m : Bytes = slice file h.offset (h.offset + chunk_size) in
      let front : drop s.current_offset blob ≡ (c.mac ++ c.ciphertext) ++ flatten rest =
        h.left ∙ ap flatten shape in
      let size = length-slice_chunk p sound base_nonce key sized keyed file h.offset in
      let plain : plaintext_size s ≡ length m = omega (arith, size, h.counted, h.expected, more) in
      let width : encrypted_size s ≡ mac_size + length m = ap (λ (k : ℕ). mac_size + k) plain in
      let (room, opened) =
        decrypt_chunk-ok p blob base_nonce key m (mac_size + length m) s.current_offset
          s.chunk_index
          (decrypt_chunk_front p sound base_nonce key sized keyed blob (flatten rest) m c
            s.current_offset s.chunk_index sealed front) in
      let whole : length (c.mac ++ c.ciphertext) ≡ mac_size + length m = omega (
        arith,
        length-append c.mac c.ciphertext,
        sound.length-mac sealed,
        sound.length-ciphertext sealed,
      ) in
      let behind : drop (s.current_offset + (mac_size + length m)) blob ≡ flatten rest =
        sym (drop-drop s.current_offset (mac_size + length m) blob)
        ∙ (ap (drop (mac_size + length m)) front
            ∙ drop-append (mac_size + length m) (c.mac ++ c.ciphertext) (flatten rest) whole) in
      record {
        fuel = g;
        offset = h.offset;
        rest = rest;
        before = before;
        plain = plain;
        room = rw width room;
        opened = rw width opened;
        later = later;
        behind = rw width behind;
        decrypted = h.decrypted;
        counted = omega (arith, h.counted, h.expected, more);
      }

  -- A round with the bytes that stand in the blob goes on to the next chunk.
  pub take_chunk-IsAt :
      (s : DownloadState)
      → IsAt s
      → s.decrypted_bytes < s.expected_size
      → (next : DownloadState) × (take_chunk p s
            (slice blob s.current_offset (s.current_offset + encrypted_size s - 1 + 1))
          ≡ ok next)
        × IsAt next
        × (next.expected_size ≡ s.expected_size)
        × (s.decrypted_bytes < next.decrypted_bytes)
  take_chunk-IsAt s h more =
      let f = IsAt-Front s h more in
      let m : Bytes = slice file f.offset (f.offset + chunk_size) in
      let size = length-slice_chunk p sound base_nonce key sized keyed file f.offset in
      let closed : s.current_offset + encrypted_size s - 1 + 1
          ≡ s.current_offset + encrypted_size s =
        omega arith in
      let width : s.current_offset + encrypted_size s - s.current_offset ≡ encrypted_size s =
        omega arith in
      let long : encrypted_size s
          ≤ length (slice blob s.current_offset (s.current_offset + encrypted_size s)) =
        rw width (
          omega (
            arith,
            f.room,
            length-take (encrypted_size s) (drop s.current_offset blob),
            length-drop s.current_offset blob,
          )) in
      let opened = rw (← h.nonce, ← h.fdk) at f.opened in
      (
        advanced s m,
        rw closed (take_chunk-ok p s _ m long opened),
        record {
          fuel = f.fuel;
          offset = f.offset + chunk_size;
          chunks = f.rest;
          nonce = h.nonce;
          fdk = h.fdk;
          expected = h.expected;
          counted = omega (arith, f.plain, size, f.counted, f.before);
          encrypted = f.later;
          left = f.behind;
          decrypted =
              flatten-snoc s.plaintext_chunks m
              ∙ (ap (λ (b : Bytes). b ++ m) f.decrypted ∙ take-chunk f.offset);
        },
        refl,
        omega (arith, f.plain, size, f.before),
      )
