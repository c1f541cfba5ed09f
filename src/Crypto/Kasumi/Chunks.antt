-- ===== src/Crypto/Kasumi/Chunks.antt =====
-- The loops of `encryptFile` and `decryptFile`, run one after the other.
use save_box.Prelude.{
  ℕ, zero, suc, ◌+◌, ◌-◌, ◌≤◌, ◌<◌, min, ◌≡◌, refl, sym, ap, ◌∙◌, inl, inr, some, List, [], ◌∷◌,
  ◌++◌, flatten, ok, >>=-eq-ok, arith, length, drop, length-append, length-take, length-drop,
  take-append, drop-append, drop_all, drop-drop, take-append-drop, ltb, ltb→lt, ltb→le, le→ltb,
  lt→ltb, Bool-cases,
}
use save_box.Prelude.Words.{Bytes, slice}
use save_box.Crypto.Platform.{nonce_size, mac_size, key_size, Sealed, Platform, IsSound}
use save_box.Crypto.Nonce.{derive_chunk_nonce}
use save_box.Crypto.Nonce.Layout.{length-derive_chunk_nonce}
use save_box.Crypto.Kasumi.{chunk_size, encrypt_chunks, decrypt_chunk, decrypt_chunks}

module _ (p : Platform) (sound : IsSound p) (base_nonce key : Bytes)
    (sized : length base_nonce ≡ nonce_size) (keyed : length key ≡ key_size) where
  -- What the loop pushes for one chunk.
  pub seal_chunk :
      (m : Bytes) (index : ℕ)
      → (s : Sealed) × (p.encrypt_detached m (derive_chunk_nonce base_nonce index) key ≡ some s)
  seal_chunk m index =
      sound.seals m (derive_chunk_nonce base_nonce index) key
        (length-derive_chunk_nonce base_nonce index ∙ sized) keyed

  -- A chunk at the front of what is left of the blob is opened.
  pub decrypt_chunk_front :
      (blob rest m : Bytes) (s : Sealed) (offset index : ℕ)
      → p.encrypt_detached m (derive_chunk_nonce base_nonce index) key ≡ some s
      → drop offset blob ≡ (s.mac ++ s.ciphertext) ++ rest
      → decrypt_chunk p blob base_nonce key (mac_size + length m) offset index ≡ ok m
  unfolding decrypt_chunk
  decrypt_chunk_front blob rest m s offset index e front =
      let mac = sound.length-mac e in
      let body = sound.length-ciphertext e in
      let whole : length (s.mac ++ s.ciphertext) ≡ mac_size + length m =
        length-append s.mac s.ciphertext ∙ omega arith in
      let room : mac_size + length m ≤ length blob - offset = omega (
        arith,
        ap length front,
        length-drop offset blob,
        length-append (s.mac ++ s.ciphertext) rest,
      ) in
      let cut : slice blob offset (offset + (mac_size + length m)) ≡ s.mac ++ s.ciphertext =
        slice_front blob rest (s.mac ++ s.ciphertext) offset (mac_size + length m) whole front in
      rw (le→ltb _ _ room, cut, take-append mac_size s.mac s.ciphertext mac)
        (rw (drop-append mac_size s.mac s.ciphertext mac, sound.opens e) refl)
    where
      slice_front :
          (b r m' : Bytes) (o w : ℕ) → length m' ≡ w → drop o b ≡ m' ++ r → slice b o (o + w) ≡ m'
      slice_front b r m' o w h f =
          let width : o + w - o ≡ w = omega arith in rw (width, f) (take-append w m' r h)

  -- The loop of `encryptFile` ends within its fuel, and throws nothing.
  pub encrypt_chunks_total :
      (file : Bytes) (f offset index : ℕ)
      → length file - offset < f
      → (chunks : List Bytes) × (encrypt_chunks p file base_nonce key f offset index ≡ ok chunks)
  unfolding encrypt_chunks
  encrypt_chunks_total file zero offset index h = elim h [ ]
  encrypt_chunks_total file (suc f) offset index h = elim (Bool-cases (ltb offset (length file))) [
    | inl more ↦
        let before = ltb→lt _ _ more in
        let (s, e) = seal_chunk (slice file offset (offset + chunk_size)) index in
        let (rest, ih) =
          encrypt_chunks_total file f (offset + chunk_size) (index + 1) (omega arith) in
        ((s.mac ++ s.ciphertext) ∷ rest, rw (more, encrypt_chunks, e, ih) refl)
    | inr done ↦ ([], rw (done, encrypt_chunks))
  ]

  -- One round of the loop of `encryptFile`, taken apart.
  pub encrypt_chunks_more :
      (file : Bytes) (f offset index : ℕ) (chunks : List Bytes)
      → offset < length file
      → encrypt_chunks p file base_nonce key (suc f) offset index ≡ ok chunks
      → (s : Sealed) × (rest : List Bytes) × (p.encrypt_detached
            (slice file offset (offset + chunk_size))
            (derive_chunk_nonce base_nonce index)
            key
          ≡ some s)
        × (encrypt_chunks p file base_nonce key f (offset + chunk_size) (index + 1) ≡ ok rest)
        × (chunks ≡ (s.mac ++ s.ciphertext) ∷ rest)
  unfolding encrypt_chunks
  encrypt_chunks_more file f offset index chunks h e =
      let (s, sealed) = seal_chunk (slice file offset (offset + chunk_size)) index in
      let (rest, ih, same) = >>=-eq-ok _ _ (rw (lt→ltb _ _ h, sealed, encrypt_chunks) at e) in
      (s, rest, sealed, ih, cc)

  pub encrypt_chunks_done :
      (file : Bytes) (f offset index : ℕ) (chunks : List Bytes)
      → length file ≤ offset
      → encrypt_chunks p file base_nonce key (suc f) offset index ≡ ok chunks
      → chunks ≡ []
  unfolding encrypt_chunks
  encrypt_chunks_done file f offset index chunks h e = cc (rw (le→ltb _ _ h, encrypt_chunks) at e)

  -- One round of the loop of `decryptFile` that opens a chunk.
  decrypt_chunks_more :
      (blob m : Bytes) (expected g start index total : ℕ) (parts : List Bytes) (sum : ℕ)
      → start < length blob
      → length m ≡ min chunk_size (expected - total)
      → decrypt_chunk p blob base_nonce key (mac_size + length m) start index ≡ ok m
      → decrypt_chunks p blob base_nonce key expected g
          (start + (mac_size + length m))
          (index + 1)
          (total + length m)
        ≡ ok (parts, sum)
      → decrypt_chunks p blob base_nonce key expected (suc g) start index total
        ≡ ok (m ∷ parts, sum)
  unfolding decrypt_chunks
  decrypt_chunks_more blob m expected g start index total parts sum h w e ih =
      rw (lt→ltb _ _ h, decrypt_chunks, ← w, e, ih) refl

  decrypt_chunks_done :
      (blob : Bytes) (expected g start index total : ℕ)
      → length blob ≤ start
      → decrypt_chunks p blob base_nonce key expected (suc g) start index total ≡ ok ([], total)
  unfolding decrypt_chunks
  decrypt_chunks_done blob expected g start index total h = rw (le→ltb _ _ h, decrypt_chunks)

  pub length-slice_chunk :
      (file : Bytes) (offset : ℕ)
      → length (slice file offset (offset + chunk_size)) ≡ min chunk_size (length file - offset)
  length-slice_chunk file offset =
      length-take (offset + chunk_size - offset) (drop offset file)
      ∙ omega (arith, length-drop offset file)

  slice-drop :
      (file : Bytes) (offset : ℕ)
      → slice file offset (offset + chunk_size) ++ drop (offset + chunk_size) file
        ≡ drop offset file
  slice-drop file offset =
      let width : offset + chunk_size - offset ≡ chunk_size = omega arith in
      rw (width, ← drop-drop offset chunk_size file)
        (take-append-drop chunk_size (drop offset file))

  -- What is left of the blob behind the chunk that stands in front.
  chunk_taken :
      (blob rest : Bytes) (s : Sealed) (start w : ℕ)
      → length s.mac + length s.ciphertext ≡ w
      → 0 < w
      → drop start blob ≡ (s.mac ++ s.ciphertext) ++ rest
      → (start < length blob) × (drop (start + w) blob ≡ rest)
  chunk_taken blob rest s start w h pos front =
      let whole : length (s.mac ++ s.ciphertext) ≡ w = length-append s.mac s.ciphertext ∙ h in
      (
        omega (
          arith,
          ap length front,
          length-drop start blob,
          length-append (s.mac ++ s.ciphertext) rest,
        ),
        sym (drop-drop start w blob) ∙ (ap (drop w) front ∙ drop-append w _ rest whole),
      )

  -- The loop of `decryptFile` over what the loop of `encryptFile` pushed, from any offset on.
  -- `total` counts the bytes before the offset.
  pub decrypt_chunks-encrypt_chunks :
      (file blob : Bytes) (f g offset start index total : ℕ) (chunks : List Bytes)
      → total ≡ min offset (length file)
      → encrypt_chunks p file base_nonce key f offset index ≡ ok chunks
      → drop start blob ≡ flatten chunks
      → length blob - start < g
      → (parts : List Bytes) × (decrypt_chunks p blob base_nonce key
            (length file)
            g
            start
            index
            total
          ≡ ok (parts, length file))
        × (flatten parts ≡ drop offset file)
  unfolding encrypt_chunks flatten
  decrypt_chunks-encrypt_chunks file blob zero g offset start index total chunks ht e suffix hg = cc
  decrypt_chunks-encrypt_chunks file blob (suc f) zero offset start index total chunks ht e suffix
        hg =
      elim hg [ ]
  decrypt_chunks-encrypt_chunks file blob (suc f) (suc g) offset start index total chunks ht e
        suffix hg =
      elim (Bool-cases (ltb offset (length file))) [
        | inl more ↦
            let before = ltb→lt _ _ more in
            let (s, rest, sealed, eq, same) =
              encrypt_chunks_more file f offset index chunks before e in
            let m : Bytes = slice file offset (offset + chunk_size) in
            let size = length-slice_chunk file offset in
            let front : drop start blob ≡ (s.mac ++ s.ciphertext) ++ flatten rest =
              suffix ∙ ap flatten same in
            let width : length s.mac + length s.ciphertext ≡ mac_size + length m =
              omega (arith, sound.length-mac sealed, sound.length-ciphertext sealed) in
            let (inside, next) =
              chunk_taken blob (flatten rest) s start (mac_size + length m) width (omega arith)
                front in
            let (parts, decrypted, joined) =
              decrypt_chunks-encrypt_chunks file blob f g (offset + chunk_size)
                (start + (mac_size + length m)) (index + 1) (total + length m) rest (omega arith) eq
                next (omega arith) in
            (
              m ∷ parts,
              decrypt_chunks_more blob m (length file) g start index total parts (length file)
                  inside (omega arith)
                  (decrypt_chunk_front blob (flatten rest) m s start index sealed front) decrypted,
              ap (λ r. m ++ r) joined ∙ slice-drop file offset,
            )
        | inr done ↦
            let past = ltb→le _ _ done in
            let ended = encrypt_chunks_done file f offset index chunks past e in
            let nothing : drop start blob ≡ [] = suffix ∙ ap flatten ended in
            let stop : length blob ≤ start =
              omega (arith, length-drop start blob, ap length nothing) in
            let all : total ≡ length file = omega arith in
            (
              [],
              decrypt_chunks_done blob (length file) g start index total stop
                  ∙ ap (λ (n : ℕ). ok ([], n)) all,
              sym (drop_all offset file past),
            )
      ]
