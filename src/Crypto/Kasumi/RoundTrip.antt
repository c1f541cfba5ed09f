-- ===== src/Crypto/Kasumi/RoundTrip.antt =====
-- What `encryptFile` writes is what `decryptFile` and `extractMetadata` read.
use save_box.Prelude.{
  ℕ, suc, ◌+◌, ◌^◌, ◌≤◌, ◌<◌, ◌≡◌, refl, ap, ◌∙◌, true, false, Option, some, none, List, [], ◌++◌,
  flatten, append_assoc, ok, arith, length, drop, length-append, drop-append, le→ltb, String,
  ==_iff, take-append,
}
use save_box.Prelude.Words.{Bytes, slice, slice_middle, le_bytes}
use save_box.Crypto.Platform.{
  nonce_size, mac_size, key_size, magic_bytes, Sealed, Platform, IsSound,
}
use save_box.Crypto.Nonce.{derive_chunk_nonce}
use save_box.Crypto.Kasumi.{
  file_header, has_metadata, metadata_size, metadata_index, data_offset, expected_size, truthy,
  encrypt_chunks, encrypt_file, decrypt_file, extract_metadata,
}
use save_box.Crypto.Kasumi.Chunks.{seal_chunk, encrypt_chunks_total, decrypt_chunks-encrypt_chunks}
use save_box.Crypto.Kasumi.Headers.{header_lem, header_v2_lem, read_start, read_v2}

-- The v2 header of a file, with its metadata chunk.
abbrev pub start_v2 : Bytes → ℕ → ℕ → Sealed → Bytes
start_v2 base_nonce file_size meta_size s =
    (base_nonce ++ (le_bytes 8 file_size ++ (magic_bytes ++ le_bytes 4 meta_size)))
    ++ (s.mac ++ s.ciphertext)

module _ (p : Platform) (sound : IsSound p) (file base_nonce key : Bytes)
    (sized : length base_nonce ≡ nonce_size) (keyed : length key ≡ key_size)
    (small : length file < 2 ^ 64) where
  -- The readers at the front of a blob with encrypted chunks.
  pub decrypt_file_core :
      (blob : Bytes) (chunks : List Bytes)
      → encrypt_chunks p file base_nonce key (suc (length file)) 0 0 ≡ ok chunks
      → drop (data_offset p blob) blob ≡ flatten chunks
      → slice blob 0 nonce_size ≡ base_nonce
      → expected_size p blob ≡ length file
      → nonce_size + 8 ≤ length blob
      → decrypt_file p blob key ≡ ok file
  unfolding decrypt_file
  decrypt_file_core blob chunks e suffix nonce size long =
      let (parts, decrypted, joined) =
        decrypt_chunks-encrypt_chunks p sound base_nonce key sized keyed file blob
          (suc (length file)) (suc (length blob)) 0 (data_offset p blob) 0 0 chunks (omega arith) e
          suffix (omega arith) in
      rw
        (
          keyed,
          le→ltb _ _ long,
          nonce,
          size,
          decrypted,
          (==_iff (length file) (length file)).1 refl,
        )
        (ap ok joined)

  file_header_v1 :
      (metadata : Option String)
      → truthy metadata ≡ none
      → file_header p file key base_nonce metadata
        ≡ ok (base_nonce ++ (le_bytes 8 (length file) ++ []))
  unfolding file_header
  file_header_v1 metadata plain =
      rw (plain, file_header) (header_lem p base_nonce sized 32 0 (length file) refl)

  file_header_v2 :
      (metadata : Option String) (text : String) (s : Sealed)
      → truthy metadata ≡ some text
      → p.encrypt_detached (p.encode text) (derive_chunk_nonce base_nonce metadata_index) key
        ≡ some s
      → file_header p file key base_nonce metadata
        ≡ ok (start_v2 base_nonce (length file) (length (p.encode text)) s)
  unfolding file_header
  file_header_v2 metadata text s given sealed =
      rw (given, file_header)
        (header_v2_lem p base_nonce sized sound (length file) (p.encode text) key s sealed)

  pub encrypt_file_v1 :
      (metadata : Option String)
      → truthy metadata ≡ none
      → (chunks : List Bytes) × (encrypt_chunks p file base_nonce key (suc (length file)) 0 0
          ≡ ok chunks)
        × (encrypt_file p file key base_nonce metadata
            ≡ ok ((base_nonce ++ (le_bytes 8 (length file) ++ [])) ++ flatten chunks))
  unfolding encrypt_file flatten
  encrypt_file_v1 metadata plain =
      let (chunks, e) =
        encrypt_chunks_total p sound base_nonce key sized keyed file (suc (length file)) 0 0
          (omega arith) in
      (chunks, e, rw (keyed, file_header_v1 metadata plain, e))

  pub encrypt_file_v2 :
      (metadata : Option String) (text : String)
      → truthy metadata ≡ some text
      → (s : Sealed) × (chunks : List Bytes) × (p.encrypt_detached
            (p.encode text)
            (derive_chunk_nonce base_nonce metadata_index)
            key
          ≡ some s)
        × (encrypt_chunks p file base_nonce key (suc (length file)) 0 0 ≡ ok chunks)
        × (encrypt_file p file key base_nonce metadata
            ≡ ok (start_v2 base_nonce (length file) (length (p.encode text)) s ++ flatten chunks))
  unfolding encrypt_file flatten
  encrypt_file_v2 metadata text given =
      let (chunks, e) =
        encrypt_chunks_total p sound base_nonce key sized keyed file (suc (length file)) 0 0
          (omega arith) in
      let (s, sealed) =
        seal_chunk p sound base_nonce key sized keyed (p.encode text) metadata_index in
      (s, chunks, sealed, e, rw (keyed, file_header_v2 metadata text s given sealed, e))

pub data_offset_marked :
    (p : Platform) (blob : Bytes) (m : ℕ)
    → has_metadata p blob ≡ true
    → metadata_size p blob ≡ m
    → data_offset p blob ≡ 56 + m
unfolding data_offset
data_offset_marked p blob m h e = rw (h, data_offset, e) (omega arith)

pub data_offset_plain :
    (p : Platform) (blob : Bytes) → has_metadata p blob ≡ false → data_offset p blob ≡ 32
unfolding data_offset
data_offset_plain p blob h = rw (h, data_offset) refl

start_v2-split :
    (base_nonce rest : Bytes) (n m : ℕ) (s : Sealed)
    → start_v2 base_nonce n m s ++ rest
      ≡ base_nonce
        ++ (le_bytes 8 n ++ (magic_bytes ++ (le_bytes 4 m ++ ((s.mac ++ s.ciphertext) ++ rest))))
start_v2-split base_nonce rest n m s =
    let size : Bytes = le_bytes 8 n ++ (magic_bytes ++ le_bytes 4 m) in
    append_assoc (base_nonce ++ size) (s.mac ++ s.ciphertext) rest
    ∙ append_assoc base_nonce size ((s.mac ++ s.ciphertext) ++ rest)

module _ (p : Platform) (sound : IsSound p) (base_nonce key : Bytes)
    (sized : length base_nonce ≡ nonce_size) (keyed : length key ≡ key_size) where
  -- What the readers find in anything that begins with a v2 header.
  pub record ReadsV2 (blob : Bytes) (n m : ℕ) : Type 0 where
    pub nonce : slice blob 0 nonce_size ≡ base_nonce
    pub size : expected_size p blob ≡ n
    pub long : nonce_size + 8 ≤ length blob
    pub marked : has_metadata p blob ≡ true
    pub counted : metadata_size p blob ≡ m
    pub behind : data_offset p blob ≡ 56 + m

  pub start_v2-ReadsV2 :
      (n m : ℕ) (s : Sealed) (rest : Bytes)
      → n < 2 ^ 64
      → m < 2 ^ 32
      → ReadsV2 (start_v2 base_nonce n m s ++ rest) n m
  start_v2-ReadsV2 n m s rest hn hm =
      let all : Bytes = (s.mac ++ s.ciphertext) ++ rest in
      let (nonce, size, long) =
        read_start p base_nonce sized n (magic_bytes ++ (le_bytes 4 m ++ all)) hn in
      let (marked, counted) = read_v2 p base_nonce sized sound n m all hm in
      rw (start_v2-split base_nonce rest n m s) (record {
        nonce = nonce;
        size = size;
        long = long;
        marked = marked;
        counted = counted;
        behind = data_offset_marked p _ m marked counted;
      })

  pub length-start_v2 :
      (n m : ℕ) (s : Sealed)
      → length s.mac ≡ mac_size
      → length s.ciphertext ≡ m
      → length (start_v2 base_nonce n m s) ≡ 56 + m
  length-start_v2 n m s hm hc = omega (
    arith,
    length-append (base_nonce ++ (le_bytes 8 n ++ (magic_bytes ++ le_bytes 4 m)))
        (s.mac ++ s.ciphertext),
    length-append base_nonce (le_bytes 8 n ++ (magic_bytes ++ le_bytes 4 m)),
    length-append s.mac s.ciphertext,
    sized,
  )

  -- The metadata is read from any blob that begins with the whole v2 header.
  pub extract_metadata_v2 :
      (n : ℕ) (text rest : Bytes) (s : Sealed)
      → n < 2 ^ 64
      → length text < 2 ^ 32
      → p.encrypt_detached text (derive_chunk_nonce base_nonce metadata_index) key ≡ some s
      → extract_metadata p (start_v2 base_nonce n (length text) s ++ rest) key
        ≡ ok (record { metadata = some (p.decode text); data_start = 56 + length text; size = n })
  unfolding extract_metadata
  extract_metadata_v2 n text rest s hn hm sealed =
      let m = length text in
      let pre : Bytes = base_nonce ++ (le_bytes 8 n ++ (magic_bytes ++ le_bytes 4 m)) in
      let body : Bytes = s.mac ++ s.ciphertext in
      let r = start_v2-ReadsV2 n m s rest hn hm in
      let blob : Bytes = start_v2 base_nonce n m s ++ rest in
      let mac = sound.length-mac sealed in
      let cipher = sound.length-ciphertext sealed in
      let wide : length (start_v2 base_nonce n m s) ≡ 56 + m = length-start_v2 n m s mac cipher in
      let whole : 56 + m ≤ length blob =
        omega (arith, length-append (start_v2 base_nonce n m s) rest) in
      let cut : slice blob 40 (56 + m) ≡ body = rw (append_assoc pre body rest) (
        slice_middle pre body rest 40 (56 + m)
          (omega (
            arith,
            sized,
            length-append base_nonce (le_bytes 8 n ++ (magic_bytes ++ le_bytes 4 m)),
          ))
          (omega (arith, length-append s.mac s.ciphertext))) in
      rw (keyed, le→ltb _ _ r.long, r.marked, r.counted, le→ltb _ _ whole, cut, r.nonce, r.size)
        (rw
          (drop-append mac_size s.mac s.ciphertext mac, take-append mac_size s.mac s.ciphertext mac)
          (rw (sound.opens sealed) refl))
