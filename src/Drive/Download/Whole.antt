-- ===== src/Drive/Download/Whole.antt =====
-- A download, however often it is paused, saves the file that was encrypted.
use save_box.Prelude.{
  ℕ, suc, ◌+◌, ◌-◌, ◌^◌, ◌≤◌, ◌<◌, ◌≡◌, refl, ap, ◌∙◌, ◌⊎◌, false, inl, inr, Option, some, none,
  List, [], ◌∷◌, ◌++◌, flatten, String, ok, arith, length, take, le→ltb, append_assoc,
  length-append, take-append_le, drop-append,
}
use save_box.Prelude.Words.{Bytes, slice}
use save_box.Crypto.Platform.{nonce_size, key_size, Platform, IsSound}
use save_box.Prelude.Words.{le_bytes, length-le_bytes}
use save_box.Crypto.Kasumi.Headers.{read_start}
use save_box.Crypto.Kasumi.{encrypt_file, extract_metadata, truthy, has_metadata, expected_size}
use save_box.Crypto.Kasumi.Guarantees.{extract_metadata-encrypt_file_decoded}
use save_box.Crypto.Kasumi.RoundTrip.{
  start_v2, encrypt_file_v1, encrypt_file_v2, start_v2-ReadsV2, length-start_v2,
}
use save_box.Drive.Download.{
  DownloadState, Attempt, saved, failed, request_failed, header_fetch_size, start_download,
  run_attempts,
}
use save_box.Drive.Download.Round.{IsAt}
use save_box.Drive.Download.Runs.{AreHonest, EndsWell, run_attempts-EndsWell, run_attempts-saves}

module _ (p : Platform) (sound : IsSound p) (file base_nonce key : Bytes) (metadata : Option String)
    (sized : length base_nonce ≡ nonce_size) (keyed : length key ≡ key_size)
    (small : length file < 2 ^ 64) where
  -- The state that the header of an encrypted file gives.
  start_download-IsAt_marked :
      (text : String) (blob : Bytes)
      → truthy metadata ≡ some text
      → 56 + length (p.encode text) ≤ header_fetch_size
      → encrypt_file p file key base_nonce metadata ≡ ok blob
      → (s : DownloadState) × (start_download p (slice blob 0 header_fetch_size) key ≡ ok s)
        × IsAt p sound file blob base_nonce key sized keyed s
  unfolding start_download flatten
  start_download-IsAt_marked text blob given room made =
      let fits : length (p.encode text) < 2 ^ 32 = omega arith in
      let (c, chunks, sealed, e, made') =
        encrypt_file_v2 p sound file base_nonce key sized keyed small metadata text given in
      let m = length (p.encode text) in
      let start : Bytes = start_v2 base_nonce (length file) m c in
      let shape : blob ≡ start ++ flatten chunks = cc in
      let wide =
        length-start_v2 p sound base_nonce key sized keyed (length file) m c
          (sound.length-mac sealed) (sound.length-ciphertext sealed) in
      let tail : Bytes = take (header_fetch_size - length start) (flatten chunks) in
      let front : slice blob 0 header_fetch_size ≡ start ++ tail =
        rw shape (take-append_le header_fetch_size start (flatten chunks) (omega arith)) in
      let r =
        start_v2-ReadsV2 p sound base_nonce key sized keyed (length file) m c tail small fits in
      let meta =
        extract_metadata-encrypt_file_decoded p sound file base_nonce key metadata sized keyed small
          text header_fetch_size blob given fits room made in
      (
        record {
          fdk = key;
          base_nonce = slice (slice blob 0 header_fetch_size) 0 nonce_size;
          expected_size = length file;
          plaintext_chunks = [];
          decrypted_bytes = 0;
          current_offset = 56 + m;
          chunk_index = 0;
        },
        rw meta refl,
        record {
          fuel = suc (length file);
          offset = 0;
          chunks = chunks;
          nonce = rw front r.nonce;
          fdk = refl;
          expected = refl;
          counted = omega arith;
          encrypted = e;
          left = rw shape (drop-append (56 + m) start (flatten chunks) wide);
          decrypted = refl;
        },
      )

  start_download-IsAt_plain :
      (blob : Bytes)
      → truthy metadata ≡ none
      → has_metadata p (slice blob 0 header_fetch_size) ≡ false
      → encrypt_file p file key base_nonce metadata ≡ ok blob
      → (s : DownloadState) × (start_download p (slice blob 0 header_fetch_size) key ≡ ok s)
        × IsAt p sound file blob base_nonce key sized keyed s
  unfolding start_download extract_metadata flatten
  start_download-IsAt_plain blob plain unmarked made =
      let (chunks, e, made') =
        encrypt_file_v1 p sound file base_nonce key sized keyed small metadata plain in
      let start : Bytes = base_nonce ++ (le_bytes 8 (length file) ++ []) in
      let shape : blob ≡ start ++ flatten chunks = cc in
      let wide : length start ≡ 32 = omega (
        arith,
        sized,
        length-append base_nonce (le_bytes 8 (length file) ++ []),
        length-append (le_bytes 8 (length file)) [],
        length-le_bytes 8 (length file),
      ) in
      let tail : Bytes = take (header_fetch_size - length start) (flatten chunks) in
      let front : slice blob 0 header_fetch_size
          ≡ base_nonce ++ (le_bytes 8 (length file) ++ tail) =
        rw shape (take-append_le header_fetch_size start (flatten chunks) (omega arith))
        ∙ (append_assoc base_nonce (le_bytes 8 (length file) ++ []) tail
            ∙ ap (λ (b : Bytes). base_nonce ++ b)
                (append_assoc (le_bytes 8 (length file)) [] tail)) in
      let (nonce, size, long) = read_start p base_nonce sized (length file) tail small in
      let long' : 32 ≤ length (slice blob 0 header_fetch_size) = rw front long in
      let size' : expected_size p (slice blob 0 header_fetch_size) ≡ length file = rw front size in
      (
        record {
          fdk = key;
          base_nonce = slice (slice blob 0 header_fetch_size) 0 nonce_size;
          expected_size = length file;
          plaintext_chunks = [];
          decrypted_bytes = 0;
          current_offset = 32;
          chunk_index = 0;
        },
        rw (keyed, le→ltb _ _ long', unmarked, size') refl,
        record {
          fuel = suc (length file);
          offset = 0;
          chunks = chunks;
          nonce = rw front nonce;
          fdk = refl;
          expected = refl;
          counted = omega arith;
          encrypted = e;
          left = rw shape (drop-append 32 start (flatten chunks) wide);
          decrypted = refl;
        },
      )

  -- The header shows what the file has: its metadata fits in the first bytes, or it has none and they do
  -- not read as a header with metadata.
  abbrev pub IsReadable : Bytes → Type 0
  IsReadable blob =
      ((text : String) × (truthy metadata ≡ some text)
        × (56 + length (p.encode text) ≤ header_fetch_size))
      ⊎ ((truthy metadata ≡ none) × (has_metadata p (slice blob 0 header_fetch_size) ≡ false))

  start_download-IsAt :
      (blob : Bytes)
      → IsReadable blob
      → encrypt_file p file key base_nonce metadata ≡ ok blob
      → (s : DownloadState) × (start_download p (slice blob 0 header_fetch_size) key ≡ ok s)
        × IsAt p sound file blob base_nonce key sized keyed s
  start_download-IsAt blob (inl (text, given, room)) made =
      start_download-IsAt_marked text blob given room made
  start_download-IsAt blob (inr (plain, unmarked)) made =
      start_download-IsAt_plain blob plain unmarked made

  -- With a nonce and a key of the right sizes and a file below 2^64 bytes whose header is readable in the
  -- first 131072 bytes of the blob, a download begins, and if the server sends what is asked for or nothing,
  -- then after any runs that pauses cut short it has saved the file, or is paused, or a request has failed.
  pub run_attempts-encrypt_file :
      (blob : Bytes) (a : Attempt) (attempts : List Attempt)
      → IsReadable blob
      → encrypt_file p file key base_nonce metadata ≡ ok blob
      → AreHonest blob (a ∷ attempts)
      → (s : DownloadState) × (start_download p (slice blob 0 header_fetch_size) key ≡ ok s)
        × EndsWell file (run_attempts p s a attempts)
  run_attempts-encrypt_file blob a attempts readable made honest =
      let (s, begun, at) = start_download-IsAt blob readable made in
      (
        s,
        begun,
        run_attempts-EndsWell p sound file blob base_nonce key sized keyed s a attempts honest at,
      )

  -- With a nonce and a key of the right sizes and a file below 2^64 bytes whose header is readable in the
  -- first 131072 bytes of the blob, a download begins, and if the server sends what is asked for or nothing,
  -- and a last run is not paused and each of its requests is answered, then the file has been saved, or a
  -- request of an earlier run has failed.
  pub run_attempts-encrypt_file_saves :
      (blob : Bytes) (a b : Attempt) (attempts : List Attempt)
      → IsReadable blob
      → encrypt_file p file key base_nonce metadata ≡ ok blob
      → AreHonest blob (a ∷ attempts)
      → ((round start last : ℕ) → b.server round start last ≡ ok (slice blob start (last + 1)))
      → ((round : ℕ) → b.pauses round ≡ false)
      → (s : DownloadState) × (start_download p (slice blob 0 header_fetch_size) key ≡ ok s)
        × ((run_attempts p s a (attempts ++ b ∷ []) ≡ saved file)
            ⊎ ((status : ℕ) × (run_attempts p s a (attempts ++ b ∷ [])
                  ≡ failed (request_failed status))))
  run_attempts-encrypt_file_saves blob a b attempts readable made honest answers goes =
      let (s, begun, at) = start_download-IsAt blob readable made in
      (
        s,
        begun,
        run_attempts-saves p sound file blob base_nonce key sized keyed s a b attempts honest
            answers goes at,
      )
