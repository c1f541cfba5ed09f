-- ===== src/Video/Blocks/Decrypted.antt =====
-- The blocks of a file that `encryptFile` wrote.
use save_box.Prelude.{
  ℕ, zero, suc, ◌+◌, ◌-◌, ◌*◌, ◌≤◌, ◌<◌, min, ◌≡◌, refl, sym, ap, ◌∙◌, Bool, true, false, inl, inr,
  some, none, Result, List, [], ◌∷◌, ◌++◌, flatten, ok, arith, length, take, drop, length-append,
  take-append, drop-append, drop-drop, take-append_le, ◌==◌, ==_iff, Bool-cases,
}
use mathlib.Core.Path.{ap₂}
use save_box.Prelude.Words.{Bytes, slice}
use save_box.Crypto.Platform.{nonce_size, mac_size, key_size, Sealed, Platform, IsSound}
use save_box.Crypto.Kasumi.{chunk_size, encrypt_chunks}
use save_box.Crypto.Kasumi.Chunks.{length-slice_chunk}
use save_box.Crypto.Nonce.{derive_chunk_nonce}
use save_box.Crypto.Worker.{State as WorkerState, on_message-sealed}
use save_box.Drive.Download.Round.{next_chunk}
use save_box.Video.{Pipeline}
use save_box.Video.Schedule.{chunk_plaintext_bytes}
use save_box.Video.Run.{chunks_of}
use save_box.Video.Run.Order.{byte_at, chunks_of_bound, chunks_of_inside, byte_at_suc, byte_at_le}
use save_box.Video.Blocks.{
  BlockError, append_segments, TransmuxChunk, send_to_crypto_worker, answer_for, process_chunks,
  run_chunk_pipeline,
}

-- What the transmux worker is to get: the plaintext of each chunk with its index.
unfoldable pub messages_from : Bytes → ℕ → ℕ → List TransmuxChunk
messages_from file index zero = []
messages_from file index (suc left) =
    record {
      decrypted_chunk = slice file (index * chunk_size) (index * chunk_size + chunk_size);
      chunk_index = index;
      is_last_chunk = index + 1 == chunks_of (length file);
    }
    ∷ messages_from file (index + 1) left

abbrev never : ℕ → Bool
never check = false

chunk_plaintext_bytes-min :
    (size index : ℕ)
    → index < chunks_of size
    → chunk_plaintext_bytes size (chunks_of size) index ≡ min chunk_size (size - index * chunk_size)
unfolding chunk_plaintext_bytes
chunk_plaintext_bytes-min size index before =
    let bound = chunks_of_bound size in
    elim (Bool-cases (index + 1 == chunks_of size)) [
      | inl at_end ↦
          let final : index + 1 ≡ chunks_of size = (==_iff _ _).0 at_end in rw at_end (omega arith)
      | inr amid ↦
          let more_left : index + 1 < chunks_of size = ground arith in
          let room = chunks_of_inside size (index + 1) more_left in rw amid (omega arith)
    ]

byte_at_zero : (offset size : ℕ) → byte_at offset size 0 ≡ offset
unfolding byte_at
byte_at_zero offset size = omega arith

byte_at_offset : (offset size index : ℕ) → byte_at offset size index ≡ offset + byte_at 0 size index
unfolding byte_at
byte_at_offset offset size index = omega arith

module _ (p : Platform) (sound : IsSound p) (file base_nonce key : Bytes)
    (sized : length base_nonce ≡ nonce_size) (keyed : length key ≡ key_size) where
  -- A chunk of the file, sealed, and what encryptFile pushes behind it.
  next_sealed :
      (f index : ℕ) (chunks : List Bytes)
      → index < chunks_of (length file)
      → encrypt_chunks p file base_nonce key f (index * chunk_size) index ≡ ok chunks
      → (g : ℕ) × (s : Sealed) × (rest : List Bytes) × (p.encrypt_detached
            (slice file (index * chunk_size) (index * chunk_size + chunk_size))
            (derive_chunk_nonce base_nonce index)
            key
          ≡ some s)
        × (encrypt_chunks p file base_nonce key g ((index + 1) * chunk_size) (index + 1) ≡ ok rest)
        × (chunks ≡ (s.mac ++ s.ciphertext) ∷ rest)
        × (length (s.mac ++ s.ciphertext)
            ≡ mac_size + chunk_plaintext_bytes (length file) (chunks_of (length file)) index)
  next_sealed f index chunks before e =
      let inside = chunks_of_inside (length file) index before in
      let (g, s, rest, sealed, later, shape) =
        next_chunk p sound file file base_nonce key sized keyed f (index * chunk_size) index chunks
          inside e in
      let step : index * chunk_size + chunk_size ≡ (index + 1) * chunk_size = omega arith in
      let plain = length-slice_chunk p sound base_nonce key sized keyed file (index * chunk_size) in
      (
        g,
        s,
        rest,
        sealed,
        rw⁻¹ step later,
        shape,
        length-append s.mac s.ciphertext
            ∙ omega (
              arith,
              sound.length-mac sealed,
              sound.length-ciphertext sealed,
              plain,
              chunk_plaintext_bytes-min (length file) index before,
            ),
      )

  -- What is left of the file from a chunk on.
  at_chunk :
      (blob : Bytes) (offset f : ℕ) (chunks : List Bytes)
      → encrypt_chunks p file base_nonce key f 0 0 ≡ ok chunks
      → drop offset blob ≡ flatten chunks
      → (index : ℕ) → index ≤ chunks_of (length file)
      → (g : ℕ) × (later : List Bytes) × (encrypt_chunks p file base_nonce key g
            (index * chunk_size)
            index
          ≡ ok later)
        × (drop (byte_at offset (length file) index) blob ≡ flatten later)
  unfolding flatten
  at_chunk blob offset f chunks e left zero h =
      (f, chunks, e, rw (byte_at_zero offset (length file)) left)
  at_chunk blob offset f chunks e left (suc index) h =
      let (g, later, e', left') = at_chunk blob offset f chunks e left index (omega arith) in
      let (g', s, rest, sealed, e'', shape, whole) = next_sealed g index later (omega arith) e' in
      let front : drop (byte_at offset (length file) index) blob
          ≡ (s.mac ++ s.ciphertext) ++ flatten rest =
        left' ∙ ap flatten shape in
      let step = byte_at_suc offset (length file) index (omega arith) in
      let up : suc index ≡ index + 1 = omega arith in
      rw up (
        g',
        rest,
        e'',
        ap (λ (k : ℕ). drop k blob) step
            ∙ (sym (drop-drop (byte_at offset (length file) index) _ blob)
                ∙ (ap (drop _) front ∙ drop-append _ (s.mac ++ s.ciphertext) (flatten rest) whole)),
      )

  -- The loop over a block, from any chunk of it on.
  process_chunks-messages_from :
      (transmuxed appended : ℕ → Result BlockError (Unit {0}))
      → ((i : ℕ) → transmuxed i ≡ ok tt)
      → ((i : ℕ) → appended i ≡ ok tt)
      → (worker : WorkerState) (full_buffer : Bytes) (left check offset f index : ℕ)
        (chunks : List Bytes)
      → index + left ≤ chunks_of (length file)
      → encrypt_chunks p file base_nonce key f (index * chunk_size) index ≡ ok chunks
      → drop offset full_buffer
        ≡ take
            (byte_at 0 (length file) (index + left) - byte_at 0 (length file) index)
            (flatten chunks)
      → process_chunks p worker key base_nonce
          (length file)
          (chunks_of (length file))
          never
          transmuxed
          appended
          check
          full_buffer
          offset
          index
          left
        ≡ (messages_from file index left, none)
  unfolding process_chunks append_segments messages_from send_to_crypto_worker answer_for flatten
  process_chunks-messages_from transmuxed appended passes fits worker full_buffer zero check offset
        f index chunks h e front =
      refl
  process_chunks-messages_from transmuxed appended passes fits worker full_buffer (suc left) check
        offset f index chunks h e front =
      let size = length file in
      let (g, s, rest, sealed, e', shape, whole) = next_sealed f index chunks (omega arith) e in
      let step = byte_at_suc 0 size index (omega arith) in
      let mono = byte_at_le 0 size (index + 1) left in
      let width = mac_size + chunk_plaintext_bytes size (chunks_of size) index in
      let up : index + suc left ≡ index + 1 + left = omega arith in
      let room : length (s.mac ++ s.ciphertext)
          ≤ byte_at 0 size (index + suc left) - byte_at 0 size index =
        rw up (omega (arith, step, mono, whole)) in
      let cut : drop offset full_buffer
          ≡ (s.mac ++ s.ciphertext)
            ++ take
                (byte_at 0 size (index + suc left)
                  - byte_at 0 size index
                  - length (s.mac ++ s.ciphertext))
                (flatten rest) =
        front
        ∙ (ap (take _) (ap flatten shape) ∙ take-append_le _ (s.mac ++ s.ciphertext) _ room) in
      let back : byte_at 0 size (index + suc left)
            - byte_at 0 size index
            - length (s.mac ++ s.ciphertext)
          ≡ byte_at 0 size (index + 1 + left) - byte_at 0 size (index + 1) =
        rw up (omega (arith, step, mono, whole)) in
      let here : slice full_buffer offset (offset + width) ≡ s.mac ++ s.ciphertext =
        ap (λ (k : ℕ). take k (drop offset full_buffer)) (omega arith)
        ∙ (ap (take width) cut ∙ take-append width (s.mac ++ s.ciphertext) _ whole) in
      let next : drop (offset + width) full_buffer
          ≡ take (byte_at 0 size (index + 1 + left) - byte_at 0 size (index + 1)) (flatten rest) =
        sym (drop-drop offset width full_buffer)
        ∙ (ap (drop width) cut
            ∙ (drop-append width (s.mac ++ s.ciphertext) _ whole
                ∙ ap (λ (k : ℕ). take k (flatten rest)) back)) in
      let answered = on_message-sealed p worker _ base_nonce key index s sound sealed in
      let ih =
        process_chunks-messages_from transmuxed appended passes fits worker full_buffer left
          (check + 2) (offset + width) g (index + 1) rest (omega arith) e' next in
      let same : (index == index) ≡ true = (==_iff index index).1 refl in
      let file_part = slice file (index * chunk_size) (index * chunk_size + chunk_size) in
      let sent : send_to_crypto_worker p worker key base_nonce size (chunks_of size) never
            transmuxed appended (slice full_buffer offset (offset + width)) index
          ≡ ok file_part =
        rw (here, answered) (rw same refl) in
      let goes_on : append_segments p worker key base_nonce size (chunks_of size) never transmuxed
            appended (check + 1) index
          ≡ (true, none) =
        rw (passes index, append_segments, fits index) refl in
      rw (sent, process_chunks, goes_on, ih) refl

  -- What the pipeline of a block sends to the transmux worker, as long as the stream stays current: for a
  -- file that encryptFile wrote, requested by the block's range, the plaintext of each of its chunks, in
  -- order, each with its index, and it ends without an error, if the transmux worker rejects none of
  -- them and every append succeeds.
  pub run_chunk_pipeline-encrypt_chunks :
      (transmuxed appended : ℕ → Result BlockError (Unit {0}))
      → ((i : ℕ) → transmuxed i ≡ ok tt)
      → ((i : ℕ) → appended i ≡ ok tt)
      → (worker : WorkerState) (blob : Bytes) (offset f : ℕ) (chunks : List Bytes)
        (block : Pipeline)
      → encrypt_chunks p file base_nonce key f 0 0 ≡ ok chunks
      → drop offset blob ≡ flatten chunks
      → block.start_chunk_idx + block.chunks_to_fetch ≤ chunks_of (length file)
      → block.range_start ≡ byte_at offset (length file) block.start_chunk_idx
      → block.range_end + 1
        ≡ byte_at offset (length file) (block.start_chunk_idx + block.chunks_to_fetch)
      → run_chunk_pipeline p worker key base_nonce
          (length file)
          (chunks_of (length file))
          never
          transmuxed
          appended
          block
          (slice blob block.range_start (block.range_end + 1))
        ≡ (messages_from file block.start_chunk_idx block.chunks_to_fetch, none)
  unfolding run_chunk_pipeline
  run_chunk_pipeline-encrypt_chunks transmuxed appended passes fits worker blob offset f chunks
        block e left within begins ends =
      let start = block.start_chunk_idx in
      let count = block.chunks_to_fetch in
      let (g, later, e', left') = at_chunk blob offset f chunks e left start (omega arith) in
      let shift = byte_at_offset offset (length file) start in
      let shift' = byte_at_offset offset (length file) (start + count) in
      let front : slice blob block.range_start (block.range_end + 1)
          ≡ take (byte_at 0 (length file) (start + count) - byte_at 0 (length file) start)
              (flatten later) =
        ap₂ (λ (k : ℕ) (b : Bytes). take k b) (omega (arith, begins, ends, shift, shift'))
          (ap (λ (k : ℕ). drop k blob) begins ∙ left') in
      process_chunks-messages_from transmuxed appended passes fits worker _ count 2 0 g start later
        within e' front
