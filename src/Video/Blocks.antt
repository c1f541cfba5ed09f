-- ===== src/Video/Blocks.antt =====
-- What a pipeline does with the bytes of its block: `runChunkPipeline`, up to the messages that it sends to
-- the transmux worker, and `sendToCryptoWorker`. The answers to `s.aborted || s.seekGeneration !== generation`
-- are an argument, by the number of the check; the answers of the transmux worker and the outcomes of
-- `appendToSourceBuffer` are too, by the chunk.
pub mod Decrypted
use save_box.Prelude.{
  ℕ, zero, suc, ◌+◌, Bool, true, false, Option, some, none, List, [], ◌∷◌, Result, ok, throw, ◌>>=◌,
  ◌==◌, if◌then◌else◌,
}
use save_box.Prelude.Words.{Bytes, slice}
use save_box.Crypto.Platform.{mac_size, Platform}
use save_box.Crypto.Worker.{
  State as WorkerState, Message, decrypt_chunk, Reply, chunk_decrypted, error, Failure, on_message,
}
use save_box.Video.{Pipeline}
use save_box.Video.Schedule.{chunk_plaintext_bytes}

-- `unanswered` stands for a promise that stays pending.
pub data BlockError : Type 0 where
  crypto_worker : Failure → BlockError
  -- an answer `ERROR` of the transmux worker
  transmux_worker : BlockError
  -- what `appendToSourceBuffer` throws
  not_appended : BlockError
  unanswered : BlockError

-- `TRANSMUX_CHUNK`
pub record TransmuxChunk : Type 0 where
  pub decrypted_chunk : Bytes
  pub chunk_index : ℕ
  pub is_last_chunk : Bool

-- The listener passes over replies for another chunk.
unfoldable pub answer_for : ℕ → Option Reply → Result BlockError Bytes
answer_for index none = throw unanswered
answer_for index (some (chunk_decrypted plaintext i)) =
    if i == index then ok plaintext else throw unanswered
answer_for index (some (error i failure)) =
    if i == index then throw (crypto_worker failure) else throw unanswered

module _ (p : Platform) (worker : WorkerState) (fdk base_nonce : Bytes)
    (plaintext_size total_chunks : ℕ) (is_stale : ℕ → Bool)
    (transmuxed appended : ℕ → Result BlockError (Unit {0})) where
  unfoldable pub send_to_crypto_worker : Bytes → ℕ → Result BlockError Bytes
  unfolding answer_for
  send_to_crypto_worker encrypted_chunk index =
      answer_for index (on_message p worker (decrypt_chunk encrypted_chunk fdk base_nonce index)).1

  -- The rest of the loop's body, once the message has been sent: whether the loop goes on, and the error.
  unfoldable pub append_segments : ℕ → ℕ → Bool × Option BlockError
  append_segments check index = elim (transmuxed index) [
    | throw e ↦ (false, some e)
    | ok _ ↦
        if is_stale check
        then (false, none)
        else elim (appended index) [ throw e ↦ (false, some e) | ok _ ↦ (true, none) ]
  ]

  -- The `for` loop, with the chunks that are left: the messages that it sends, and the error it ends with.
  unfoldable pub process_chunks : ℕ → Bytes → ℕ → ℕ → ℕ → List TransmuxChunk × Option BlockError
  unfolding send_to_crypto_worker append_segments
  process_chunks check full_buffer offset index zero = ([], none)
  process_chunks check full_buffer offset index (suc left) =
      let bytes = mac_size + chunk_plaintext_bytes plaintext_size total_chunks index in
      let rest = process_chunks (check + 2) full_buffer (offset + bytes) (index + 1) left in
      elim (send_to_crypto_worker (slice full_buffer offset (offset + bytes)) index) [
        | throw e ↦ ([], some e)
        | ok decrypted ↦
            let message : TransmuxChunk = record {
              decrypted_chunk = decrypted;
              chunk_index = index;
              is_last_chunk = index + 1 == total_chunks;
            } in
            let (goes_on, e) = append_segments (check + 1) index in
            if is_stale check
            then ([], none)
            else (if goes_on then (message ∷ rest.0, rest.1) else (message ∷ [], e))
      ]

  -- Once the fetch has brought the block's bytes.
  unfoldable pub run_chunk_pipeline : Pipeline → Bytes → List TransmuxChunk × Option BlockError
  unfolding process_chunks
  run_chunk_pipeline block full_buffer =
      if is_stale 0
      then ([], none)
      else (if is_stale 1
          then ([], none)
          else process_chunks 2 full_buffer 0 block.start_chunk_idx block.chunks_to_fetch)
