-- ===== src/Video.antt =====
-- The player of an encrypted video: VideoStreamService
-- (frontend/src/app/features/drive/services/video-stream.service.ts). Times are counted in milliseconds.
pub mod Buffered
pub mod Schedule
pub mod Seeking
pub mod Run
pub mod Blocks
pub mod Bootstrap
pub mod Fetch
mod Tests
use save_box.Prelude.{ℕ, Bool, Option, List}

-- A range of `SourceBuffer.buffered`.
pub record TimeRange : Type 0 where
  pub from : ℕ
  pub to : ℕ

-- A SourceBuffer: its ranges, in the order in which the browser lists them, and its `updating`.
pub record Track : Type 0 where
  pub buffered : List TimeRange
  pub updating : Bool

pub data ReadyState : Type 0 where
  is_open is_ended is_closed : ReadyState

-- With what a pipeline was rejected.
pub data PipelineError : Type 0 where
  fetch_aborted append_failed : PipelineError
  other_error : ℕ → PipelineError

-- What one call of `scheduleNextChunk` sets off: its captured generation, its block of chunks, the range
-- that it requests, and the number of its AbortController.
pub record Pipeline : Type 0 where
  pub controller : ℕ
  pub captured_generation : ℕ
  pub start_chunk_idx : ℕ
  pub chunks_to_fetch : ℕ
  pub range_start : ℕ
  pub range_end : ℕ

-- A call of `clearAndResume` that waits for the worker's answer.
pub record Seek : Type 0 where
  pub wanted_generation : ℕ
  pub seek_time : ℕ

-- `StreamState` with the signals of the service. `pipelines` are the promises that have not been settled,
-- `evictions` and `seeks` the calls of `evictStaleRanges` and `clearAndResume` that are to run, `requested`
-- the pipelines that `scheduleNextChunk` has begun, in order (not the requests: those of a retry and of the start
-- are not among them), `aborted_fetches` the controllers that were aborted, `restart_at` the start of the stream that takes this one's place.
pub record Stream : Type 0 where
  pub is_google_drive : Bool
  pub plaintext_size : ℕ
  pub total_chunks : ℕ
  pub data_offset : ℕ
  pub video_duration : ℕ
  pub ready_state : ReadyState
  pub source_buffers : List Track
  pub next_chunk_index : ℕ
  pub active_downloads : ℕ
  pub seek_generation : ℕ
  pub current_fetches : List ℕ
  pub aborted_fetches : List ℕ
  pub next_controller : ℕ
  pub seek_debounced : Bool
  pub aborted : Bool
  pub has_listeners : Bool
  pub is_streaming : Bool
  pub buffer_progress : ℕ
  pub is_seeking : Bool
  pub is_buffering : Bool
  pub stream_error : Option PipelineError
  pub original_bitrate_warning : Bool
  pub pipelines : List Pipeline
  pub evictions : List ℕ
  pub seeks : List Seek
  pub requested : List Pipeline
  pub restart_at : Option ℕ
