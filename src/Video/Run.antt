-- ===== src/Video/Run.antt =====
-- The runs of a stream: the events of the video element, the settled pipelines, the answers of the worker
-- and the calls of the service, in any order.
pub mod Keeps
pub mod Generations
pub mod Counters
pub mod Effects
pub mod Order
pub mod Silence
pub mod Starving
pub mod Ending
use save_box.Prelude.{ℕ, ◌+◌, ◌-◌, ◌*◌, ◌/◌, ◌≡◌, Bool, true, false, none, List, [], ◌∷◌, ◌++◌}
use save_box.Crypto.Kasumi.{chunk_size}
use save_box.Video.{TimeRange, Track, Stream, Pipeline, PipelineError, is_open, Seek}
use save_box.Video.Schedule.{
  schedule_next_chunk, on_timeupdate_tick, pipeline_done, pipeline_failed, destroy_stream,
}
use save_box.Video.Seeking.{on_seeking, seek_timer, resume, clear_tracks, evict_stale_ranges}

-- `Math.ceil(plaintextSize / CHUNK_SIZE)`
unfoldable pub chunks_of : ℕ → ℕ
chunks_of plaintext_size = (plaintext_size + chunk_size - 1) / chunk_size

-- The stream after `bootstrapLastChunk`, which tells the chunk to start with and the tracks.
unfoldable pub started : Bool → ℕ → ℕ → ℕ → ℕ → List Track → Stream
unfolding chunks_of
started is_google_drive plaintext_size data_offset duration first tracks = record {
  is_google_drive = is_google_drive;
  plaintext_size = plaintext_size;
  total_chunks = chunks_of plaintext_size;
  data_offset = data_offset;
  video_duration = duration;
  ready_state = is_open;
  source_buffers = tracks;
  next_chunk_index = first;
  active_downloads = 0;
  seek_generation = 0;
  current_fetches = [];
  aborted_fetches = [];
  next_controller = 0;
  seek_debounced = false;
  aborted = false;
  has_listeners = true;
  is_streaming = true;
  buffer_progress = 0;
  is_seeking = false;
  is_buffering = true;
  stream_error = none;
  original_bitrate_warning = false;
  pipelines = [];
  evictions = [];
  seeks = [];
  requested = [];
  restart_at = none;
}

-- A settled pipeline leaves the list.
abbrev pub settled : List Pipeline → List Pipeline → Stream → Stream
settled before after s = record s { pipelines = before ++ after }

-- The steps that are not part of a seek.
pub data Play (s : Stream) : Stream → Type 0 where
  primed : Play s (schedule_next_chunk s)
  ticked : (time : ℕ) → Play s (on_timeupdate_tick time s)
  done :
      (time : ℕ) (before after : List Pipeline) (p : Pipeline)
      → s.pipelines ≡ before ++ p ∷ after
      → Play s (pipeline_done time p (settled before after s))
  failed :
      (time : ℕ) (error : PipelineError) (before after : List Pipeline) (p : Pipeline)
      → s.pipelines ≡ before ++ p ∷ after
      → Play s (pipeline_failed time error p (settled before after s))
  evicted :
      (remove : ℕ → ℕ → List TimeRange → List TimeRange) (is_removing : Bool)
      (before after : List ℕ) (time : ℕ)
      → s.evictions ≡ before ++ time ∷ after
      → Play s
          (evict_stale_ranges remove is_removing time (record s { evictions = before ++ after }))
  buffered : (tracks : List Track) → Play s (record s { source_buffers = tracks })
  seeked : Play s (record s { is_seeking = false })
  waiting : Play s (record s { is_buffering = true })
  playing : Play s (record s { is_buffering = false })
  destroyed : Play s (destroy_stream s)

pub data Step (s : Stream) : Stream → Type 0 where
  played : {t : Stream} → Play s t → Step s t
  seeking : Step s (on_seeking s)
  seek_timed : (time : ℕ) → s.seek_debounced ≡ true → Step s (seek_timer time s)
  cleared :
      (remove : ℕ → ℕ → List TimeRange → List TimeRange) (duration : ℕ) (q : Seek)
      → Step s (clear_tracks remove duration q s)
  resumed :
      (before after : List Seek) (q : Seek) (exact_chunk_index : ℕ)
      → s.seeks ≡ before ++ q ∷ after
      → Step s (resume q exact_chunk_index (record s { seeks = before ++ after }))

-- Any number of steps, and any number of steps without a seek.
pub data Reach (s : Stream) : Stream → Type 0 where
  here : Reach s s
  more : {t u : Stream} → Reach s t → Step t u → Reach s u

pub data Plays (s : Stream) : Stream → Type 0 where
  begin : Plays s s
  next : {t u : Stream} → Plays s t → Play t u → Plays s u
