-- ===== src/Video/Schedule.antt =====
-- The injection loop: `scheduleNextChunk`, `onTimeupdateTick` and what follows on a settled pipeline. The
-- playhead `videoElement.currentTime` is an argument.
use save_box.Prelude.{
  ℕ, zero, suc, ◌+◌, ◌-◌, ◌*◌, ◌/◌, min, Bool, true, false, not, ◌&&◌, ◌||◌, some, List, [], ◌∷◌,
  ◌++◌, select, ltb, leb, ◌==◌, if◌then◌else◌,
}
use save_box.Crypto.Platform.{mac_size}
use save_box.Crypto.Kasumi.{chunk_size}
use save_box.Video.{
  Stream, Pipeline, PipelineError, fetch_aborted, append_failed, other_error, is_open, is_ended,
  is_closed,
}
use save_box.Video.Buffered.{compute_buffered_ahead}

abbrev pub buffer_ahead : ℕ
buffer_ahead = 20000

abbrev pub gc_behind : ℕ
gc_behind = 10000

abbrev pub max_downloads : ℕ
max_downloads = 3

abbrev pub max_chunks_to_fetch : Bool → ℕ
max_chunks_to_fetch true = 3
max_chunks_to_fetch false = 1

-- The plaintext bytes of a chunk: the last one may be shorter.
unfoldable pub chunk_plaintext_bytes : ℕ → ℕ → ℕ → ℕ
chunk_plaintext_bytes plaintext_size total_chunks index =
    if index + 1 == total_chunks then plaintext_size - index * chunk_size else chunk_size

-- The block that `scheduleNextChunk` requests.
unfoldable pub next_pipeline : Stream → Pipeline
unfolding chunk_plaintext_bytes
next_pipeline s =
    let start = s.next_chunk_index in
    let chunks_to_fetch = min (max_chunks_to_fetch s.is_google_drive) (s.total_chunks - start) in
    let end_chunk_idx = start + chunks_to_fetch - 1 in
    let end_chunk_bytes =
      mac_size + chunk_plaintext_bytes s.plaintext_size s.total_chunks end_chunk_idx in
    record {
      controller = s.next_controller;
      captured_generation = s.seek_generation;
      start_chunk_idx = start;
      chunks_to_fetch = chunks_to_fetch;
      range_start = s.data_offset + start * (chunk_size + mac_size);
      range_end = s.data_offset + end_chunk_idx * (chunk_size + mac_size) + end_chunk_bytes - 1;
    }

unfoldable pub scheduled : Stream → Stream
scheduled s = record s {
  active_downloads = s.active_downloads + 1;
  next_chunk_index = s.next_chunk_index + (next_pipeline s).chunks_to_fetch;
  current_fetches = s.next_controller ∷ s.current_fetches;
  next_controller = s.next_controller + 1;
  pipelines = s.pipelines ++ next_pipeline s ∷ [];
  requested = s.requested ++ next_pipeline s ∷ [];
}

unfoldable pub schedule_next_chunk : Stream → Stream
unfolding scheduled
schedule_next_chunk s =
    if leb max_downloads s.active_downloads || (s.aborted || leb s.total_chunks s.next_chunk_index)
    then s
    else scheduled s

-- The `while` loop of `onTimeupdateTick`, on fuel.
unfoldable pub inject : ℕ → ℕ → Stream → Stream
unfolding schedule_next_chunk
inject zero time s = s
inject (suc fuel) time s =
    let again = inject fuel time (schedule_next_chunk s) in
    if ltb (compute_buffered_ahead s.source_buffers time) buffer_ahead
      && ltb s.active_downloads max_downloads
    then (if leb s.total_chunks s.next_chunk_index || s.aborted then s else again)
    else s

unfoldable pub on_timeupdate_tick : ℕ → Stream → Stream
unfolding inject
on_timeupdate_tick time s =
    let injected = inject max_downloads time s in
    if (s.aborted || s.is_seeking)
      || (leb max_downloads s.active_downloads || leb s.total_chunks s.next_chunk_index)
    then s
    else (if ltb gc_behind time
        then record injected { evictions = injected.evictions ++ time ∷ [] }
        else injected)

unfoldable pub signal_end_of_stream : Stream → Stream
signal_end_of_stream s = record s {
  ready_state = elim s.ready_state [
    | is_open ↦ is_ended
    | is_ended ↦ is_ended
    | is_closed ↦ is_closed
  ];
  is_streaming = false;
}

-- The AbortController of a settled pipeline leaves the set.
unfoldable pub without_fetch : ℕ → List ℕ → List ℕ
without_fetch controller fetches = select (λ c. not (c == controller)) fetches

-- `s.activeDownloads--` and `s.currentFetches.delete(controller)`.
unfoldable pub released : Pipeline → Stream → Stream
unfolding without_fetch
released p s = record s {
  active_downloads = s.active_downloads - 1;
  current_fetches = without_fetch p.controller s.current_fetches;
}

-- `Math.round((s.nextChunkIndex / s.totalChunks) * 100)`
unfoldable pub progress_of : Stream → ℕ
progress_of s = (200 * s.next_chunk_index + s.total_chunks) / (2 * s.total_chunks)

unfoldable pub report_progress : Stream → Stream
unfolding progress_of signal_end_of_stream
report_progress s =
    let reported : Stream = record s { buffer_progress = progress_of s } in
    if leb s.total_chunks s.next_chunk_index && (s.active_downloads == 0)
    then signal_end_of_stream reported
    else reported

-- The `then` of a pipeline.
unfoldable pub pipeline_done : ℕ → Pipeline → Stream → Stream
unfolding released report_progress on_timeupdate_tick
pipeline_done time p s =
    if s.seek_generation == p.captured_generation
    then on_timeupdate_tick time (report_progress (released p s))
    else s

-- `destroyStream`, while this is the stream of the service.
unfoldable pub destroy_stream : Stream → Stream
destroy_stream s = record s {
  aborted = true;
  aborted_fetches = s.aborted_fetches ++ s.current_fetches;
  current_fetches = [];
  has_listeners = false;
  is_streaming = false;
  is_seeking = false;
  original_bitrate_warning = false;
}

-- What the `catch` of a pipeline does with an error of the current generation. The call of
-- `initializeStream` destroys this stream before anything else.
unfoldable pub report_error : ℕ → PipelineError → Stream → Stream
unfolding destroy_stream
report_error time fetch_aborted s = s
report_error time append_failed s = record (destroy_stream s) { restart_at = some (time + 1000) }
report_error time (other_error code) s = record s { stream_error = some (other_error code) }

unfoldable pub pipeline_failed : ℕ → PipelineError → Pipeline → Stream → Stream
unfolding released report_error
pipeline_failed time error p s =
    let after = released p s in
    if s.seek_generation == p.captured_generation
    then (if s.aborted then after else report_error time error after)
    else s
