-- ===== src/Video/Seeking.antt =====
-- Seeking and eviction: `onSeek`, `clearAndResume` and `evictStaleRanges`. `SourceBuffer.remove` is an
-- argument, and takes one step.
use save_box.Prelude.{
  ℕ, ◌+◌, ◌-◌, ◌*◌, min, Bool, true, false, not, ◌&&◌, ◌||◌, List, [], ◌∷◌, ◌++◌, map, ltb, leb,
  ◌==◌, if◌then◌else◌,
}
use save_box.Video.{TimeRange, Track, Stream, Seek, ReadyState, is_open, is_ended, is_closed}
use save_box.Video.Buffered.{already_buffered}
use save_box.Video.Schedule.{gc_behind, schedule_next_chunk, on_timeupdate_tick}

-- The 'seeking' event, which (re)starts the timer of 300 ms.
abbrev pub on_seeking : Stream → Stream
on_seeking s = record s { is_seeking = true; seek_debounced = true }

abbrev pub has_tracks : List Track → Bool
has_tracks [] = false
has_tracks (t ∷ tracks) = true

unfoldable pub can_clear : Stream → Bool
can_clear s =
    has_tracks s.source_buffers
    && elim s.ready_state [ is_open ↦ true | is_ended ↦ true | is_closed ↦ false ]

-- `onSeek`, up to the first `await` of the `clearAndResume` that it calls.
unfoldable pub on_seek : ℕ → Stream → Stream
unfolding can_clear
on_seek time s =
    let generation = s.seek_generation + 1 in
    if s.aborted
    then s
    else (if already_buffered time s.source_buffers
        then on_timeupdate_tick time (record s { is_seeking = false })
        else record s {
          is_seeking = true;
          aborted_fetches = s.aborted_fetches ++ s.current_fetches;
          current_fetches = [];
          active_downloads = 0;
          seek_generation = generation;
          seeks =
              if can_clear s
              then s.seeks ++ record { wanted_generation = generation; seek_time = time } ∷ []
              else s.seeks;
        })

-- The debounce timer fires.
unfoldable pub seek_timer : ℕ → Stream → Stream
unfolding on_seek
seek_timer time s = on_seek time (record s { seek_debounced = false })

-- The answer of the transmux worker to `SEEK`: what `clearAndResume` does from there.
unfoldable pub resume : Seek → ℕ → Stream → Stream
resume q exact_chunk_index s =
    if s.aborted || not (s.seek_generation == q.wanted_generation)
    then s
    else schedule_next_chunk (record s {
      next_chunk_index = min exact_chunk_index (s.total_chunks - 1);
      is_seeking = false;
    })

abbrev starts_before : ℕ → List TimeRange → Bool
starts_before time [] = false
starts_before time (r ∷ ranges) = ltb r.from time

abbrev ends_after : ℕ → List TimeRange → Bool
ends_after time [] = false
ends_after time (r ∷ []) = ltb time r.to
ends_after time (r ∷ q ∷ ranges) = ends_after time (q ∷ ranges)

-- `(duration || s.totalChunks * CHUNK_SIZE / (1 * 1024 * 1024)) + 1`, of the duration that the stream knows,
-- or else the one that the element knows.
unfoldable pub clear_end : ℕ → Stream → ℕ
clear_end element_duration s =
    let duration = if ltb 0 s.video_duration then s.video_duration else element_duration in
    (if ltb 0 duration then duration else s.total_chunks * 4000) + 1000

-- `readyState === 'open'`
abbrev pub accepts : ReadyState → Bool
accepts is_open = true
accepts is_ended = false
accepts is_closed = false

module _ (remove : ℕ → ℕ → List TimeRange → List TimeRange) where
  -- `removeRange`
  unfoldable pub remove_range : ReadyState → ℕ → ℕ → Track → Track
  remove_range state start end t =
      if not (accepts state) || t.updating
      then t
      else record t { buffered = remove start end t.buffered }

  unfoldable pub clear_behind : ReadyState → ℕ → Track → Track
  unfolding remove_range
  clear_behind state keep_start t =
      if ltb 0 keep_start && starts_before keep_start t.buffered
      then remove_range state 0 keep_start t
      else t

  unfoldable pub clear_forward : ReadyState → ℕ → ℕ → Track → Track
  unfolding remove_range
  clear_forward state seek_time end t =
      if ends_after seek_time t.buffered then remove_range state seek_time end t else t

  -- `clearAndResume` between its wait for the tracks and its question to the worker.
  unfoldable pub clear_tracks : ℕ → Seek → Stream → Stream
  unfolding clear_behind clear_forward clear_end
  clear_tracks element_duration q s =
      let behind = map (clear_behind s.ready_state (q.seek_time - gc_behind)) s.source_buffers in
      let end = clear_end element_duration s in
      if s.aborted || not (s.seek_generation == q.wanted_generation)
      then s
      else record s { source_buffers = map (clear_forward s.ready_state q.seek_time end) behind }

  unfoldable pub evict_track : ℕ → Track → Track
  unfolding remove_range
  evict_track evict_up_to t =
      if t.updating || not (starts_before evict_up_to t.buffered)
      then t
      else remove_range is_open 0 evict_up_to t

  -- `is_removing` tells whether another `remove` is under way.
  unfoldable pub evict_stale_ranges : Bool → ℕ → Stream → Stream
  unfolding evict_track
  evict_stale_ranges is_removing time s =
      let evicted : Stream = record s {
        source_buffers = map (evict_track (time - gc_behind)) s.source_buffers;
      } in
      if is_removing || (not (accepts s.ready_state) || leb time gc_behind) then s else evicted
