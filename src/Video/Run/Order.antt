-- ===== src/Video/Run/Order.antt =====
-- Without a seek, every chunk is requested once, in order.
use save_box.Prelude.{
  ℕ, ◌+◌, ◌-◌, ◌*◌, ◌≤◌, ◌<◌, min, ◌≡◌, refl, ap, ◌∙◌, Bool, inl, inr, List, [], ◌∷◌, ◌++◌, arith,
  ◌==◌, Bool-cases, ==_iff,
}
use mathlib.Core.Path.{ap₂}
use save_box.Crypto.Platform.{mac_size}
use save_box.Crypto.Kasumi.{chunk_size}
use save_box.Video.{Stream, Pipeline, Track}
use save_box.Video.Schedule.{next_pipeline, scheduled, schedule_next_chunk, chunk_plaintext_bytes}
use save_box.Video.Run.{Plays, started, chunks_of}
use save_box.Video.Run.Keeps.{schedule_next_chunk-cases, chunks_to_fetch_bounds}
use save_box.Video.Run.Effects.{Calm, Plays-keeps}

-- Where a chunk starts in the encrypted file; the place behind the last one is where the file ends.
unfoldable pub byte_at : ℕ → ℕ → ℕ → ℕ
byte_at data_offset plaintext_size index =
    data_offset + min (index * chunk_size) plaintext_size + index * mac_size

-- Requests for consecutive blocks of chunks, each for exactly the bytes of its block.
abbrev pub Tiles : ℕ → ℕ → ℕ → ℕ → List Pipeline → Type 0
Tiles offset size first last [] = first ≡ last
Tiles offset size first last (p ∷ ps) =
    (p.start_chunk_idx ≡ first)
    × (1 ≤ p.chunks_to_fetch)
    × (p.chunks_to_fetch ≤ 3)
    × (p.range_start ≡ byte_at offset size first)
    × (p.range_end + 1 ≡ byte_at offset size (first + p.chunks_to_fetch))
    × Tiles offset size (first + p.chunks_to_fetch) last ps

pub chunks_of_bound : (size : ℕ) → size ≤ chunks_of size * 4194304
unfolding chunks_of
chunks_of_bound size = omega arith

pub chunks_of_inside : (size k : ℕ) → k < chunks_of size → k * 4194304 < size
unfolding chunks_of
chunks_of_inside size k h = omega arith

byte_at_end :
    (offset size : ℕ) → byte_at offset size (chunks_of size) ≡ offset + size + chunks_of size * 16
unfolding byte_at
byte_at_end offset size = omega (arith, chunks_of_bound size)

pub byte_at_suc :
    (offset size index : ℕ)
    → index < chunks_of size
    → byte_at offset size (index + 1)
      ≡ byte_at offset size index + (16 + chunk_plaintext_bytes size (chunks_of size) index)
unfolding byte_at chunk_plaintext_bytes
byte_at_suc offset size index before =
    let inside = chunks_of_inside size index before in
    let bound = chunks_of_bound size in
    elim (Bool-cases (index + 1 == chunks_of size)) [
      | inl at_end ↦
          let final : index + 1 ≡ chunks_of size = (==_iff _ _).0 at_end in rw at_end (omega arith)
      | inr amid ↦
          let more_left : index + 1 < chunks_of size = ground arith in
          let room = chunks_of_inside size (index + 1) more_left in rw amid (omega arith)
    ]

pub byte_at_le :
    (offset size index left : ℕ) → byte_at offset size index ≤ byte_at offset size (index + left)
unfolding byte_at
byte_at_le offset size index left = omega arith

range_start-next_pipeline :
    (s : Stream)
    → s.next_chunk_index * 4194304 < s.plaintext_size
    → (next_pipeline s).range_start ≡ byte_at s.data_offset s.plaintext_size s.next_chunk_index
unfolding next_pipeline byte_at
range_start-next_pipeline s h = omega arith

-- The end of a block that ends with chunk `k`, which is the last one or not.
range_end_at :
    (offset size chunks k : ℕ)
    → k * 4194304 < size
    → size ≤ chunks * 4194304
    → k < chunks
    → ((k + 1 < chunks) → (k + 1) * 4194304 ≤ size)
    → offset + k * 4194320 + (16 + chunk_plaintext_bytes size chunks k) - 1 + 1
      ≡ byte_at offset size (k + 1)
unfolding chunk_plaintext_bytes byte_at
range_end_at offset size chunks k inside bound before full = elim (Bool-cases (k + 1 == chunks)) [
  | inl at_end ↦ let final : k + 1 ≡ chunks = (==_iff _ _).0 at_end in rw at_end (omega arith)
  | inr amid ↦ let room : (k + 1) * 4194304 ≤ size = full (ground arith) in rw amid (omega arith)
]

range_end-next_pipeline :
    (s : Stream)
    → s.total_chunks ≡ chunks_of s.plaintext_size
    → s.next_chunk_index < s.total_chunks
    → (next_pipeline s).range_end + 1
      ≡ byte_at s.data_offset s.plaintext_size
          (s.next_chunk_index + (next_pipeline s).chunks_to_fetch)
unfolding next_pipeline
range_end-next_pipeline s sized before =
    let (some_chunk, few, within) = chunks_to_fetch_bounds s before in
    let last = s.next_chunk_index + (next_pipeline s).chunks_to_fetch - 1 in
    let next : last + 1 ≡ s.next_chunk_index + (next_pipeline s).chunks_to_fetch = omega arith in
    let bound = chunks_of_bound s.plaintext_size in
    let inside = chunks_of_inside s.plaintext_size last (omega (arith, sized)) in
    range_end_at s.data_offset s.plaintext_size s.total_chunks last inside
      (omega (arith, sized, bound)) (omega arith)
      (λ more_left.
        omega
          (arith, chunks_of_inside s.plaintext_size (last + 1) (omega (arith, sized, more_left))))
    ∙ ap (byte_at s.data_offset s.plaintext_size) next

Tiles-append :
    (offset size last : ℕ) (ps : List Pipeline) (p : Pipeline) (first : ℕ)
    → Tiles offset size first last ps
    → p.start_chunk_idx ≡ last
    → 1 ≤ p.chunks_to_fetch
    → p.chunks_to_fetch ≤ 3
    → p.range_start ≡ byte_at offset size last
    → p.range_end + 1 ≡ byte_at offset size (last + p.chunks_to_fetch)
    → Tiles offset size first (last + p.chunks_to_fetch) (ps ++ p ∷ [])
Tiles-append offset size last [] p first same start some_chunk few begins ends =
    let empty : first ≡ last = same in rw empty (start, some_chunk, few, begins, ends, refl)
Tiles-append offset size last (q ∷ ps) p first (a, b, c, d, e, rest) start some_chunk few begins
      ends =
    (
      a,
      b,
      c,
      d,
      e,
      Tiles-append offset size last ps p (first + q.chunks_to_fetch) rest start some_chunk few
          begins ends,
    )

-- What the requests of a stream for this file look like.
abbrev Ordered : ℕ → ℕ → ℕ → Stream → Type 0
Ordered offset size first s =
    (s.data_offset ≡ offset)
    × (s.plaintext_size ≡ size)
    × (s.total_chunks ≡ chunks_of size)
    × (s.next_chunk_index ≤ chunks_of size)
    × Tiles offset size first s.next_chunk_index s.requested

start_chunk_idx-next_pipeline :
    (s : Stream) → (next_pipeline s).start_chunk_idx ≡ s.next_chunk_index
unfolding next_pipeline
start_chunk_idx-next_pipeline s = refl

Ordered-scheduled :
    (offset size first : ℕ) (s : Stream)
    → s.next_chunk_index < s.total_chunks
    → Ordered offset size first s
    → Ordered offset size first (scheduled s)
unfolding scheduled
Ordered-scheduled offset size first s before (at_offset, of_size, sized, within, tiles) =
    let (some_chunk, few, bounded) = chunks_to_fetch_bounds s before in
    let own_sized : s.total_chunks ≡ chunks_of s.plaintext_size = rw of_size sized in
    let inside = chunks_of_inside s.plaintext_size s.next_chunk_index (omega (arith, own_sized)) in
    let begins = range_start-next_pipeline s inside in
    let ends = range_end-next_pipeline s own_sized before in
    (
      at_offset,
      of_size,
      sized,
      omega (arith, sized),
      Tiles-append offset size s.next_chunk_index s.requested (next_pipeline s) first tiles
          (start_chunk_idx-next_pipeline s) some_chunk few
          (begins ∙ ap₂ (λ o z. byte_at o z s.next_chunk_index) at_offset of_size)
          (ends
            ∙ ap₂ (λ o z. byte_at o z (s.next_chunk_index + (next_pipeline s).chunks_to_fetch))
                at_offset of_size),
    )

Ordered-schedule_next_chunk :
    (offset size first : ℕ) (s : Stream)
    → Ordered offset size first s
    → Ordered offset size first (schedule_next_chunk s)
Ordered-schedule_next_chunk offset size first s h = elim (schedule_next_chunk-cases s) [
  | inl same ↦ rw same h
  | inr (_, _, before, same) ↦ rw same (Ordered-scheduled offset size first s before h)
]

Ordered-Calm :
    (offset size first : ℕ) (s t : Stream)
    → Calm s t
    → Ordered offset size first s
    → Ordered offset size first t
Ordered-Calm offset size first s t (_, size_kept, chunks, offset_kept, place, log, _, _)
      (a, b, c, d, e) =
    (offset_kept ∙ a, size_kept ∙ b, chunks ∙ c, omega (arith, place, d), rw (place, log) e)

-- As long as a stream does not seek, in whatever order its pipelines settle: its requests are for
-- consecutive blocks of one to three chunks, from the chunk it starts with up to the next one, and each
-- is for exactly the bytes of its block, so that one range starts where the one before it ends. Behind the
-- last chunk there are the plaintext and one tag for each chunk.
pub requested-Tiles :
    (drive : Bool) (size offset duration first : ℕ) (tracks : List Track) (t : Stream)
    → first ≤ chunks_of size
    → Plays (started drive size offset duration first tracks) t
    → Tiles offset size first t.next_chunk_index t.requested
      × (t.next_chunk_index ≤ chunks_of size)
      × (byte_at offset size (chunks_of size) ≡ offset + size + chunks_of size * mac_size)
unfolding started
requested-Tiles drive size offset duration first tracks t within steps =
    let (_, _, _, bounded, tiles) =
      Plays-keeps (Ordered offset size first) (Ordered-schedule_next_chunk offset size first)
        (Ordered-Calm offset size first) steps (refl, refl, refl, within, refl) in
    (tiles, bounded, byte_at_end offset size)
