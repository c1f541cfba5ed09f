-- ===== src/Video/Bootstrap.antt =====
-- The start of a stream: `bootstrapLastChunk`, up to the `BOOTSTRAP` message for the transmux worker, which
-- decides the chunk that playing starts with. The chunks are given decrypted.
pub mod Moov
use save_box.Prelude.{
  ℕ, zero, suc, ◌+◌, ◌-◌, ◌*◌, min, Bool, true, false, Option, some, none, Result, ok, throw,
  length, get_or, leb, ◌==◌, if◌then◌else◌,
}
use save_box.Prelude.Words.{Bytes, slice}
use save_box.Crypto.Platform.{mac_size}
use save_box.Crypto.Kasumi.{chunk_size}

-- "moov"
abbrev pub moov_code : ℕ
moov_code = 0x6d6f6f76

-- `getUint32(i)`, big-endian.
unfoldable pub get_uint32 : Bytes → ℕ → ℕ
get_uint32 bytes i =
    get_or bytes i 0 * 16777216
    + get_or bytes (i + 1) 0 * 65536
    + get_or bytes (i + 2) 0 * 256
    + get_or bytes (i + 3) 0

pub record Box : Type 0 where
  pub box_offset : ℕ
  pub box_size : ℕ

-- The scan of a chunk, with the rounds that are left.
unfoldable pub scan_moov : Bytes → ℕ → ℕ → Option Box
unfolding get_uint32
scan_moov bytes zero i = none
scan_moov bytes (suc rounds) i =
    let rest = scan_moov bytes rounds (i + 1) in
    if get_uint32 bytes i == moov_code
    then some (record { box_offset = i - 4; box_size = get_uint32 bytes (i - 4) })
    else rest

-- A box of which the chunk holds every byte.
unfoldable pub whole_moov : Bytes → Option Box
unfolding scan_moov
whole_moov bytes = elim (scan_moov bytes (length bytes - 8) 4) [
  | none ↦ none
  | some box ↦ if leb (box.box_offset + box.box_size) (length bytes) then some box else none
]

pub data BootstrapError : Type 0 where
  moov_missing : BootstrapError

-- `BOOTSTRAP`, with the `nextChunkIndex` that is set on its answer.
pub record Bootstrap : Type 0 where
  pub moov_bytes : Option Bytes
  pub moov_offset : Option ℕ
  pub bootstrap_is_last : Bool
  pub first_chunk : ℕ

unfoldable pub bootstrap_last_chunk : ℕ → Bytes → Bytes → Result BootstrapError Bootstrap
unfolding whole_moov
bootstrap_last_chunk total_chunks chunk0 last_chunk = elim (whole_moov chunk0) [
  | some box ↦ ok (record {
    moov_bytes = none;
    moov_offset = none;
    bootstrap_is_last = total_chunks == 1;
    first_chunk = 1;
  })
  | none ↦ elim (whole_moov last_chunk) [
    | none ↦ throw moov_missing
    | some box ↦ ok (record {
      moov_bytes = some (slice last_chunk box.box_offset (box.box_offset + box.box_size));
      moov_offset = some ((total_chunks - 1) * chunk_size + box.box_offset);
      bootstrap_is_last = false;
      first_chunk = 0;
    })
  ]
]

-- The ranges that it requests: the first chunk's, and the last one's.
unfoldable pub first_range : ℕ → ℕ → ℕ × ℕ
first_range data_offset plaintext_size =
    (data_offset, data_offset + (mac_size + min chunk_size plaintext_size) - 1)

unfoldable pub last_range : ℕ → ℕ → ℕ → ℕ × ℕ
last_range data_offset plaintext_size total_chunks =
    let last = total_chunks - 1 in
    let start = data_offset + last * (chunk_size + mac_size) in
    (start, start + (mac_size + (plaintext_size - last * chunk_size)) - 1)
