-- ===== src/Drive/Download.antt =====
-- The download of a file that the server keeps: `downloadFile`, `runDownloadLoop` and `resumeDownload` of
-- DriveStore (frontend/src/app/features/drive/state/drive.store.ts). The answers to requests, and whether
-- the transfer has been paused, are arguments, by the fuel that is left.
mod Tests
pub mod Round
pub mod Runs
pub mod Whole
use text.Mathlib.Text.{◌==◌ as str_eq}
use save_box.Prelude.{
  ℕ, zero, suc, ◌+◌, ◌-◌, ◌*◌, ◌/◌, min, Bool, true, false, not, Option, some, none, List, [], ◌∷◌,
  ◌++◌, String, flatten, Result, ok, throw, or_throw, ◌>>=◌, ◌>>◌, length, take, drop, ltb,
  if◌then◌else◌,
}
use save_box.Prelude.Words.{Bytes, slice}
use save_box.Crypto.Platform.{mac_size, nonce_size, Platform}
use save_box.Crypto.Kasumi
use save_box.Crypto.Kasumi.{chunk_size, decrypt_file_chunk, extract_metadata}
use save_box.Session.Vault.{Vault, Browser, shown_name}

abbrev pub header_fetch_size : ℕ
header_fetch_size = 1024 * 128

pub data Error : Type 0 where
  request_failed : ℕ → Error
  kasumi : Kasumi.Error → Error
  corrupted invalid_key : Error

-- What `activeDownloads` keeps of a local download.
pub record DownloadState : Type 0 where
  pub fdk : Bytes
  pub base_nonce : Bytes
  pub expected_size : ℕ
  pub plaintext_chunks : List Bytes
  pub decrypted_bytes : ℕ
  pub current_offset : ℕ
  pub chunk_index : ℕ

-- A call of `updateTransferProgress`.
pub record Report : Type 0 where
  pub progress : ℕ
  pub bytes_transferred : ℕ
  pub total_bytes : ℕ

-- How a run of the loop ends; `saved` is the file that the browser saves, and `diverged` says that the
-- fuel ran out.
pub data Outcome : Type 0 where
  saved : Bytes → Outcome
  failed : Error → Outcome
  paused diverged : Outcome

pub record Run : Type 0 where
  pub state : DownloadState
  pub reports : List Report
  pub outcome : Outcome

abbrev lift : {A : Type 0} → Result Kasumi.Error A → Result Error A
lift (ok a) = ok a
lift (throw e) = throw (kasumi e)

abbrev pub plaintext_size : DownloadState → ℕ
plaintext_size s = min chunk_size (s.expected_size - s.decrypted_bytes)

abbrev pub encrypted_size : DownloadState → ℕ
encrypted_size s = mac_size + plaintext_size s

-- A request for a range: its round, and the first and the last byte.
abbrev pub Server : Type 0
Server = ℕ → ℕ → ℕ → Result ℕ Bytes

abbrev pub report_of : DownloadState → Report
report_of s = record {
  progress = (200 * s.decrypted_bytes + s.expected_size) / (2 * s.expected_size);
  bytes_transferred = s.decrypted_bytes;
  total_bytes = s.expected_size;
}

abbrev stopped : DownloadState → Outcome → Run
stopped s outcome = record { state = s; reports = []; outcome = outcome }

-- What one run meets.
pub record Attempt : Type 0 where
  pub server : Server
  pub pauses : ℕ → Bool

module _ (p : Platform) where
  -- The key of the file: that of a share, or the one in the metadata, which the vault decrypts.
  unfoldable pub file_key : Browser → Vault → Option Bytes → String → Result Error Bytes
  file_key b v (some share_fdk) encrypted_fdk = ok share_fdk
  file_key b v none encrypted_fdk = or_throw invalid_key (b.atob (shown_name p v encrypted_fdk))

  -- From the first bytes of the file.
  unfoldable pub start_download : Bytes → Bytes → Result Error DownloadState
  start_download header fdk = do
    meta ← lift (extract_metadata p header fdk)
    ok (record {
      fdk = fdk;
      base_nonce = slice header 0 nonce_size;
      expected_size = meta.size;
      plaintext_chunks = [];
      decrypted_bytes = 0;
      current_offset = meta.data_start;
      chunk_index = 0;
    })

  -- One round, with the bytes that the server sent.
  unfoldable pub take_chunk : DownloadState → Bytes → Result Error DownloadState
  take_chunk s chunk =
      if ltb (length chunk) (encrypted_size s)
      then throw corrupted
      else elim (decrypt_file_chunk p (drop mac_size chunk) (take mac_size chunk) s.base_nonce
          s.chunk_index s.fdk) [
            | throw e ↦ throw (kasumi e)
            | ok plaintext ↦ ok (record s {
              plaintext_chunks = s.plaintext_chunks ++ plaintext ∷ [];
              decrypted_bytes = s.decrypted_bytes + plaintext_size s;
              current_offset = s.current_offset + encrypted_size s;
              chunk_index = s.chunk_index + 1;
            })
          ]

  abbrev pub fetched : DownloadState → Result ℕ Bytes → Result Error DownloadState
  fetched s (throw status) = throw (request_failed status)
  fetched s (ok chunk) = take_chunk s chunk

  unfoldable pub run_download_loop : Server → (ℕ → Bool) → ℕ → DownloadState → Run
  unfolding take_chunk
  run_download_loop server pauses zero s = stopped s diverged
  run_download_loop server pauses (suc fuel) s = elim (ltb s.decrypted_bytes s.expected_size) [
    | false ↦ record {
      state = s;
      reports =
          (record {
            progress = 95;
            bytes_transferred = s.expected_size;
            total_bytes = s.expected_size;
          })
          ∷ [];
      outcome = saved (flatten s.plaintext_chunks);
    }
    | true ↦ elim (pauses fuel) [
      | true ↦ stopped s paused
      | false ↦
          elim (fetched s
            (server fuel s.current_offset (s.current_offset + encrypted_size s - 1))) [
              | throw e ↦ record { state = s; reports = report_of s ∷ []; outcome = failed e }
              | ok next ↦
                  let rest = run_download_loop server pauses fuel next in
                  record rest { reports = report_of s ∷ rest.reports }
            ]
    ]
  ]

  -- The first run, and one `resumeDownload` after each pause. A run takes a byte in each round: as much
  -- fuel as the file has bytes, and one more, is enough.
  unfoldable pub run_attempts : DownloadState → Attempt → List Attempt → Outcome
  unfolding run_download_loop
  run_attempts s a [] = (run_download_loop a.server a.pauses (suc s.expected_size) s).outcome
  run_attempts s a (b ∷ attempts) =
      let run = run_download_loop a.server a.pauses (suc s.expected_size) s in
      let resumed = run_attempts run.state b attempts in
      elim run.outcome [ paused ↦ resumed | o ↦ o ]
