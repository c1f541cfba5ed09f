-- ===== src/Lib.antt =====
-- SaveBox's frontend (frontend/src/app): a drive whose files and names are encrypted in the browser.
--
-- A file is encrypted with a key of its own, that key and the names with the vault key, and the vault
-- key with a master key that Argon2id derives from the security phrase. Only encrypted bytes and
-- texts reach the server.
--
-- Crypto models the formats and who reads them:
-- - Crypto/Platform: the functions of libsodium, base64 and TextEncoder/TextDecoder that the code
--   calls, as a record, and their documented behaviour, as `IsSound`.
-- - Crypto/Nonce: deriveChunkNonce of core/crypto/kasumi-crypto.service.ts.
-- - Crypto/Kasumi: encryptFile, decryptFile, decryptFileChunk, extractMetadata, encryptName and
--   decryptName of the same service. A Blob is the list of its bytes. The two loops run on fuel, one more
--   than the bytes of the file and of the blob: each round takes at least one byte.
-- - Crypto/Worker: features/drive/workers/stream-crypto.worker.ts.
-- - Crypto/Toy: a platform that meets `IsSound`, for the tests.
--
-- Session models what the services hold while a user is signed in:
-- - Session/App: core/state/app-state.service.ts. Session/Token: the token's payload, as AuthService
--   reads it. Session/Vault: core/crypto/crypto.service.ts.
-- - Session/State, Session/Auth: core/auth/auth.service.ts. One record holds the state of all the services,
--   and the answer to a request is an argument.
-- - Session/Interceptors, Session/Guards: core/interceptors, core/auth/auth.guard.ts and
--   core/crypto/vault.guard.ts. A failed request passes the interceptor before its caller.
-- - Session/Pages: the handlers of the unlock modal, the setup page and the home page. The unlock is cut
--   at its wait and the setup at its three, so that other handlers run between their parts.
-- - Session/Reach: any handler after any other, as a step relation.
--
-- Upload models features/drive/upload, for a list of files that are already encrypted by Crypto:
-- - Upload/Engine: the resumable chunk loop of upload-engine.service.ts, and its post to Google Drive.
-- - Upload/Queue: upload-queue.ts. Which running task ends next, and which tasks reject, are arguments. A round
--   ends one task, so as many rounds as tasks are enough.
-- - Upload/Batch: upload-batch-coordinator.service.ts with upload.models.ts. A window takes five candidates,
--   so as many windows as candidates are enough.
-- - Upload/Paths: parseDirectorySources of folder-upload-tree.ts.
-- - Upload/Folders: buildFolderUploadTree of that file, and folder-upload-coordinator.service.ts. What
--   `crypto.randomUUID` returns is an argument, and `IsFresh` says of it that it never repeats.
-- - Upload/Drop: features/drive/services/data-transfer-reader.service.ts, which reads dropped directories. The
--   entries that a reader gives are a list that ends with the empty batch or an error.
--
-- Drive models features/drive/state/drive.store.ts, a component of the store in each file, and the store beside it:
-- - Drive/Files: the loading of the tree page by page, the names, the listings of a folder and of the trash, and
--   the path to a folder. The loop over the pages runs on fuel, one more than the number of files, and that over
--   the parents on fuel that the folder's rank bounds.
-- - Drive/Navigation: the way between folders, with its two histories.
-- - Drive/Download: downloadFile, runDownloadLoop and resumeDownload, which fetch a file from the server in
--   ranges and decrypt it with Crypto. The answers and the pauses are arguments. The loop runs on fuel, one
--   more than the bytes that the header states: each round takes at least one byte.
-- - Drive/Transfers: the list of transfers and its groups; Drive/Transfers/View: what the panel shows.
-- - Drive/Uploads: the upload of one file, its resumption and its recovery, and the sharing out of a selection
--   between single uploads and batches; how the engine ends, and which single uploads are rejected, are
--   arguments.
-- - Drive/Items: renaming, moving, trashing, restoring and deleting, as lists of requests.
-- - Drive/Pinned: pinned-folders.store.ts, whose methods may wait at the same time.
--
-- Video models features/drive/services/video-stream.service.ts, which plays an encrypted video in parts. One
-- record holds the state of the service and of its one stream; times are counted in milliseconds, the
-- playhead and what the browser does with a SourceBuffer are arguments.
-- - Video/Buffered: computeBufferedAhead and the test of onSeek. Video/Schedule: scheduleNextChunk,
--   onTimeupdateTick, whose loop runs on a fuel of 3, one for each download that it may start, and what
--   follows on a settled pipeline. Video/Seeking: onSeek, clearAndResume and evictStaleRanges.
-- - Video/Run: any event after any other, as a step relation; pipelines may settle in any order.
-- - Video/Blocks: runChunkPipeline, which decrypts a block by Crypto/Worker; the answers of the transmux worker
--   and the outcomes of the appends are arguments. Video/Bootstrap: the search for
--   the metadata. Video/Fetch: fetchRange with its retries.
--
-- Not modelled: the rest of the drive store (the
-- replacement of a file, the list of pending uploads, the quota and the thumbnails), the pages, the append to a SourceBuffer, the other workers (they drive mp4box and ffmpeg),
-- the HTTP clients (one request per method), the server, and what is only drawn. Argon2id,
-- SHA-256 and the random source are parameters.
pub mod Prelude
pub mod Crypto
pub mod Session
pub mod Upload
pub mod Drive
pub mod Video
