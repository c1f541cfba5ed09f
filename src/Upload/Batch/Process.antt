-- ===== src/Upload/Batch/Process.antt =====
-- `process` of UploadBatchCoordinatorService, with the methods it calls
-- (frontend/src/app/features/drive/upload/upload-batch-coordinator.service.ts).
use save_box.Prelude.{
  ℕ, zero, suc, ◌+◌, Bool, true, false, some, none, List, [], ◌∷◌, ◌++◌, map, Result, ok, throw,
  ◌>>=◌, ◌>>◌, length, take, drop, ◌==◌, if◌then◌else◌,
}
use save_box.Upload.Engine.{Provider, local, google_drive}
use save_box.Upload.Queue.{run, interleave}
use save_box.Upload.Batch.Types.{
  Candidate, PreparedCandidate, RequestItem, ResponseItem, Task, Error, http, undefined_init,
  success, paused, error, State, Schedule, Client, batch_window_size, local_upload_concurrency,
  google_upload_concurrency,
}
use save_box.Upload.Batch.Response.{candidates_of, is_duplicate, validate_response, by_hash}

unfoldable pub fail : Candidate → State → State
fail c s = record s {
  failed_count = s.failed_count + 1;
  reports = record { transfer_id = c.transfer_id; status = error } ∷ s.reports;
}

unfoldable pub fail_all : List Candidate → State → State
unfolding fail
fail_all [] s = s
fail_all (c ∷ cs) s = fail_all cs (fail c s)

-- The candidates whose hash is no duplicate among `all`; the others fail.
unfoldable pub reject_duplicates :
    List PreparedCandidate → List PreparedCandidate → State → List PreparedCandidate × State
unfolding is_duplicate fail
reject_duplicates all [] s = ([], s)
reject_duplicates all (i ∷ items) s = elim (is_duplicate all i.prepared.name_hash) [
  | true ↦ reject_duplicates all items (fail i.candidate s)
  | false ↦ let (rest, s') = reject_duplicates all items s in (i ∷ rest, s')
]

abbrev pub request_item : PreparedCandidate → RequestItem
request_item i = record {
  folder_id = i.candidate.folder_id;
  encrypted_name = i.prepared.encrypted_name;
  name_hash = i.prepared.name_hash;
  encrypted_fdk = i.prepared.encrypted_fdk;
  size_bytes = i.prepared.encrypted_size;
  total_chunks = i.prepared.total_chunks;
  storage_provider = i.candidate.provider;
}

abbrev pub task_of : List ResponseItem → PreparedCandidate → Task
task_of response i = (i, by_hash response i.prepared.name_hash)

abbrev pub is_google : Provider → Bool
is_google local = false
is_google google_drive = true

-- The tasks of the Google candidates, or of the others.
abbrev pub tasks_for : Bool → List ResponseItem → List PreparedCandidate → List Task
tasks_for google response [] = []
tasks_for google response (i ∷ items) =
    let rest = tasks_for google response items in
    if is_google i.candidate.provider
    then if google then task_of response i ∷ rest else rest
    else if google
    then rest
    else task_of response i ∷ rest

unfoldable pub prepare_window : Client → List Candidate → State → List PreparedCandidate × State
unfolding fail
prepare_window client [] s = ([], s)
prepare_window client (c ∷ cs) s = elim c.cancelled [
  | true ↦ prepare_window client cs s
  | false ↦ elim (client.prepare_upload c) [
    | throw _ ↦ prepare_window client cs (fail c s)
    | ok p ↦
        let (items, s') = prepare_window client cs s in
        (record { candidate = c; prepared = p } ∷ items, s')
  ]
]

-- What `execute` does with the engine's answer.
unfoldable pub finish : Candidate → Result Error Bool → State → State
unfolding fail
finish c (throw _) s = fail c s
finish c (ok true) s = record s {
  paused_count = s.paused_count + 1;
  reports = record { transfer_id = c.transfer_id; status = paused } ∷ s.reports;
}
finish c (ok false) s = record s {
  succeeded = s.succeeded + 1;
  reports = record { transfer_id = c.transfer_id; status = success } ∷ s.reports;
}

-- A task without its response fails in the `try` of `execute`.
unfoldable pub execute : Client → Task → State → State
unfolding finish
execute client (i, none) s = finish i.candidate (throw undefined_init) s
execute client (i, some r) s = finish i.candidate (client.execute i r) s

unfoldable pub run_tasks : Client → List Task → State → State
unfolding execute
run_tasks client [] s = s
run_tasks client (t ∷ ts) s = run_tasks client ts (execute client t s)

-- `execute` catches what its upload throws.
abbrev pub task_rejects : Task → Bool
task_rejects task = false

-- The tasks of a window in the order in which they end.
unfoldable pub tasks_by_end : Schedule → List ResponseItem → List PreparedCandidate → List Task
unfolding run interleave
tasks_by_end order response items =
    let locals =
      run task_rejects local_upload_concurrency order.local_picks
        (tasks_for false response items) in
    let googles =
      run task_rejects google_upload_concurrency order.google_picks
        (tasks_for true response items) in
    interleave order.turns (length locals + length googles) locals googles

-- The response of the server, validated.
unfoldable pub init : Client → List PreparedCandidate → Result Error (List ResponseItem)
unfolding validate_response
init client items = do
  response ← client.batch_init_uploads (map request_item items)
  validate_response items response
  ok response

abbrev pub unauthorized : Error → Bool
unauthorized (http status) = status == 401
unauthorized _ = false

abbrev pub initialize : List PreparedCandidate → List ResponseItem → State → State
initialize items response s = record s {
  initialized = s.initialized ++ map (task_of response) items;
}

-- The uploads of the valid candidates, and whether the batch stops.
unfoldable pub upload_window : Client → Schedule → List PreparedCandidate → State → Bool × State
unfolding init tasks_by_end run_tasks fail_all
upload_window client order [] s = (false, s)
upload_window client order (i ∷ items) s = elim (init client (i ∷ items)) [
  | throw e ↦ (unauthorized e, fail_all (candidates_of (i ∷ items)) s)
  | ok response ↦ (
    false,
    run_tasks client (tasks_by_end order response (i ∷ items)) (initialize (i ∷ items) response s),
  )
]

unfoldable pub process_window : Client → Schedule → List Candidate → State → Bool × State
unfolding prepare_window reject_duplicates upload_window
process_window client order window s =
    let (items, prepared) = prepare_window client window s in
    let (valid, rejected) = reject_duplicates items items prepared in
    upload_window client order valid rejected

-- A window takes five candidates: as much fuel as candidates is enough.
unfoldable pub process_windows : Client → ℕ → List Candidate → State → State
unfolding process_window fail_all
process_windows client zero candidates s = s
process_windows client (suc fuel) candidates s =
    let (stop, s') =
      process_window client (client.schedule fuel) (take batch_window_size candidates) s in
    let later = drop batch_window_size candidates in
    let rest = process_windows client fuel later s' in if stop then fail_all later s' else rest

unfoldable pub process : Client → List Candidate → State
unfolding process_windows
process client candidates = process_windows client (length candidates) candidates (record {
  total = length candidates;
  succeeded = 0;
  paused_count = 0;
  failed_count = 0;
  initialized = [];
  reports = [];
})
