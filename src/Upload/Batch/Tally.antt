-- ===== src/Upload/Batch/Tally.antt =====
-- The summary of a batch counts its reports.
use save_box.Prelude.{
  ℕ, zero, suc, ◌+◌, ◌≡◌, refl, Bool, true, false, some, none, List, [], ◌∷◌, Result, ok, throw,
  length, take, drop, arith, Bool-cases, Result-cases, inl, inr,
}
use save_box.Upload.Batch.Types
use save_box.Upload.Batch.Types.{
  Candidate, PreparedCandidate, ResponseItem, State, Schedule, Client, Task, batch_window_size,
}
use save_box.Upload.Batch.Response.{candidates_of, is_duplicate}
use save_box.Upload.Batch.Process.{
  fail, fail_all, reject_duplicates, prepare_window, finish, execute, run_tasks, tasks_by_end,
  initialize, init, upload_window, process_window, process_windows, process,
}

-- Of `total` candidates, so many have been reported.
abbrev pub IsTallied : ℕ → State → Type 0
IsTallied total s =
    (s.total ≡ total) × (s.succeeded + s.paused_count + s.failed_count ≡ length s.reports)

module _ (total : ℕ) where
  fail-IsTallied : (c : Candidate) (s : State) → IsTallied total s → IsTallied total (fail c s)
  unfolding fail
  fail-IsTallied c s h = (h.0, omega (arith, h.1))

  fail_all-IsTallied :
      (cs : List Candidate) (s : State) → IsTallied total s → IsTallied total (fail_all cs s)
  unfolding fail_all
  fail_all-IsTallied [] s h = h
  fail_all-IsTallied (c ∷ cs) s h = fail_all-IsTallied cs (fail c s) (fail-IsTallied c s h)

  prepare_window-IsTallied :
      (client : Client) (cs : List Candidate) (s : State)
      → IsTallied total s
      → IsTallied total (prepare_window client cs s).1
  unfolding prepare_window
  prepare_window-IsTallied client [] s h = h
  prepare_window-IsTallied client (c ∷ cs) s h = elim (Bool-cases c.cancelled) [
    | inl gone ↦ rw (gone, prepare_window) (prepare_window-IsTallied client cs s h)
    | inr there ↦ elim (Result-cases (client.prepare_upload c)) [
      | inl (p, made) ↦ rw (there, prepare_window, made) (prepare_window-IsTallied client cs s h)
      | inr (e, wrong) ↦
          rw (there, prepare_window, wrong)
            (prepare_window-IsTallied client cs (fail c s) (fail-IsTallied c s h))
    ]
  ]

  reject_duplicates-IsTallied :
      (all items : List PreparedCandidate) (s : State)
      → IsTallied total s
      → IsTallied total (reject_duplicates all items s).1
  unfolding reject_duplicates
  reject_duplicates-IsTallied all [] s h = h
  reject_duplicates-IsTallied all (i ∷ items) s h =
      elim (Bool-cases (is_duplicate all i.prepared.name_hash)) [
        | inl twice ↦
            rw (twice, reject_duplicates)
              (reject_duplicates-IsTallied all items (fail i.candidate s)
                (fail-IsTallied i.candidate s h))
        | inr once ↦ rw (once, reject_duplicates) (reject_duplicates-IsTallied all items s h)
      ]

  finish-IsTallied :
      (c : Candidate) (r : Result Types.Error Bool) (s : State)
      → IsTallied total s
      → IsTallied total (finish c r s)
  unfolding finish
  finish-IsTallied c (throw e) s h = fail-IsTallied c s h
  finish-IsTallied c (ok true) s h = (h.0, omega (arith, h.1))
  finish-IsTallied c (ok false) s h = (h.0, omega (arith, h.1))

  execute-IsTallied :
      (client : Client) (t : Task) (s : State)
      → IsTallied total s
      → IsTallied total (execute client t s)
  unfolding execute
  execute-IsTallied client (i, none) s h =
      finish-IsTallied i.candidate (throw Types.undefined_init) s h
  execute-IsTallied client (i, some r) s h = finish-IsTallied i.candidate (client.execute i r) s h

  run_tasks-IsTallied :
      (client : Client) (ts : List Task) (s : State)
      → IsTallied total s
      → IsTallied total (run_tasks client ts s)
  unfolding run_tasks
  run_tasks-IsTallied client [] s h = h
  run_tasks-IsTallied client (t ∷ ts) s h =
      run_tasks-IsTallied client ts (execute client t s) (execute-IsTallied client t s h)

  upload_window-IsTallied :
      (client : Client) (order : Schedule) (items : List PreparedCandidate) (s : State)
      → IsTallied total s
      → IsTallied total (upload_window client order items s).1
  unfolding upload_window
  upload_window-IsTallied client order [] s h = h
  upload_window-IsTallied client order (i ∷ items) s h =
      elim (Result-cases (init client (i ∷ items))) [
        | inl (response, given) ↦
            rw (given, upload_window)
              (run_tasks-IsTallied client (tasks_by_end order response (i ∷ items))
                (initialize (i ∷ items) response s) h)
        | inr (e, wrong) ↦
            rw (wrong, upload_window) (fail_all-IsTallied (candidates_of (i ∷ items)) s h)
      ]

  process_window-IsTallied :
      (client : Client) (order : Schedule) (window : List Candidate) (s : State)
      → IsTallied total s
      → IsTallied total (process_window client order window s).1
  unfolding process_window
  process_window-IsTallied client order window s h =
      let prepared = prepare_window client window s in
      let valid = reject_duplicates prepared.0 prepared.0 prepared.1 in
      upload_window-IsTallied client order valid.0 valid.1 (
        reject_duplicates-IsTallied prepared.0 prepared.0 prepared.1
          (prepare_window-IsTallied client window s h))

  process_windows-IsTallied :
      (client : Client) (fuel : ℕ) (candidates : List Candidate) (s : State)
      → IsTallied total s
      → IsTallied total (process_windows client fuel candidates s)
  unfolding process_windows
  process_windows-IsTallied client zero candidates s h = h
  process_windows-IsTallied client (suc fuel) candidates s h =
      let window =
        process_window client (client.schedule fuel) (take batch_window_size candidates) s in
      let done =
        process_window-IsTallied client (client.schedule fuel) (take batch_window_size candidates) s
          h in
      let later = drop batch_window_size candidates in
      elim (Bool-cases window.0) [
        | inl stop ↦ rw stop (fail_all-IsTallied later window.1 done)
        | inr go ↦ rw go (process_windows-IsTallied client fuel later window.1 done)
      ]

-- The summary of a batch has as its total the number of candidates, and its three other counts add up
-- to the number of reports.
pub process-IsTallied :
    (client : Client) (candidates : List Candidate)
    → IsTallied (length candidates) (process client candidates)
unfolding process
process-IsTallied client candidates =
    process_windows-IsTallied (length candidates) client (length candidates) candidates
      (record {
        total = length candidates;
        succeeded = 0;
        paused_count = 0;
        failed_count = 0;
        initialized = [];
        reports = [];
      })
      (refl, refl)
