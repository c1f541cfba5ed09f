-- ===== src/Upload/Batch/Account.antt =====
-- Every candidate is accounted for.
use save_box.Prelude.{
  count, ℕ, zero, suc, ◌+◌, ◌≤◌, ◌<◌, ◌≡◌, refl, ap, ◌∙◌, Bool, true, false, some, none, List, [],
  ◌∷◌, String, length, take, drop, if◌then◌else◌, inl, inr, arith, Bool-cases, Result-cases,
  length-drop,
}
use save_box.Upload.Queue.{run, count-run, count-interleave, count-take-drop}
use save_box.Upload.Batch.Types.{
  Candidate, PreparedCandidate, ResponseItem, Report, State, Schedule, Client, Task,
  batch_window_size,
}
use save_box.Upload.Batch.Response.{candidates_of, is_duplicate}
use save_box.Upload.Batch.Process.{
  is_google, fail, fail_all, reject_duplicates, prepare_window, finish, execute, run_tasks,
  task_rejects, tasks_by_end, initialize, tasks_for, init, upload_window, process_window,
  process_windows, process,
}

-- How many of the reports, and of the candidates, have an id that a test selects.
abbrev pub reported : (String → Bool) → State → ℕ
reported test s = count (λ (r : Report). test r.transfer_id) s.reports

abbrev pub selected : (String → Bool) → List Candidate → ℕ
selected test cs = count (λ (c : Candidate). test c.transfer_id) cs

-- Of those that are not cancelled.
abbrev pub live : (String → Bool) → List Candidate → ℕ
live test cs = count (λ (c : Candidate). if c.cancelled then false else test c.transfer_id) cs

task_rejects-never : (n : ℕ) (ts : List Task) → count task_rejects ts < suc n
task_rejects-never n [] = omega arith
task_rejects-never n (t ∷ ts) = omega (arith, task_rejects-never n ts)

module _ (test : String → Bool) where
  fail-reported :
      (c : Candidate) (s : State)
      → reported test (fail c s) ≡ reported test s + (if test c.transfer_id then 1 else 0)
  unfolding fail
  fail-reported c s = omega arith

  fail_all-reported :
      (cs : List Candidate) (s : State)
      → reported test (fail_all cs s) ≡ reported test s + selected test cs
  unfolding fail_all
  fail_all-reported [] s = omega arith
  fail_all-reported (c ∷ cs) s = omega (arith, fail_all-reported cs (fail c s), fail-reported c s)

  prepare_window-reported :
      (client : Client) (cs : List Candidate) (s : State)
      → (reported test s + live test cs
          ≤ reported test (prepare_window client cs s).1
            + selected test (candidates_of (prepare_window client cs s).0))
        × (reported test (prepare_window client cs s).1
              + selected test (candidates_of (prepare_window client cs s).0)
            ≤ reported test s + selected test cs)
  unfolding prepare_window
  prepare_window-reported client [] s = (omega arith, omega arith)
  prepare_window-reported client (c ∷ cs) s = elim (Bool-cases c.cancelled) [
    | inl gone ↦
        let (low, high) = prepare_window-reported client cs s in
        rw (gone, prepare_window) (omega arith, omega arith)
    | inr there ↦ elim (Result-cases (client.prepare_upload c)) [
      | inl (p, made) ↦
          let (low, high) = prepare_window-reported client cs s in
          rw (there, prepare_window, made) (omega arith, omega arith)
      | inr (e, wrong) ↦
          let (low, high) = prepare_window-reported client cs (fail c s) in
          let one = fail-reported c s in
          rw (there, prepare_window, wrong) (omega arith, omega arith)
    ]
  ]

  reject_duplicates-reported :
      (all items : List PreparedCandidate) (s : State)
      → reported test (reject_duplicates all items s).1
          + selected test (candidates_of (reject_duplicates all items s).0)
        ≡ reported test s + selected test (candidates_of items)
  unfolding reject_duplicates
  reject_duplicates-reported all [] s = refl
  reject_duplicates-reported all (i ∷ items) s =
      elim (Bool-cases (is_duplicate all i.prepared.name_hash)) [
        | inl twice ↦
            rw (twice, reject_duplicates)
              (omega (
                arith,
                reject_duplicates-reported all items (fail i.candidate s),
                fail-reported i.candidate s,
              ))
        | inr once ↦
            rw (once, reject_duplicates) (omega (arith, reject_duplicates-reported all items s))
      ]

  -- The tasks whose candidate the test selects.
  abbrev chosen : List Task → ℕ
  chosen ts = count (λ (t : Task). test t.0.candidate.transfer_id) ts

  execute-reported :
      (client : Client) (t : Task) (s : State)
      → reported test (execute client t s)
        ≡ reported test s + (if test t.0.candidate.transfer_id then 1 else 0)
  unfolding execute finish fail
  execute-reported client (i, none) s = omega arith
  execute-reported client (i, some r) s = elim (Result-cases (client.execute i r)) [
    | inl (true, made) ↦ rw made (omega arith)
    | inl (false, made) ↦ rw made (omega arith)
    | inr (e, wrong) ↦ rw wrong (omega arith)
  ]

  run_tasks-reported :
      (client : Client) (ts : List Task) (s : State)
      → reported test (run_tasks client ts s) ≡ reported test s + chosen ts
  unfolding run_tasks
  run_tasks-reported client [] s = omega arith
  run_tasks-reported client (t ∷ ts) s =
      omega (arith, run_tasks-reported client ts (execute client t s), execute-reported client t s)

  tasks_for-chosen :
      (response : List ResponseItem) (items : List PreparedCandidate)
      → chosen (tasks_for false response items) + chosen (tasks_for true response items)
        ≡ selected test (candidates_of items)
  tasks_for-chosen response [] = refl
  tasks_for-chosen response (i ∷ items) = elim (Bool-cases (is_google i.candidate.provider)) [
    | inl google ↦ rw google (omega (arith, tasks_for-chosen response items))
    | inr ours ↦ rw ours (omega (arith, tasks_for-chosen response items))
  ]

  tasks_by_end-chosen :
      (order : Schedule) (response : List ResponseItem) (items : List PreparedCandidate)
      → chosen (tasks_by_end order response items) ≡ selected test (candidates_of items)
  unfolding tasks_by_end
  tasks_by_end-chosen order response items =
      let mine = λ (t : Task). test t.0.candidate.transfer_id in
      let locals = tasks_for false response items in
      let googles = tasks_for true response items in
      omega (
        arith,
        count-interleave mine order.turns
            (length (run task_rejects 2 order.local_picks locals)
              + length (run task_rejects 1 order.google_picks googles))
            (run task_rejects 2 order.local_picks locals)
            (run task_rejects 1 order.google_picks googles) (omega arith),
        count-run mine task_rejects order.local_picks 2 locals (task_rejects-never 1 locals),
        count-run mine task_rejects order.google_picks 1 googles (task_rejects-never 0 googles),
        tasks_for-chosen response items,
      )

  upload_window-reported :
      (client : Client) (order : Schedule) (items : List PreparedCandidate) (s : State)
      → reported test (upload_window client order items s).1
        ≡ reported test s + selected test (candidates_of items)
  unfolding upload_window
  upload_window-reported client order [] s = omega arith
  upload_window-reported client order (i ∷ items) s =
      elim (Result-cases (init client (i ∷ items))) [
        | inl (response, given) ↦
            rw (given, upload_window)
              (run_tasks-reported client (tasks_by_end order response (i ∷ items))
                  (initialize (i ∷ items) response s)
                ∙ ap (λ (k : ℕ). reported test s + k)
                    (tasks_by_end-chosen order response (i ∷ items)))
        | inr (e, wrong) ↦
            rw (wrong, upload_window) (fail_all-reported (candidates_of (i ∷ items)) s)
      ]

  process_window-reported :
      (client : Client) (order : Schedule) (window : List Candidate) (s : State)
      → (reported test s + live test window
          ≤ reported test (process_window client order window s).1)
        × (reported test (process_window client order window s).1
            ≤ reported test s + selected test window)
  unfolding process_window
  process_window-reported client order window s =
      let prepared = prepare_window client window s in
      let valid = reject_duplicates prepared.0 prepared.0 prepared.1 in
      let (low, high) = prepare_window-reported client window s in
      let kept = reject_duplicates-reported prepared.0 prepared.0 prepared.1 in
      let done = upload_window-reported client order valid.0 valid.1 in (omega arith, omega arith)

  live-le-selected : (cs : List Candidate) → live test cs ≤ selected test cs
  live-le-selected [] = omega arith
  live-le-selected (c ∷ cs) =
      let rest = live-le-selected cs in
      elim (Bool-cases c.cancelled) [
        | inl gone ↦ rw gone (omega arith)
        | inr there ↦ rw there (omega arith)
      ]

  process_windows-reported :
      (client : Client) (fuel : ℕ) (candidates : List Candidate) (s : State)
      → length candidates ≤ fuel
      → (reported test s + live test candidates
          ≤ reported test (process_windows client fuel candidates s))
        × (reported test (process_windows client fuel candidates s)
            ≤ reported test s + selected test candidates)
  unfolding process_windows
  process_windows-reported client zero [] s enough = (omega arith, omega arith)
  process_windows-reported client zero (c ∷ cs) s enough = absurd (omega arith)
  process_windows-reported client (suc fuel) candidates s enough =
      let window = take batch_window_size candidates in
      let later = drop batch_window_size candidates in
      let order = client.schedule fuel in
      let s' = (process_window client order window s).1 in
      let (low, high) = process_window-reported client order window s in
      let all =
        count-take-drop (λ (c : Candidate). test c.transfer_id) batch_window_size candidates in
      let uncancelled =
        count-take-drop (λ (c : Candidate). if c.cancelled then false else test c.transfer_id)
          batch_window_size candidates in
      elim (Bool-cases (process_window client order window s).0) [
        | inl stop ↦
            let failed = fail_all-reported later s' in
            let fewer = live-le-selected later in rw stop (omega arith, omega arith)
        | inr go ↦
            let (low', high') =
              process_windows-reported client fuel later s'
                (omega (arith, length-drop batch_window_size candidates)) in
            rw go (omega arith, omega arith)
      ]

-- However requests end and in whatever order the uploads do, the reports of a batch whose transfer id
-- is among any given ones are at most as many as the candidates with such an id, and at least as many
-- as those of them that are not cancelled.
pub process-reported :
    (test : String → Bool) (client : Client) (candidates : List Candidate)
    → (live test candidates ≤ reported test (process client candidates))
      × (reported test (process client candidates) ≤ selected test candidates)
unfolding process
process-reported test client candidates =
    let start : State = record {
      total = length candidates;
      succeeded = 0;
      paused_count = 0;
      failed_count = 0;
      initialized = [];
      reports = [];
    } in
    let (low, high) =
      process_windows-reported test client (length candidates) candidates start (omega arith) in
    (omega arith, omega arith)
