-- ===== src/Jobs/Tests.antt =====
-- A table with two jobs, and the theorems on it.
use fortemi_react.Common.{
  ℕ, ◌+◌, ◌<◌, min, ◌++◌, String, ◌≡◌, refl, Bool, true, false, none, some, List, [], ◌∷◌, filter,
  any, ◌==◌, length, All, arith, string_eq,
}
use mathlib.Core.List.{Perm}
use fortemi_react.Common.Dict
use fortemi_react.Common.Result.{ok, err}
use fortemi_react.Jobs.{Job, pending, failed, is_pending, select_pending, update}
use fortemi_react.Jobs.Worker.{
  Worker, Handler, new_worker, register_handler, process_job, process_pending_jobs,
  missing_capability, mark_processing, effective_max,
}
use fortemi_react.Jobs.Select.{IsInOrder, RunsBefore, select_pending_lem}
use fortemi_react.Jobs.Outcomes.{row, Settled, process_job-Settled, process_job-blocked}
use fortemi_react.Jobs.Drain.{Rows, IsFinished, process_pending_jobs-completed}
use fortemi_react.Jobs.Reports.{Reports, process_pending_jobs-completions}
use fortemi_react.Jobs.Retries.{attempts, attempts-retries}

abbrev job_named : String → ℕ → Job
job_named id priority = record {
  id = id;
  note_id = "n1";
  job_type = "linking";
  status = pending;
  priority = priority;
  required_capability = some "llm";
  retry_count = 0;
  max_retries = 3;
  error = none;
  result = none;
  created_at = 1;
  updated_at = 1;
}

abbrev throwing : Handler
throwing job db = (err "no model", db)

abbrev table : List Job
table = job_named "j1" 5 ∷ job_named "j2" 1 ∷ []

abbrev worker : Worker
worker = record {
  db = table;
  events = some [];
  handlers = ("linking", throwing) ∷ [];
  running = true;
  poll_interval_ms = 5000;
  max_retries = 3;
  backoff_base_ms = 1000;
  backoff_max_ms = 300000;
}

abbrev all_ready : String → Bool
all_ready c = true

abbrev no_ready : String → Bool
no_ready c = false

abbrev clock : Job → ℕ × ℕ
clock j = (10, 20)

registered : Dict.get "linking" worker.handlers ≡ some throwing
unfolding Dict.get
registered = refl

is_first : row "j1" worker.db ≡ some (job_named "j1" 5)
is_first = refl

is_runnable : missing_capability all_ready clock (job_named "j1" 5) ≡ none
unfolding missing_capability
is_runnable = refl

is_blocked : missing_capability no_ready clock (job_named "j1" 5) ≡ some "llm"
unfolding missing_capability
is_blocked = refl

select_pending_lem_example :
    let waiting = filter (λ j. is_pending j.status) table in
    All (λ j. j.status ≡ pending) (select_pending table)
    × IsInOrder (select_pending table)
    × (length (select_pending table) ≡ min 10 (length waiting))
    × (left : List Job) × Perm (select_pending table ++ left) waiting
    × All (λ j. All (RunsBefore j) left) (select_pending table)
select_pending_lem_example = select_pending_lem table

process_job-Settled_example :
    let job = job_named "j1" 5 in
    let marked = update "j1" (mark_processing 10) worker.db in
    (after : Job) × (row "j1" (process_job all_ready clock job worker).0.db ≡ some after)
    × Settled (effective_max worker job) (throwing job marked).0 job after
    × (after.id ≡ "j1")
    × (after.max_retries ≡ 3)
process_job-Settled_example =
    process_job-Settled all_ready clock worker (job_named "j1" 5) throwing is_first registered
      is_runnable refl

process_job-blocked_example :
    let job = job_named "j1" 5 in
    (after : Job) × (row "j1" (process_job no_ready clock job worker).0.db ≡ some after)
    × (after.status ≡ pending)
    × (after.retry_count ≡ 0)
    × (after.result ≡ none)
    × ((process_job no_ready clock job worker).1 ≡ 0)
process_job-blocked_example =
    process_job-blocked no_ready clock worker (job_named "j1" 5) throwing "llm" is_first registered
      is_blocked refl

process_pending_jobs-completions_example :
    Reports worker.events
      (process_pending_jobs all_ready clock worker).1
      (process_pending_jobs all_ready clock worker).0.events
process_pending_jobs-completions_example = process_pending_jobs-completions all_ready clock worker

attempts-retries_example :
    let job = job_named "j1" 5 in
    (after : Job) × (row "j1" (attempts all_ready clock 2 "j1" worker).db ≡ some after)
    × (after.retry_count ≡ job.retry_count + 2)
    × (job.retry_count + 2 < effective_max worker job → is_pending after.status ≡ true)
    × (job.retry_count + 2 ≡ effective_max worker job → after.status ≡ failed)
attempts-retries_example =
    attempts-retries all_ready clock "no model" throwing 2 worker (job_named "j1" 5)
      (λ job db. refl) is_first refl registered is_runnable (omega arith) (omega arith)

abbrev returning : Handler
returning job db = (ok "done", db)

abbrev willing : Worker
unfolding new_worker register_handler
willing = register_handler "linking" returning (
    new_worker table none (record {
      poll_interval_ms = none;
      max_retries = none;
      backoff_base_ms = none;
      backoff_max_ms = none;
    }))

process_pending_jobs-completed_example :
    Rows
      (λ row after.
        (after.id ≡ row.id)
        × (is_pending row.status ≡ true → IsFinished after)
        × (any (λ j. j.id == row.id) (filter (λ j. is_pending j.status) willing.db) ≡ false
            → after ≡ row))
      willing.db
      (process_pending_jobs all_ready clock willing).0.db
unfolding new_worker register_handler missing_capability Dict.get Dict.set
process_pending_jobs-completed_example =
    process_pending_jobs-completed all_ready clock willing (omega arith) (
      ((returning, refl, λ j db. ("done", refl)), refl),
      (((returning, refl, λ j db. ("done", refl)), refl), tt),
    )
