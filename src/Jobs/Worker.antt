-- ===== src/Jobs/Worker.antt =====
-- job-queue-worker.ts: the class JobQueueWorker. A handler is code from outside the worker: a function
-- of the job and the table to its result, or the message of what it throws, and the table that it
-- leaves. The timer that repeats `poll` is not modelled: a poll is a call of `process_pending_jobs`.
use fortemi_react.Common.{
  ℕ, suc, ◌+◌, ◌*◌, ◌^◌, min, String, Bool, true, false, Option, none, some, List, [], ◌∷◌, ◌++◌,
  map, leb, nat_beq, or_else, ◌==◌, string_eq, if◌then◌else◌,
}
use Prim.Native.String
use fortemi_react.Common.Dict
use fortemi_react.Common.Dict.{Dict}
use fortemi_react.Common.Result.{Result, ok, err}
use fortemi_react.Jobs.{
  pending, processing, completed, failed, is_processing, Job, select_pending, update,
}

pub record JobQueueOptions : Type 0 where
  pub poll_interval_ms : Option ℕ
  pub max_retries : Option ℕ
  pub backoff_base_ms : Option ℕ
  pub backoff_max_ms : Option ℕ

pub data Event : Type 0 where
  job_completed : String → String → String → Event
  job_failed : String → String → String → String → Event
  job_blocked capability_required : String → String → String → String → String → Event

abbrev pub Handler : Type 0
Handler = Job → List Job → Result String String × List Job

-- `events` holds what was emitted on the bus, if the worker has one.
pub record Worker : Type 0 where
  pub db : List Job
  pub events : Option (List Event)
  pub handlers : Dict String Handler
  pub running : Bool
  pub poll_interval_ms : ℕ
  pub max_retries : ℕ
  pub backoff_base_ms : ℕ
  pub backoff_max_ms : ℕ

-- `this.events?.emit(...)`, once for each event: a worker without a bus emits nothing.
abbrev pub emit : List Event → Option (List Event) → Option (List Event)
emit es none = none
emit es (some log) = some (log ++ es)

unfoldable pub new_worker : List Job → Option (List Event) → JobQueueOptions → Worker
new_worker db events options = record {
  db = db;
  events = events;
  handlers = [];
  running = false;
  poll_interval_ms = or_else options.poll_interval_ms 5000;
  max_retries = or_else options.max_retries 3;
  backoff_base_ms = or_else options.backoff_base_ms 1000;
  backoff_max_ms = or_else options.backoff_max_ms 300000;
}

unfoldable pub register_handler : String → Handler → Worker → Worker
register_handler job_type handler w = record w { handlers = Dict.set job_type handler w.handlers }

abbrev pub recover : ℕ → Job → Job
recover now j =
    if is_processing j.status then record j { status = pending; updated_at = now } else j

abbrev pub rename : Job → Job
rename j = if j.job_type == "embedding_generation" then record j { job_type = "embedding" } else j

unfoldable pub recover_stale_jobs : ℕ → Worker → Worker
recover_stale_jobs now w = record w { db = map rename (map (recover now) w.db) }

unfoldable pub start : ℕ → Worker → Worker
unfolding recover_stale_jobs
start now w = if w.running then w else recover_stale_jobs now (record w { running = true })

unfoldable pub stop : Worker → Worker
stop w = record w { running = false }

unfoldable pub blocked_message : String → String
blocked_message capability =
    String.◌++◌ "requires capability '" (String.◌++◌ capability "' — not ready")

-- `error IS DISTINCT FROM $1`
abbrev pub has_error : String → Option String → Bool
has_error message none = false
has_error message (some e) = e == message

abbrev pub mark_blocked : ℕ → String → Job → Job
mark_blocked now message j =
    if has_error message j.error
    then j
    else record j { status = pending; error = some message; updated_at = now }

unfoldable pub block_for_capability : ℕ → Job → String → Worker → Worker
block_for_capability now job capability w =
    let message = blocked_message capability in
    record w {
      db = update job.id (mark_blocked now message) w.db;
      events =
          emit
            (job_blocked job.id job.note_id job.job_type capability message
              ∷ capability_required capability job.id job.note_id job.job_type message
              ∷ [])
            w.events;
    }

-- `job.max_retries || this.options.maxRetries`
abbrev pub effective_max : Worker → Job → ℕ
effective_max w job = if nat_beq job.max_retries 0 then w.max_retries else job.max_retries

abbrev pub mark_processing : ℕ → Job → Job
mark_processing now j = record j { status = processing; error = none; updated_at = now }

abbrev pub mark_completed : ℕ → String → Job → Job
mark_completed now result j = record j {
  status = completed;
  error = none;
  result = some result;
  updated_at = now;
}

abbrev pub mark_failed : ℕ → String → ℕ → Job → Job
mark_failed now message count j = record j {
  status = failed;
  error = some message;
  retry_count = count;
  updated_at = now;
}

abbrev pub mark_retry : ℕ → String → ℕ → Job → Job
mark_retry now message count j = record j {
  status = pending;
  error = some message;
  retry_count = count;
  updated_at = now;
}

-- The body of the `catch`.
unfoldable pub fail_job : ℕ → Job → String → Worker → Worker
fail_job now job message w =
    let new_retry_count = suc job.retry_count in
    if leb (effective_max w job) new_retry_count
    then record w {
      db = update job.id (mark_failed now message new_retry_count) w.db;
      events = emit (job_failed job.id job.note_id job.job_type message ∷ []) w.events;
    }
    else record w { db = update job.id (mark_retry now message new_retry_count) w.db }

-- What follows `await handler(job, this.db)`; the number added to `processed` comes with it.
unfoldable pub settle : ℕ → Job → Result String String → Worker → Worker × ℕ
unfolding fail_job
settle now job (ok result) w = (
  record w {
    db = update job.id (mark_completed now result) w.db;
    events = emit (job_completed job.id job.note_id job.job_type ∷ []) w.events;
  },
  1,
)
settle now job (err message) w = (fail_job now job message w, 0)

-- `clock job` holds the readings of `now()` before and after the handler runs.
module _ (is_ready : String → Bool) (clock : Job → ℕ × ℕ) where
  unfoldable pub run_job : Job → Handler → Worker → Worker × ℕ
  unfolding settle
  run_job job handler w =
      let marked = update job.id (mark_processing (clock job).0) w.db in
      let (outcome, db) = handler job marked in
      settle (clock job).1 job outcome (record w { db = db })

  -- The capability that keeps a job from running; the empty text is falsy.
  unfoldable pub missing_capability : Job → Option String
  missing_capability job = elim job.required_capability [
    | none ↦ none
    | some c ↦ if c == "" then none else if is_ready c then none else some c
  ]

  -- One round of the loop of `processPendingJobs`.
  unfoldable pub process_job : Job → Worker → Worker × ℕ
  unfolding run_job missing_capability block_for_capability
  process_job job w = elim (Dict.get job.job_type w.handlers) [
    | none ↦ (w, 0)
    | some handler ↦ elim (missing_capability job) [
      | some c ↦ (block_for_capability (clock job).0 job c w, 0)
      | none ↦ run_job job handler w
    ]
  ]

  unfoldable pub process_jobs : List Job → Worker → Worker × ℕ
  unfolding process_job
  process_jobs [] w = (w, 0)
  process_jobs (job ∷ jobs) w =
      let (w', n) = process_job job w in let (w'', m) = process_jobs jobs w' in (w'', n + m)

  unfoldable pub process_pending_jobs : Worker → Worker × ℕ
  unfolding process_jobs
  process_pending_jobs w = process_jobs (select_pending w.db) w

unfoldable pub get_backoff_delay : ℕ → Worker → ℕ
get_backoff_delay retry_count w = min (w.backoff_base_ms * 2 ^ retry_count) w.backoff_max_ms
