-- ===== src/Jobs/Outcomes.antt =====
-- What the processing of one job does to its row.
use fortemi_react.Common.{
  ℕ, suc, ◌≤◌, ◌<◌, String, ◌≡◌, refl, ap, ◌∙◌, Bool, Option, none, some, List, [], ◌∷◌, find, leb,
  ◌==◌, string_eq, arith, Bool-cases, inl, inr, leb→le,
}
use mathlib.Core.Option
use fortemi_react.Common.Dict
use fortemi_react.Common.Result.{Result, ok, err}
use fortemi_react.Jobs.{pending, completed, failed, Job, update}
use fortemi_react.Jobs.Worker.{
  Worker, Handler, run_job, settle, fail_job, mark_blocked, blocked_message, process_job,
  missing_capability, mark_processing, mark_completed, mark_failed, mark_retry, effective_max,
  block_for_capability,
}

abbrev pub row : String → List Job → Option Job
row id jobs = find (λ j. j.id == id) jobs

pub row-update :
    (id : String) (f : Job → Job) (jobs : List Job)
    → ((j : Job) → (f j).id ≡ j.id)
    → row id (update id f jobs) ≡ Option.map f (row id jobs)
unfolding update
row-update id f [] h = refl
row-update id f (j ∷ jobs) h = ground (arith, row-update id f jobs h, h j)

-- What becomes of a job whose handler ran with an outcome, when `max` retries are allowed.
abbrev pub Settled : ℕ → Result String String → Job → Job → Type 0
Settled max (ok result) job after =
    (after.status ≡ completed)
    × (after.result ≡ some result)
    × (after.error ≡ none)
    × (after.retry_count ≡ job.retry_count)
Settled max (err message) job after =
    (after.retry_count ≡ suc job.retry_count)
    × (after.error ≡ some message)
    × (max ≤ after.retry_count → after.status ≡ failed)
    × (after.retry_count < max → after.status ≡ pending)

settle-Settled :
    (now : ℕ) (job j : Job) (outcome : Result String String) (w : Worker)
    → row job.id w.db ≡ some j
    → j.retry_count ≡ job.retry_count
    → (after : Job) × (row job.id (settle now job outcome w).0.db ≡ some after)
      × Settled (effective_max w job) outcome job after
      × (after.id ≡ j.id)
      × (after.max_retries ≡ j.max_retries)
unfolding settle
settle-Settled now job j (ok result) w h q = (
  mark_completed now result j,
  row-update job.id (mark_completed now result) w.db (λ k. refl) ∙ ap (Option.map _) h,
  (refl, refl, refl, q),
  refl,
  refl,
)
settle-Settled now job j (err message) w h q =
    elim (Bool-cases (leb (effective_max w job) (suc job.retry_count))) [
      | inl t ↦ (
        mark_failed now message (suc job.retry_count) j,
        rw (t, fail_job)
            (row-update job.id (mark_failed now message (suc job.retry_count)) w.db (λ k. refl)
              ∙ ap (Option.map _) h),
        (refl, refl, λ _. refl, λ k. absurd (omega (arith, leb→le _ _ t))),
        refl,
        refl,
      )
      | inr f ↦ (
        mark_retry now message (suc job.retry_count) j,
        rw (f, fail_job)
            (row-update job.id (mark_retry now message (suc job.retry_count)) w.db (λ k. refl)
              ∙ ap (Option.map _) h),
        (refl, refl, λ k. absurd (ground arith), λ _. refl),
        refl,
        refl,
      )
    ]

module _ (is_ready : String → Bool) (clock : Job → ℕ × ℕ) where
  pub process_job-runs :
      (w : Worker) (job : Job) (handler : Handler)
      → Dict.get job.job_type w.handlers ≡ some handler
      → missing_capability is_ready clock job ≡ none
      → process_job is_ready clock job w ≡ run_job is_ready clock job handler w
  unfolding process_job
  process_job-runs w job handler r m = rw (r, process_job) (rw m)

  pub process_job-blocks :
      (w : Worker) (job : Job) (handler : Handler) (capability : String)
      → Dict.get job.job_type w.handlers ≡ some handler
      → missing_capability is_ready clock job ≡ some capability
      → process_job is_ready clock job w ≡ (block_for_capability (clock job).0 job capability w, 0)
  unfolding process_job
  process_job-blocks w job handler capability r m = rw (r, process_job) (rw m)

  -- A selected job whose handler is registered and whose capability is ready, where the handler
  -- leaves the job's own row as it was marked: afterwards the row is completed, with the handler's
  -- result, if the handler returned; if it threw, the row has its message and one more retry, and is
  -- failed exactly when the retries have reached the job's limit (or the worker's, where the job's
  -- is 0), and pending otherwise.
  pub process_job-Settled :
      (w : Worker) (job : Job) (handler : Handler)
      → row job.id w.db ≡ some job
      → Dict.get job.job_type w.handlers ≡ some handler
      → missing_capability is_ready clock job ≡ none
      → let marked = update job.id (mark_processing (clock job).0) w.db in
        row job.id (handler job marked).1 ≡ row job.id marked
        → (after : Job) × (row job.id (process_job is_ready clock job w).0.db ≡ some after)
          × Settled (effective_max w job) (handler job marked).0 job after
          × (after.id ≡ job.id)
          × (after.max_retries ≡ job.max_retries)
  unfolding run_job
  process_job-Settled w job handler h registered ready keeps =
      rw (process_job-runs w job handler registered ready) (
        settle-Settled (clock job).1 job (mark_processing (clock job).0 job) _ _
          (keeps
            ∙ row-update job.id (mark_processing (clock job).0) w.db (λ k. refl)
            ∙ ap (Option.map _) h)
          refl)

  mark_blocked-row :
      (now : ℕ) (message : String) (job : Job)
      → job.status ≡ pending
      → ((mark_blocked now message job).status ≡ pending)
        × ((mark_blocked now message job).retry_count ≡ job.retry_count)
        × ((mark_blocked now message job).result ≡ job.result)
  mark_blocked-row now message job q = ground arith

  -- A selected job whose capability is not ready is not run: its row stays pending with the same
  -- retries and result, and nothing counts as processed.
  pub process_job-blocked :
      (w : Worker) (job : Job) (handler : Handler) (capability : String)
      → row job.id w.db ≡ some job
      → Dict.get job.job_type w.handlers ≡ some handler
      → missing_capability is_ready clock job ≡ some capability
      → job.status ≡ pending
      → (after : Job) × (row job.id (process_job is_ready clock job w).0.db ≡ some after)
        × (after.status ≡ pending)
        × (after.retry_count ≡ job.retry_count)
        × (after.result ≡ job.result)
        × ((process_job is_ready clock job w).1 ≡ 0)
  unfolding block_for_capability
  process_job-blocked w job handler capability h registered missing q =
      let now = (clock job).0 in
      let message = blocked_message capability in
      let (still, retries, result) = mark_blocked-row now message job q in
      rw (process_job-blocks w job handler capability registered missing) (
        mark_blocked now message job,
        row-update job.id (mark_blocked now message) w.db (λ k. ground arith)
            ∙ ap (Option.map (mark_blocked now message)) h,
        still,
        retries,
        result,
        refl,
      )
