-- ===== src/Jobs/Reports.antt =====
-- How many completions a batch reports on the event bus.
use fortemi_react.Common.{
  ℕ, suc, ◌+◌, String, ◌≡◌, refl, ap, ◌∙◌, Bool, none, some, List, [], ◌∷◌, ◌++◌, leb, string_eq,
  arith, Bool-cases, Option-cases, inl, inr, Option, sym, subst, append_assoc, append-nil,
}
use fortemi_react.Common.Dict
use fortemi_react.Common.Result.{Result, ok, err}
use fortemi_react.Jobs.{Job, update, select_pending}
use fortemi_react.Jobs.Worker.{
  Worker, Event, emit, job_completed, job_failed, job_blocked, capability_required, blocked_message,
  run_job, settle, fail_job, process_job, process_jobs, process_pending_jobs, missing_capability,
  mark_processing, effective_max, block_for_capability,
}
use fortemi_react.Jobs.Outcomes.{process_job-runs, process_job-blocks}

-- How many of some events report a completion.
abbrev pub completions : List Event → ℕ
completions [] = 0
completions (job_completed i n t ∷ es) = suc (completions es)
completions (_ ∷ es) = completions es

completions-append : (es fs : List Event) → completions (es ++ fs) ≡ completions es + completions fs
completions-append [] fs = omega arith
completions-append (job_completed i n t ∷ es) fs = omega (arith, completions-append es fs)
completions-append (_ ∷ es) fs = completions-append es fs

-- What a worker's bus has after some events with n completions among them: a worker without a bus has none.
abbrev pub Reports : Option (List Event) → ℕ → Option (List Event) → Type 0
Reports none n after = after ≡ none
Reports (some log) n after = (es : List Event) × (after ≡ some (log ++ es)) × (completions es ≡ n)

Reports-same : (events : Option (List Event)) → Reports events 0 events
Reports-same none = refl
Reports-same (some log) = ([], ap some (sym (append-nil log)), refl)

Reports-emit :
    (es : List Event) (events : Option (List Event))
    → Reports events (completions es) (emit es events)
Reports-emit es none = refl
Reports-emit es (some log) = (es, refl, refl)

Reports-then :
    (a b c : Option (List Event)) (n m : ℕ) → Reports a n b → Reports b m c → Reports a (n + m) c
Reports-then none b c n m h k = subst (λ e. Reports e m c) h k
Reports-then (some log) b c n m (es, h, count) k =
    let (fs, h', count') = (subst (λ e. Reports e m c) h k) in
    (
      es ++ fs,
      h' ∙ ap some (append_assoc log es fs),
      omega (arith, completions-append es fs, count, count'),
    )

settle-completions :
    (now : ℕ) (job : Job) (outcome : Result String String) (w : Worker)
    → Reports w.events (settle now job outcome w).1 (settle now job outcome w).0.events
unfolding settle fail_job
settle-completions now job (ok r) w =
    Reports-emit (job_completed job.id job.note_id job.job_type ∷ []) w.events
settle-completions now job (err m) w =
    elim (Bool-cases (leb (effective_max w job) (suc job.retry_count))) [
      | inl t ↦
          rw (t, fail_job)
            (Reports-emit (job_failed job.id job.note_id job.job_type m ∷ []) w.events)
      | inr f ↦ rw (f, fail_job) (Reports-same w.events)
    ]

module _ (is_ready : String → Bool) (clock : Job → ℕ × ℕ) where
  process_job-completions :
      (job : Job) (w : Worker)
      → Reports w.events
          (process_job is_ready clock job w).1
          (process_job is_ready clock job w).0.events
  unfolding process_job run_job block_for_capability
  process_job-completions job w = elim (Option-cases (Dict.get job.job_type w.handlers)) [
    | inl e ↦ rw (e, process_job) (Reports-same w.events)
    | inr (handler, e) ↦ elim (Option-cases (missing_capability is_ready clock job)) [
      | inl m ↦ rw (process_job-runs is_ready clock w job handler e m) (
          let (outcome, db) = handler job (update job.id (mark_processing (clock job).0) w.db) in
          settle-completions (clock job).1 job outcome (record w { db = db }))
      | inr (c, m) ↦
          let message = blocked_message c in
          rw (process_job-blocks is_ready clock w job handler c e m) (
            Reports-emit
              (job_blocked job.id job.note_id job.job_type c message
                ∷ capability_required c job.id job.note_id job.job_type message
                ∷ [])
              w.events)
    ]
  ]

  process_jobs-completions :
      (jobs : List Job) (w : Worker)
      → Reports w.events
          (process_jobs is_ready clock jobs w).1
          (process_jobs is_ready clock jobs w).0.events
  unfolding process_jobs
  process_jobs-completions [] w = Reports-same w.events
  process_jobs-completions (job ∷ jobs) w =
      Reports-then w.events _ _ _ _ (process_job-completions job w)
        (process_jobs-completions jobs (process_job is_ready clock job w).0)

  -- Where the worker has an event bus, a batch adds events to it, as many `job.completed` among them as the number
  -- that the batch returns; a worker without a bus emits nothing. What the handlers do to the table does not
  -- matter.
  pub process_pending_jobs-completions :
      (w : Worker)
      → Reports w.events
          (process_pending_jobs is_ready clock w).1
          (process_pending_jobs is_ready clock w).0.events
  unfolding process_pending_jobs
  process_pending_jobs-completions w = process_jobs-completions (select_pending w.db) w
