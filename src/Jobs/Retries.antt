-- ===== src/Jobs/Retries.antt =====
-- How often a failing job runs.
use fortemi_react.Common.{
  ℕ, suc, zero, ◌+◌, ◌≤◌, ◌<◌, String, ◌≡◌, refl, ap, ◌∙◌, Bool, true, false, none, some, List, leb,
  nat_beq, string_eq, arith, if◌then◌else◌, Bool-cases, inl, inr, leb→le,
}
use mathlib.Core.Option
use fortemi_react.Common.Dict
use fortemi_react.Common.Result.{err}
use fortemi_react.Jobs.{failed, is_pending, Job, update}
use fortemi_react.Jobs.Worker.{
  Worker, Handler, run_job, settle, fail_job, process_job, missing_capability, mark_processing,
  mark_failed, mark_retry, effective_max,
}
use fortemi_react.Jobs.Outcomes.{row, row-update, process_job-runs}

module _ (is_ready : String → Bool) (clock : Job → ℕ × ℕ) where
  -- Processing one job alone, if it is pending, from its row at that time.
  unfoldable pub attempt : String → Worker → Worker
  attempt id w = elim (row id w.db) [
    | none ↦ w
    | some j ↦ if is_pending j.status then (process_job is_ready clock j w).0 else w
  ]

  unfoldable pub attempts : ℕ → String → Worker → Worker
  attempts zero id w = w
  attempts (suc k) id w = attempts k id (attempt id w)

  module _ (message : String) (handler : Handler) where
    abbrev retried : Job → Job
    retried j = mark_retry (clock j).1 message (suc j.retry_count) (mark_processing (clock j).0 j)

    abbrev given_up : Job → Job
    given_up j = mark_failed (clock j).1 message (suc j.retry_count) (mark_processing (clock j).0 j)

    abbrev marked : Worker → Job → Worker
    marked w j = record w { db = update j.id (mark_processing (clock j).0) w.db }

    attempt-throws :
        (w : Worker) (j : Job)
        → ((job : Job) (db : List Job) → handler job db ≡ (err message, db))
        → row j.id w.db ≡ some j
        → is_pending j.status ≡ true
        → Dict.get j.job_type w.handlers ≡ some handler
        → missing_capability is_ready clock j ≡ none
        → attempt j.id w ≡ fail_job (clock j).1 j message (marked w j)
    unfolding attempt run_job settle
    attempt-throws w j throws h q r m =
        rw (h, attempt)
          (rw q (
            ap (λ p. p.0) (process_job-runs is_ready clock w j handler r m)
            ∙ ap (λ o. (settle (clock j).1 j o.0 (record w { db = o.1 })).0)
                (throws j (update j.id (mark_processing (clock j).0) w.db))))

    fail_job-retries :
        (w : Worker) (j : Job)
        → row j.id w.db ≡ some j
        → leb (effective_max w j) (suc j.retry_count) ≡ false
        → (row j.id (fail_job (clock j).1 j message (marked w j)).db ≡ some (retried j))
          × ((fail_job (clock j).1 j message (marked w j)).handlers ≡ w.handlers)
          × ((fail_job (clock j).1 j message (marked w j)).max_retries ≡ w.max_retries)
    unfolding fail_job
    fail_job-retries w j h f = rw f (
      row-update j.id _ _ (λ k. refl)
          ∙ ap (Option.map _) (row-update j.id _ w.db (λ k. refl) ∙ ap (Option.map _) h),
      refl,
      refl,
    )

    fail_job-gives_up :
        (w : Worker) (j : Job)
        → row j.id w.db ≡ some j
        → leb (effective_max w j) (suc j.retry_count) ≡ true
        → row j.id (fail_job (clock j).1 j message (marked w j)).db ≡ some (given_up j)
    unfolding fail_job
    fail_job-gives_up w j h f = rw f (
        row-update j.id _ _ (λ k. refl)
        ∙ ap (Option.map _) (row-update j.id _ w.db (λ k. refl) ∙ ap (Option.map _) h))

    -- A pending job below its limit of retries, whose registered handler throws every time and leaves
    -- the table alone, and whose capability is ready: after any number of attempts that does not go
    -- beyond the limit, its row counts that many more retries, and it is still pending below the limit
    -- and failed at it.
    pub attempts-retries :
        (k : ℕ) (w : Worker) (j : Job)
        → ((job : Job) (db : List Job) → handler job db ≡ (err message, db))
        → row j.id w.db ≡ some j
        → is_pending j.status ≡ true
        → Dict.get j.job_type w.handlers ≡ some handler
        → missing_capability is_ready clock j ≡ none
        → j.retry_count < effective_max w j
        → j.retry_count + k ≤ effective_max w j
        → (after : Job) × (row j.id (attempts k j.id w).db ≡ some after)
          × (after.retry_count ≡ j.retry_count + k)
          × (j.retry_count + k < effective_max w j → is_pending after.status ≡ true)
          × (j.retry_count + k ≡ effective_max w j → after.status ≡ failed)
    unfolding attempts missing_capability
    attempts-retries zero w j throws h q r m l b =
        (j, h, omega arith, λ _. q, λ e. absurd (omega (arith, e, l)))
    attempts-retries (suc k) w j throws h q r m l b =
        rw (attempt-throws w j throws h q r m, attempts)
          (elim (Bool-cases (leb (effective_max w j) (suc j.retry_count))) [
            | inl t ↦
                let last : k ≡ 0 = omega (arith, leb→le _ _ t, b, l) in
                rw last (
                  given_up j,
                  fail_job-gives_up w j h t,
                  omega arith,
                  λ below. absurd (omega (arith, leb→le _ _ t, below)),
                  λ _. refl,
                )
            | inr f ↦
                let w' = fail_job (clock j).1 j message (marked w j) in
                let (h', handlers, limit) = fail_job-retries w j h f in
                let same : effective_max w' (retried j) ≡ effective_max w j =
                  ap (λ n. if nat_beq j.max_retries 0 then n else j.max_retries) limit in
                let above : suc j.retry_count < effective_max w j = ground arith in
                let (after, is_row, count, below, full) =
                  attempts-retries k w' (retried j) throws h' refl
                    (ap (Dict.get j.job_type) handlers ∙ r) m (omega (arith, same, above))
                    (omega (arith, same, b)) in
                (
                  after,
                  is_row,
                  omega (arith, count),
                  λ e. below (omega (arith, same, e)),
                  λ e. full (omega (arith, same, e)),
                )
          ])
