-- ===== src/Jobs/Drain.antt =====
-- job-queue-worker.ts: a poll completes every job when the handlers do not fail.
use fortemi_react.Common.{
  ℕ, ◌≡◌, ◌≤◌, inl, inr, refl, sym, subst, String, Bool, true, false, not, ◌||◌, none, some, List,
  [], ◌∷◌, map, is_some, filter, any, take, length, take-all_le, ◌==◌, ==_iff, ==_refl, string_eq,
  All, Bool-cases, arith,
}
use fortemi_react.Common.Sort.{sort, any-sort, length-sort, All-sort}
use fortemi_react.Common.Dict
use fortemi_react.Common.Result.{ok}
use fortemi_react.Jobs.{Job, completed, update_at, is_pending, runs_before, select_pending, update}
use fortemi_react.Jobs.Worker.{
  Worker, Handler, mark_processing, mark_completed, settle, run_job, missing_capability,
  process_job, process_jobs, process_pending_jobs,
}

-- A handler that returns and leaves the table of jobs alone.
abbrev pub IsPlain : Handler → Type 0
IsPlain h = (j : Job) (db : List Job) → (r : String) × (h j db ≡ (ok r, db))

-- Whether a row is not pending, or has the id of one of some jobs.
abbrev is_done : List Job → Job → Bool
is_done jobs row = not (is_pending row.status) || any (λ j. j.id == row.id) jobs

abbrev AllDone : List Job → List Job → Type 0
AllDone jobs db = All (λ row. is_done jobs row ≡ true) db

-- Every pending row is among the pending rows.
AllDone-mono :
    (jobs more : List Job) (db : List Job)
    → ((id : String) → any (λ j. j.id == id) jobs ≡ true → any (λ j. j.id == id) more ≡ true)
    → AllDone jobs db
    → AllDone more db
AllDone-mono jobs more [] f h = tt
AllDone-mono jobs more (row ∷ db) f h = (
  elim (Bool-cases (is_pending row.status)) [
    | inl t ↦
        let listed : any (λ j. j.id == row.id) jobs ≡ true = ground (arith, h.0, t) in
        rw t (f row.id listed)
    | inr t ↦ rw t refl
  ],
  AllDone-mono jobs more db f h.1,
)

pending-AllDone : (db : List Job) → AllDone (filter (λ j. is_pending j.status) db) db
pending-AllDone [] = tt
pending-AllDone (row ∷ db) =
    let rows = filter (λ j. is_pending j.status) db in
    elim (Bool-cases (is_pending row.status)) [
      | inl t ↦
          let kept : filter (λ j. is_pending j.status) (row ∷ db) ≡ row ∷ rows = rw t refl in
          subst (λ xs. AllDone xs (row ∷ db)) (sym kept)
            (
              ground (arith, ==_refl row.id),
              AllDone-mono rows (row ∷ rows) db (λ id l. ground (arith, l)) (pending-AllDone db),
            )
      | inr t ↦
          let dropped : filter (λ j. is_pending j.status) (row ∷ db) ≡ rows = rw t refl in
          subst (λ xs. AllDone xs (row ∷ db)) (sym dropped) (ground (arith, t), pending-AllDone db)
    ]

abbrev pub IsFinished : Job → Type 0
IsFinished row = (row.status ≡ completed) × (row.error ≡ none) × (is_some row.result ≡ true)

-- What becomes of a row when the handlers of some jobs returned: it is completed without an error and with a
-- result if it is the row of one of them, and as it was otherwise.
abbrev pub Ran : List Job → Job → Job → Type 0
Ran jobs row after =
    (after.id ≡ row.id)
    × (any (λ j. j.id == row.id) jobs ≡ true → IsFinished after)
    × (any (λ j. j.id == row.id) jobs ≡ false → after ≡ row)

-- Two tables have as many rows, and each two at one place are related.
abbrev pub Rows : (Job → Job → Type 0) → List Job → List Job → Type 0
Rows R [] [] = Unit
Rows R [] (y ∷ ys) = ⊥
Rows R (r ∷ xs) [] = ⊥
Rows R (r ∷ xs) (y ∷ ys) = R r y × Rows R xs ys

Rows-map :
    (R Q : Job → Job → Type 0) (f : Job → Job) (xs ys : List Job)
    → ((r a : Job) → R (f r) a → Q r a)
    → Rows R (map f xs) ys
    → Rows Q xs ys
Rows-map R Q f [] [] k h = tt
Rows-map R Q f [] (y ∷ ys) k h = h
Rows-map R Q f (r ∷ xs) [] k h = h
Rows-map R Q f (r ∷ xs) (y ∷ ys) k h = (k r y h.0, Rows-map R Q f xs ys k h.1)

Rows-mono :
    (P : Job → Type 0) (R Q : Job → Job → Type 0) (xs ys : List Job)
    → All P xs
    → ((r a : Job) → P r → R r a → Q r a)
    → Rows R xs ys
    → Rows Q xs ys
Rows-mono P R Q [] [] p k h = tt
Rows-mono P R Q [] (y ∷ ys) p k h = h
Rows-mono P R Q (x ∷ xs) [] p k h = h
Rows-mono P R Q (x ∷ xs) (y ∷ ys) p k h = (k x y p.0 h.0, Rows-mono P R Q xs ys p.1 k h.1)

Rows-refl : (db : List Job) → Rows (Ran []) db db
Rows-refl [] = tt
Rows-refl (r ∷ db) = ((refl, λ e. absurd (cc e), λ e. refl), Rows-refl db)

-- A job ran first, and then the others.
Ran-step :
    (job : Job) (jobs : List Job) (t u : ℕ) (r : String) (row after : Job)
    → Ran jobs
        (update_at job.id (mark_completed u r) (update_at job.id (mark_processing t) row))
        after
    → Ran (job ∷ jobs) row after
Ran-step job jobs t u r row after h = elim (Bool-cases (row.id == job.id)) [
  | inl e ↦
      let (same_id, listed, unlisted) = (rw e at (rw e at h)) in
      let is_job : (job.id == row.id) ≡ true =
        ground (arith, e, ==_iff row.id job.id, ==_iff job.id row.id) in
      (
        same_id,
        λ _. elim (Bool-cases (any (λ j. j.id == row.id) jobs)) [
          | inl l ↦ listed l
          | inr l ↦ subst IsFinished (sym (unlisted l)) (refl, refl, refl)
        ],
        λ f. absurd (ground (arith, f, is_job)),
      )
  | inr e ↦
      let (same_id, listed, unlisted) = (rw e at (rw e at h)) in
      let not_job : (job.id == row.id) ≡ false =
        ground (arith, e, ==_iff row.id job.id, ==_iff job.id row.id) in
      (
        same_id,
        λ l. listed (ground (arith, l, not_job)),
        λ l. unlisted (ground (arith, l, not_job)),
      )
]

module _ (is_ready : String → Bool) (clock : Job → ℕ × ℕ) where
  -- A job whose handler is registered and plain, and whose capability is there.
  abbrev pub IsRunnable : Dict.Dict String Handler → Job → Type 0
  IsRunnable handlers j =
      ((h : Handler) × (Dict.get j.job_type handlers ≡ some h) × IsPlain h)
      × (missing_capability is_ready clock j ≡ none)

  -- A call on the table after one runnable job, with what the others make of it.
  process_job-Ran :
      (job : Job) (jobs : List Job) (w : Worker) (final : List Job)
      → IsRunnable w.handlers job
      → Rows (Ran jobs) (process_job is_ready clock job w).0.db final
      → Rows (Ran (job ∷ jobs)) w.db final
  unfolding process_job run_job settle update
  process_job-Ran job jobs w final ((handler, found, plain), ready) h =
      let ran = plain job (update job.id (mark_processing (clock job).0) w.db) in
      let done = (rw ran.1 at (rw ready at (rw (found, process_job) at h))) in
      Rows-map _ (Ran (job ∷ jobs)) (update_at job.id (mark_processing (clock job).0)) w.db final
        (λ r a q. Ran-step job jobs (clock job).0 (clock job).1 ran.0 r a q)
        (Rows-map (Ran jobs) _ (update_at job.id (mark_completed (clock job).1 ran.0)) _ final
          (λ r a q. q) done)

  process_job-handlers :
      (job : Job) (w : Worker)
      → IsRunnable w.handlers job
      → (process_job is_ready clock job w).0.handlers ≡ w.handlers
  unfolding process_job run_job settle
  process_job-handlers job w ((handler, found, plain), ready) =
      let ran = plain job (update job.id (mark_processing (clock job).0) w.db) in
      rw (found, process_job) (rw ready (rw ran.1 refl))

  process_jobs-Ran :
      (jobs : List Job) (w : Worker)
      → All (IsRunnable w.handlers) jobs
      → Rows (Ran jobs) w.db (process_jobs is_ready clock jobs w).0.db
  unfolding process_jobs
  process_jobs-Ran [] w runnable = Rows-refl w.db
  process_jobs-Ran (job ∷ jobs) w runnable = process_job-Ran job jobs w _ runnable.0 (
      process_jobs-Ran jobs (process_job is_ready clock job w).0 (
        subst (λ hs. All (IsRunnable hs) jobs) (sym (process_job-handlers job w runnable.0))
          runnable.1))

  -- When at most ten jobs are pending, and each of them has its capability and a registered handler that returns
  -- and leaves the table of jobs alone, one poll completes them all: each row that was pending is completed
  -- afterwards, without an error and with a result, and a row with the id of none of them is as it was.
  pub process_pending_jobs-completed :
      (w : Worker)
      → let waiting = filter (λ j. is_pending j.status) w.db in
        length waiting ≤ 10
        → All (IsRunnable w.handlers) waiting
        → Rows
            (λ row after.
              (after.id ≡ row.id)
              × (is_pending row.status ≡ true → IsFinished after)
              × (any (λ j. j.id == row.id) waiting ≡ false → after ≡ row))
            w.db
            (process_pending_jobs is_ready clock w).0.db
  unfolding process_pending_jobs select_pending
  process_pending_jobs-completed w few runnable =
      let waiting = filter (λ j. is_pending j.status) w.db in
      let sorted = sort runs_before waiting in
      let all_taken : take 10 sorted ≡ sorted =
        take-all_le 10 sorted (omega (arith, few, length-sort runs_before waiting)) in
      let ran =
        process_jobs-Ran (take 10 sorted) w
          (rw all_taken (All-sort runs_before (IsRunnable w.handlers) waiting runnable)) in
      let same : (id : String)
          → any (λ j. j.id == id) (take 10 sorted) ≡ any (λ j. j.id == id) waiting =
        λ id. rw all_taken (any-sort runs_before (λ j. j.id == id) waiting) in
      Rows-mono (λ row. is_done waiting row ≡ true) (Ran (take 10 sorted)) _ w.db _
        (pending-AllDone w.db)
        (λ row after done r. (
          r.0,
          λ p. r.1 (ground (arith, same row.id, done, p)),
          λ n. r.2 (ground (arith, same row.id, n)),
        ))
        ran
