-- ===== src/Jobs.antt =====
-- job-queue-worker.ts: the jobs, the table `job_queue` and the calls that enqueue. The table is the list
-- of its rows in the order of insertion; each SQL statement is a function of it. A reading of the
-- database clock, `now()`, is an argument. The ids that `generateId()` returns are arguments.
pub mod Worker
pub mod Select
pub mod Outcomes
pub mod Retries
pub mod Reports
pub mod Drain
mod Tests
use fortemi_react.Common.{
  ℕ, String, Bool, true, false, Option, none, some, List, [], ◌∷◌, ◌++◌, map, filter, take, leb,
  ltb, or_else, ◌==◌, string_eq, Key, ◌≡◌, ◌↔◌, arith, if◌then◌else◌, nat_beq, ◌&&◌, ◌||◌,
}
use fortemi_react.Common.Sort.{sort}

pub data Status : Type 0 where
  pending processing completed failed : Status

abbrev pub is_pending : Status → Bool
is_pending pending = true
is_pending _ = false

abbrev pub is_processing : Status → Bool
is_processing processing = true
is_processing _ = false

pub record Job : Type 0 where
  pub id : String
  pub note_id : String
  pub job_type : String
  pub status : Status
  pub priority : ℕ
  pub required_capability : Option String
  pub retry_count : ℕ
  pub max_retries : ℕ
  pub error : Option String
  pub result : Option String
  pub created_at : ℕ
  pub updated_at : ℕ

pub data JobType : Type 0 where
  ai_revision title_generation embedding concept_tagging linking : JobType

abbrev pub job_type_name : JobType → String
job_type_name ai_revision = "ai_revision"
job_type_name title_generation = "title_generation"
job_type_name embedding = "embedding"
job_type_name concept_tagging = "concept_tagging"
job_type_name linking = "linking"

abbrev pub job_priorities : JobType → ℕ
job_priorities ai_revision = 1
job_priorities title_generation = 2
job_priorities embedding = 3
job_priorities concept_tagging = 4
job_priorities linking = 5

abbrev pub job_capabilities : JobType → Option String
job_capabilities ai_revision = some "llm"
job_capabilities embedding = some "semantic"
job_capabilities concept_tagging = some "llm"
job_capabilities _ = none

-- `required_capability` is outer-none where it is omitted, and `some none` where it is null.
pub record EnqueueJobInput : Type 0 where
  pub note_id : String
  pub job_type : JobType
  pub priority : Option ℕ
  pub required_capability : Option (Option String)

unfoldable pub enqueue_job : ℕ → String → EnqueueJobInput → List Job → List Job
enqueue_job now id input jobs =
    jobs
    ++ record {
      id = id;
      note_id = input.note_id;
      job_type = job_type_name input.job_type;
      status = pending;
      priority = or_else input.priority (job_priorities input.job_type);
      required_capability = or_else input.required_capability (job_capabilities input.job_type);
      retry_count = 0;
      max_retries = 3;
      error = none;
      result = none;
      created_at = now;
      updated_at = now;
    }
      ∷ []

-- `{ noteId, jobType }`
abbrev pub plain : String → JobType → EnqueueJobInput
plain note_id t = record {
  note_id = note_id;
  job_type = t;
  priority = none;
  required_capability = none;
}

-- The calls of `enqueueJob` for some types, each with its id and reading of the clock.
unfoldable pub enqueue_each : String → List (JobType × String × ℕ) → List Job → List Job
enqueue_each note_id [] jobs = jobs
enqueue_each note_id ((t, id, now) ∷ ts) jobs =
    enqueue_each note_id ts (enqueue_job now id (plain note_id t) jobs)

unfoldable pub enqueue_note_creation_jobs :
    (String × ℕ) → (String × ℕ) → (String × ℕ) → String → Bool → List Job → List Job
unfolding enqueue_each
enqueue_note_creation_jobs a b c note_id has_title jobs =
    let start = enqueue_job a.1 a.0 (plain note_id ai_revision) jobs in
    let titled =
      if has_title then start else enqueue_job b.1 b.0 (plain note_id title_generation) start in
    enqueue_job c.1 c.0 (plain note_id embedding) titled

unfoldable pub enqueue_full_workflow :
    (String × ℕ)
    → (String × ℕ)
    → (String × ℕ)
    → (String × ℕ)
    → (String × ℕ)
    → String
    → List Job
    → List Job
unfolding enqueue_each
enqueue_full_workflow a b c d e note_id = enqueue_each note_id (
    (ai_revision, a.0, a.1)
    ∷ (title_generation, b.0, b.1)
    ∷ (embedding, c.0, c.1)
    ∷ (concept_tagging, d.0, d.1)
    ∷ (linking, e.0, e.1)
    ∷ [])

-- ORDER BY priority ASC, created_at ASC; the rows of equal keys are taken in the table's order.
abbrev pub runs_before : Job → Job → Bool
runs_before a b =
    ltb a.priority b.priority || (nat_beq a.priority b.priority && leb a.created_at b.created_at)

-- SELECT * FROM job_queue WHERE status = 'pending' ORDER BY ... LIMIT 10
unfoldable pub select_pending : List Job → List Job
select_pending jobs = take 10 (sort runs_before (filter (λ j. is_pending j.status) jobs))

-- UPDATE job_queue SET ... WHERE id = $n
abbrev pub update_at : String → (Job → Job) → Job → Job
update_at id f j = if j.id == id then f j else j

unfoldable pub update : String → (Job → Job) → List Job → List Job
update id f jobs = map (update_at id f) jobs

-- `noteId ? ... : ...`, where the empty text is falsy
abbrev pub is_asked : Option String → Job → Bool
is_asked none j = true
is_asked (some n) j = if n == "" then true else j.note_id == n

-- SELECT * FROM job_queue [WHERE note_id = $1] ORDER BY created_at DESC LIMIT 50
unfoldable pub get_job_queue_status : Option String → List Job → List Job
get_job_queue_status note_id jobs =
    take 50 (sort (λ a b. leb b.created_at a.created_at) (filter (is_asked note_id) jobs))
