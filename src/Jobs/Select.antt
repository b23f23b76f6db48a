-- ===== src/Jobs/Select.antt =====
-- Which jobs a batch takes, and in which order.
use fortemi_react.Common.{
  ◌≤◌, ◌<◌, min, ◌≡◌, ◌⊎◌, true, List, [], ◌∷◌, ◌++◌, filter, take, drop, length, arith, All,
  All-mono, All-take, filter-All, length-take,
}
use fortemi_react.Common.Sort.{
  sort, sort-IsSorted, All-sort, IsSorted, IsSorted-take, IsSorted-cut, take-sort-perm, length-sort,
}
use mathlib.Core.List.{Perm}
use fortemi_react.Jobs.{Job, pending, is_pending, runs_before, select_pending}

-- A lower priority number runs first, and among equals the older job.
abbrev pub RunsBefore : Job → Job → Type 0
RunsBefore a b =
    (a.priority < b.priority) ⊎ ((a.priority ≡ b.priority) × (a.created_at ≤ b.created_at))

abbrev pub IsInOrder : List Job → Type 0
IsInOrder [] = Unit
IsInOrder (j ∷ js) = All (RunsBefore j) js × IsInOrder js

RunsBefore-runs_before : (a b : Job) → runs_before a b ≡ true → RunsBefore a b
RunsBefore-runs_before a b h = ground arith

IsInOrder-IsSorted : (js : List Job) → IsSorted runs_before js → IsInOrder js
IsInOrder-IsSorted [] h = tt
IsInOrder-IsSorted (j ∷ js) h =
    (All-mono (RunsBefore-runs_before j) js h.0, IsInOrder-IsSorted js h.1)

pending_of : (j : Job) → is_pending j.status ≡ true → j.status ≡ pending
pending_of j h = ground arith

-- A batch takes pending jobs only, as many as there are but ten at most, a lower priority number first and
-- the older first among equal numbers. With the jobs it leaves they are the pending jobs of the table, and
-- none of those it leaves should run before one that it takes.
pub select_pending_lem :
    (jobs : List Job)
    → let waiting = filter (λ j. is_pending j.status) jobs in
      All (λ j. j.status ≡ pending) (select_pending jobs)
      × IsInOrder (select_pending jobs)
      × (length (select_pending jobs) ≡ min 10 (length waiting))
      × (left : List Job) × Perm (select_pending jobs ++ left) waiting
      × All (λ j. All (RunsBefore j) left) (select_pending jobs)
unfolding select_pending
select_pending_lem jobs =
    let waiting = filter (λ j. is_pending j.status) jobs in
    let sorted = sort runs_before waiting in
    let in_order =
      sort-IsSorted runs_before (λ a b h. ground arith) (λ a b c h k. ground arith) waiting in
    (
      All-take _ 10 _ (
          All-sort runs_before _ waiting
            (All-mono pending_of waiting (filter-All (λ j. is_pending j.status) jobs))),
      IsInOrder-IsSorted _ (IsSorted-take runs_before 10 _ in_order),
      omega (arith, length-take 10 sorted, length-sort runs_before waiting),
      drop 10 sorted,
      take-sort-perm runs_before 10 waiting,
      All-mono (λ j. All-mono (RunsBefore-runs_before j) (drop 10 sorted)) (take 10 sorted)
          (IsSorted-cut runs_before 10 sorted in_order),
    )
