-- ===== src/Records/Upsert/Preview.antt =====
-- records/source-upsert.ts: what a dry run tells of the run that follows it.
use fortemi_react.Common.{ℕ, String, ◌≡◌, Bool, true, false, none, some, List, string_eq}
use fortemi_react.Records.Receipts.{SourceUpsertResponse}
use fortemi_react.Records.Tables.{note}
use fortemi_react.Records.Store
use fortemi_react.Records.Store.{Store}
use fortemi_react.Records.Upsert.{SourceUpsertItem, SourceUpsertOptions, DigestedRequest}
use fortemi_react.Records.Upsert.Batch.{commit}
use fortemi_react.Records.Upsert.Retry.{run}

module _ (compute_hash : String → String) (request_hash : DigestedRequest → String)
    (item : SourceUpsertItem) (rest : List SourceUpsertItem) (options : SourceUpsertOptions)
    (batch_id : String) where
  abbrev pub named : Bool → SourceUpsertOptions
  named b = record options { batch_id = some batch_id; dry_run = b }

  -- A call with the ids and the times that it is given.
  abbrev pub call :
      Bool → (ℕ → ℕ → String) → ℕ → String → (ℕ → ℕ) → Store → Store × SourceUpsertResponse
  call b = run compute_hash request_hash item rest (named b)

  module _ (generated generated' : ℕ → ℕ → String) (stamp stamp' : ℕ)
      (batch_record_id batch_record_id' : String) (now now' : ℕ → ℕ) (s : Store)
      (fresh : (i : ℕ) → Store.get note (generated' i 0) s ≡ none) where
    abbrev dry : String → Store × SourceUpsertResponse
    dry d =
        commit compute_hash generated stamp request_hash batch_record_id now item rest (named true)
          batch_id d s

    abbrev real : String → Store × SourceUpsertResponse
    real d =
        commit compute_hash generated' stamp' request_hash batch_record_id' now' item rest
          (named false) batch_id d s
