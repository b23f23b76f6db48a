-- ===== src/Records/Upsert/Batch.antt =====
-- records/source-upsert.ts: `upsertRecordStoreSources` and `upsertRecordStoreRequest`.
use fortemi_react.Common.{
  ℕ, String, Bool, true, false, ◌&&◌, ◌||◌, Option, none, some, List, [], ◌∷◌, ◌++◌, map, find,
  first, ltb, nat_beq, or_else, ◌==◌, string_eq, if◌then◌else◌,
}
use mathlib.Core.Option
use fortemi_react.Common.Text.{text_length}
use fortemi_react.Common.Result.{ok, err}
use fortemi_react.Records.Types.{SourceImportRunRecord, SourceImportBatchRecord}
use fortemi_react.Records.Receipts.{
  SourceUpsertReasonCode, invalid_batch_metadata, checkpoint_too_large,
  batch_id_reused_with_different_request, unchanged, committed, duplicate, preview, batch_rejected,
  SourceUpsertItemResult, SourceUpsertResponse,
}
use fortemi_react.Records.Tables.{source_import_run, source_import_batch}
use fortemi_react.Records.Journal.{Mutation}
use fortemi_react.Records.Store
use fortemi_react.Records.Store.{Store}
use fortemi_react.Records.Purge.{same_archive}
use fortemi_react.Records.Upsert.{
  SourceIdentityInput, SourceUpsertItem, SourceUpsertOptions, SourceUpsertRequest,
  SourceUpsertScope, DigestedRequest, tenant_of, source_run_record_id, source_request_digest,
  derive_source_batch_id, finish, item_of, options_of,
}
use fortemi_react.Records.Upsert.Validate.{validate, reject_all}
use fortemi_react.Records.Upsert.Plan.{plan_items}

-- The condition of the search for `prior`.
unfoldable pub is_batch : SourceIdentityInput → String → SourceImportBatchRecord → Bool
unfolding same_archive
is_batch source batch_id batch =
    batch.tenant_id == tenant_of source
    && (same_archive batch.archive_id source.archive_id
        && (batch.namespace == source.namespace && batch.batch_id == batch_id))

-- `batchReason`
abbrev pub batch_reason : String → SourceUpsertOptions → Option SourceUpsertReasonCode
batch_reason batch_id options =
    if nat_beq (text_length batch_id) 0 || ltb 200 (text_length batch_id)
    then some invalid_batch_metadata
    else if ltb 65536 (text_length (or_else options.checkpoint "{}"))
    then some checkpoint_too_large
    else none

-- `{ ...item, outcome: 'unchanged', reason_code: undefined, reason: undefined }`
abbrev pub as_unchanged : SourceUpsertItemResult → SourceUpsertItemResult
as_unchanged item = record item { outcome = unchanged; reason_code = none }

module _ (compute_hash : String → String) (generated : ℕ → ℕ → String) (stamp : ℕ) where
  module _ (request_hash : DigestedRequest → String) (batch_record_id : String) where
    unfoldable pub run_record :
        SourceUpsertItem → SourceUpsertOptions → SourceUpsertResponse → SourceImportRunRecord
    run_record item options receipt = record {
      id = source_run_record_id compute_hash item.source;
      external_run_id = item.source.import_run_id;
      source_id = item.source.source_id;
      source_schema_version = item.source.source_schema_version;
      workspace_id = item.source.workspace_id;
      tenant_id = tenant_of item.source;
      archive_id = item.source.archive_id;
      namespace = item.source.namespace;
      started_at = stamp;
      completed_at = some stamp;
      checkpoint = or_else options.checkpoint "{}";
      receipt = receipt;
    }

    unfoldable pub batch_record :
        SourceUpsertItem
        → SourceUpsertOptions
        → String
        → String
        → SourceUpsertResponse
        → SourceImportBatchRecord
    batch_record item options batch_id request_digest receipt = record {
      id = batch_record_id;
      tenant_id = tenant_of item.source;
      archive_id = item.source.archive_id;
      namespace = item.source.namespace;
      batch_id = batch_id;
      request_digest = request_digest;
      import_run_id = item.source.import_run_id;
      outcome = "committed";
      checkpoint = or_else options.checkpoint "{}";
      receipt = receipt;
      created_at = stamp;
    }

    -- What follows the search for `prior` when it finds none.
    unfoldable pub commit :
        (ℕ → ℕ)
        → SourceUpsertItem
        → List SourceUpsertItem
        → SourceUpsertOptions
        → String
        → String
        → Store
        → Store × SourceUpsertResponse
    unfolding plan_items run_record batch_record
    commit now item items options batch_id request_digest s =
        let run_id = item.source.import_run_id in
        let all = item ∷ items in
        elim (plan_items compute_hash generated stamp all options 0 all s) [
          | err results ↦
              (s, finish run_id batch_id false batch_rejected results options.checkpoint)
          | ok (outcomes, mutations) ↦
              if options.dry_run
              then (s, finish run_id batch_id true preview outcomes options.checkpoint)
              else (let receipt =
                    finish run_id batch_id false committed outcomes options.checkpoint in
                  let puts : List Mutation =
                    Mutation.put source_import_run (run_record item options receipt)
                    ∷ Mutation.put source_import_batch
                        (batch_record item options batch_id request_digest receipt)
                    ∷ [] in
                  ((Store.apply_batch now s (mutations ++ puts)).0, receipt))
        ]

    -- What a batch that was committed before answers.
    unfoldable pub repeat_batch :
        SourceUpsertItem
        → List SourceUpsertItem
        → SourceUpsertOptions
        → String
        → String
        → SourceImportBatchRecord
        → SourceUpsertResponse
    repeat_batch item items options batch_id request_digest prior =
        let run_id = item.source.import_run_id in
        if prior.request_digest == request_digest
        then finish run_id batch_id false duplicate (map as_unchanged prior.receipt.items)
            prior.receipt.checkpoint
        else finish run_id batch_id false batch_rejected
            (reject_all compute_hash batch_id_reused_with_different_request 0 (item ∷ items))
            options.checkpoint

    -- `upsertRecordStoreSources`. Without items `validate` always finds a reason.
    unfoldable pub upsert_sources :
        (ℕ → ℕ) → List SourceUpsertItem → SourceUpsertOptions → Store → Store × SourceUpsertResponse
    unfolding commit repeat_batch
    upsert_sources now items options s =
        let request_digest = source_request_digest request_hash items options in
        let batch_id = or_else options.batch_id (derive_source_batch_id request_digest) in
        let run_id = or_else (Option.map (λ i. i.source.import_run_id) (first items)) "" in
        elim (validate compute_hash items (or_else options.max_items 500)
          (batch_reason batch_id options)) [
            | some reason ↦ (
              s,
              finish run_id batch_id options.dry_run batch_rejected
                  (reject_all compute_hash reason 0 items) options.checkpoint,
            )
            | none ↦ elim items [
              | [] ↦
                  (s, finish run_id batch_id options.dry_run batch_rejected [] options.checkpoint)
              | item ∷ rest ↦
                  elim (find (is_batch item.source batch_id)
                    (Store.list source_import_batch none s)) [
                      | some prior ↦
                          (s, repeat_batch item rest options batch_id request_digest prior)
                      | none ↦ commit now item rest options batch_id request_digest s
                    ]
            ]
          ]

    unfoldable pub upsert_request :
        (ℕ → ℕ) → SourceUpsertRequest → SourceUpsertScope → Store → Store × SourceUpsertResponse
    unfolding upsert_sources
    upsert_request now request scope s =
        upsert_sources now (map (item_of request scope) request.items) (options_of request) s
