-- ===== src/Records/Receipts.antt =====
-- repositories/source-upsert-repository.ts: the results of a source import, which the records of the
-- import keep as their receipts. Their type in records/types.ts is an arbitrary object; the writers
-- under records/ store these.
use fortemi_react.Common.{ℕ, String, Bool, Option, List}

pub data SourceUpsertOutcome : Type 0 where
  inserted unchanged versioned replaced conflict rejected : SourceUpsertOutcome

pub data SourceUpsertBatchOutcome : Type 0 where
  committed duplicate preview batch_rejected : SourceUpsertBatchOutcome

pub data SourceUpsertReasonCode : Type 0 where
  invalid_batch_metadata batch_size_out_of_bounds checkpoint_too_large invalid_item :
      SourceUpsertReasonCode
  duplicate_external_id_in_batch content_digest_mismatch : SourceUpsertReasonCode
  caller_stable_id_conflict batch_id_reused_with_different_request : SourceUpsertReasonCode

pub record SourceUpsertItemResult : Type 0 where
  pub index : ℕ
  pub outcome : SourceUpsertOutcome
  pub note_id : Option String
  pub external_id_hash : String
  pub content_digest : String
  pub reason_code : Option SourceUpsertReasonCode

pub record OutcomeCounts : Type 0 where
  pub inserted_count : ℕ
  pub unchanged_count : ℕ
  pub versioned_count : ℕ
  pub replaced_count : ℕ
  pub conflict_count : ℕ
  pub rejected_count : ℕ

pub record SourceUpsertResponse : Type 0 where
  pub contract_version : String
  pub import_run_id : String
  pub batch_id : String
  pub dry_run : Bool
  pub outcome : SourceUpsertBatchOutcome
  pub checkpoint : Option String
  pub items : List SourceUpsertItemResult
  pub counts : OutcomeCounts
