-- ===== src/Dataset/Api.antt =====
-- packages/react/src/dataset/types.ts: what the workflow's API takes and answers, and the snapshot.
use fortemi_react.Common.{ℕ, String, Bool, Option, List}
use fortemi_react.Common.Dict.{Dict}
use fortemi_react.Dataset.Values.{Primitive, Configuration}
use fortemi_react.Dataset.Schema.{ValidationError}

pub data Severity : Type 0 where
  info warning error : Severity

pub data RetryClass : Type 0 where
  never immediate backoff after_change : RetryClass

pub record DatasetDiagnostic : Type 0 where
  pub code : String
  pub severity : Severity
  pub summary : String
  pub remediation : Option String
  pub retry_class : RetryClass

-- What a call of the API rejects with: an `AbortError`, a `DatasetWorkflowError` or any other value.
pub data Rejection : Type 0 where
  abort_error other_error : Rejection
  workflow_error : DatasetDiagnostic → Rejection

pub data DatasetCheckStage : Type 0 where
  configuration_stage authorization reachability discovery capability policy : DatasetCheckStage

pub data DatasetCheckStatus : Type 0 where
  passed warned check_failed not_run : DatasetCheckStatus

pub record DatasetCheckResult : Type 0 where
  pub stage : DatasetCheckStage
  pub status : DatasetCheckStatus
  pub diagnostics : List DatasetDiagnostic

pub record DatasetPreviewEstimate : Type 0 where
  pub records : Option ℕ
  pub bytes : Option ℕ
  pub network_bytes : Option ℕ
  pub storage_bytes : Option ℕ

pub data InferredSchema : Type 0 where
  not_requested candidate validated : InferredSchema

pub record PreviewStream : Type 0 where
  pub id : String
  pub fields : List String

pub record PreviewDataset : Type 0 where
  pub id : String
  pub streams : List PreviewStream
  pub inferred_schema : InferredSchema
  pub redacted_samples : List (Dict String Primitive)

-- The first two fields are `true` in the declared type, and tested by the machine all the same.
pub record DatasetPreview : Type 0 where
  pub bounded : Bool
  pub side_effect_free : Bool
  pub limit : ℕ
  pub datasets : List PreviewDataset
  pub estimate : DatasetPreviewEstimate
  pub unsupported_capabilities : List String

pub record Reconciliation : Type 0 where
  pub destructive : Bool
  pub estimated_deletes : ℕ
  pub confirmation_threshold : ℕ

pub record DatasetPlan : Type 0 where
  pub id : String
  pub digest : String
  pub source_revision : String
  pub source_digest : String
  pub configuration_digest : String
  pub capabilities : List String
  pub transforms : List String
  pub locality : String
  pub outbound_hosts : List String
  pub privacy : String
  pub rights : String
  pub retention : String
  pub estimated_writes : ℕ
  pub estimated_cost : Option String
  pub fallback_behavior : String
  pub reconciliation : Reconciliation

pub data Lifecycle : Type 0 where
  queued running cancelling cancelled committed failed degraded : Lifecycle

pub data Verification : Type 0 where
  pending verified verification_failed : Verification

pub record DatasetRunProgress : Type 0 where
  pub run_id : String
  pub lifecycle : Lifecycle
  pub stage : String
  pub observed : ℕ
  pub total : Option ℕ
  pub last_checkpoint : Option String
  pub accepted : ℕ
  pub rejected : ℕ
  pub retry_class : RetryClass
  pub verification : Verification
  pub diagnostics : List DatasetDiagnostic

pub data Availability : Type 0 where
  online offline_cold offline_warm : Availability

pub data ArtifactState : Type 0 where
  canonical derived cached stale degraded_artifact unverifiable : ArtifactState

-- Without the descriptor and the fields of `DatasetRunStatus`, which the machine only passes on.
pub record DatasetFreshnessStatus : Type 0 where
  pub availability : Availability
  pub artifact_state : ArtifactState
  pub cache_age_seconds : Option ℕ
  pub changed_guarantees : Option (List String)

pub record DatasetRejection : Type 0 where
  pub locator : Option String
  pub logical_id_digest : String
  pub code : String
  pub reason : String

pub data Phase : Type 0 where
  configure checking checked previewing previewed planning review approving : Phase
  run_phase complete failed_phase : Phase

pub record DatasetWorkflowSnapshot : Type 0 where
  pub phase : Phase
  pub configuration : Configuration
  pub validation : Dict String ValidationError
  pub check_results : Option (List DatasetCheckResult)
  pub preview : Option DatasetPreview
  pub plan : Option DatasetPlan
  pub run : Option DatasetRunProgress
  pub status : Option DatasetFreshnessStatus
  pub rejections : Option (List DatasetRejection)
  pub diagnostic : Option DatasetDiagnostic
