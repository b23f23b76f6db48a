-- ===== src/Records/Upsert.antt =====
-- records/source-upsert.ts, with the input types and digests of
-- repositories/source-upsert-repository.ts. The hash and the serialisations of objects are arguments.
-- A reading of the clock is an argument, and `generated i k` is the k-th identifier that `generateId()`
-- returns for the i-th item.
pub mod Validate
pub mod Mutations
pub mod Plan
pub mod Batch
pub mod Commit
pub mod Retry
pub mod Agree
pub mod Preview
mod Tests
use Prim.Native.String
use fortemi_react.Common.{
  ℕ, zero, suc, String, Bool, true, false, Option, none, some, List, [], ◌∷◌, map, filter, length,
  or_else, ◌==◌, string_eq,
}
use fortemi_react.Common.Text.{text_length}
use fortemi_react.Records.Types.{Json}
use fortemi_react.Records.Receipts.{
  SourceUpsertOutcome, inserted, unchanged, versioned, replaced, conflict, rejected,
  SourceUpsertReasonCode, SourceUpsertBatchOutcome, SourceUpsertItemResult, OutcomeCounts,
  SourceUpsertResponse,
}

pub data SourceUpsertPolicy : Type 0 where
  replace version conflict_policy : SourceUpsertPolicy

pub record SourceIdentityInput : Type 0 where
  pub tenant_id : Option String
  pub archive_id : Option String
  pub namespace : String
  pub external_id : String
  pub source_schema_version : String
  pub import_run_id : String
  pub source_id : Option String
  pub workspace_id : Option String
  pub caller_stable_id : Option String

pub record SourceUpsertItem : Type 0 where
  pub source : SourceIdentityInput
  pub title : Option String
  pub content : String
  pub content_digest : Option String
  pub format : Option String
  pub visibility : Option String
  pub metadata : Option Json
  pub policy : Option SourceUpsertPolicy

pub record SourceUpsertRequestItem : Type 0 where
  pub external_id : String
  pub content : String
  pub content_digest : Option String
  pub caller_stable_id : Option String
  pub title : Option String
  pub format : Option String
  pub metadata : Option Json
  pub policy : Option SourceUpsertPolicy

pub record SourceUpsertRequest : Type 0 where
  pub source_namespace : String
  pub source_id : Option String
  pub source_schema_version : String
  pub import_run_id : String
  pub batch_id : Option String
  pub workspace_id : Option String
  pub checkpoint : Option Json
  pub dry_run : Option Bool
  pub policy : Option SourceUpsertPolicy
  pub items : List SourceUpsertRequestItem

pub record SourceUpsertScope : Type 0 where
  pub tenant_id : Option String
  pub archive_id : Option String

pub record SourceUpsertOptions : Type 0 where
  pub dry_run : Bool
  pub max_items : Option ℕ
  pub batch_id : Option String
  pub checkpoint : Option Json
  pub policy : Option SourceUpsertPolicy

abbrev pub source_upsert_contract_version : String
source_upsert_contract_version = "1.0.0"

abbrev pub before_nul : String → String → String
before_nul s t = String.◌++◌ s (String.◌++◌ "\0" t)

-- `[a, b, c, d, ''].join('\0')`
abbrev pub joined : String → String → String → String → String
joined a b c d = before_nul a (before_nul b (before_nul c (before_nul d "")))

-- `text.slice(from, to)` of a text of characters below 0x10000, such as a digest.
abbrev pub drop_text : ℕ → String → String
drop_text zero s = s
drop_text (suc n) String.[] = String.[]
drop_text (suc n) (String.◌∷◌ c s) = drop_text n s

abbrev pub take_text : ℕ → String → String
take_text zero s = String.[]
take_text (suc n) String.[] = String.[]
take_text (suc n) (String.◌∷◌ c s) = String.◌∷◌ c (take_text n s)

-- The object that `sourceRequestDigest` serialises.
pub record DigestedItem : Type 0 where
  pub source : SourceIdentityInput
  pub title : Option String
  pub content : String
  pub content_digest : Option String
  pub format : String
  pub visibility : String
  pub metadata : Option Json
  pub policy : SourceUpsertPolicy

pub record DigestedRequest : Type 0 where
  pub items : List DigestedItem
  pub checkpoint : Option Json
  pub dry_run : Bool

abbrev pub digested : SourceUpsertOptions → SourceUpsertItem → DigestedItem
digested options item = record {
  source = item.source;
  title = item.title;
  content = item.content;
  content_digest = item.content_digest;
  format = or_else item.format "markdown";
  visibility = or_else item.visibility "private";
  metadata = item.metadata;
  policy = or_else item.policy (or_else options.policy version);
}

abbrev pub tenant_of : SourceIdentityInput → String
tenant_of source = or_else source.tenant_id "default"

-- `compute_hash` is `computeHash` on the UTF-8 bytes of a text.
module _ (compute_hash : String → String) where
  unfoldable pub source_identity_hash : SourceIdentityInput → String
  source_identity_hash source = compute_hash (
      joined (tenant_of source) (or_else source.archive_id "public") source.namespace
        source.external_id)

  unfoldable pub source_run_record_id : SourceIdentityInput → String
  source_run_record_id source = compute_hash (
      joined (tenant_of source) (or_else source.archive_id "public") source.namespace
        source.import_run_id)

-- `request_hash` is `computeHash` on the UTF-8 bytes of `JSON.stringify`.
unfoldable pub source_request_digest :
    (DigestedRequest → String) → List SourceUpsertItem → SourceUpsertOptions → String
source_request_digest request_hash items options = request_hash (record {
  items = map (digested options) items;
  checkpoint = options.checkpoint;
  dry_run = options.dry_run;
})

unfoldable pub derive_source_batch_id : String → String
derive_source_batch_id request_digest =
    String.◌++◌ "derived-" (take_text 32 (drop_text 7 request_digest))

abbrev is_outcome : SourceUpsertOutcome → SourceUpsertOutcome → Bool
is_outcome inserted inserted = true
is_outcome unchanged unchanged = true
is_outcome versioned versioned = true
is_outcome replaced replaced = true
is_outcome conflict conflict = true
is_outcome rejected rejected = true
is_outcome _ _ = false

abbrev with_outcome : SourceUpsertOutcome → List SourceUpsertItemResult → ℕ
with_outcome o items = length (filter (λ i. is_outcome (SourceUpsertItemResult.outcome i) o) items)

unfoldable pub count_outcomes : List SourceUpsertItemResult → OutcomeCounts
count_outcomes outcomes = record {
  inserted_count = with_outcome inserted outcomes;
  unchanged_count = with_outcome unchanged outcomes;
  versioned_count = with_outcome versioned outcomes;
  replaced_count = with_outcome replaced outcomes;
  conflict_count = with_outcome conflict outcomes;
  rejected_count = with_outcome rejected outcomes;
}

-- `finish`; the deprecated copy `outcomes` of `items` is left out.
unfoldable pub finish :
    String
    → String
    → Bool
    → SourceUpsertBatchOutcome
    → List SourceUpsertItemResult
    → Option Json
    → SourceUpsertResponse
finish import_run_id batch_id dry_run outcome items checkpoint = record {
  contract_version = source_upsert_contract_version;
  import_run_id = import_run_id;
  batch_id = batch_id;
  dry_run = dry_run;
  outcome = outcome;
  checkpoint = checkpoint;
  items = items;
  counts = count_outcomes items;
}

-- The items of `upsertRecordStoreRequest`.
unfoldable pub item_of :
    SourceUpsertRequest → SourceUpsertScope → SourceUpsertRequestItem → SourceUpsertItem
item_of request scope item = record {
  source = record {
    tenant_id = some (or_else scope.tenant_id "default");
    archive_id = scope.archive_id;
    namespace = request.source_namespace;
    external_id = item.external_id;
    source_schema_version = request.source_schema_version;
    import_run_id = request.import_run_id;
    source_id = request.source_id;
    workspace_id = request.workspace_id;
    caller_stable_id = item.caller_stable_id;
  };
  title = item.title;
  content = item.content;
  content_digest = item.content_digest;
  format = item.format;
  visibility = none;
  metadata = item.metadata;
  policy = elim item.policy [ some p ↦ some p | none ↦ request.policy ];
}

unfoldable pub options_of : SourceUpsertRequest → SourceUpsertOptions
options_of request = record {
  dry_run = or_else request.dry_run false;
  max_items = none;
  batch_id = request.batch_id;
  checkpoint = request.checkpoint;
  policy = request.policy;
}
