-- ===== src/Records/Upsert/Tests.antt =====
-- An import of two items, and the theorems on it.
use fortemi_react.Common.{ℕ, ◌+◌, String, ◌≡◌, refl, Bool, false, none, some, [], ◌∷◌, map}
use fortemi_react.Common.Text.{text_length}
use fortemi_react.Common.Dict
use fortemi_react.Records.Tables.{table}
use fortemi_react.Records.Upsert.Validate.{validate}
use fortemi_react.Records.Receipts.{
  SourceUpsertItemResult, SourceUpsertResponse, duplicate, inserted,
}
use fortemi_react.Records.Store
use fortemi_react.Records.Store.{Store, empty_store}
use fortemi_react.Records.Upsert.{SourceUpsertItem, SourceUpsertOptions, DigestedRequest, finish}
use fortemi_react.Records.Upsert.Batch.{as_unchanged, upsert_sources}
use fortemi_react.Records.Upsert.Retry.{run, upsert_sources_idempotent}
use fortemi_react.Records.Upsert.Preview.{call}

abbrev hash : String → String
hash s = s

abbrev request_hash : DigestedRequest → String
request_hash r = "sha256:0123456789"

abbrev item_named : String → String → SourceUpsertItem
item_named external_id content = record {
  source = record {
    tenant_id = some "default";
    archive_id = none;
    namespace = "mail";
    external_id = external_id;
    source_schema_version = "1";
    import_run_id = "run";
    source_id = none;
    workspace_id = none;
    caller_stable_id = some external_id;
  };
  title = none;
  content = content;
  content_digest = none;
  format = none;
  visibility = none;
  metadata = none;
  policy = none;
}

abbrev options : SourceUpsertOptions
options = record {
  dry_run = false;
  max_items = none;
  batch_id = some "b";
  checkpoint = none;
  policy = none;
}

abbrev fresh : String → ℕ → ℕ → String
fresh prefix i k = prefix

abbrev clock : ℕ → ℕ
clock n = 1000 + n

abbrev import : Bool → Store → Store × SourceUpsertResponse
import b s =
    call hash request_hash (item_named "m1" "one") (item_named "m2" "two" ∷ []) options "b" b
      (fresh "x") 7 "B" clock s

import_outcomes :
    map SourceUpsertItemResult.outcome (import false empty_store).1.items ≡ inserted ∷ inserted ∷ []
unfolding upsert_sources validate text_length Store.list Store.get Dict.get table finish
import_outcomes = refl

upsert_sources_idempotent_example :
    run hash request_hash
      (item_named "m1" "one")
      (item_named "m2" "two" ∷ [])
      options
      (fresh "y")
      9
      "C"
      clock
      (import false empty_store).0
    ≡ (
      (import false empty_store).0,
      finish "run" "b" false duplicate
          (map as_unchanged (import false empty_store).1.items)
          (import false empty_store).1.checkpoint,
    )
unfolding upsert_sources validate text_length Store.list Store.get Dict.get table finish
upsert_sources_idempotent_example =
    upsert_sources_idempotent hash request_hash (item_named "m1" "one") (item_named "m2" "two" ∷ [])
      options (fresh "x") (fresh "y") 7 9 "B" "C" clock clock empty_store refl

-- An item whose note id is generated.
abbrev unnamed : SourceUpsertItem
unnamed =
    let item = item_named "m2" "two" in
    record item { source = record (SourceUpsertItem.source item) { caller_stable_id = none } }

abbrev calling : Bool → (ℕ → ℕ → String) → ℕ → String → Store × SourceUpsertResponse
calling dry generated stamp batch_record_id =
    call hash request_hash (item_named "m1" "one") (unnamed ∷ []) options "b" dry generated stamp
      batch_record_id clock empty_store
