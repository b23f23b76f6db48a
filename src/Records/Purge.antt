-- ===== src/Records/Purge.antt =====
-- records/lifecycle-purge.ts, with the selector and receipt types of
-- repositories/lifecycle-purge-repository.ts.
pub mod Batch
pub mod Filter
pub mod Laws
use fortemi_react.Common.{
  ℕ, String, Bool, true, false, not, ◌&&◌, ◌||◌, Option, none, some, List, [], ◌∷◌, ◌++◌, map,
  filter, find, length, or_else, is_some, ◌==◌, string_eq, includes, if◌then◌else◌,
}
use mathlib.Core.Option
use fortemi_react.Common.Sort.{sort}
use fortemi_react.Common.Text.{text_le}
use fortemi_react.Common.Result.{Result, ok, err, ◌>>=◌}
use fortemi_react.Records.Types.{
  PurgeCounts, PurgePolicy, DeletionReceiptRecord, SourceIdentityRecord,
}
use fortemi_react.Records.Tables.{
  CollectionName, RecordOf, id_of, note, note_original, note_revised_current, note_tag, link,
  collection_note, attachment, attachment_blob, source_identity, deletion_receipt,
}
use fortemi_react.Records.Journal.{Mutation}
use fortemi_react.Records.Store
use fortemi_react.Records.Store.{Store}

pub record PurgeSource : Type 0 where
  pub namespace : String
  pub external_id : Option String

pub record PurgeSelector : Type 0 where
  pub tenant_id : Option String
  pub archive_id : Option String
  pub note_ids : Option (List String)
  pub source : Option PurgeSource

-- The object that `hashSelector` serialises.
pub record HashedSource : Type 0 where
  pub namespace : String
  pub external_id_hash : Option String

pub record HashedSelector : Type 0 where
  pub tenant_id : String
  pub archive_id : Option String
  pub note_ids : List String
  pub source : Option HashedSource

pub data PurgeError : Type 0 where
  no_target : PurgeError

unfoldable pub zero_counts : PurgeCounts
zero_counts = record {
  notes = 0;
  revisions = 0;
  links = 0;
  tags = 0;
  embeddings = 0;
  attachments = 0;
  blobs = 0;
  graph_edges = 0;
  provenance_edges = 0;
  source_identities = 0;
}

abbrev pub tenant_of : PurgeSelector → String
tenant_of selector = or_else selector.tenant_id "default"

-- `JSON.stringify` followed by `TextEncoder` and `computeHash` on an object, and on a text, are the
-- arguments `hash_json` and `compute_hash`.
module _ (hash_json : HashedSelector → String) (compute_hash : String → String) where
  unfoldable pub hash_source : PurgeSource → HashedSource
  hash_source source = record {
    namespace = source.namespace;
    external_id_hash = elim source.external_id [
      | none ↦ none
      | some e ↦ if e == "" then none else some (compute_hash e)
    ];
  }

  unfoldable pub hash_selector : PurgeSelector → String
  hash_selector selector = hash_json (record {
    tenant_id = tenant_of selector;
    archive_id = selector.archive_id;
    note_ids = sort text_le (or_else selector.note_ids []);
    source = Option.map hash_source selector.source;
  })

-- `archive_id === archive_id`, where both may be null
unfoldable pub same_archive : Option String → Option String → Bool
same_archive none b = not (is_some b)
same_archive (some a) none = false
same_archive (some a) (some b) = a == b

unfoldable pub is_selected : PurgeSelector → PurgeSource → SourceIdentityRecord → Bool
unfolding same_archive
is_selected selector source identity =
    identity.tenant_id == tenant_of selector
    && same_archive identity.archive_id selector.archive_id
    && identity.namespace == source.namespace
    && elim source.external_id [ none ↦ true | some e ↦ identity.external_id == e ]

unfoldable pub selected_by_source : PurgeSelector → Store → Result PurgeError (List String)
unfolding is_selected
selected_by_source selector s = elim selector.source [
  | none ↦ err no_target
  | some source ↦ ok (
      map (λ i. i.note_id)
        (filter (is_selected selector source) (Store.list source_identity none s)))
]

unfoldable pub selected_note_ids : Store → PurgeSelector → Result PurgeError (List String)
unfolding selected_by_source
selected_note_ids s selector = elim (or_else selector.note_ids []) [
  | [] ↦ selected_by_source selector s
  | i ∷ is ↦ ok (map (λ n. n.id) (filter (λ n. includes n.id (i ∷ is)) (Store.list note none s)))
]

-- `count` for a list of ids that is not empty.
unfoldable pub count_rows : Store → List String → PurgeCounts
unfolding zero_counts
count_rows s ids =
    let rows = filter (λ r. includes r.note_id ids) (Store.list attachment none s) in
    let blob_ids = map (λ r. r.blob_id) rows in
    record zero_counts {
      notes = length (filter (λ r. includes r.id ids) (Store.list note none s));
      links = length (
          filter (λ r. includes r.source_note_id ids || includes r.target_note_id ids)
            (Store.list link none s));
      tags = length (filter (λ r. includes r.note_id ids) (Store.list note_tag none s));
      attachments = length rows;
      blobs = length (filter (λ r. includes r.id blob_ids) (Store.list attachment_blob none s));
      source_identities =
          length (filter (λ r. includes r.note_id ids) (Store.list source_identity none s));
    }

unfoldable pub count : Store → List String → PurgeCounts
unfolding zero_counts count_rows
count s [] = zero_counts
count s (i ∷ is) = count_rows s (i ∷ is)

-- `noteId && noteSet.has(noteId)`: an empty id is falsy
abbrev pub is_purged : List String → String → Bool
is_purged ids note_id = not (note_id == "") && includes note_id ids

-- The deletions of the records of one collection that pass a test.
unfoldable pub deletions : (c : CollectionName) → (RecordOf c → Bool) → Store → List Mutation
deletions c p s = map (λ r. Mutation.delete c (id_of c r)) (filter p (Store.list c none s))

-- `liveBlobIds`
unfoldable pub live_blob_ids : List String → Store → List String
live_blob_ids ids s =
    map (λ r. r.blob_id) (filter (λ r. not (includes r.note_id ids)) (Store.list attachment none s))

unfoldable pub purge_mutations : List String → Store → List Mutation
purge_mutations ids s =
    deletions note_revised_current (λ r. is_purged ids r.id) s
    ++ (deletions note_original (λ r. is_purged ids r.note_id) s
        ++ (deletions note_tag (λ r. is_purged ids r.note_id) s
            ++ (deletions collection_note (λ r. is_purged ids r.note_id) s
                ++ (deletions attachment (λ r. is_purged ids r.note_id) s
                    ++ (deletions source_identity (λ r. is_purged ids r.note_id) s
                        ++ (deletions link
                              (λ r. includes r.source_note_id ids || includes r.target_note_id ids)
                              s
                            ++ (deletions note (λ r. includes r.id ids) s
                                ++ deletions attachment_blob
                                    (λ r. not (includes r.id (live_blob_ids ids s))) s)))))))

abbrev pub purge_policy : PurgePolicy
purge_policy = record {
  authority = "fortemi#1092";
  mode = "terminal-purge";
  receipt_contains_content = false;
}

-- The `DeletionReceipt` that is returned has the fields of the stored record.
module _ (now : ℕ → ℕ) (hash_json : HashedSelector → String) (compute_hash : String → String)
    (generated : String) (ts : ℕ) where
  unfoldable pub new_receipt : PurgeSelector → String → PurgeCounts → DeletionReceiptRecord
  new_receipt selector operation_key counts = record {
    id = generated;
    operation_key = operation_key;
    tenant_id = tenant_of selector;
    archive_id = selector.archive_id;
    selector_hash = hash_selector hash_json compute_hash selector;
    outcome = "completed";
    counts = counts;
    completed_at = ts;
    policy = purge_policy;
  }

  unfoldable pub purge_notes :
      PurgeSelector → String → List String → Store → Store × DeletionReceiptRecord
  purge_notes selector operation_key ids s =
      let receipt = new_receipt selector operation_key (count s ids) in
      (
        (Store.apply_batch now s
            (purge_mutations ids s ++ Mutation.put deletion_receipt receipt ∷ [])).0,
        receipt,
      )

  unfoldable pub purge_record_store_graph :
      PurgeSelector → String → Store → Result PurgeError (Store × DeletionReceiptRecord)
  purge_record_store_graph selector operation_key s =
      elim (find (λ r. r.operation_key == operation_key) (Store.list deletion_receipt none s)) [
        | some prior ↦ ok (s, record prior { outcome = "completed" })
        | none ↦ do
          ids ← selected_note_ids s selector
          ok (purge_notes selector operation_key ids s)
      ]

pub record PurgePreview : Type 0 where
  pub selector_hash : String
  pub counts : PurgeCounts

module _ (hash_json : HashedSelector → String) (compute_hash : String → String) where
  unfoldable pub preview_record_store_purge : PurgeSelector → Store → Result PurgeError PurgePreview
  preview_record_store_purge selector s = do
    ids ← selected_note_ids s selector
    ok (record {
      selector_hash = hash_selector hash_json compute_hash selector;
      counts = count s ids;
    })
