-- ===== src/Records/Types.antt =====
-- records/types.ts: the record of each collection, and the collections of a store.
-- A timestamp is its instant in milliseconds. The program writes them all by `toISOString`, so they
-- have one width and their text order is the order of the instants. A JSON value that no modelled
-- operation looks into is its text. `__fortemi_presence` and the other `__fortemi_` fields, which
-- only shard import and export fill, are left out.
use fortemi_react.Common.{ℕ, String, Bool, Option}
use fortemi_react.Records.Receipts.{SourceUpsertResponse}

abbrev pub Json : Type 0
Json = String

pub record PurgeCounts : Type 0 where
  pub notes : ℕ
  pub revisions : ℕ
  pub links : ℕ
  pub tags : ℕ
  pub embeddings : ℕ
  pub attachments : ℕ
  pub blobs : ℕ
  pub graph_edges : ℕ
  pub provenance_edges : ℕ
  pub source_identities : ℕ

pub record PurgePolicy : Type 0 where
  pub authority : String
  pub mode : String
  pub receipt_contains_content : Bool

pub record NoteRecord : Type 0 where
  pub id : String
  pub archive_id : Option String
  pub title : Option String
  pub format : String
  pub source : String
  pub visibility : String
  pub revision_mode : String
  pub is_starred : Bool
  pub is_pinned : Bool
  pub is_archived : Bool
  pub created_at : ℕ
  pub updated_at : ℕ
  pub deleted_at : Option ℕ

pub record NoteOriginalRecord : Type 0 where
  pub id : String
  pub note_id : String
  pub content : String
  pub content_hash : String
  pub created_at : ℕ

pub record NoteRevisedCurrentRecord : Type 0 where
  pub id : String
  pub content : Option String
  pub ai_metadata : Option Json
  pub generation_count : ℕ
  pub model : Option String
  pub is_user_edited : Bool
  pub updated_at : ℕ

pub record NoteRevisionRecord : Type 0 where
  pub id : String
  pub note_id : String
  pub revision_number : ℕ
  pub type : String
  pub content : Option String
  pub ai_metadata : Option Json
  pub model : Option String
  pub created_at : ℕ

pub record NoteTagRecord : Type 0 where
  pub id : String
  pub note_id : String
  pub tag : String
  pub created_at : ℕ

pub record LinkRecord : Type 0 where
  pub id : String
  pub source_note_id : String
  pub target_note_id : String
  pub link_type : String
  pub created_at : ℕ
  pub deleted_at : Option ℕ

pub record CollectionRecord : Type 0 where
  pub id : String
  pub name : String
  pub description : Option String
  pub parent_id : Option (Option String)
  pub created_at : ℕ
  pub updated_at : ℕ
  pub deleted_at : Option ℕ

pub record CollectionNoteRecord : Type 0 where
  pub id : String
  pub collection_id : String
  pub note_id : String
  pub created_at : ℕ

pub record AttachmentRecord : Type 0 where
  pub id : String
  pub note_id : String
  pub blob_id : String
  pub document_type_id : Option String
  pub mime_type : Option String
  pub extracted_text : Option String
  pub filename : String
  pub display_name : Option String
  pub position : ℕ
  pub created_at : ℕ
  pub deleted_at : Option ℕ

pub record AttachmentBlobRecord : Type 0 where
  pub id : String
  pub content_hash : String
  pub size_bytes : ℕ
  pub created_at : ℕ

pub record ShardManifestRecord : Type 0 where
  pub id : String
  pub manifest : Json

pub record SourceIdentityRecord : Type 0 where
  pub id : String
  pub tenant_id : String
  pub archive_id : Option String
  pub namespace : String
  pub external_id : String
  pub external_id_hash : String
  pub source_id : Option String
  pub source_schema_version : String
  pub content_digest : String
  pub import_run_id : String
  pub caller_stable_id : Option String
  pub note_id : String
  pub created_at : ℕ
  pub updated_at : ℕ

pub record SourceImportRunRecord : Type 0 where
  pub id : String
  pub external_run_id : String
  pub source_id : Option String
  pub source_schema_version : String
  pub workspace_id : Option String
  pub tenant_id : String
  pub archive_id : Option String
  pub namespace : String
  pub started_at : ℕ
  pub completed_at : Option ℕ
  pub checkpoint : Json
  pub receipt : SourceUpsertResponse

pub record SourceImportBatchRecord : Type 0 where
  pub id : String
  pub tenant_id : String
  pub archive_id : Option String
  pub namespace : String
  pub batch_id : String
  pub request_digest : String
  pub import_run_id : String
  pub outcome : String
  pub checkpoint : Json
  pub receipt : SourceUpsertResponse
  pub created_at : ℕ

pub record DeletionReceiptRecord : Type 0 where
  pub id : String
  pub operation_key : String
  pub tenant_id : String
  pub archive_id : Option String
  pub selector_hash : String
  pub outcome : String
  pub counts : PurgeCounts
  pub completed_at : ℕ
  pub policy : PurgePolicy
