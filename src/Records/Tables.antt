-- ===== src/Records/Tables.antt =====
-- records/types.ts: the names of the collections, the record that each one holds, and the tables of
-- a store, one Map by id for each name. A table that was never used is empty.
use fortemi_react.Common.{String, ◌≡◌, refl, ◌≢◌, []}
use fortemi_react.Common.Dict.{Dict}
use fortemi_react.Records.Types.{
  NoteRecord, NoteOriginalRecord, NoteRevisedCurrentRecord, NoteRevisionRecord, NoteTagRecord,
  LinkRecord, CollectionRecord, CollectionNoteRecord, AttachmentRecord, AttachmentBlobRecord,
  ShardManifestRecord, SourceIdentityRecord, SourceImportRunRecord, SourceImportBatchRecord,
  DeletionReceiptRecord,
}

pub data CollectionName : Type 0 where
  note note_original note_revised_current note_revision note_tag link collection collection_note
        attachment attachment_blob shard_manifest source_identity source_import_run
        source_import_batch deletion_receipt :
      CollectionName

abbrev pub RecordOf : CollectionName → Type 0
RecordOf note = NoteRecord
RecordOf note_original = NoteOriginalRecord
RecordOf note_revised_current = NoteRevisedCurrentRecord
RecordOf note_revision = NoteRevisionRecord
RecordOf note_tag = NoteTagRecord
RecordOf link = LinkRecord
RecordOf collection = CollectionRecord
RecordOf collection_note = CollectionNoteRecord
RecordOf attachment = AttachmentRecord
RecordOf attachment_blob = AttachmentBlobRecord
RecordOf shard_manifest = ShardManifestRecord
RecordOf source_identity = SourceIdentityRecord
RecordOf source_import_run = SourceImportRunRecord
RecordOf source_import_batch = SourceImportBatchRecord
RecordOf deletion_receipt = DeletionReceiptRecord

abbrev pub id_of : (c : CollectionName) → RecordOf c → String
id_of note r = r.id
id_of note_original r = r.id
id_of note_revised_current r = r.id
id_of note_revision r = r.id
id_of note_tag r = r.id
id_of link r = r.id
id_of collection r = r.id
id_of collection_note r = r.id
id_of attachment r = r.id
id_of attachment_blob r = r.id
id_of shard_manifest r = r.id
id_of source_identity r = r.id
id_of source_import_run r = r.id
id_of source_import_batch r = r.id
id_of deletion_receipt r = r.id

pub record Tables : Type 0 where
  pub notes : Dict String NoteRecord
  pub note_originals : Dict String NoteOriginalRecord
  pub note_revised_currents : Dict String NoteRevisedCurrentRecord
  pub note_revisions : Dict String NoteRevisionRecord
  pub note_tags : Dict String NoteTagRecord
  pub links : Dict String LinkRecord
  pub collections : Dict String CollectionRecord
  pub collection_notes : Dict String CollectionNoteRecord
  pub attachments : Dict String AttachmentRecord
  pub attachment_blobs : Dict String AttachmentBlobRecord
  pub shard_manifests : Dict String ShardManifestRecord
  pub source_identitys : Dict String SourceIdentityRecord
  pub source_import_runs : Dict String SourceImportRunRecord
  pub source_import_batchs : Dict String SourceImportBatchRecord
  pub deletion_receipts : Dict String DeletionReceiptRecord

abbrev pub no_records : Tables
no_records = record {
  notes = [];
  note_originals = [];
  note_revised_currents = [];
  note_revisions = [];
  note_tags = [];
  links = [];
  collections = [];
  collection_notes = [];
  attachments = [];
  attachment_blobs = [];
  shard_manifests = [];
  source_identitys = [];
  source_import_runs = [];
  source_import_batchs = [];
  deletion_receipts = [];
}

unfoldable pub table : (c : CollectionName) → Tables → Dict String (RecordOf c)
table note t = t.notes
table note_original t = t.note_originals
table note_revised_current t = t.note_revised_currents
table note_revision t = t.note_revisions
table note_tag t = t.note_tags
table link t = t.links
table collection t = t.collections
table collection_note t = t.collection_notes
table attachment t = t.attachments
table attachment_blob t = t.attachment_blobs
table shard_manifest t = t.shard_manifests
table source_identity t = t.source_identitys
table source_import_run t = t.source_import_runs
table source_import_batch t = t.source_import_batchs
table deletion_receipt t = t.deletion_receipts

unfoldable pub set_table : (c : CollectionName) → Dict String (RecordOf c) → Tables → Tables
set_table note m t = record t { notes = m }
set_table note_original m t = record t { note_originals = m }
set_table note_revised_current m t = record t { note_revised_currents = m }
set_table note_revision m t = record t { note_revisions = m }
set_table note_tag m t = record t { note_tags = m }
set_table link m t = record t { links = m }
set_table collection m t = record t { collections = m }
set_table collection_note m t = record t { collection_notes = m }
set_table attachment m t = record t { attachments = m }
set_table attachment_blob m t = record t { attachment_blobs = m }
set_table shard_manifest m t = record t { shard_manifests = m }
set_table source_identity m t = record t { source_identitys = m }
set_table source_import_run m t = record t { source_import_runs = m }
set_table source_import_batch m t = record t { source_import_batchs = m }
set_table deletion_receipt m t = record t { deletion_receipts = m }

pub table-set_table :
    (c : CollectionName) (m : Dict String (RecordOf c)) (t : Tables) → table c (set_table c m t) ≡ m
unfolding table set_table
table-set_table note m t = refl
table-set_table _ m t = refl

pub table-set_table_ne :
    (c d : CollectionName) (m : Dict String (RecordOf c)) (t : Tables)
    → c ≢ d
    → table d (set_table c m t) ≡ table d t
unfolding table set_table
table-set_table_ne note note m t h = absurd (h refl)
table-set_table_ne note_original note_original m t h = absurd (h refl)
table-set_table_ne note_revised_current note_revised_current m t h = absurd (h refl)
table-set_table_ne note_revision note_revision m t h = absurd (h refl)
table-set_table_ne note_tag note_tag m t h = absurd (h refl)
table-set_table_ne link link m t h = absurd (h refl)
table-set_table_ne collection collection m t h = absurd (h refl)
table-set_table_ne collection_note collection_note m t h = absurd (h refl)
table-set_table_ne attachment attachment m t h = absurd (h refl)
table-set_table_ne attachment_blob attachment_blob m t h = absurd (h refl)
table-set_table_ne shard_manifest shard_manifest m t h = absurd (h refl)
table-set_table_ne source_identity source_identity m t h = absurd (h refl)
table-set_table_ne source_import_run source_import_run m t h = absurd (h refl)
table-set_table_ne source_import_batch source_import_batch m t h = absurd (h refl)
table-set_table_ne deletion_receipt deletion_receipt m t h = absurd (h refl)
table-set_table_ne _ _ m t h = refl

pub set_table-table : (c : CollectionName) (t : Tables) → set_table c (table c t) t ≡ t
unfolding table set_table
set_table-table note t = refl
set_table-table _ t = refl

pub set_table-set_table :
    (c : CollectionName) (m m' : Dict String (RecordOf c)) (t : Tables)
    → set_table c m (set_table c m' t) ≡ set_table c m t
unfolding table set_table
set_table-set_table note m m' t = refl
set_table-set_table _ m m' t = refl
