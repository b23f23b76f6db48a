-- ===== src/Records/Upsert/Mutations.antt =====
-- records/source-upsert.ts: the mutations that an item of an import adds to the batch.
use Prim.Native.String
use fortemi_react.Common.{ℕ, String, false, none, some, List, [], ◌∷◌, or_else}
use fortemi_react.Records.Types.{
  NoteRecord, NoteOriginalRecord, NoteRevisedCurrentRecord, SourceIdentityRecord,
}
use fortemi_react.Records.Tables.{
  note, note_original, note_revised_current, note_revision, source_identity,
}
use fortemi_react.Records.Journal.{Mutation}
use fortemi_react.Records.Upsert.{SourceUpsertItem, tenant_of}

-- `addInsertMutations`; `generated k` is the k-th call of `generateId()` after that of the note's id.
unfoldable pub insert_mutations :
    (ℕ → String) → SourceUpsertItem → String → String → String → ℕ → List Mutation
insert_mutations generated item note_id content_digest external_id_hash stamp =
    Mutation.put note (record {
      id = note_id;
      archive_id = item.source.archive_id;
      title = item.title;
      format = or_else item.format "markdown";
      source = String.◌++◌ "source:" item.source.namespace;
      visibility = or_else item.visibility "private";
      revision_mode = "standard";
      is_starred = false;
      is_pinned = false;
      is_archived = false;
      created_at = stamp;
      updated_at = stamp;
      deleted_at = none;
    })
    ∷ Mutation.put note_original (record {
      id = generated 1;
      note_id = note_id;
      content = item.content;
      content_hash = content_digest;
      created_at = stamp;
    })
    ∷ Mutation.put note_revised_current (record {
      id = note_id;
      content = some item.content;
      ai_metadata = item.metadata;
      generation_count = 0;
      model = none;
      is_user_edited = false;
      updated_at = stamp;
    })
    ∷ Mutation.put note_revision (record {
      id = generated 2;
      note_id = note_id;
      revision_number = 1;
      type = "source-import";
      content = some item.content;
      ai_metadata = item.metadata;
      model = none;
      created_at = stamp;
    })
    ∷ Mutation.put source_identity (record {
      id = generated 3;
      tenant_id = tenant_of item.source;
      archive_id = item.source.archive_id;
      namespace = item.source.namespace;
      external_id = item.source.external_id;
      external_id_hash = external_id_hash;
      source_id = item.source.source_id;
      source_schema_version = item.source.source_schema_version;
      content_digest = content_digest;
      import_run_id = item.source.import_run_id;
      caller_stable_id = item.source.caller_stable_id;
      note_id = note_id;
      created_at = stamp;
      updated_at = stamp;
    })
    ∷ []

-- The first three mutations of `addUpdateMutations`.
unfoldable pub current_mutations :
    SourceUpsertItem
    → SourceIdentityRecord
    → NoteRecord
    → NoteRevisedCurrentRecord
    → String
    → ℕ
    → List Mutation
current_mutations item identity n current content_digest stamp =
    Mutation.put note (record n {
      title = item.title;
      archive_id = item.source.archive_id;
      format = or_else item.format "markdown";
      visibility = or_else item.visibility "private";
      deleted_at = none;
      updated_at = stamp;
    })
    ∷ Mutation.put note_revised_current (record current {
      content = some item.content;
      ai_metadata = item.metadata;
      is_user_edited = false;
      updated_at = stamp;
    })
    ∷ Mutation.put source_identity (record identity {
      source_id = item.source.source_id;
      source_schema_version = item.source.source_schema_version;
      content_digest = content_digest;
      import_run_id = item.source.import_run_id;
      updated_at = stamp;
    })
    ∷ []

-- The last mutation of `addUpdateMutations`, for the outcome `replaced`.
unfoldable pub replace_mutation : SourceUpsertItem → NoteOriginalRecord → String → Mutation
replace_mutation item original content_digest =
    Mutation.put note_original
      (record original { content = item.content; content_hash = content_digest })

-- The last mutation of `addUpdateMutations`, for the outcome `versioned`.
unfoldable pub version_mutation :
    String → SourceUpsertItem → SourceIdentityRecord → ℕ → ℕ → Mutation
version_mutation generated item identity stamp revision_number =
    Mutation.put note_revision (record {
      id = generated;
      note_id = identity.note_id;
      revision_number = revision_number;
      type = "source-import";
      content = some item.content;
      ai_metadata = item.metadata;
      model = none;
      created_at = stamp;
    })
