-- ===== src/Records/Notes.antt =====
-- records/canonical-notes-repository.ts. Each method takes the store and returns it. The readings of
-- the clock by `nowIso()` are arguments, in the order of the calls, and so are the identifiers that
-- `generateId()` returns; `now` is the store's own clock. A method that throws does so before its
-- first write.
pub mod Reads
pub mod Tags
use fortemi_react.Common.{
  ℕ, String, Bool, true, false, ◌&&◌, Option, none, some, List, map, filter, find, first,
  if◌then◌else◌, or_else, is_some, ◌==◌, string_eq,
}
use fortemi_react.Common.Sort.{sort}
use fortemi_react.Common.Text.{text_le}
use fortemi_react.Common.Result.{Result, ok, err}
use mathlib.Core.Option
use fortemi_react.Records.Types.{
  NoteRecord, NoteRevisedCurrentRecord, NoteTagRecord, LinkRecord, CollectionRecord,
  CollectionNoteRecord,
}
use fortemi_react.Records.Tables.{
  note, note_original, note_revised_current, note_tag, link, collection, collection_note,
}
use fortemi_react.Records.Store
use fortemi_react.Records.Store.{Store}

pub record CreateInput : Type 0 where
  pub id : Option String
  pub title : Option String
  pub content : String
  pub format : Option String
  pub source : Option String
  pub visibility : Option String

pub record UpdateInput : Type 0 where
  pub title : Option String
  pub content : Option String
  pub format : Option String
  pub visibility : Option String
  pub is_starred : Option Bool
  pub is_pinned : Option Bool
  pub is_archived : Option Bool

pub record NoteView : Type 0 where
  pub note : NoteRecord
  pub original_content : String
  pub revised_content : String
  pub tags : List String

pub data RepositoryError : Type 0 where
  note_not_found link_not_found parent_collection_not_found : String → RepositoryError

-- `originals[0]?.content`
unfoldable pub original_of : String → Store → Option String
original_of note_id s =
    Option.map (λ o. o.content)
      (first (filter (λ o. o.note_id == note_id) (Store.list note_original none s)))

-- `revised?.content`, where null and undefined are one to `??`
unfoldable pub revised_of : String → Store → Option String
revised_of note_id s = Option.bind (Store.get note_revised_current note_id s) (λ r. r.content)

unfoldable pub tags_of : String → Store → List String
tags_of note_id s =
    sort text_le
      (map (λ t. t.tag) (filter (λ t. t.note_id == note_id) (Store.list note_tag none s)))

unfoldable pub view_of : String → Store → NoteRecord → NoteView
view_of note_id s n = record {
  note = n;
  original_content = or_else (original_of note_id s) "";
  revised_content = or_else (revised_of note_id s) (or_else (original_of note_id s) "");
  tags = tags_of note_id s;
}

unfoldable pub get_note : String → Store → Option NoteView
get_note note_id s = Option.map (view_of note_id s) (Store.get note note_id s)

-- The record that `create` puts in `note`.
unfoldable pub created_note : ℕ → String → CreateInput → NoteRecord
created_note ts note_id input = record {
  id = note_id;
  archive_id = none;
  title = input.title;
  format = or_else input.format "markdown";
  source = or_else input.source "user";
  visibility = or_else input.visibility "private";
  revision_mode = "standard";
  is_starred = false;
  is_pinned = false;
  is_archived = false;
  created_at = ts;
  updated_at = ts;
  deleted_at = none;
}

unfoldable pub updated_note : ℕ → UpdateInput → NoteRecord → NoteRecord
updated_note ts input n = record n {
  title = elim input.title [ none ↦ n.title | some t ↦ some t ];
  format = or_else input.format n.format;
  visibility = or_else input.visibility n.visibility;
  is_starred = or_else input.is_starred n.is_starred;
  is_pinned = or_else input.is_pinned n.is_pinned;
  is_archived = or_else input.is_archived n.is_archived;
  updated_at = ts;
}

-- `{ ai_metadata: revised?.ai_metadata ?? null, ... }`
unfoldable pub edited :
    ℕ → String → String → Option NoteRevisedCurrentRecord → NoteRevisedCurrentRecord
edited ts note_id content revised = record {
  id = note_id;
  content = some content;
  ai_metadata = Option.bind revised (λ r. r.ai_metadata);
  generation_count = or_else (Option.map (λ r. r.generation_count) revised) 0;
  model = Option.bind revised (λ r. r.model);
  is_user_edited = true;
  updated_at = ts;
}

-- `t.note_id === noteId && t.tag === tag`
abbrev pub is_tag : String → String → NoteTagRecord → Bool
is_tag note_id tag t = t.note_id == note_id && t.tag == tag

-- `parentId !== null && !(await this.store.get('collection', parentId))`
unfoldable pub missing_parent : Option String → Store → Option String
missing_parent none s = none
missing_parent (some p) s = if is_some (Store.get collection p s) then none else some p

abbrev pub is_member : String → String → CollectionNoteRecord → Bool
is_member collection_id note_id cn = cn.collection_id == collection_id && cn.note_id == note_id

module _ (now : ℕ → ℕ) where
  -- `compute_hash` is `computeHash` on the UTF-8 bytes of a text.
  unfoldable pub create :
      (String → String) → ℕ → String → String → CreateInput → Store → Store × Option NoteView
  create compute_hash ts generated original_id input s =
      let note_id = or_else input.id generated in
      let s₁ = (Store.put now note (created_note ts note_id input) s).0 in
      let s₂ =
        (Store.put now note_original
          (record {
            id = original_id;
            note_id = note_id;
            content = input.content;
            content_hash = compute_hash input.content;
            created_at = ts;
          })
          s₁).0 in
      let s₃ =
        (Store.put now note_revised_current
          (record {
            id = note_id;
            content = some input.content;
            ai_metadata = none;
            generation_count = 0;
            model = none;
            is_user_edited = false;
            updated_at = ts;
          })
          s₂).0 in
      (s₃, get_note note_id s₃)

  unfoldable pub edit_content : ℕ → String → Option String → Store → Store
  edit_content ts note_id none s = s
  edit_content ts note_id (some content) s =
      (Store.put now note_revised_current
        (edited ts note_id content (Store.get note_revised_current note_id s)) s).0

  unfoldable pub update :
      ℕ → String → UpdateInput → Store → Result RepositoryError (Store × Option NoteView)
  update ts note_id input s = elim (Store.get note note_id s) [
    | none ↦ err (note_not_found note_id)
    | some n ↦
        let s₁ = (Store.put now note (updated_note ts input n) s).0 in
        let s₂ = edit_content ts note_id input.content s₁ in ok (s₂, get_note note_id s₂)
  ]

  unfoldable pub soft_delete : ℕ → ℕ → String → Store → Result RepositoryError Store
  soft_delete ts ts' note_id s = elim (Store.get note note_id s) [
    | none ↦ err (note_not_found note_id)
    | some n ↦ ok (Store.put now note (record n { deleted_at = some ts; updated_at = ts' }) s).0
  ]

  unfoldable pub restore : ℕ → String → Store → Result RepositoryError Store
  restore ts note_id s = elim (Store.get note note_id s) [
    | none ↦ err (note_not_found note_id)
    | some n ↦ ok (Store.put now note (record n { deleted_at = none; updated_at = ts }) s).0
  ]

  unfoldable pub add_tag : ℕ → String → String → String → Store → Store
  add_tag ts generated note_id tag s =
      elim (find (is_tag note_id tag) (Store.list note_tag none s)) [
        | some existing ↦ s
        | none ↦
            (Store.put now note_tag
              (record { id = generated; note_id = note_id; tag = tag; created_at = ts }) s).0
      ]

  unfoldable pub remove_tag : String → String → Store → Store
  remove_tag note_id tag s = elim (find (is_tag note_id tag) (Store.list note_tag none s)) [
    | some existing ↦ (Store.remove now note_tag existing.id s).0
    | none ↦ s
  ]

  unfoldable pub create_link :
      ℕ → String → String → String → Option String → Store → Store × LinkRecord
  create_link ts generated source target link_type s =
      let l : LinkRecord = record {
        id = generated;
        source_note_id = source;
        target_note_id = target;
        link_type = or_else link_type "related";
        created_at = ts;
        deleted_at = none;
      } in
      ((Store.put now link l s).0, l)

  unfoldable pub soft_delete_link : ℕ → String → Store → Result RepositoryError Store
  soft_delete_link ts link_id s = elim (Store.get link link_id s) [
    | none ↦ err (link_not_found link_id)
    | some l ↦ ok (Store.put now link (record l { deleted_at = some ts }) s).0
  ]

  unfoldable pub create_collection :
      ℕ
      → String
      → String
      → Option String
      → Option String
      → Store
      → Result RepositoryError (Store × CollectionRecord)
  create_collection ts generated name description parent_id s = elim (missing_parent parent_id s) [
    | some p ↦ err (parent_collection_not_found p)
    | none ↦
        let c : CollectionRecord = record {
          id = generated;
          name = name;
          description = description;
          parent_id = some parent_id;
          created_at = ts;
          updated_at = ts;
          deleted_at = none;
        } in
        ok ((Store.put now collection c s).0, c)
  ]

  unfoldable pub add_note_to_collection : ℕ → String → String → String → Store → Store
  add_note_to_collection ts generated collection_id note_id s =
      elim (find (is_member collection_id note_id) (Store.list collection_note none s)) [
        | some existing ↦ s
        | none ↦
            (Store.put now collection_note
              (record {
                id = generated;
                collection_id = collection_id;
                note_id = note_id;
                created_at = ts;
              })
              s).0
      ]
