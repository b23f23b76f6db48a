-- ===== src/Records/Tests.antt =====
-- A store with two notes, and the theorems on it.
use fortemi_react.Common.{
  ℕ, arith, ◌+◌, ◌≤◌, String, ◌≡◌, refl, true, false, none, some, List, [], ◌∷◌, ◌++◌, filter, find,
  take, max, min, length, not, ◌&&◌, ◌||◌, ◌==◌, string_eq, includes, All,
}
use mathlib.Core.List.{Perm}
use fortemi_react.Common.Dict
use fortemi_react.Common.Result.{ok}
use fortemi_react.Records.Types.{
  DeletionReceiptRecord, NoteRecord, NoteTagRecord, NoteOriginalRecord,
}
use fortemi_react.Records.Tables.{
  note, note_original, note_revised_current, note_revision, note_tag, link, collection_note,
  attachment, attachment_blob, source_identity, deletion_receipt, no_records, table,
}
use fortemi_react.Records.Journal.{Mutation}
use fortemi_react.Records.Store
use fortemi_react.Records.Store.{
  Store, empty_store, apply_batch, apply_batch_loop, journal_since, head_seq, normalize_record,
}
use fortemi_react.Records.Store.Replay.{replay, CountsFrom}
use fortemi_react.Records.Store.Catchup.{run_batches, run_batches-rebuild, run_batches-catchup}
use fortemi_react.Records.Store.Indexed.{IsIndexed, run_batches-IsIndexed}
use fortemi_react.Records.Notes.{
  CreateInput, UpdateInput, create, original_of, tags_of, view_of, get_note, soft_delete, restore,
  update, add_tag,
}
use fortemi_react.Records.Notes.Reads.{create-get_note, restore-soft_delete, update-get_note}
use fortemi_react.Records.Notes.Tags.{HasUniqueTags, tag_rows, add_tag-HasUniqueTags}
use fortemi_react.Records.Queries.{is_live, list_recent, search_text, matches, revised_map}
use fortemi_react.Records.Queries.Laws.{IsNewestFirst, list_recent_lem, search_text_lem}
use fortemi_react.Records.Purge.{
  PurgeSelector, HashedSelector, is_purged, live_blob_ids, purge_notes, purge_record_store_graph,
  selected_note_ids, preview_record_store_purge, count, hash_selector, PurgePreview,
}
use fortemi_react.Records.Purge.Filter.{keep}
use fortemi_react.Records.Purge.Laws.{
  purge_notes-get, purge_notes-note_revision, purge_twice, purge-preview,
}

abbrev clock : ℕ → ℕ
clock n = 1000 + n

abbrev hash : String → String
hash s = s

abbrev hash_json : HashedSelector → String
hash_json h = h.tenant_id

abbrev note_named : String → ℕ → NoteRecord
note_named id t = record {
  id = id;
  archive_id = none;
  title = some "Title";
  format = "markdown";
  source = "user";
  visibility = "private";
  revision_mode = "standard";
  is_starred = false;
  is_pinned = false;
  is_archived = false;
  created_at = t;
  updated_at = t;
  deleted_at = none;
}

abbrev n1 : String
n1 = "n1"

abbrev n2 : String
n2 = "n2"

abbrev original : NoteOriginalRecord
original = record {
  id = "o1";
  note_id = "n1";
  content = "text";
  content_hash = "text";
  created_at = 1;
}

abbrev red : NoteTagRecord
red = record { id = "t1"; note_id = "n1"; tag = "red"; created_at = 1 }

abbrev first_batches : List (List Mutation)
first_batches =
    (Mutation.put note (note_named "n1" 1) ∷ Mutation.put note_original original ∷ [])
    ∷ (Mutation.put note (note_named "n2" 2) ∷ Mutation.put note_tag red ∷ [])
    ∷ []

abbrev later_batches : List (List Mutation)
later_batches = (Mutation.delete note "n2" ∷ []) ∷ (Mutation.put note (note_named "n3" 3) ∷ []) ∷ []

abbrev two_notes : Store
two_notes = run_batches clock empty_store first_batches

two_notes-IsIndexed : IsIndexed two_notes.collections
two_notes-IsIndexed = run_batches-IsIndexed clock first_batches

two_notes-get : Store.get note "n1" two_notes ≡ some (note_named "n1" 1)
unfolding run_batches apply_batch apply_batch_loop Store.store_code Dict.get Dict.set
two_notes-get = refl

run_batches-rebuild_example :
    let s = run_batches clock empty_store first_batches in
    (replay s.journal no_records ≡ s.collections)
    × CountsFrom 0 s.journal
    × (length s.journal ≡ head_seq s)
run_batches-rebuild_example = run_batches-rebuild clock first_batches

run_batches-catchup_example :
    let s = run_batches clock empty_store first_batches in
    let t = run_batches clock s later_batches in
    replay (journal_since (head_seq s) none t) s.collections ≡ t.collections
run_batches-catchup_example = run_batches-catchup clock first_batches later_batches

run_batches-IsIndexed_example : IsIndexed (run_batches clock empty_store later_batches).collections
run_batches-IsIndexed_example = run_batches-IsIndexed clock later_batches

abbrev input : CreateInput
input = record {
  id = none;
  title = some "Third";
  content = "body";
  format = none;
  source = none;
  visibility = none;
}

no_third_original : Store.get note_original "o3" two_notes ≡ none
unfolding run_batches apply_batch apply_batch_loop Store.store_code Dict.get Dict.set
no_third_original = refl

no_third_text : original_of "n3" two_notes ≡ none
unfolding original_of run_batches apply_batch apply_batch_loop Store.store_code Dict.get Dict.set
no_third_text = refl

create-get_note_example :
    (create clock hash 9 "n3" "o3" input two_notes).1
    ≡ some (record {
      note = record {
        id = "n3";
        archive_id = none;
        title = some "Third";
        format = "markdown";
        source = "user";
        visibility = "private";
        revision_mode = "standard";
        is_starred = false;
        is_pinned = false;
        is_archived = false;
        created_at = 9;
        updated_at = 9;
        deleted_at = none;
      };
      original_content = "body";
      revised_content = "body";
      tags = tags_of "n3" two_notes;
    })
create-get_note_example =
    create-get_note clock hash 9 "n3" "o3" input two_notes no_third_original no_third_text

restore-soft_delete_example :
    (t u : Store) × (soft_delete clock 7 8 "n1" two_notes ≡ ok t)
    × (restore clock 9 "n1" t ≡ ok u)
    × (get_note "n1" t
        ≡ some (
            view_of "n1" two_notes
              (record (note_named "n1" 1) { deleted_at = some 7; updated_at = 8 })))
    × (get_note "n1" u
        ≡ some (
            view_of "n1" two_notes
              (record (note_named "n1" 1) { deleted_at = none; updated_at = 9 })))
restore-soft_delete_example =
    restore-soft_delete clock 7 8 9 "n1" two_notes (note_named "n1" 1) two_notes-IsIndexed
      two_notes-get

abbrev change : UpdateInput
change = record {
  title = none;
  content = some "new body";
  format = none;
  visibility = none;
  is_starred = some true;
  is_pinned = none;
  is_archived = none;
}

update-get_note_example :
    let after : NoteRecord = record (note_named "n1" 1) { is_starred = true; updated_at = 7 } in
    let v = view_of "n1" two_notes (note_named "n1" 1) in
    (t : Store) × (update clock 7 "n1" change two_notes
      ≡ ok (t, some (record v { note = after; revised_content = "new body" })))
update-get_note_example =
    update-get_note clock 7 "n1" change two_notes (note_named "n1" 1) two_notes-IsIndexed
      two_notes-get

empty_store-HasUniqueTags : HasUniqueTags empty_store
unfolding table
empty_store-HasUniqueTags = λ n t. omega arith

abbrev one_tag : Store
one_tag = add_tag clock 4 "t1" "n1" "red" empty_store

one_tag-HasUniqueTags : HasUniqueTags one_tag
one_tag-HasUniqueTags =
    (add_tag-HasUniqueTags clock 4 "t1" "n1" "red" empty_store empty_store-HasUniqueTags).0

add_tag-HasUniqueTags_example :
    HasUniqueTags (add_tag clock 5 "t2" "n1" "red" one_tag)
    × (tag_rows "n1" "red" (add_tag clock 5 "t2" "n1" "red" one_tag) ≡ 1)
add_tag-HasUniqueTags_example =
    add_tag-HasUniqueTags clock 5 "t2" "n1" "red" one_tag one_tag-HasUniqueTags

list_recent_lem_example :
    let live = filter is_live (Store.list note none two_notes) in
    All (λ n. n.deleted_at ≡ none) (list_recent (some 1) two_notes)
    × IsNewestFirst (list_recent (some 1) two_notes)
    × (length (list_recent (some 1) two_notes) ≡ min 1 (length live))
    × (left : List NoteRecord) × Perm (list_recent (some 1) two_notes ++ left) live
    × All (λ n. All (λ m. m.updated_at ≤ n.updated_at) left) (list_recent (some 1) two_notes)
list_recent_lem_example = list_recent_lem (some 1) two_notes

search_text_lem_example :
    search_text hash "Tit" (some 0) two_notes
    ≡ take (max 1 0) (
        filter
          (λ n. is_live n && matches hash "Tit" (revised_map two_notes) n)
          (Store.list note none two_notes))
search_text_lem_example = search_text_lem hash "Tit" (some 0) two_notes

abbrev selector : PurgeSelector
selector = record {
  tenant_id = none;
  archive_id = none;
  note_ids = some ("n1" ∷ []);
  source = none;
}

purge_notes-get_example :
    let ids = n1 ∷ [] in
    let s = two_notes in
    let k = n2 in
    let t = (purge_notes clock hash_json hash "r1" 50 selector "key" ids s).0 in
    (Store.get note k t ≡ keep (λ r. not (includes r.id ids)) (Store.get note k s))
    × (Store.get note_original k t
        ≡ keep (λ r. not (is_purged ids r.note_id)) (Store.get note_original k s))
    × (Store.get note_revised_current k t
        ≡ keep (λ r. not (is_purged ids r.id)) (Store.get note_revised_current k s))
    × (Store.get note_tag k t ≡ keep (λ r. not (is_purged ids r.note_id)) (Store.get note_tag k s))
    × (Store.get collection_note k t
        ≡ keep (λ r. not (is_purged ids r.note_id)) (Store.get collection_note k s))
    × (Store.get attachment k t
        ≡ keep (λ r. not (is_purged ids r.note_id)) (Store.get attachment k s))
    × (Store.get source_identity k t
        ≡ keep (λ r. not (is_purged ids r.note_id)) (Store.get source_identity k s))
    × (Store.get link k t
        ≡ keep
            (λ r. not (includes r.source_note_id ids || includes r.target_note_id ids))
            (Store.get link k s))
    × (Store.get attachment_blob k t
        ≡ keep (λ r. includes r.id (live_blob_ids ids s)) (Store.get attachment_blob k s))
purge_notes-get_example =
    purge_notes-get clock hash_json hash "r1" 50 selector "key" ("n1" ∷ []) two_notes "n2"
      two_notes-IsIndexed

purge_notes-note_revision_example :
    Store.get note_revision "v1"
      (purge_notes clock hash_json hash "r1" 50 selector "key" ("n1" ∷ []) two_notes).0
    ≡ Store.get note_revision "v1" two_notes
purge_notes-note_revision_example =
    purge_notes-note_revision clock hash_json hash "r1" 50 selector "key" ("n1" ∷ []) two_notes "v1"

abbrev key : String
key = "key"

no_receipt : find (λ x. x.operation_key == key) (Store.list deletion_receipt none two_notes) ≡ none
unfolding run_batches apply_batch apply_batch_loop Store.store_code Dict.set
no_receipt = refl

selected : selected_note_ids two_notes selector ≡ ok ("n1" ∷ [])
unfolding selected_note_ids run_batches apply_batch apply_batch_loop Store.store_code Dict.set
selected = refl

purge_twice_example :
    let done = purge_notes clock hash_json hash "r1" 50 selector key ("n1" ∷ []) two_notes in
    (purge_record_store_graph clock hash_json hash "r1" 50 selector key two_notes ≡ ok done)
    × (purge_record_store_graph clock hash_json hash "r2" 60 selector key done.0 ≡ ok done)
purge_twice_example =
    purge_twice clock hash_json hash "r1" "r2" 50 60 selector selector key ("n1" ∷ []) two_notes
      no_receipt selected

abbrev shown : PurgePreview
shown = record {
  selector_hash = hash_selector hash_json hash selector;
  counts = count two_notes ("n1" ∷ []);
}

is_shown : preview_record_store_purge hash_json hash selector two_notes ≡ ok shown
unfolding preview_record_store_purge
is_shown = rw selected refl

purge-preview_example :
    (t : Store) × (r : DeletionReceiptRecord) × (purge_record_store_graph clock hash_json hash "r1"
        50 selector key two_notes
      ≡ ok (t, r))
    × (r.selector_hash ≡ shown.selector_hash)
    × (r.counts ≡ shown.counts)
purge-preview_example =
    purge-preview clock hash_json hash "r1" 50 selector key two_notes shown no_receipt is_shown
