-- ===== src/Records/Attachments/Tests.antt =====
-- A note with one attachment, and the theorems on it.
use fortemi_react.Common.{ℕ, zero, suc, ◌+◌, ◌≡◌, refl, String, none, some, List, [], ◌∷◌}
use fortemi_react.Common.Dict
use fortemi_react.Common.Sort.{sort}
use fortemi_react.Common.Result.{ok}
use fortemi_react.Blobs.{BlobStore}
use fortemi_react.Blobs.Memory.{Entries}
use fortemi_react.Blobs.Memory
use fortemi_react.Blobs.InMemory.{memory_blob_store}
use fortemi_react.Blobs.Tally.{tally, tally-injective}
use fortemi_react.Records.Types.{AttachmentRecord}
use fortemi_react.Records.Journal.{Mutation}
use fortemi_react.Records.Tables.{attachment, attachment_blob, table, set_table}
use fortemi_react.Records.Store
use fortemi_react.Records.Store.{Store, empty_store}
use fortemi_react.Records.Store.Catchup.{run_batches}
use fortemi_react.Records.Store.Indexed.{IsIndexed, run_batches-IsIndexed, apply_batch-IsIndexed}
use fortemi_react.Records.Attachments.{AttachInput, attach, get_blob, gc_blobs}
use fortemi_react.Records.Attachments.Reads.{attach-get_blob}
use fortemi_react.Records.Attachments.Live.{gc_blobs-get_blob}

abbrev blobs : BlobStore Entries
blobs = memory_blob_store tally tally-injective

abbrev clock : ℕ → ℕ
clock n = 1000 + n

abbrev named : ℕ → String
named zero = "blob"
named (suc n) = "attachment"

abbrev input : AttachInput
input = record {
  note_id = "note";
  bytes = 7 ∷ 8 ∷ [];
  filename = "a.txt";
  mime_type = none;
  extracted_text = none;
  display_name = none;
}

empty-IsIndexed : IsIndexed empty_store.collections
unfolding run_batches
empty-IsIndexed = run_batches-IsIndexed clock []

attach-get_blob_example :
    get_blob blobs "attachment" (attach blobs clock named 5 input (empty_store, [])).0
    ≡ ok (some (7 ∷ 8 ∷ []))
unfolding attach
attach-get_blob_example =
    attach-get_blob blobs clock named 5 input empty_store [] empty-IsIndexed (tt, tt)

abbrev the_attachment : AttachmentRecord
the_attachment = record {
  id = "attachment";
  note_id = "note";
  blob_id = "blob";
  document_type_id = none;
  mime_type = none;
  extracted_text = none;
  filename = "a.txt";
  display_name = none;
  position = 0;
  created_at = 1;
  deleted_at = none;
}

abbrev one_blob : Entries
one_blob = (tally (7 ∷ []), record { bytes = 7 ∷ []; created_at = 1; refcount = 0 }) ∷ []

-- An attachment that stands in the records, with its blob.
abbrev mutations : List Mutation
mutations =
    Mutation.put attachment_blob
      (record { id = "blob"; content_hash = tally (7 ∷ []); size_bytes = 1; created_at = 1 })
    ∷ Mutation.put attachment the_attachment
    ∷ []

abbrev stored : Store
stored = (Store.apply_batch clock empty_store mutations).0

gc_blobs-get_blob_example :
    get_blob blobs "attachment" (stored, (gc_blobs blobs 90 0 (stored, one_blob)).0)
    ≡ get_blob blobs "attachment" (stored, one_blob)
unfolding Dict.get Store.get table Store.apply_batch Store.stage Store.write
    Store.normalize_record_mutation set_table Dict.set
gc_blobs-get_blob_example =
    gc_blobs-get_blob blobs 90 0 "attachment" stored one_blob
      (apply_batch-IsIndexed clock empty_store mutations empty-IsIndexed) ((refl, tt), (refl, tt))
      refl refl

-- A collection between the two steps of `attach` takes the new bytes away.
collected_early :
    get_blob blobs "attachment" (
      (Store.put clock attachment the_attachment
          (Store.put clock attachment_blob
            (record { id = "blob"; content_hash = tally (7 ∷ []); size_bytes = 1; created_at = 1 })
            empty_store).0).0,
      (gc_blobs blobs 90 0 (empty_store, (Memory.put tally 5 (7 ∷ []) []).0)).0,
    )
    ≡ ok none
unfolding get_blob gc_blobs Store.get Store.put Store.stage Store.write
    Store.normalize_record_mutation Store.list table set_table Dict.get Dict.set Memory.read
    Memory.gc Memory.reconcile Memory.put sort
collected_early = refl
