-- ===== src/Records/Attachments.antt =====
-- records/canonical-attachments-repository.ts: `CanonicalAttachmentsRepository`. The bytes are kept by any
-- `BlobStore`; the records by the store of the canonical records. A reading of the clock is an argument, and
-- `generated k` is the k-th identifier that a call generates.
pub mod Reads
pub mod Live
mod Tests
use Prim.Native.String
use fortemi_react.Common.{
  ℕ, ◌+◌, ◌≡◌, String, Bool, true, false, not, ◌&&◌, ◌||◌, Option, none, some, is_some, List, [],
  ◌∷◌, map, filter, find, length, ltb, leb, nat_beq, includes, ◌==◌, string_eq, if◌then◌else◌,
}
use mathlib.Core.Option
use fortemi_react.Common.Result.{Result, ok, err, ◌>>=◌}
use fortemi_react.Common.Sort.{sort}
use fortemi_react.Blobs.{Bytes, BlobStore, BlobReconcileResult, BlobGcResult}
use fortemi_react.Records.Types.{AttachmentRecord, AttachmentBlobRecord}
use fortemi_react.Records.Tables.{attachment, attachment_blob}
use fortemi_react.Records.Store
use fortemi_react.Records.Store.{Store}

pub record AttachInput : Type 0 where
  pub note_id : String
  pub bytes : Bytes
  pub filename : String
  pub mime_type : Option String
  pub extracted_text : Option String
  pub display_name : Option String

unfoldable pub get_attachment : String → Store → Result String AttachmentRecord
get_attachment id s = elim (Store.get attachment id s) [
  | none ↦ err (Prim.Native.String.◌++◌ "Attachment not found: " id)
  | some a ↦ ok a
]

abbrev attachment_le : AttachmentRecord → AttachmentRecord → Bool
attachment_le a b =
    ltb a.position b.position || (nat_beq a.position b.position && leb a.created_at b.created_at)

abbrev pub is_live : AttachmentRecord → Bool
is_live a = not (is_some a.deleted_at)

-- `list`
unfoldable pub list_attachments : String → Store → List AttachmentRecord
list_attachments note_id s =
    sort attachment_le
      (filter (λ a. a.note_id == note_id && is_live a) (Store.list attachment none s))

-- `delete`
unfoldable pub delete_attachment : (ℕ → ℕ) → ℕ → String → Store → Result String Store
unfolding get_attachment
delete_attachment now stamp id s = do
  a ← get_attachment id s
  ok (Store.put now attachment (record a { deleted_at = some stamp }) s).0

unfoldable pub live_blob_checksums : Store → List String
live_blob_checksums s =
    let live = map AttachmentRecord.blob_id (filter is_live (Store.list attachment none s)) in
    map AttachmentBlobRecord.content_hash
      (filter (λ b. includes b.id live) (Store.list attachment_blob none s))

unfoldable pub checksum_of : String → Store → Result String (Option String)
unfolding get_attachment
checksum_of id s = do
  a ← get_attachment id s
  ok (Option.map AttachmentBlobRecord.content_hash (Store.get attachment_blob a.blob_id s))

-- The `if (!blob)` of `attach`: the records with the blob, and the blob.
unfoldable pub ensure_blob :
    (ℕ → ℕ) → String → String → ℕ → ℕ → Store → Store × AttachmentBlobRecord
ensure_blob now content_hash id size stamp s =
    elim (find (λ b. AttachmentBlobRecord.content_hash b == content_hash)
      (Store.list attachment_blob none s)) [
        | some blob ↦ (s, blob)
        | none ↦
            let blob : AttachmentBlobRecord = record {
              id = id;
              content_hash = content_hash;
              size_bytes = size;
              created_at = stamp;
            } in
            ((Store.put now attachment_blob blob s).0, blob)
      ]

module _ {B : Type 0} (blobs : BlobStore B) where
  unfoldable pub attach :
      (ℕ → ℕ) → (ℕ → String) → ℕ → AttachInput → Store × B → (Store × B) × AttachmentRecord
  unfolding ensure_blob
  attach now generated stamp input (s, b) =
      let (b', content_hash) = blobs.put stamp input.bytes b in
      let (s', blob) = ensure_blob now content_hash (generated 0) (length input.bytes) stamp s in
      let a : AttachmentRecord = record {
        id = generated 1;
        note_id = input.note_id;
        blob_id = blob.id;
        document_type_id = none;
        mime_type = input.mime_type;
        extracted_text = input.extracted_text;
        filename = input.filename;
        display_name = input.display_name;
        position = 0;
        created_at = stamp;
        deleted_at = none;
      } in
      (((Store.put now attachment a s').0, b'), a)

  unfoldable pub get_blob : String → Store × B → Result String (Option Bytes)
  unfolding checksum_of
  get_blob id (s, b) = do
    checksum ← checksum_of id s
    ok (elim checksum [ none ↦ none | some c ↦ blobs.read c b ])

  unfoldable pub has_blob : String → Store × B → Result String Bool
  unfolding checksum_of
  has_blob id (s, b) = do
    checksum ← checksum_of id s
    ok (elim checksum [ none ↦ false | some c ↦ blobs.has c b ])

  unfoldable pub reconcile_blobs : Bool → Store × B → B × BlobReconcileResult
  unfolding live_blob_checksums
  reconcile_blobs remove (s, b) = blobs.reconcile (live_blob_checksums s) remove b

  unfoldable pub gc_blobs : ℕ → ℕ → Store × B → B × BlobGcResult
  unfolding reconcile_blobs
  gc_blobs t min_age (s, b) = blobs.gc t min_age (reconcile_blobs false (s, b)).0
