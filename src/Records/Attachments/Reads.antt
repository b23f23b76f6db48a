-- ===== src/Records/Attachments/Reads.antt =====
-- records/canonical-attachments-repository.ts: the bytes of a new attachment.
use fortemi_react.Common.{
  ℕ, ◌≡◌, inl, inr, refl, ap, ◌∙◌, String, Bool, none, some, find, length, ◌==◌, ==_iff, string_eq,
  Option-cases, find-passes,
}
use fortemi_react.Common.Dict
use fortemi_react.Common.Dict.{Dict, get-set_self}
use fortemi_react.Common.Result.{ok}
use fortemi_react.Blobs.{BlobStore}
use fortemi_react.Records.Types.{AttachmentRecord, AttachmentBlobRecord}
use fortemi_react.Records.Tables.{attachment, attachment_blob, table, set_table}
use fortemi_react.Records.Store
use fortemi_react.Records.Store.{Store, stage, write, normalize_record, normalize_record_mutation}
use fortemi_react.Records.Store.Indexed.{IsIndexed}
use fortemi_react.Records.Attachments.{
  AttachInput, get_attachment, checksum_of, ensure_blob, attach, get_blob,
}

-- A record that a search finds stands under its own id.
get-find :
    (p : AttachmentBlobRecord → Bool) (s : Store) {b : AttachmentBlobRecord}
    → IsIndexed s.collections
    → find p (Store.list attachment_blob none s) ≡ some b
    → Store.get attachment_blob b.id s ≡ some b
unfolding Store.get Store.list table
get-find p s h e =
    Dict.get_of_find AttachmentBlobRecord.id p (table attachment_blob s.collections) _
      (h attachment_blob).0 (h attachment_blob).1 e

-- The blob has the hash, and the records hold it.
ensure_blob_lem :
    (now : ℕ → ℕ) (content_hash id : String) (size stamp : ℕ) (s : Store)
    → IsIndexed s.collections
    → let done = ensure_blob now content_hash id size stamp s in
      (Store.get attachment_blob done.1.id done.0 ≡ some done.1)
      × (done.1.content_hash ≡ content_hash)
unfolding ensure_blob Store.get Store.put stage write normalize_record_mutation normalize_record
    table set_table
ensure_blob_lem now content_hash id size stamp s h =
    elim (Option-cases (
      find (λ b. AttachmentBlobRecord.content_hash b == content_hash)
        (Store.list attachment_blob none s))) [
          | inl e ↦ rw (e, ensure_blob) (get-set_self id _ _, refl)
          | inr (x, e) ↦
              rw (e, ensure_blob)
                (
                  get-find _ s h e,
                  (==_iff x.content_hash content_hash).0 (
                      find-passes (λ b. AttachmentBlobRecord.content_hash b == content_hash)
                        (Store.list attachment_blob none s) e),
                )
        ]

module _ {B : Type 0} (blobs : BlobStore B) where
  -- What is read through an attachment whose blob is known.
  pub get_blob_lem :
      (id : String) (s : Store) (b : B) {a : AttachmentRecord} {x : AttachmentBlobRecord}
      → Store.get attachment id s ≡ some a
      → Store.get attachment_blob a.blob_id s ≡ some x
      → get_blob blobs id (s, b) ≡ ok (blobs.read x.content_hash b)
  unfolding get_blob checksum_of get_attachment
  get_blob_lem id s b h k = rw (h, get_blob, get_attachment) (rw k refl)

  -- The bytes that were attached are read back through the attachment, whether their blob was new or known.
  pub attach-get_blob :
      (now : ℕ → ℕ) (generated : ℕ → String) (stamp : ℕ) (input : AttachInput) (s : Store) (b : B)
      → IsIndexed s.collections
      → blobs.IsSound b
      → let done = attach blobs now generated stamp input (s, b) in
        get_blob blobs done.1.id done.0 ≡ ok (some input.bytes)
  unfolding attach Store.get Store.put stage write normalize_record_mutation normalize_record table
      set_table
  attach-get_blob now generated stamp input s b indexed sound =
      let kept =
        ensure_blob_lem now (blobs.put stamp input.bytes b).1 (generated 0) (length input.bytes)
          stamp s indexed in
      get_blob_lem (generated 1) _ _ (get-set_self (generated 1) _ _) kept.0
      ∙ ap ok (
          ap (λ c. blobs.read c (blobs.put stamp input.bytes b).0) kept.1
          ∙ blobs.read_put stamp input.bytes b sound)
