-- ===== src/Records/Attachments/Live.antt =====
-- records/canonical-attachments-repository.ts: what a collection of bytes leaves.
use fortemi_react.Common.{
  ℕ, ◌≡◌, inl, inr, refl, sym, ap, ◌∙◌, String, Bool, true, none, some, [], ◌∷◌, map, filter,
  includes, ◌==◌, ==_refl, string_eq, Option-cases, Bool-cases, arith,
}
use fortemi_react.Common.Dict
use fortemi_react.Common.Dict.{Dict}
use fortemi_react.Common.Result.{ok}
use fortemi_react.Blobs.{BlobStore}
use fortemi_react.Records.Types.{AttachmentRecord, AttachmentBlobRecord}
use fortemi_react.Records.Tables.{attachment, attachment_blob, table}
use fortemi_react.Records.Store
use fortemi_react.Records.Store.{Store}
use fortemi_react.Records.Store.Indexed.{IsIndexed, id_of-get}
use fortemi_react.Records.Attachments.{
  is_live, live_blob_checksums, get_attachment, checksum_of, get_blob, reconcile_blobs, gc_blobs,
}
use fortemi_react.Records.Attachments.Reads.{get_blob_lem}

-- What is in a map, passes a test and is listed by it.
includes-map :
    {V : Type 0} (f : V → String) (p : V → Bool) (k : String) (m : Dict String V) {v : V}
    → Dict.get k m ≡ some v
    → p v ≡ true
    → includes (f v) (map f (filter p (Dict.values m))) ≡ true
unfolding Dict.get
includes-map f p k [] h q = absurd (cc)
includes-map f p k ((j, w) ∷ m) {v} h q = elim (Bool-cases (j == k)) [
  | inl t ↦ let same : w ≡ v = ground arith in rw same (rw q (rw (==_refl (f v)) refl))
  | inr t ↦
      let later : includes (f v) (map f (filter p (Dict.values m))) ≡ true =
        includes-map f p k m (ground arith) q in
      ground (arith, later)
]

-- The checksum of the blob of a live attachment is live.
live_blob_checksums-includes :
    (id : String) (s : Store) {a : AttachmentRecord} {x : AttachmentBlobRecord}
    → IsIndexed s.collections
    → Store.get attachment id s ≡ some a
    → a.deleted_at ≡ none
    → Store.get attachment_blob a.blob_id s ≡ some x
    → includes x.content_hash (live_blob_checksums s) ≡ true
unfolding live_blob_checksums Store.get Store.list
live_blob_checksums-includes id s {a} {x} indexed h live k =
    let named : x.id ≡ a.blob_id = id_of-get attachment_blob a.blob_id s indexed k in
    let ids = map AttachmentRecord.blob_id (filter is_live (Store.list attachment none s)) in
    let listed : includes a.blob_id ids ≡ true =
      includes-map AttachmentRecord.blob_id is_live id (table attachment s.collections) h
        (rw live refl) in
    includes-map AttachmentBlobRecord.content_hash (λ b. includes b.id ids) a.blob_id
      (table attachment_blob s.collections) k (rw named listed)

module _ {B : Type 0} (blobs : BlobStore B) where
  -- The bytes that a live attachment reads are the same after a collection as before it, whatever minimum age it
  -- is given.
  pub gc_blobs-get_blob :
      (t min_age : ℕ) (id : String) (s : Store) (b : B) {a : AttachmentRecord}
      → IsIndexed s.collections
      → blobs.IsSound b
      → Store.get attachment id s ≡ some a
      → a.deleted_at ≡ none
      → get_blob blobs id (s, (gc_blobs blobs t min_age (s, b)).0) ≡ get_blob blobs id (s, b)
  unfolding gc_blobs reconcile_blobs get_blob checksum_of get_attachment
  gc_blobs-get_blob t min_age id s b {a} indexed sound h live =
      elim (Option-cases (Store.get attachment_blob a.blob_id s)) [
        | inl e ↦ rw (h, get_blob, get_attachment) (rw e refl)
        | inr (x, e) ↦
            get_blob_lem blobs id s _ h e
            ∙ ap ok (
                blobs.read_gc (live_blob_checksums s) t min_age x.content_hash b sound
                  (live_blob_checksums-includes id s indexed h live e))
            ∙ sym (get_blob_lem blobs id s b h e)
      ]
