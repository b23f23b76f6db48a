-- ===== src/Records/Purge/Laws.antt =====
-- What a purge leaves in the store.
use fortemi_react.Common.{
  ℕ, String, ◌≡◌, refl, ap, ◌∙◌, Bool, not, ◌||◌, Option, some, none, List, [], ◌∷◌, ◌++◌, find,
  ◌==◌, ==_refl, string_eq, inl, inr, ◌⊎◌, includes, arith,
}
use fortemi_react.Common.Dict
use fortemi_react.Common.Dict.{Dict, find-set}
use fortemi_react.Common.Result.{Result, ok, err}
use fortemi_react.Records.Types.{DeletionReceiptRecord}
use fortemi_react.Records.Tables.{
  CollectionName, RecordOf, id_of, Tables, table, set_table, note, note_original,
  note_revised_current, note_revision, note_tag, link, collection_note, attachment, attachment_blob,
  source_identity, deletion_receipt,
}
use fortemi_react.Records.Journal.{Mutation}
use fortemi_react.Records.Store
use fortemi_react.Records.Store.{Store, normalize_record_mutation, write}
use fortemi_react.Records.Store.Indexed.{IsIndexed}
use fortemi_react.Records.Purge.{
  HashedSelector, PurgeSelector, is_purged, live_blob_ids, purge_mutations, purge_notes,
  new_receipt, purge_record_store_graph, PurgePreview, PurgeError, preview_record_store_purge,
  selected_note_ids,
}
use fortemi_react.Records.Purge.Filter.{keep, get-delete_passing}
use fortemi_react.Records.Purge.Batch.{
  write_all, write_all-append, write_all-deletions, purged, apply_batch-collections,
}

-- The collections after the batch of a purge.
abbrev purged_tables : List String → Store → DeletionReceiptRecord → Tables
purged_tables ids s receipt =
    let t = s.collections in
    record t {
      note_revised_currents =
          purged note_revised_current (λ r. is_purged ids r.id) s t.note_revised_currents;
      note_originals = purged note_original (λ r. is_purged ids r.note_id) s t.note_originals;
      note_tags = purged note_tag (λ r. is_purged ids r.note_id) s t.note_tags;
      collection_notes = purged collection_note (λ r. is_purged ids r.note_id) s t.collection_notes;
      attachments = purged attachment (λ r. is_purged ids r.note_id) s t.attachments;
      source_identitys = purged source_identity (λ r. is_purged ids r.note_id) s t.source_identitys;
      links =
          purged link (λ r. includes r.source_note_id ids || includes r.target_note_id ids) s
            t.links;
      notes = purged note (λ r. includes r.id ids) s t.notes;
      attachment_blobs =
          purged attachment_blob (λ r. not (includes r.id (live_blob_ids ids s))) s
            t.attachment_blobs;
      deletion_receipts = Dict.set receipt.id receipt t.deletion_receipts;
    }

write_all-purge :
    (ids : List String) (s : Store) (receipt : DeletionReceiptRecord)
    → write_all (purge_mutations ids s ++ Mutation.put deletion_receipt receipt ∷ []) s.collections
      ≡ purged_tables ids s receipt
unfolding purge_mutations table set_table write_all write normalize_record_mutation
write_all-purge ids s receipt = simp (write_all-append, write_all-deletions)

purged-get :
    (c : CollectionName) (p : RecordOf c → Bool) (k : String) (s : Store)
    → IsIndexed s.collections
    → Dict.get k (purged c p s (table c s.collections)) ≡ keep (λ r. not (p r)) (Store.get c k s)
unfolding Store.get
purged-get c p k s h = get-delete_passing (id_of c) p k (table c s.collections) (h c)

keep-not {ℓ} : {A : Type ℓ} (p : A → Bool) (o : Option A) → keep (λ a. not (not (p a))) o ≡ keep p o
keep-not p none = refl
keep-not p (some a) = ground arith

module _ (now : ℕ → ℕ) (hash_json : HashedSelector → String) (compute_hash : String → String)
    (generated : String) (ts : ℕ) where
  -- The collections that `purgeRecordStoreGraph` leaves when it purges the notes `ids`: of each, a
  -- record is there exactly if it was there before and does not belong to a purged note, where an empty
  -- note id belongs to none; a blob exactly if it was there and an attachment of another note refers to it.
  pub purge_notes-get :
      (selector : PurgeSelector) (operation_key : String) (ids : List String) (s : Store)
      (k : String)
      → IsIndexed s.collections
      → let t =
          (purge_notes now hash_json compute_hash generated ts selector operation_key ids s).0 in
        (Store.get note k t ≡ keep (λ r. not (includes r.id ids)) (Store.get note k s))
        × (Store.get note_original k t
            ≡ keep (λ r. not (is_purged ids r.note_id)) (Store.get note_original k s))
        × (Store.get note_revised_current k t
            ≡ keep (λ r. not (is_purged ids r.id)) (Store.get note_revised_current k s))
        × (Store.get note_tag k t
            ≡ keep (λ r. not (is_purged ids r.note_id)) (Store.get note_tag k s))
        × (Store.get collection_note k t
            ≡ keep (λ r. not (is_purged ids r.note_id)) (Store.get collection_note k s))
        × (Store.get attachment k t
            ≡ keep (λ r. not (is_purged ids r.note_id)) (Store.get attachment k s))
        × (Store.get source_identity k t
            ≡ keep (λ r. not (is_purged ids r.note_id)) (Store.get source_identity k s))
        × (Store.get link k t
            ≡ keep
                (λ r. not (includes r.source_note_id ids || includes r.target_note_id ids))
                (Store.get link k s))
        × (Store.get attachment_blob k t
            ≡ keep (λ r. includes r.id (live_blob_ids ids s)) (Store.get attachment_blob k s))
  unfolding purge_notes Store.get table
  purge_notes-get selector operation_key ids s k h =
      rw (apply_batch-collections now s _, write_all-purge ids s _)
        (
          purged-get note _ k s h,
          purged-get note_original _ k s h,
          purged-get note_revised_current _ k s h,
          purged-get note_tag _ k s h,
          purged-get collection_note _ k s h,
          purged-get attachment _ k s h,
          purged-get source_identity _ k s h,
          purged-get link _ k s h,
          purged-get attachment_blob _ k s h
              ∙ keep-not (λ r. includes r.id (live_blob_ids ids s)) (Store.get attachment_blob k s),
        )

  -- A purge leaves every `note_revision` row, those of the purged notes included.
  pub purge_notes-note_revision :
      (selector : PurgeSelector) (operation_key : String) (ids : List String) (s : Store)
      (k : String)
      → Store.get note_revision k
          (purge_notes now hash_json compute_hash generated ts selector operation_key ids s).0
        ≡ Store.get note_revision k s
  unfolding purge_notes Store.get table
  purge_notes-note_revision selector operation_key ids s k =
      rw (apply_batch-collections now s _, write_all-purge ids s _) refl

  purge_notes-receipts :
      (selector : PurgeSelector) (operation_key : String) (ids : List String) (s : Store)
      → let (t, r) =
          purge_notes now hash_json compute_hash generated ts selector operation_key ids s in
        Store.list deletion_receipt none t
        ≡ Dict.values (Dict.set r.id r s.collections.deletion_receipts)
  unfolding purge_notes Store.list table
  purge_notes-receipts selector operation_key ids s =
      rw (apply_batch-collections now s _, write_all-purge ids s _) refl

  second_find :
      (selector : PurgeSelector) (operation_key : String) (ids : List String) (s : Store)
      → find (λ x. x.operation_key == operation_key) (Store.list deletion_receipt none s) ≡ none
      → let (t, r) =
          purge_notes now hash_json compute_hash generated ts selector operation_key ids s in
        find (λ x. x.operation_key == operation_key) (Store.list deletion_receipt none t) ≡ some r
  unfolding purge_notes new_receipt Store.list table
  second_find selector operation_key ids s fresh =
      ap (find (λ x. x.operation_key == operation_key))
        (purge_notes-receipts selector operation_key ids s)
      ∙ find-set _ _ _ s.collections.deletion_receipts fresh (==_refl operation_key)

  receipt_completed :
      (selector : PurgeSelector) (operation_key : String) (ids : List String) (s : Store)
      → let r =
          (purge_notes now hash_json compute_hash generated ts selector operation_key ids s).1 in
        record r { outcome = "completed" } ≡ r
  unfolding purge_notes new_receipt
  receipt_completed selector operation_key ids s = refl

-- A purge whose selector targets notes or a source, under an operation key that has no receipt yet,
-- purges the selected notes; done again on the resulting store under the same key (with any selector,
-- generated id and time) it changes nothing and returns the first call's receipt.
pub purge_twice :
    (now : ℕ → ℕ) (hash_json : HashedSelector → String) (compute_hash : String → String)
    (g g' : String) (ts ts' : ℕ) (selector selector' : PurgeSelector) (operation_key : String)
    (ids : List String) (s : Store)
    → find (λ x. x.operation_key == operation_key) (Store.list deletion_receipt none s) ≡ none
    → selected_note_ids s selector ≡ ok ids
    → let done = purge_notes now hash_json compute_hash g ts selector operation_key ids s in
      (purge_record_store_graph now hash_json compute_hash g ts selector operation_key s ≡ ok done)
      × (purge_record_store_graph now hash_json compute_hash g' ts' selector' operation_key done.0
          ≡ ok done)
unfolding purge_record_store_graph
purge_twice now hash_json compute_hash g g' ts ts' selector selector' operation_key ids s fresh q =
    (
      rw (fresh, purge_record_store_graph) (rw q),
      rw
          (
            second_find now hash_json compute_hash g ts selector operation_key ids s fresh,
            purge_record_store_graph,
          )
          (ap
            (λ r.
              ok ((purge_notes now hash_json compute_hash g ts selector operation_key ids s).0, r))
            (receipt_completed now hash_json compute_hash g ts selector operation_key ids s)),
    )

Result-cases {ℓ} :
    {A : Type ℓ} (r : Result PurgeError A)
    → ((a : A) × (r ≡ ok a)) ⊎ ((e : PurgeError) × (r ≡ err e))
Result-cases (ok a) = inl (a, refl)
Result-cases (err e) = inr (e, refl)

-- A purge under an operation key that has no receipt yet succeeds where the preview of its selector
-- does, and its receipt has the selector hash and the counts that the preview showed.
pub purge-preview :
    (now : ℕ → ℕ) (hash_json : HashedSelector → String) (compute_hash : String → String)
    (generated : String) (ts : ℕ) (selector : PurgeSelector) (operation_key : String) (s : Store)
    (shown : PurgePreview)
    → find (λ x. x.operation_key == operation_key) (Store.list deletion_receipt none s) ≡ none
    → preview_record_store_purge hash_json compute_hash selector s ≡ ok shown
    → (t : Store) × (r : DeletionReceiptRecord) × (purge_record_store_graph now hash_json
          compute_hash generated ts selector operation_key s
        ≡ ok (t, r))
      × (r.selector_hash ≡ shown.selector_hash)
      × (r.counts ≡ shown.counts)
unfolding purge_record_store_graph purge_notes new_receipt preview_record_store_purge
purge-preview now hash_json compute_hash generated ts selector operation_key s shown fresh q =
    elim (Result-cases (selected_note_ids s selector)) [
      | inl (ids, chosen) ↦
          let same = rw (chosen, preview_record_store_purge) at q in
          let done =
            purge_notes now hash_json compute_hash generated ts selector operation_key ids s in
          (done.0, done.1, rw (fresh, purge_record_store_graph) (rw chosen), cc same, cc same)
      | inr (e, failed) ↦ absurd (cc (rw (failed, preview_record_store_purge) at q))
    ]
