-- ===== src/Records/Upsert/Retry.antt =====
-- records/source-upsert.ts: what a second call with the same request does.
use fortemi_react.Common.{
  ℕ, String, ◌≡◌, inl, inr, refl, true, false, Option, none, some, List, ◌∷◌, map, find, or_else,
  ◌==◌, ==_refl, string_eq, Bool-cases, Option-cases,
}
use fortemi_react.Common.Dict.{find-set}
use fortemi_react.Records.Receipts.{
  SourceUpsertReasonCode, SourceUpsertResponse, SourceUpsertBatchOutcome, committed, duplicate,
  preview,
}
use fortemi_react.Records.Types.{SourceImportBatchRecord}
use fortemi_react.Records.Tables.{table, source_import_batch}
use fortemi_react.Records.Store
use fortemi_react.Records.Store.{Store}
use fortemi_react.Records.Purge.{same_archive}
use fortemi_react.Records.Upsert.{
  SourceUpsertItem, SourceUpsertOptions, DigestedRequest, tenant_of, source_request_digest,
  derive_source_batch_id, finish,
}
use fortemi_react.Records.Upsert.Validate.{validate}
use fortemi_react.Records.Upsert.Batch.{
  is_batch, batch_reason, as_unchanged, batch_record, commit, repeat_batch, upsert_sources,
}
use fortemi_react.Records.Upsert.Commit.{commit-batches}

same_archive_refl : (a : Option String) → same_archive a a ≡ true
unfolding same_archive
same_archive_refl none = refl
same_archive_refl (some a) = ==_refl a

abbrev pub batches : Store → List SourceImportBatchRecord
batches s = Store.list source_import_batch none s

-- The outcomes of a call that went through all its items.
abbrev pub IsPlanned : SourceUpsertBatchOutcome → Type 0
IsPlanned committed = Unit
IsPlanned preview = Unit
IsPlanned _ = ⊥

module _ (compute_hash : String → String) (request_hash : DigestedRequest → String)
    (item : SourceUpsertItem) (rest : List SourceUpsertItem) (options : SourceUpsertOptions) where
  abbrev pub digest : String
  digest = source_request_digest request_hash (item ∷ rest) options

  abbrev pub batch : String
  batch = or_else options.batch_id (derive_source_batch_id digest)

  abbrev pub reason_for : Option SourceUpsertReasonCode
  reason_for =
      validate compute_hash (item ∷ rest) (or_else options.max_items 500)
        (batch_reason batch options)

  abbrev pub run : (ℕ → ℕ → String) → ℕ → String → (ℕ → ℕ) → Store → Store × SourceUpsertResponse
  run generated stamp batch_record_id now s =
      upsert_sources compute_hash generated stamp request_hash batch_record_id now (item ∷ rest)
        options s

  module _ (generated : ℕ → ℕ → String) (stamp : ℕ) (batch_record_id : String) (now : ℕ → ℕ) where
    -- A repeated batch is not planned again.
    repeat_batch_lem :
        (prior : SourceImportBatchRecord)
        → IsPlanned
            (repeat_batch compute_hash generated stamp request_hash batch_record_id item rest
              options batch digest prior).outcome
        → ⊥
    unfolding repeat_batch finish
    repeat_batch_lem prior h = elim (Bool-cases (prior.request_digest == digest)) [
      | inl t ↦ rw t at h
      | inr t ↦ rw t at h
    ]

    pub upsert_sources-new :
        (s : Store)
        → reason_for ≡ none
        → find (is_batch item.source batch) (batches s) ≡ none
        → run generated stamp batch_record_id now s
          ≡ commit compute_hash generated stamp request_hash batch_record_id now item rest options
              batch digest s
    unfolding upsert_sources
    upsert_sources-new s fine new = rw (fine, upsert_sources) (rw new refl)

    -- A call that went through its items had items that pass, and a batch id that was not used before.
    pub upsert_sources-commits :
        (s : Store)
        → IsPlanned (run generated stamp batch_record_id now s).1.outcome
        → (reason_for ≡ none)
          × ((find (is_batch item.source batch) (batches s) ≡ none)
              × (run generated stamp batch_record_id now s
                  ≡ commit compute_hash generated stamp request_hash batch_record_id now item rest
                      options batch digest s))
    unfolding upsert_sources finish
    upsert_sources-commits s h = elim (Option-cases reason_for) [
      | inr (reason, bad) ↦ absurd (rw (bad, upsert_sources) at h)
      | inl fine ↦ elim (Option-cases (find (is_batch item.source batch) (batches s))) [
        | inl new ↦ (fine, (new, upsert_sources-new s fine new))
        | inr (prior, known) ↦
            absurd (repeat_batch_lem prior (rw known at (rw (fine, upsert_sources) at h)))
      ]
    ]

    -- A batch that is known is answered from its record.
    upsert_sources-repeats :
        (prior : SourceImportBatchRecord) (s : Store)
        → reason_for ≡ none
        → find (is_batch item.source batch) (batches s) ≡ some prior
        → prior.request_digest ≡ digest
        → run generated stamp batch_record_id now s ≡ (
          s,
          finish item.source.import_run_id batch false duplicate
              (map as_unchanged prior.receipt.items)
              prior.receipt.checkpoint,
        )
    unfolding upsert_sources repeat_batch
    upsert_sources-repeats prior s fine found same =
        rw (fine, upsert_sources) (rw found (rw same (rw (==_refl digest) refl)))

    -- The batch that a committed call stores is found again.
    upsert_sources-find :
        (s : Store)
        → let done = run generated stamp batch_record_id now s in
          done.1.outcome ≡ committed
          → find (is_batch item.source batch) (batches done.0)
            ≡ some (
                batch_record compute_hash generated stamp request_hash batch_record_id item options
                  batch digest done.1)
    unfolding is_batch batch_record Store.list table
    upsert_sources-find s h =
        let c = upsert_sources-commits s (rw h tt) in
        let stored =
          commit-batches compute_hash generated stamp request_hash batch_record_id now item rest
            options batch digest s (rw c.1.1 at h) in
        rw c.1.1 (
          rw stored (
            find-set (is_batch item.source batch) batch_record_id _
              s.collections.source_import_batchs c.1.0
              (rw
                (
                  ==_refl (tenant_of item.source),
                  same_archive_refl item.source.archive_id,
                  ==_refl item.source.namespace,
                  ==_refl batch,
                )
                refl)))

  -- After a committed import the same request, whenever and with whatever new identifiers it is sent
  -- again, is answered as a duplicate: the records and the journal are not touched, the items are those
  -- of the first answer with the outcome unchanged, and the checkpoint is the first one's.
  pub upsert_sources_idempotent :
      (generated generated' : ℕ → ℕ → String) (stamp stamp' : ℕ)
      (batch_record_id batch_record_id' : String) (now now' : ℕ → ℕ) (s : Store)
      → let done = run generated stamp batch_record_id now s in
        done.1.outcome ≡ committed
        → run generated' stamp' batch_record_id' now' done.0 ≡ (
          done.0,
          finish item.source.import_run_id batch false duplicate
              (map as_unchanged done.1.items)
              done.1.checkpoint,
        )
  unfolding batch_record
  upsert_sources_idempotent generated generated' stamp stamp' batch_record_id batch_record_id' now
        now' s h =
      upsert_sources-repeats generated' stamp' batch_record_id' now' _ _
        (upsert_sources-commits generated stamp batch_record_id now s (rw h tt)).0
        (upsert_sources-find generated stamp batch_record_id now s h) refl
