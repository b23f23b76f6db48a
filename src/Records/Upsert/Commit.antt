-- ===== src/Records/Upsert/Commit.antt =====
-- records/source-upsert.ts: what a committed import adds to the batches.
use fortemi_react.Common.{
  ℕ, suc, String, ◌≡◌, inl, inr, refl, ap, ◌∙◌, List, [], ◌∷◌, ◌++◌, or_else, is_some, ◌==◌,
  string_eq, Bool-cases, Option-cases,
}
use fortemi_react.Common.Dict
use fortemi_react.Common.Dict.{Dict, find-set}
use fortemi_react.Common.Result.{Result-cases, Result, ok, err}
use fortemi_react.Records.Receipts.{SourceUpsertItemResult, committed}
use fortemi_react.Records.Types.{SourceIdentityRecord}
use fortemi_react.Records.Tables.{note, table, set_table, Tables}
use fortemi_react.Records.Journal.{Mutation}
use fortemi_react.Records.Store
use fortemi_react.Records.Store.{Store, normalize_record_mutation, write}
use fortemi_react.Records.Purge.Batch.{write_all, write_all-append, apply_batch-collections}
use fortemi_react.Records.Upsert.{
  SourceUpsertItem, SourceUpsertOptions, SourceUpsertPolicy, conflict_policy, replace, version,
  DigestedRequest, finish,
}
use fortemi_react.Records.Upsert.Mutations.{
  insert_mutations, current_mutations, replace_mutation, version_mutation,
}
use fortemi_react.Records.Upsert.Plan.{
  plan_insert, plan_update, plan_item, plan_items, note_rows, find_source,
}
use fortemi_react.Records.Upsert.Batch.{batch_record, commit}

-- Mutations that leave the batches of imports as they are.
abbrev pub KeepsBatches : List Mutation → Type 0
KeepsBatches ms = (t : Tables) → (write_all ms t).source_import_batchs ≡ t.source_import_batchs

KeepsBatches-append :
    (ms ns : List Mutation) → KeepsBatches ms → KeepsBatches ns → KeepsBatches (ms ++ ns)
KeepsBatches-append ms ns h k t =
    ap (λ x. x.source_import_batchs) (write_all-append ms ns t) ∙ k (write_all ms t) ∙ h t

-- A plan whose mutations, if it has some, leave the batches as they are.
abbrev Keeps {ℓ} : {A : Type ℓ} → Result (List SourceUpsertItemResult) (A × List Mutation) → Type 0
Keeps (ok p) = KeepsBatches p.1
Keeps (err e) = Unit

module _ (compute_hash : String → String) (generated : ℕ → ℕ → String) (stamp : ℕ) where
  plan_insert-Keeps :
      (all : List SourceUpsertItem) (i : ℕ) (item : SourceUpsertItem) (s : Store)
      → Keeps (plan_insert compute_hash generated stamp all i item s)
  unfolding plan_insert insert_mutations write_all write normalize_record_mutation table set_table
  plan_insert-Keeps all i item s =
      elim (Bool-cases
        (is_some (Store.get note (or_else item.source.caller_stable_id (generated i 0)) s))) [
          | inl t ↦ rw t tt
          | inr f ↦ rw f (λ t. refl)
        ]

  plan_update-Keeps :
      (all : List SourceUpsertItem) (policy : SourceUpsertPolicy) (i : ℕ) (item : SourceUpsertItem)
      (identity : SourceIdentityRecord) (s : Store)
      → Keeps (plan_update compute_hash generated stamp all policy i item identity s)
  unfolding plan_update current_mutations replace_mutation version_mutation write_all write
      normalize_record_mutation table set_table
  plan_update-Keeps all conflict_policy i item identity s = λ t. refl
  plan_update-Keeps all replace i item identity s =
      elim (Option-cases (note_rows identity.note_id s)) [
        | inl missing ↦ rw (missing, plan_update) tt
        | inr (rows, found) ↦ rw (found, plan_update) (λ t. refl)
      ]
  plan_update-Keeps all version i item identity s =
      elim (Option-cases (note_rows identity.note_id s)) [
        | inl missing ↦ rw (missing, plan_update) tt
        | inr (rows, found) ↦ rw (found, plan_update) (λ t. refl)
      ]

  plan_item-Keeps :
      (all : List SourceUpsertItem) (options : SourceUpsertOptions) (i : ℕ)
      (item : SourceUpsertItem) (s : Store)
      → Keeps (plan_item compute_hash generated stamp all options i item s)
  unfolding plan_item write_all
  plan_item-Keeps all options i item s = elim (Option-cases (find_source item.source s)) [
    | inl new ↦ rw (new, plan_item) (plan_insert-Keeps all i item s)
    | inr (identity, known) ↦
        elim (Bool-cases (identity.content_digest == compute_hash item.content)) [
          | inl same ↦ rw (known, plan_item) (rw same (λ t. refl))
          | inr other ↦ rw (known, plan_item) (rw other (plan_update-Keeps all _ i item identity s))
        ]
  ]

  plan_items-Keeps :
      (all : List SourceUpsertItem) (options : SourceUpsertOptions) (i : ℕ)
      (items : List SourceUpsertItem) (s : Store)
      → Keeps (plan_items compute_hash generated stamp all options i items s)
  unfolding plan_items write_all
  plan_items-Keeps all options i [] s = λ t. refl
  plan_items-Keeps all options i (item ∷ items) s =
      let here = plan_item-Keeps all options i item s in
      let later = plan_items-Keeps all options (suc i) items s in
      elim (Result-cases (plan_item compute_hash generated stamp all options i item s)) [
        | inr (e, failed) ↦ rw (failed, plan_items) tt
        | inl (p, planned) ↦
            elim (Result-cases
              (plan_items compute_hash generated stamp all options (suc i) items s)) [
                | inr (e, failed) ↦ rw (planned, plan_items) (rw failed tt)
                | inl (q, rest) ↦
                    rw (planned, plan_items)
                      (rw rest (elim (Bool-cases options.dry_run) [
                        | inl dry ↦ rw dry (λ t. refl)
                        | inr wet ↦
                            rw wet
                              (KeepsBatches-append p.1 q.1 (rw planned at here) (rw rest at later))
                      ]))
              ]
      ]

  module _ (request_hash : DigestedRequest → String) (batch_record_id : String) (now : ℕ → ℕ) where
    pub commit-batches :
        (item : SourceUpsertItem) (items : List SourceUpsertItem) (options : SourceUpsertOptions)
        (batch_id request_digest : String) (s : Store)
        → let done =
            commit compute_hash generated stamp request_hash batch_record_id now item items options
              batch_id request_digest s in
          done.1.outcome ≡ committed
          → done.0.collections.source_import_batchs
            ≡ Dict.set batch_record_id
                (batch_record compute_hash generated stamp request_hash batch_record_id item options
                  batch_id request_digest done.1)
                s.collections.source_import_batchs
    unfolding commit finish write_all write normalize_record_mutation table set_table
    commit-batches item items options batch_id request_digest s h =
        let all = item ∷ items in
        let keeps = plan_items-Keeps all options 0 all s in
        elim (Result-cases (plan_items compute_hash generated stamp all options 0 all s)) [
          | inr (e, failed) ↦ absurd (cc (rw (failed, commit) at h))
          | inl (p, planned) ↦ elim (Bool-cases options.dry_run) [
            | inl dry ↦ absurd (cc (rw dry at (rw (planned, commit) at h)))
            | inr wet ↦
                rw (planned, commit)
                  (rw wet (
                    ap (λ t. t.source_import_batchs)
                      (apply_batch-collections now s _ ∙ write_all-append p.1 _ s.collections)
                    ∙ ap (Dict.set batch_record_id _) ((rw planned at keeps) s.collections)))
          ]
        ]
