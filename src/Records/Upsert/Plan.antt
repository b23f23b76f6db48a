-- ===== src/Records/Upsert/Plan.antt =====
-- records/source-upsert.ts: the loop of `upsertRecordStoreSources` over the items.
use fortemi_react.Common.{
  ℕ, suc, String, Bool, ◌&&◌, Option, none, some, List, [], ◌∷◌, ◌++◌, map, filter, find, length,
  nat_beq, or_else, is_some, ◌==◌, string_eq, if◌then◌else◌,
}
use mathlib.Core.Option
use fortemi_react.Common.Result.{Result, ok, err, ◌>>=◌}
use fortemi_react.Records.Types.{
  NoteRecord, NoteOriginalRecord, NoteRevisedCurrentRecord, SourceIdentityRecord,
}
use fortemi_react.Records.Receipts.{
  invalid_item, caller_stable_id_conflict, inserted, unchanged, versioned, replaced, conflict,
  SourceUpsertOutcome, SourceUpsertItemResult,
}
use fortemi_react.Records.Tables.{
  note, note_original, note_revised_current, note_revision, source_identity,
}
use fortemi_react.Records.Journal.{Mutation}
use fortemi_react.Records.Store
use fortemi_react.Records.Store.{Store}
use fortemi_react.Records.Purge.{same_archive}
use fortemi_react.Records.Upsert.{
  SourceUpsertPolicy, replace, version, conflict_policy, SourceIdentityInput, SourceUpsertItem,
  SourceUpsertOptions, tenant_of, source_identity_hash,
}
use fortemi_react.Records.Upsert.Validate.{reject_all}
use fortemi_react.Records.Upsert.Mutations.{
  insert_mutations, current_mutations, replace_mutation, version_mutation,
}

unfoldable pub is_source : SourceIdentityInput → SourceIdentityRecord → Bool
unfolding same_archive
is_source source identity =
    identity.tenant_id == tenant_of source
    && (same_archive identity.archive_id source.archive_id
        && (identity.namespace == source.namespace && identity.external_id == source.external_id))

unfoldable pub find_source : SourceIdentityInput → Store → Option SourceIdentityRecord
find_source source s = find (is_source source) (Store.list source_identity none s)

abbrev with_note : ℕ → String → SourceUpsertItemResult → SourceUpsertItemResult
with_note i id r = if nat_beq r.index i then record r { note_id = some id } else r

-- What an existing identity's note has: all three records, or not.
unfoldable pub note_rows :
    String → Store → Option (NoteRecord × NoteRevisedCurrentRecord × NoteOriginalRecord)
note_rows id s = elim (Store.get note id s) [
  | none ↦ none
  | some n ↦ elim (Store.get note_revised_current id s) [
    | none ↦ none
    | some current ↦
        Option.map (λ original. (n, current, original))
          (find (λ o. o.note_id == id) (Store.list note_original none s))
  ]
]

unfoldable pub next_revision_number : String → Store → ℕ
next_revision_number id s =
    suc (length (filter (λ r. r.note_id == id) (Store.list note_revision none s)))

module _ (compute_hash : String → String) (generated : ℕ → ℕ → String) (stamp : ℕ) where
  abbrev pub result_of :
      ℕ → SourceUpsertOutcome → String → SourceUpsertItem → SourceUpsertItemResult
  result_of i outcome note_id item = record {
    index = i;
    outcome = outcome;
    note_id = some note_id;
    external_id_hash = source_identity_hash compute_hash item.source;
    content_digest = compute_hash item.content;
    reason_code = none;
  }

  -- One round of the loop for an identity that is not known: the outcome with its mutations, or the
  -- results that reject all items.
  unfoldable pub plan_insert :
      List SourceUpsertItem
      → ℕ
      → SourceUpsertItem
      → Store
      → Result (List SourceUpsertItemResult) (SourceUpsertItemResult × List Mutation)
  plan_insert all i item s =
      let id = or_else item.source.caller_stable_id (generated i 0) in
      if is_some (Store.get note id s)
      then err (reject_all compute_hash caller_stable_id_conflict 0 all)
      else ok (
        result_of i inserted id item,
        insert_mutations (generated i) item id (compute_hash item.content)
            (source_identity_hash compute_hash item.source) stamp,
      )

  -- One round for an identity with other content.
  unfoldable pub plan_update :
      List SourceUpsertItem
      → SourceUpsertPolicy
      → ℕ
      → SourceUpsertItem
      → SourceIdentityRecord
      → Store
      → Result (List SourceUpsertItemResult) (SourceUpsertItemResult × List Mutation)
  plan_update all conflict_policy i item identity s =
      ok (result_of i conflict identity.note_id item, [])
  plan_update all policy i item identity s = elim (note_rows identity.note_id s) [
    | none ↦ err (map (with_note i identity.note_id) (reject_all compute_hash invalid_item 0 all))
    | some (n, current, original) ↦
        let digest = compute_hash item.content in
        let base = current_mutations item identity n current digest stamp in
        elim policy [
          | replace ↦ ok (
            result_of i replaced identity.note_id item,
            base ++ replace_mutation item original digest ∷ [],
          )
          | _ ↦ ok (
            result_of i versioned identity.note_id item,
            base
                ++ version_mutation (generated i 2) item identity stamp
                    (next_revision_number identity.note_id s)
                  ∷ [],
          )
        ]
  ]

  unfoldable pub plan_item :
      List SourceUpsertItem
      → SourceUpsertOptions
      → ℕ
      → SourceUpsertItem
      → Store
      → Result (List SourceUpsertItemResult) (SourceUpsertItemResult × List Mutation)
  unfolding plan_insert plan_update find_source
  plan_item all options i item s = elim (find_source item.source s) [
    | none ↦ plan_insert all i item s
    | some identity ↦
        if identity.content_digest == compute_hash item.content
        then ok (result_of i unchanged identity.note_id item, [])
        else plan_update all (or_else item.policy (or_else options.policy version)) i item identity
            s
  ]

  -- The loop, from the i-th item on: the outcomes, and the mutations, which a dry run leaves out.
  unfoldable pub plan_items :
      List SourceUpsertItem
      → SourceUpsertOptions
      → ℕ
      → List SourceUpsertItem
      → Store
      → Result (List SourceUpsertItemResult) (List SourceUpsertItemResult × List Mutation)
  unfolding plan_item
  plan_items all options i [] s = ok ([], [])
  plan_items all options i (item ∷ items) s = do
    planned ← plan_item all options i item s
    later ← plan_items all options (suc i) items s
    ok (planned.0 ∷ later.0, if options.dry_run then [] else planned.1 ++ later.1)
