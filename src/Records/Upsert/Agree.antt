-- ===== src/Records/Upsert/Agree.antt =====
-- records/source-upsert.ts: two plans of the same items with other ids and times.
use fortemi_react.Common.{
  ℕ, suc, if◌then◌else◌, String, ◌≡◌, inl, inr, refl, subst, Bool, true, false, not, ◌&&◌, none,
  some, is_some, List, [], ◌∷◌, ◌++◌, Bool-cases, Option-cases, or_else, ◌==◌, string_eq,
}
use fortemi_react.Common.Result.{Result-cases, Result, ok}
use fortemi_react.Records.Receipts.{SourceUpsertItemResult, SourceUpsertOutcome, inserted}
use fortemi_react.Records.Journal.{Mutation}
use fortemi_react.Records.Types.{SourceIdentityRecord}
use fortemi_react.Records.Tables.{note}
use fortemi_react.Records.Store
use fortemi_react.Records.Store.{Store}
use fortemi_react.Records.Upsert.{
  SourceUpsertPolicy, replace, version, conflict_policy, source_identity_hash, SourceUpsertItem,
  SourceUpsertOptions,
}
use fortemi_react.Records.Upsert.Plan.{
  plan_insert, plan_update, plan_item, plan_items, find_source, note_rows,
}
use fortemi_react.Records.Upsert.Mutations.{insert_mutations}

abbrev pub with_dry_run : Bool → SourceUpsertOptions → SourceUpsertOptions
with_dry_run b options = record options { dry_run = b }

abbrev pub is_inserted : SourceUpsertOutcome → Bool
is_inserted inserted = true
is_inserted _ = false

-- Whether a result names a note whose id was generated.
abbrev pub is_generated : SourceUpsertItem → SourceUpsertItemResult → Bool
is_generated item r = is_inserted r.outcome && not (is_some item.source.caller_stable_id)

-- Two results of an item differ in a generated note id at most.
abbrev pub Agrees : SourceUpsertItem → SourceUpsertItemResult → SourceUpsertItemResult → Type 0
Agrees item r r' = (record r' { note_id = r.note_id } ≡ r) × (is_generated item r ≡ false → r' ≡ r)

abbrev pub AllAgree :
    List SourceUpsertItem → List SourceUpsertItemResult → List SourceUpsertItemResult → Type 0
AllAgree [] [] [] = Unit
AllAgree (item ∷ items) (r ∷ rs) (r' ∷ rs') = Agrees item r r' × AllAgree items rs rs'
AllAgree _ _ _ = ⊥

abbrev planned_as :
    SourceUpsertItemResult × List Mutation
    → Result (List SourceUpsertItemResult) (SourceUpsertItemResult × List Mutation)
planned_as p = ok p

same_result :
    (r : SourceUpsertItemResult) (ms ms' : List Mutation)
    (p : SourceUpsertItemResult × List Mutation)
    → planned_as (r, ms) ≡ ok p
    → (q : SourceUpsertItemResult × List Mutation) × (planned_as (r, ms') ≡ ok q) × (q.0 ≡ p.0)
same_result r ms ms' p h = ((r, ms'), refl, cc h)

module _ (compute_hash : String → String) (all : List SourceUpsertItem) (s : Store) where
  abbrev inserted_result : ℕ → String → SourceUpsertItem → SourceUpsertItemResult
  inserted_result i id item = record {
    index = i;
    outcome = inserted;
    note_id = some id;
    external_id_hash = source_identity_hash compute_hash item.source;
    content_digest = compute_hash item.content;
    reason_code = none;
  }

  abbrev id_for : (ℕ → ℕ → String) → ℕ → SourceUpsertItem → String
  id_for generated i item = or_else item.source.caller_stable_id (generated i 0)

  plan_insert-ok :
      (generated : ℕ → ℕ → String) (stamp i : ℕ) (item : SourceUpsertItem)
      (p : SourceUpsertItemResult × List Mutation)
      → plan_insert compute_hash generated stamp all i item s ≡ ok p
      → (Store.get note (id_for generated i item) s ≡ none)
        × (inserted_result i (id_for generated i item) item ≡ p.0)
  unfolding plan_insert
  plan_insert-ok generated stamp i item p h =
      elim (Option-cases (Store.get note (id_for generated i item) s)) [
        | inl e ↦ (e, cc (rw (e, plan_insert) at h))
        | inr (n, e) ↦ absurd (cc (rw (e, plan_insert) at h))
      ]

  plan_insert-free :
      (generated : ℕ → ℕ → String) (stamp i : ℕ) (item : SourceUpsertItem)
      → Store.get note (id_for generated i item) s ≡ none
      → (q : SourceUpsertItemResult × List Mutation) × (plan_insert compute_hash generated stamp all
            i item s
          ≡ ok q)
        × (inserted_result i (id_for generated i item) item ≡ q.0)
  unfolding plan_insert
  plan_insert-free generated stamp i item e =
      let id = id_for generated i item in
      let mutations =
        insert_mutations (generated i) item id (compute_hash item.content)
          (source_identity_hash compute_hash item.source) stamp in
      ((inserted_result i id item, mutations), rw (e, plan_insert) refl, refl)

  Agrees-refl : (item : SourceUpsertItem) (r : SourceUpsertItemResult) → Agrees item r r
  Agrees-refl item r = (refl, λ _. refl)

  module _ (generated generated' : ℕ → ℕ → String) (stamp stamp' : ℕ)
      (fresh : (i : ℕ) → Store.get note (generated' i 0) s ≡ none) where
    plan_insert-Agrees :
        (i : ℕ) (item : SourceUpsertItem) (p : SourceUpsertItemResult × List Mutation)
        → plan_insert compute_hash generated stamp all i item s ≡ ok p
        → (q : SourceUpsertItemResult × List Mutation) × (plan_insert compute_hash generated' stamp'
              all i item s
            ≡ ok q)
          × Agrees item p.0 q.0
    plan_insert-Agrees i item p h =
        let (free, named) = plan_insert-ok generated stamp i item p h in
        elim (Option-cases item.source.caller_stable_id) [
          | inl e ↦
              let (q, planned, named') =
                plan_insert-free generated' stamp' i item (rw e (fresh i)) in
              (q, planned, rw (← named) (rw (← named') (refl, λ old. absurd (cc (rw e at old)))))
          | inr (id, e) ↦
              let (q, planned, named') =
                plan_insert-free generated' stamp' i item (rw e (rw e at free)) in
              (q, planned, rw (← named) (rw (← named') (rw e (refl, λ _. refl))))
        ]

    plan_update-Agrees :
        (policy : SourceUpsertPolicy) (i : ℕ) (item : SourceUpsertItem)
        (identity : SourceIdentityRecord) (p : SourceUpsertItemResult × List Mutation)
        → plan_update compute_hash generated stamp all policy i item identity s ≡ ok p
        → (q : SourceUpsertItemResult × List Mutation) × (plan_update compute_hash generated' stamp'
              all policy i item identity s
            ≡ ok q)
          × (q.0 ≡ p.0)
    unfolding plan_update
    plan_update-Agrees conflict_policy i item identity p h = (_, refl, cc h)
    plan_update-Agrees replace i item identity p h =
        elim (Option-cases (note_rows identity.note_id s)) [
          | inl e ↦ absurd (cc (rw (e, plan_update) at h))
          | inr (rows, e) ↦ rw (e, plan_update) (same_result _ _ _ p (rw (e, plan_update) at h))
        ]
    plan_update-Agrees version i item identity p h =
        elim (Option-cases (note_rows identity.note_id s)) [
          | inl e ↦ absurd (cc (rw (e, plan_update) at h))
          | inr (rows, e) ↦ rw (e, plan_update) (same_result _ _ _ p (rw (e, plan_update) at h))
        ]

    plan_item-Agrees :
        (options : SourceUpsertOptions) (a b : Bool) (i : ℕ) (item : SourceUpsertItem)
        (p : SourceUpsertItemResult × List Mutation)
        → plan_item compute_hash generated stamp all (with_dry_run a options) i item s ≡ ok p
        → (q : SourceUpsertItemResult × List Mutation) × (plan_item compute_hash generated' stamp'
              all
              (with_dry_run b options)
              i
              item
              s
            ≡ ok q)
          × Agrees item p.0 q.0
    unfolding plan_item
    plan_item-Agrees options a b i item p h = elim (Option-cases (find_source item.source s)) [
      | inl e ↦ rw (e, plan_item) (plan_insert-Agrees i item p (rw (e, plan_item) at h))
      | inr (identity, e) ↦
          elim (Bool-cases (identity.content_digest == compute_hash item.content)) [
            | inl t ↦
                let (q, planned, same) = same_result _ [] [] p (rw t at (rw (e, plan_item) at h)) in
                (q, rw (e, plan_item) (rw t planned), rw same (Agrees-refl item p.0))
            | inr t ↦
                let policy = or_else item.policy (or_else options.policy version) in
                let (q, planned, same) =
                  plan_update-Agrees policy i item identity p (rw t at (rw (e, plan_item) at h)) in
                (q, rw (e, plan_item) (rw t planned), rw same (Agrees-refl item p.0))
          ]
    ]

    pub plan_items-AllAgree :
        (options : SourceUpsertOptions) (a b : Bool) (i : ℕ) (items : List SourceUpsertItem)
        (p : List SourceUpsertItemResult × List Mutation)
        → plan_items compute_hash generated stamp all (with_dry_run a options) i items s ≡ ok p
        → (q : List SourceUpsertItemResult × List Mutation) × (plan_items compute_hash generated'
              stamp' all
              (with_dry_run b options)
              i
              items
              s
            ≡ ok q)
          × AllAgree items p.0 q.0
    unfolding plan_items
    plan_items-AllAgree options a b i [] p h =
        (([], []), refl, subst (λ rs. AllAgree [] rs []) (let e : [] ≡ p.0 = cc h in e) tt)
    plan_items-AllAgree options a b i (item ∷ items) p h =
        elim (Result-cases
          (plan_item compute_hash generated stamp all (with_dry_run a options) i item s)) [
            | inr (r, e) ↦ absurd (cc (rw (e, plan_items) at h))
            | inl (planned, e) ↦
                elim (Result-cases (
                  plan_items compute_hash generated stamp all (with_dry_run a options) (suc i) items
                    s)) [
                      | inr (r, f) ↦ absurd (cc (rw f at (rw (e, plan_items) at h)))
                      | inl (later, f) ↦
                          let (q, planned', agree) =
                            plan_item-Agrees options a b i item planned e in
                          let (qs, later', agree') =
                            plan_items-AllAgree options a b (suc i) items later f in
                          let results : planned.0 ∷ later.0 ≡ p.0 =
                            cc (rw f at (rw (e, plan_items) at h)) in
                          (
                            (q.0 ∷ qs.0, if b then [] else q.1 ++ qs.1),
                            rw (planned', plan_items) (rw later' refl),
                            subst (λ rs. AllAgree (item ∷ items) rs (q.0 ∷ qs.0)) results
                                (agree, agree'),
                          )
                    ]
          ]
