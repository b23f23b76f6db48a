-- ===== src/Records/Store/Indexed.antt =====
-- The tables of a store stay indexed: every record stands once, under its own id.
use fortemi_react.Common.{ℕ, String, ◌≡◌, sym, subst, some, List, [], ◌∷◌, ◌++◌, All, string_eq}
use fortemi_react.Common.Dict
use fortemi_react.Common.Dict.{Dict}
use fortemi_react.Records.Journal.{Mutation, JournalEntry}
use fortemi_react.Records.Tables.{
  CollectionName, note, RecordOf, id_of, Tables, no_records, table, set_table, table-set_table,
  table-set_table_ne,
}
use fortemi_react.Records.Store.{
  Store, empty_store, normalize_record_mutation, write, stage, apply_batch_loop, apply_batch, get,
}
use fortemi_react.Records.Store.Catchup.{run_batches}

CollectionName-discrete : Discrete CollectionName
CollectionName-discrete = hlevel

abbrev pub IsIndexedTable : (c : CollectionName) → Dict String (RecordOf c) → Type 0
IsIndexedTable c m = Dict.IsKeyed m × All (λ e. id_of c e.1 ≡ e.0) m

-- Every record stands in its table once, under its own id.
abbrev pub IsIndexed : Tables → Type 0
IsIndexed t = (c : CollectionName) → IsIndexedTable c (table c t)

set_table-IsIndexed :
    (c : CollectionName) (m : Dict String (RecordOf c)) (t : Tables)
    → IsIndexedTable c m
    → IsIndexed t
    → IsIndexed (set_table c m t)
set_table-IsIndexed c m t hm ht d = elim (CollectionName-discrete c d) [
  | yes p ↦
      subst (λ x. IsIndexedTable x (table x (set_table c m t))) p
        (subst (IsIndexedTable c) (sym (table-set_table c m t)) hm)
  | no n ↦ subst (IsIndexedTable d) (sym (table-set_table_ne c d m t n)) (ht d)
]

pub write-IsIndexed : (m : Mutation) (t : Tables) → IsIndexed t → IsIndexed (write m t)
unfolding write
write-IsIndexed (Mutation.put c r) t h =
    set_table-IsIndexed c _ t
      (
        Dict.set-IsKeyed (id_of c r) r (table c t) (h c).0,
        Dict.All-entries-set (λ e. id_of c e.1 ≡ e.0) (id_of c r) r (table c t) (λ j q. sym q)
            (h c).1,
      )
      h
write-IsIndexed (Mutation.delete c id) t h =
    set_table-IsIndexed c _ t
      (
        Dict.delete-IsKeyed id (table c t) (h c).0,
        Dict.All-entries-delete (λ e. id_of c e.1 ≡ e.0) id (table c t) (h c).1,
      )
      h

apply_batch_loop-IsIndexed :
    (now : ℕ → ℕ) (s : Store) (es : List JournalEntry) (ms : List Mutation)
    → IsIndexed s.collections
    → IsIndexed (apply_batch_loop now s es ms).0.collections
unfolding apply_batch_loop stage
apply_batch_loop-IsIndexed now s es [] h = h
apply_batch_loop-IsIndexed now s es (m ∷ ms) h =
    apply_batch_loop-IsIndexed now (stage now s m).0 (es ++ (stage now s m).1 ∷ []) ms
      (write-IsIndexed (normalize_record_mutation m) s.collections h)

pub apply_batch-IsIndexed :
    (now : ℕ → ℕ) (s : Store) (ms : List Mutation)
    → IsIndexed s.collections
    → IsIndexed (apply_batch now s ms).0.collections
unfolding apply_batch
apply_batch-IsIndexed now s [] h = h
apply_batch-IsIndexed now s (m ∷ ms) h = apply_batch_loop-IsIndexed now s [] (m ∷ ms) h

no_records-IsIndexed : IsIndexed no_records
unfolding table
no_records-IsIndexed note = (tt, tt)
no_records-IsIndexed _ = (tt, tt)

run_batches_keeps :
    (now : ℕ → ℕ) (s : Store) (bs : List (List Mutation))
    → IsIndexed s.collections
    → IsIndexed (run_batches now s bs).collections
unfolding run_batches
run_batches_keeps now s [] h = h
run_batches_keeps now s (b ∷ bs) h =
    run_batches_keeps now (apply_batch now s b).0 bs (apply_batch-IsIndexed now s b h)

-- After any batches of puts and deletes on an empty store, every collection holds each id once, and
-- the record under an id has that id.
pub run_batches-IsIndexed :
    (now : ℕ → ℕ) (bs : List (List Mutation))
    → IsIndexed (run_batches now empty_store bs).collections
run_batches-IsIndexed now bs = run_batches_keeps now empty_store bs no_records-IsIndexed

pub id_of-get :
    (c : CollectionName) (k : String) (s : Store) {r : RecordOf c}
    → IsIndexed s.collections
    → get c k s ≡ some r
    → id_of c r ≡ k
unfolding get
id_of-get c k s h q =
    Dict.All-entries-get (λ e. id_of c e.1 ≡ e.0) k (table c s.collections) (h c).1 q
