-- ===== src/Records/Store.antt =====
-- records/memory-record-store.ts and the store contract of records/types.ts.
-- Every call of the Date constructor is a reading of `now`, taken at the sequence number that it
-- stamps. Values do not alias in the model, so `structuredClone` is the identity. Without presence
-- metadata `normalizeRecordMutation` cannot throw, so a batch always commits.
pub mod Reads
pub mod Indexed
pub mod Replay
pub mod Catchup
use fortemi_react.Common.{
  ℕ, suc, String, ◌≡◌, refl, Bool, Option, none, some, List, [], ◌∷◌, ◌++◌, filter, first, take,
  ltb, or_else, string_eq,
}
use fortemi_react.Common.Dict
use fortemi_react.Common.Dict.{Dict}
use fortemi_react.Records.Journal.{Mutation, Change, JournalEntry, change_of}
use fortemi_react.Records.Tables.{
  CollectionName, collection, RecordOf, id_of, Tables, no_records, table, set_table,
}

pub record Store : Type 0 where
  pub collections : Tables
  pub journal : List JournalEntry
  pub seq : ℕ

abbrev pub empty_store : Store
empty_store = record { collections = no_records; journal = []; seq = 0 }

-- `parent_id: record.parent_id ?? null`
unfoldable pub normalize_record : (c : CollectionName) → RecordOf c → RecordOf c
normalize_record collection r = record r { parent_id = some (or_else r.parent_id none) }
normalize_record _ r = r

unfoldable pub normalize_record_mutation : Mutation → Mutation
unfolding normalize_record
normalize_record_mutation (Mutation.put c r) = Mutation.put c (normalize_record c r)
normalize_record_mutation (Mutation.delete c id) = Mutation.delete c id

-- The write that the loop of `applyBatch` makes to the staged collections.
unfoldable pub write : Mutation → Tables → Tables
write (Mutation.put c r) t = set_table c (Dict.set (id_of c r) r (table c t)) t
write (Mutation.delete c id) t = set_table c (Dict.delete id (table c t)) t

-- The `entry` that the loop of `applyBatch` builds for a normalised mutation.
unfoldable pub entry_of : (ℕ → ℕ) → Store → Mutation → JournalEntry
entry_of now s m = record { seq = suc s.seq; ts = now (suc s.seq); change = change_of m }

-- One round of the loop: the staged state and the entry.
unfoldable pub stage : (ℕ → ℕ) → Store → Mutation → Store × JournalEntry
stage now s raw =
    let mutation = normalize_record_mutation raw in
    let entry = entry_of now s mutation in
    (
      record {
        collections = write mutation s.collections;
        journal = s.journal ++ entry ∷ [];
        seq = suc s.seq;
      },
      entry,
    )

unfoldable pub apply_batch_loop :
    (ℕ → ℕ) → Store → List JournalEntry → List Mutation → Store × List JournalEntry
apply_batch_loop now s entries [] = (s, entries)
apply_batch_loop now s entries (m ∷ ms) =
    let (s', entry) = stage now s m in apply_batch_loop now s' (entries ++ entry ∷ []) ms

unfoldable pub apply_batch : (ℕ → ℕ) → Store → List Mutation → Store × List JournalEntry
unfolding apply_batch_loop
apply_batch now s [] = (s, [])
apply_batch now s (m ∷ ms) = apply_batch_loop now s [] (m ∷ ms)

unfoldable pub put :
    (ℕ → ℕ) → (c : CollectionName) → RecordOf c → Store → Store × Option JournalEntry
unfolding apply_batch
put now c r s = let (s', entries) = apply_batch now s (Mutation.put c r ∷ []) in (s', first entries)

unfoldable pub remove : (ℕ → ℕ) → CollectionName → String → Store → Store × Option JournalEntry
unfolding apply_batch
remove now c id s =
    let (s', entries) = apply_batch now s (Mutation.delete c id ∷ []) in (s', first entries)

unfoldable pub get : (c : CollectionName) → String → Store → Option (RecordOf c)
get c id s = Dict.get id (table c s.collections)

abbrev pub limited {ℓ} : {A : Type ℓ} → Option ℕ → List A → List A
limited none xs = xs
limited (some n) xs = take n xs

unfoldable pub list : (c : CollectionName) → Option ℕ → Store → List (RecordOf c)
list c limit s = limited limit (Dict.values (table c s.collections))

unfoldable pub journal_since : ℕ → Option ℕ → Store → List JournalEntry
journal_since since limit s = limited limit (filter (λ e. ltb since e.seq) s.journal)

pub head_seq : Store → ℕ
head_seq s = s.seq

-- Opens the operations of the store at once.
unfoldable pub store_code : Unit {0}
unfolding get put remove list stage write normalize_record_mutation normalize_record table set_table
store_code = tt
