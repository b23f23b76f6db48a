-- ===== src/Records/Purge/Batch.antt =====
-- The collections after a batch, as the writes of its mutations in turn.
use fortemi_react.Common.{
  ℕ, String, ◌≡◌, refl, sym, ap, ◌∙◌, Bool, List, [], ◌∷◌, ◌++◌, map, filter, string_eq,
}
use fortemi_react.Common.Dict
use fortemi_react.Common.Dict.{Dict}
use fortemi_react.Records.Journal.{Mutation, JournalEntry}
use fortemi_react.Records.Tables.{
  CollectionName, RecordOf, id_of, Tables, table, set_table, table-set_table, set_table-table,
  set_table-set_table,
}
use fortemi_react.Records.Store
use fortemi_react.Records.Store.{
  Store, normalize_record_mutation, write, stage, apply_batch_loop, apply_batch,
}
use fortemi_react.Records.Purge.{deletions}
use fortemi_react.Records.Purge.Filter.{delete_all}

unfoldable pub write_all : List Mutation → Tables → Tables
write_all [] t = t
write_all (m ∷ ms) t = write_all ms (write (normalize_record_mutation m) t)

pub write_all-append :
    (ms ns : List Mutation) (t : Tables) → write_all (ms ++ ns) t ≡ write_all ns (write_all ms t)
unfolding write_all
write_all-append [] ns t = refl
write_all-append (m ∷ ms) ns t = write_all-append ms ns (write (normalize_record_mutation m) t)

apply_batch_loop-collections :
    (now : ℕ → ℕ) (s : Store) (es : List JournalEntry) (ms : List Mutation)
    → (apply_batch_loop now s es ms).0.collections ≡ write_all ms s.collections
unfolding apply_batch_loop stage write_all
apply_batch_loop-collections now s es [] = refl
apply_batch_loop-collections now s es (m ∷ ms) =
    apply_batch_loop-collections now (stage now s m).0 (es ++ (stage now s m).1 ∷ []) ms

pub apply_batch-collections :
    (now : ℕ → ℕ) (s : Store) (ms : List Mutation)
    → (apply_batch now s ms).0.collections ≡ write_all ms s.collections
unfolding apply_batch write_all
apply_batch-collections now s [] = refl
apply_batch-collections now s (m ∷ ms) = apply_batch_loop-collections now s [] (m ∷ ms)

write_all-delete :
    (c : CollectionName) (rs : List (RecordOf c)) (t : Tables)
    → write_all (map (λ r. Mutation.delete c (id_of c r)) rs) t
      ≡ set_table c (delete_all (map (id_of c) rs) (table c t)) t
unfolding write_all write normalize_record_mutation delete_all
write_all-delete c [] t = sym (set_table-table c t)
write_all-delete c (r ∷ rs) t =
    let m = Dict.delete (id_of c r) (table c t) in
    write_all-delete c rs (set_table c m t)
    ∙ ap (λ n. set_table c (delete_all (map (id_of c) rs) n) (set_table c m t))
        (table-set_table c m t)
    ∙ set_table-set_table c (delete_all (map (id_of c) rs) m) m t

-- The table of a collection without the records that pass a test in `s`.
abbrev pub purged :
    (c : CollectionName)
    → (RecordOf c → Bool)
    → Store
    → Dict String (RecordOf c)
    → Dict String (RecordOf c)
purged c p s m = delete_all (map (id_of c) (filter p (Dict.values (table c s.collections)))) m

pub write_all-deletions :
    (c : CollectionName) (p : RecordOf c → Bool) (s : Store) (t : Tables)
    → write_all (deletions c p s) t ≡ set_table c (purged c p s (table c t)) t
unfolding deletions Store.list
write_all-deletions c p s t = write_all-delete c (filter p (Dict.values (table c s.collections))) t
