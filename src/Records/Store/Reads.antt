-- ===== src/Records/Store/Reads.antt =====
-- What the store's reads give after a write.
use fortemi_react.Common.{ℕ, String, ◌≡◌, refl, ap, ◌∙◌, none, some, if◌then◌else◌, ◌==◌, string_eq}
use fortemi_react.Common.Dict
use fortemi_react.Records.Tables.{CollectionName, collection, RecordOf, id_of, table-set_table}
use fortemi_react.Records.Store.{
  Store, normalize_record, normalize_record_mutation, write, stage, put, remove, get,
}

pub id_of-normalize_record :
    (c : CollectionName) (r : RecordOf c) → id_of c (normalize_record c r) ≡ id_of c r
unfolding normalize_record
id_of-normalize_record collection r = refl
id_of-normalize_record _ r = refl

-- A put is read back under its id, with an omitted collection parent made null, and every other id of
-- the collection reads as before.
pub get-put :
    (now : ℕ → ℕ) (c : CollectionName) (r : RecordOf c) (k : String) (s : Store)
    → get c k (put now c r s).0
      ≡ (if id_of c r == k then some (normalize_record c r) else get c k s)
unfolding get put stage write normalize_record_mutation
get-put now c r k s =
    ap (Dict.get k) (table-set_table c _ s.collections)
    ∙ Dict.get-set (id_of c (normalize_record c r)) k (normalize_record c r) _
    ∙ ap (λ i. if i == k then some (normalize_record c r) else get c k s)
        (id_of-normalize_record c r)

-- A removed id reads as absent, and every other id of the collection as before.
pub get-remove :
    (now : ℕ → ℕ) (c : CollectionName) (id k : String) (s : Store)
    → get c k (remove now c id s).0 ≡ (if id == k then none else get c k s)
unfolding get remove stage write normalize_record_mutation
get-remove now c id k s =
    ap (Dict.get k) (table-set_table c _ s.collections) ∙ Dict.get-delete id k _
