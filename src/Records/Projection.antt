-- ===== src/Records/Projection.antt =====
-- records/record-projection.ts: `collectionsParentFirst`, the order in which `projectNotes` inserts the
-- collections, so that the foreign key of a collection to its parent holds.
pub mod Order
pub mod Visit
mod Tests
use fortemi_react.Common.{
  ℕ, zero, suc, ◌+◌, String, Option, none, some, List, [], ◌∷◌, ◌++◌, map, length, includes,
  if◌then◌else◌, string_eq,
}
use fortemi_react.Common.Result.{Result, ok, err}
use fortemi_react.Common.Dict.{Dict, get, set}
use fortemi_react.Records.Types.{CollectionRecord}

-- What is thrown: a cycle at a collection, or a collection and the parent that it lacks.
pub data HierarchyError : Type 0 where
  cycle : String → HierarchyError
  missing_parent : String → String → HierarchyError

-- `byId`: of two collections with one id the later stays.
abbrev pub index_from :
    Dict String CollectionRecord → List CollectionRecord → Dict String CollectionRecord
index_from by_id [] = by_id
index_from by_id (c ∷ cs) = index_from (set c.id c by_id) cs

-- `collection.parent_id ?? null`
abbrev pub parent_of : CollectionRecord → Option String
parent_of c = elim c.parent_id [ none ↦ none | some parent ↦ parent ]

-- What `visit` changes: `visited` and `ordered`. `visiting` holds the collections whose calls have not
-- returned, so it is an argument of the call.
pub record Visits : Type 0 where
  pub visited : List String
  pub ordered : List CollectionRecord

abbrev pub push : CollectionRecord → Visits → Visits
push c s = record { visited = c.id ∷ s.visited; ordered = s.ordered ++ c ∷ [] }

-- `visit`; none when the calls are nested deeper than the fuel.
unfoldable pub visit :
    Dict String CollectionRecord
    → ℕ
    → List String
    → CollectionRecord
    → Visits
    → Option (Result HierarchyError Visits)
visit by_id zero visiting c s = none
visit by_id (suc fuel) visiting c s =
    if includes c.id s.visited
    then some (ok s)
    else (if includes c.id visiting then some (err (cycle c.id)) else elim (parent_of c) [
      | none ↦ some (ok (push c s))
      | some parent_id ↦ elim (get parent_id by_id) [
        | none ↦ some (err (missing_parent c.id parent_id))
        | some parent ↦ elim (visit by_id fuel (c.id ∷ visiting) parent s) [
          | none ↦ none
          | some (err e) ↦ some (err e)
          | some (ok s') ↦ some (ok (push c s'))
        ]
      ]
    ])

unfoldable pub visit_all :
    Dict String CollectionRecord
    → ℕ
    → List CollectionRecord
    → Visits
    → Option (Result HierarchyError Visits)
unfolding visit
visit_all by_id fuel [] s = some (ok s)
visit_all by_id fuel (c ∷ cs) s = elim (visit by_id fuel [] c s) [
  | none ↦ none
  | some (err e) ↦ some (err e)
  | some (ok s') ↦ visit_all by_id fuel cs s'
]

-- `collectionsParentFirst`
unfoldable pub collections_parent_first :
    List CollectionRecord → Option (Result HierarchyError (List CollectionRecord))
unfolding visit_all
collections_parent_first collections =
    elim (visit_all (index_from [] collections) (length collections + 1) collections
      record { visited = []; ordered = [] }) [
        | none ↦ none
        | some (err e) ↦ some (err e)
        | some (ok s) ↦ some (ok s.ordered)
      ]
