-- ===== src/Records/Projection/Tests.antt =====
-- Concrete hierarchies.
use fortemi_react.Common.{
  String, Option, none, some, List, [], ◌∷◌, ◌≡◌, refl, All, includes, true, string_eq,
}
use fortemi_react.Common.Dict.{get, set}
use fortemi_react.Common.Result.{ok, err}
use fortemi_react.Records.Types.{CollectionRecord}
use fortemi_react.Records.Projection.{collections_parent_first, cycle, missing_parent}
use fortemi_react.Records.Projection.Order.{IsParentFirst, ids}
use fortemi_react.Records.Projection.Visit.{Returns, collections_parent_first-IsParentFirst}

abbrev folder : String → Option String → CollectionRecord
folder id parent = record {
  id = id;
  name = id;
  description = none;
  parent_id = some parent;
  created_at = 0;
  updated_at = 0;
  deleted_at = none;
}

child_first :
    collections_parent_first (folder "c" (some "b") ∷ folder "b" (some "a") ∷ folder "a" none ∷ [])
    ≡ some (ok (folder "a" none ∷ folder "b" (some "a") ∷ folder "c" (some "b") ∷ []))
unfolding collections_parent_first get set
child_first = refl

two_folders_cycle :
    collections_parent_first (folder "a" (some "b") ∷ folder "b" (some "a") ∷ [])
    ≡ some (err (cycle "a"))
unfolding collections_parent_first get set
two_folders_cycle = refl

parent_is_missing :
    collections_parent_first (folder "a" (some "z") ∷ []) ≡ some (err (missing_parent "a" "z"))
unfolding collections_parent_first get set
parent_is_missing = refl

abbrev three_folders : List CollectionRecord
three_folders = folder "c" (some "b") ∷ folder "b" (some "a") ∷ folder "a" none ∷ []

collections_parent_first-IsParentFirst_example :
    Returns
      (λ ordered.
        IsParentFirst ordered
        × All (λ c. includes (CollectionRecord.id c) (ids ordered) ≡ true) three_folders)
      (collections_parent_first three_folders)
collections_parent_first-IsParentFirst_example =
    collections_parent_first-IsParentFirst three_folders
