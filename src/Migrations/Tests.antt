-- ===== src/Migrations/Tests.antt =====
-- Two migrations on an empty database, and the theorem on them.
use fortemi_react.Common.{◌≡◌, refl, String, List, [], ◌∷◌}
use fortemi_react.Common.Sort.{sort}
use fortemi_react.Common.Result.{Result, ok}
use fortemi_react.Migrations.{
  Migration, Database, apply, apply_loop, apply_one, pending_migrations, get_current_version,
}
use fortemi_react.Migrations.Laws.{apply_twice}

-- A database that is the list of what ran on it.
abbrev record_sql : String → List String → Result String (List String)
record_sql sql log = ok (sql ∷ log)

abbrev migrations : List Migration
migrations =
    record { version = 2; name = "tags"; sql = "B" }
    ∷ record { version = 1; name = "notes"; sql = "A" }
    ∷ []

abbrev blank : Database (List String)
blank = record { schema_version = []; state = [] }

abbrev migrated : Database (List String)
migrated = record { schema_version = (1, "notes") ∷ (2, "tags") ∷ []; state = "B" ∷ "A" ∷ [] }

apply_in_order : apply record_sql migrations blank ≡ ((migrated, 1 ∷ 2 ∷ []), ok 2)
unfolding apply apply_loop apply_one pending_migrations get_current_version sort
apply_in_order = refl

apply_twice_example : apply record_sql migrations migrated ≡ ((migrated, []), ok 0)
unfolding apply apply_loop apply_one pending_migrations get_current_version sort
apply_twice_example = apply_twice record_sql migrations blank 2 refl
