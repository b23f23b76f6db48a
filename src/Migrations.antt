-- ===== src/Migrations.antt =====
-- packages/core/src/migration-runner.ts: `MigrationRunner`. The database is its schema_version table with the
-- rest of its state, on which `exec` runs a text of SQL or throws (the SQL of a migration does not touch
-- schema_version); a transaction that throws leaves it as it was.
pub mod Laws
mod Tests
use fortemi_react.Common.{
  ℕ, zero, suc, ◌+◌, String, Bool, true, false, List, [], ◌∷◌, ◌++◌, map, filter, any, max, ltb,
  leb, nat_beq, if◌then◌else◌,
}
use fortemi_react.Common.Result.{Result, ok, err}
use fortemi_react.Common.Sort.{sort}

pub record Migration : Type 0 where
  pub version : ℕ
  pub name : String
  pub sql : String

pub record Database {ℓ} (D : Type ℓ) : Type ℓ where
  pub schema_version : List (ℕ × String)
  pub state : D

-- `SELECT COALESCE(MAX(version), 0)`
abbrev pub max_version : List (ℕ × String) → ℕ
max_version [] = 0
max_version ((v, name) ∷ rows) = max v (max_version rows)

abbrev pub version_le : Migration → Migration → Bool
version_le a b = leb a.version b.version

unfoldable pub pending_migrations : ℕ → List Migration → List Migration
pending_migrations current migrations =
    sort version_le (filter (λ m. ltb current (Migration.version m)) migrations)

module _ {ℓ} {D : Type ℓ} where
  unfoldable pub get_current_version : Database D → ℕ
  get_current_version db = max_version db.schema_version

  -- `ORDER BY version`
  unfoldable pub get_applied_migrations : Database D → List (ℕ × String)
  get_applied_migrations db = sort (λ a b. leb a.0 b.0) db.schema_version

  module _ (exec : String → D → Result String D) where
    -- The transaction of one migration. The version is the primary key of the table.
    unfoldable pub apply_one : Migration → Database D → Result String (Database D)
    apply_one m db = elim (exec m.sql db.state) [
      | err e ↦ err e
      | ok state ↦
          if any (λ row. nat_beq row.0 m.version) db.schema_version
          then err "duplicate key value violates unique constraint"
          else ok (record {
            schema_version = db.schema_version ++ (m.version, m.name) ∷ [];
            state = state;
          })
    ]

    -- The loop, with the versions of the events it emits: the database it leaves, and how many migrations it
    -- applied or what it threw.
    unfoldable pub apply_loop :
        List Migration → ℕ → List ℕ → Database D → (Database D × List ℕ) × Result String ℕ
    unfolding apply_one
    apply_loop [] applied events db = ((db, events), ok applied)
    apply_loop (m ∷ ms) applied events db = elim (apply_one m db) [
      | err e ↦ ((db, events), err e)
      | ok db' ↦ apply_loop ms (applied + 1) (events ++ m.version ∷ []) db'
    ]

    -- `apply`; `ensureSchemaTable` leaves a table that exists as it is.
    unfoldable pub apply : List Migration → Database D → (Database D × List ℕ) × Result String ℕ
    unfolding apply_loop get_current_version
    apply migrations db =
        apply_loop (pending_migrations (get_current_version db) migrations) 0 [] db
