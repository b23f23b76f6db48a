-- ===== src/Migrations/Laws.antt =====
-- packages/core/src/migration-runner.ts: what a second run applies.
use fortemi_react.Common.{
  ℕ, ◌+◌, ◌≡◌, ◌≤◌, inl, inr, refl, sym, ap, subst, ◌∙◌, String, Bool, false, List, [], ◌∷◌, ◌++◌,
  filter, any, ltb, nat_beq, Bool-cases, arith,
}
use fortemi_react.Common.Result.{Result, ok, Result-cases}
use fortemi_react.Common.Sort.{sort, any-sort}
use fortemi_react.Migrations.{
  Migration, Database, max_version, version_le, get_current_version, pending_migrations, apply_one,
  apply_loop, apply,
}

max_version-append :
    (rows : List (ℕ × String)) (v : ℕ) (name : String)
    → (max_version rows ≤ max_version (rows ++ (v, name) ∷ []))
      × (v ≤ max_version (rows ++ (v, name) ∷ []))
max_version-append [] v name = (omega arith, omega arith)
max_version-append ((w, n) ∷ rows) v name =
    let later = max_version-append rows v name in (omega (arith, later.0), omega (arith, later.1))

-- Whether a migration is above a version.
abbrev is_above : ℕ → Migration → Bool
is_above v m = ltb v m.version

any-filter_above :
    (current v : ℕ) (ms : List Migration)
    → current ≤ v
    → any (is_above v) (filter (is_above current) ms) ≡ any (is_above v) ms
any-filter_above current v [] h = refl
any-filter_above current v (m ∷ ms) h = ground (arith, h, any-filter_above current v ms h)

filter-none :
    (v : ℕ) (ms : List Migration) → any (is_above v) ms ≡ false → filter (is_above v) ms ≡ []
filter-none v [] h = refl
filter-none v (m ∷ ms) h = ground (arith, h, filter-none v ms)

module _ {ℓ} {D : Type ℓ} (exec : String → D → Result String D) where
  -- A migration that is applied is at most the current version after it.
  apply_one_lem :
      (m : Migration) (db db' : Database D)
      → apply_one exec m db ≡ ok db'
      → (get_current_version db ≤ get_current_version db') × (m.version ≤ get_current_version db')
  unfolding apply_one get_current_version
  apply_one_lem m db db' h = elim (Result-cases (exec m.sql db.state)) [
    | inr (e, thrown) ↦ absurd (cc (rw (thrown, apply_one) at h))
    | inl (state, done) ↦
        elim (Bool-cases (any (λ row. nat_beq row.0 m.version) db.schema_version)) [
          | inl t ↦ absurd (cc (rw t at (rw (done, apply_one) at h)))
          | inr t ↦
              let grown = max_version-append db.schema_version m.version m.name in
              let rows : db.schema_version ++ (m.version, m.name) ∷ [] ≡ db'.schema_version =
                cc (rw t at (rw (done, apply_one) at h)) in
              rw rows at grown
        ]
  ]

  apply_loop-done :
      (m : Migration) (ms : List Migration) (applied : ℕ) (events : List ℕ) (db db' : Database D)
      → apply_one exec m db ≡ ok db'
      → apply_loop exec (m ∷ ms) applied events db
        ≡ apply_loop exec ms (applied + 1) (events ++ m.version ∷ []) db'
  unfolding apply_loop
  apply_loop-done m ms applied events db db' done = rw (done, apply_loop) refl

  -- The run ends at no lower version, and at one that no migration is above.
  abbrev Covers : List Migration → Database D → Database D → Type 0
  Covers ms db db' =
      (get_current_version db ≤ get_current_version db')
      × (any (is_above (get_current_version db')) ms ≡ false)

  Covers-next :
      (m : Migration) (ms : List Migration) (db db' last : Database D)
      → apply_one exec m db ≡ ok db'
      → Covers ms db' last
      → Covers (m ∷ ms) db last
  Covers-next m ms db db' last done later =
      let here = apply_one_lem m db db' done in
      (omega (arith, here.0, later.0), ground (arith, here.1, later.0, later.1))

  apply_loop-Covers :
      (ms : List Migration) (applied : ℕ) (events : List ℕ) (db : Database D) (n : ℕ)
      → (apply_loop exec ms applied events db).1 ≡ ok n
      → Covers ms db (apply_loop exec ms applied events db).0.0
  unfolding apply_loop
  apply_loop-Covers [] applied events db n h = (omega arith, refl)
  apply_loop-Covers (m ∷ ms) applied events db n h = elim (Result-cases (apply_one exec m db)) [
    | inr (e, thrown) ↦ absurd (cc (rw (thrown, apply_loop) at h))
    | inl (db', done) ↦
        let step = apply_loop-done m ms applied events db db' done in
        subst (λ r. Covers (m ∷ ms) db r.0.0) (sym step)
          (Covers-next m ms db db' _ done (
            apply_loop-Covers ms (applied + 1) (events ++ m.version ∷ []) db' n
              (subst (λ r. r.1 ≡ ok n) step h)))
  ]

  -- After a run that did not throw, a second run of the same migrations changes nothing, emits nothing and
  -- answers 0.
  pub apply_twice :
      (ms : List Migration) (db : Database D) (n : ℕ)
      → (apply exec ms db).1 ≡ ok n
      → apply exec ms (apply exec ms db).0.0 ≡ (((apply exec ms db).0.0, []), ok 0)
  unfolding apply pending_migrations sort
  apply_twice ms db n h =
      let current = get_current_version db in
      let done = apply_loop-Covers (pending_migrations current ms) 0 [] db n h in
      let v = get_current_version (apply exec ms db).0.0 in
      let none_above : any (is_above v) ms ≡ false =
        sym (any-filter_above current v ms done.0)
        ∙ sym (any-sort version_le (is_above v) (filter (is_above current) ms))
        ∙ done.1 in
      ap (λ p. apply_loop exec (sort version_le p) 0 [] (apply exec ms db).0.0)
        (filter-none v ms none_above)
