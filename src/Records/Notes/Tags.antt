-- ===== src/Records/Notes/Tags.antt =====
-- Tags of notes and members of collections: the rows are unique as the SQL constraint
-- UNIQUE(note_id, tag) has them.
use fortemi_react.Common.{
  ℕ, suc, ◌≤◌, ◌<◌, String, ◌≡◌, refl, subst, find-passes, Bool, true, false, none, some, List, [],
  ◌∷◌, filter, find, length, ==_refl, ==_iff, string_eq, arith, Option-cases, inl, inr, Bool-cases,
}
use fortemi_react.Common.Dict
use fortemi_react.Common.Dict.{Dict}
use fortemi_react.Records.Types.{NoteTagRecord}
use fortemi_react.Records.Tables.{table, note_tag}
use fortemi_react.Records.Store.{Store, store_code}
use fortemi_react.Records.Store.Indexed.{IsIndexed}
use fortemi_react.Records.Notes.{add_tag, remove_tag, is_tag}

-- How many entries of a Map pass a test.
abbrev count {ℓ κ} : {K : Type ℓ} {V : Type κ} → (V → Bool) → Dict K V → ℕ
count p m = length (filter p (Dict.values m))

module _ {ℓ} {V : Type ℓ} (p : V → Bool) where
  count-set-le :
      (k : String) (v : V) (m : Dict String V) → count p (Dict.set k v m) ≤ suc (count p m)
  unfolding Dict.set
  count-set-le k v [] = ground arith
  count-set-le k v ((j, w) ∷ m) = ground (arith, count-set-le k v m)

  count-set_in :
      (k : String) (v : V) (m : Dict String V) → p v ≡ true → 0 < count p (Dict.set k v m)
  unfolding Dict.set
  count-set_in k v [] h = ground arith
  count-set_in k v ((j, w) ∷ m) h = ground (arith, count-set_in k v m h)

  -- A value that does not pass adds nothing.
  count-set_out :
      (k : String) (v : V) (m : Dict String V) → p v ≡ false → count p (Dict.set k v m) ≤ count p m
  unfolding Dict.set
  count-set_out k v [] h = ground arith
  count-set_out k v ((j, w) ∷ m) h = ground (arith, count-set_out k v m h)

  count-delete-le : (k : String) (m : Dict String V) → count p (Dict.delete k m) ≤ count p m
  unfolding Dict.delete
  count-delete-le k [] = ground arith
  count-delete-le k ((j, w) ∷ m) = ground (arith, count-delete-le k m)

  -- The entry under a present key is gone after its deletion.
  count-delete_hit :
      (k : String) (v : V) (m : Dict String V)
      → Dict.get k m ≡ some v
      → p v ≡ true
      → count p (Dict.delete k m) < count p m
  unfolding Dict.delete Dict.get
  count-delete_hit k v [] h q = cc
  count-delete_hit k v ((j, w) ∷ m) h q =
      ground (arith, count-delete_hit k v m, count-delete-le k m)

find-none {ℓ} :
    {A : Type ℓ} (p : A → Bool) (xs : List A) → find p xs ≡ none → length (filter p xs) ≡ 0
find-none p [] h = refl
find-none p (x ∷ xs) h = ground (arith, find-none p xs)

find-some {ℓ} :
    {A : Type ℓ} (p : A → Bool) (xs : List A) (x : A)
    → find p xs ≡ some x
    → 0 < length (filter p xs)
find-some p [] x h = cc
find-some p (y ∷ xs) x h = ground (arith, find-some p xs x)

-- The rows with a note id and a tag.
abbrev pub tag_rows : String → String → Store → ℕ
tag_rows note_id tag s = count (is_tag note_id tag) (table note_tag s.collections)

-- No two rows have the same note id and tag.
abbrev pub HasUniqueTags : Store → Type 0
HasUniqueTags s = (note_id tag : String) → tag_rows note_id tag s ≤ 1

abbrev tag_table : Store → Dict String NoteTagRecord
tag_table s = table note_tag s.collections

-- A new row for a pair that has none leaves the rows unique.
set-UniqueTags :
    (r : NoteTagRecord) (s : Store)
    → HasUniqueTags s
    → tag_rows r.note_id r.tag s ≡ 0
    → (note_id tag : String) → count (is_tag note_id tag) (Dict.set r.id r (tag_table s)) ≤ 1
set-UniqueTags r s h z note_id tag = elim (Bool-cases (is_tag note_id tag r)) [
  | inl t ↦
      let same_note : r.note_id ≡ note_id = (==_iff r.note_id note_id).0 (ground arith) in
      let same_tag : r.tag ≡ tag = (==_iff r.tag tag).0 (ground arith) in
      let none_yet : tag_rows note_id tag s ≡ 0 =
        subst (λ n. tag_rows n tag s ≡ 0) same_note
          (subst (λ g. tag_rows r.note_id g s ≡ 0) same_tag z) in
      omega (arith, none_yet, count-set-le (is_tag note_id tag) r.id r (tag_table s))
  | inr f ↦ omega (arith, h note_id tag, count-set_out (is_tag note_id tag) r.id r (tag_table s) f)
]

-- `remove_tag` takes the row away.
removed-UniqueTags :
    (note_id tag id : String) (r : NoteTagRecord) (s : Store)
    → HasUniqueTags s
    → Dict.get id (tag_table s) ≡ some r
    → is_tag note_id tag r ≡ true
    → count (is_tag note_id tag) (Dict.delete id (tag_table s)) ≡ 0
removed-UniqueTags note_id tag id r s h q t =
    omega (arith, h note_id tag, count-delete_hit (is_tag note_id tag) id r (tag_table s) q t)

module _ (now : ℕ → ℕ) where
  -- `addTag` keeps the rows unique, and afterwards the tag is there exactly once, also when it was
  -- there before or when the generated id is taken.
  pub add_tag-HasUniqueTags :
      (ts : ℕ) (generated note_id tag : String) (s : Store)
      → HasUniqueTags s
      → HasUniqueTags (add_tag now ts generated note_id tag s)
        × (tag_rows note_id tag (add_tag now ts generated note_id tag s) ≡ 1)
  unfolding add_tag store_code
  add_tag-HasUniqueTags ts generated note_id tag s h =
      elim (Option-cases (find (is_tag note_id tag) (Dict.values (tag_table s)))) [
        | inl e ↦
            let r : NoteTagRecord = record {
              id = generated;
              note_id = note_id;
              tag = tag;
              created_at = ts;
            } in
            let unique = set-UniqueTags r s h (find-none (is_tag note_id tag) _ e) in
            let hit : is_tag note_id tag r ≡ true = ground (arith, ==_refl note_id, ==_refl tag) in
            rw (e, add_tag)
              (
                unique,
                omega (
                  arith,
                  unique note_id tag,
                  count-set_in (is_tag note_id tag) generated r (tag_table s) hit,
                ),
              )
        | inr (r, e) ↦
            rw (e, add_tag) (h, omega (arith, h note_id tag, find-some (is_tag note_id tag) _ r e))
      ]

  -- `removeTag` keeps the rows unique, and afterwards no row has the note id and the tag.
  pub remove_tag-HasUniqueTags :
      (note_id tag : String) (s : Store)
      → IsIndexed s.collections
      → HasUniqueTags s
      → HasUniqueTags (remove_tag now note_id tag s)
        × (tag_rows note_id tag (remove_tag now note_id tag s) ≡ 0)
  unfolding remove_tag store_code
  remove_tag-HasUniqueTags note_id tag s i h =
      elim (Option-cases (find (is_tag note_id tag) (Dict.values (tag_table s)))) [
        | inl e ↦ rw (e, remove_tag) (h, find-none (is_tag note_id tag) _ e)
        | inr (r, e) ↦
            rw (e, remove_tag)
              (
                λ n g. omega (arith, h n g, count-delete-le (is_tag n g) r.id (tag_table s)),
                removed-UniqueTags note_id tag r.id r s h
                    (Dict.get_of_find (λ (t : NoteTagRecord). t.id) (is_tag note_id tag)
                      (tag_table s) r (i note_tag).0 (i note_tag).1 e)
                    (find-passes (is_tag note_id tag) (Dict.values (tag_table s)) e),
              )
      ]
