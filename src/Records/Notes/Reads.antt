-- ===== src/Records/Notes/Reads.antt =====
-- What the notes repository reads back after its writes.
use fortemi_react.Common.{
  ℕ, String, ◌≡◌, refl, ap, ◌∙◌, Bool, Option, none, some, List, [], ◌∷◌, ◌++◌, filter,
  filter-append, first, or_else, ◌==◌, ==_refl, string_eq, if◌then◌else◌, false,
}
use mathlib.Core.Option
use fortemi_react.Common.Dict
use fortemi_react.Common.Result.{ok}
use fortemi_react.Records.Types.{NoteRecord, NoteOriginalRecord}
use fortemi_react.Records.Tables.{table, note, note_original}
use fortemi_react.Records.Store
use fortemi_react.Records.Store.{Store, store_code}
use fortemi_react.Records.Store.Indexed.{IsIndexed, id_of-get}
use fortemi_react.Records.Notes.{
  CreateInput, UpdateInput, NoteView, get_note, view_of, original_of, revised_of, tags_of,
  created_note, create, updated_note, edited, edit_content, update, soft_delete, restore,
}

first-append_none {ℓ} :
    {A : Type ℓ} (xs ys : List A) → first xs ≡ none → first (xs ++ ys) ≡ first ys
first-append_none [] ys h = refl
first-append_none (x ∷ xs) ys h = cc

map-eq-none {ℓ κ} :
    {A : Type ℓ} {B : Type κ} (f : A → B) (o : Option A) → Option.map f o ≡ none → o ≡ none
map-eq-none f none h = refl
map-eq-none f (some a) h = cc

-- A view from its four parts.
get_note-eq :
    (note_id : String) (t : Store) (n : NoteRecord) (o r : Option String)
    → Store.get note note_id t ≡ some n
    → original_of note_id t ≡ o
    → revised_of note_id t ≡ r
    → get_note note_id t
      ≡ some (record {
        note = n;
        original_content = or_else o "";
        revised_content = or_else r (or_else o "");
        tags = tags_of note_id t;
      })
unfolding get_note view_of
get_note-eq note_id t n o r hn ho hr = rw (hn, ho, hr) refl

module _ (now : ℕ → ℕ) where
  -- The first original of a note, after a put of a new original for it.
  original_of-put_new :
      (r : NoteOriginalRecord) (s : Store)
      → Store.get note_original r.id s ≡ none
      → original_of r.note_id s ≡ none
      → original_of r.note_id (Store.put now note_original r s).0 ≡ some r.content
  unfolding original_of store_code
  original_of-put_new r s fresh empty =
      ap (λ xs. Option.map (λ o. o.content) (first (filter (λ o. o.note_id == r.note_id) xs)))
        (Dict.values-set_new r.id r _ fresh)
      ∙ ap (λ xs. Option.map (λ o. o.content) (first xs)) (filter-append is_its _ (r ∷ []))
      ∙ ap (Option.map (λ o. o.content)) (
          first-append_none (filter is_its before) (filter is_its (r ∷ [])) (map-eq-none _ _ empty))
      ∙ ap (λ b. Option.map (λ o. o.content) (first (if b then r ∷ [] else []))) (==_refl r.note_id)
    where
      is_its : NoteOriginalRecord → Bool
      is_its o = o.note_id == r.note_id

      before : List NoteOriginalRecord
      before = Dict.values (table note_original s.collections)

  -- `create` for a note that has no original yet, under a new original id: the view that it returns has the
  -- title of the input, its format, source and visibility or the defaults where they are not given, no flag
  -- set, the time of the call as both times and no time of deletion; it has the content both as original and
  -- as revised content, and the tags that the store had for the note.
  pub create-get_note :
      (compute_hash : String → String) (ts : ℕ) (generated original_id : String)
      (input : CreateInput) (s : Store)
      → let note_id = or_else input.id generated in
        Store.get note_original original_id s ≡ none
        → original_of note_id s ≡ none
        → (create now compute_hash ts generated original_id input s).1
          ≡ some (record {
            note = record {
              id = note_id;
              archive_id = none;
              title = input.title;
              format = or_else input.format "markdown";
              source = or_else input.source "user";
              visibility = or_else input.visibility "private";
              revision_mode = "standard";
              is_starred = false;
              is_pinned = false;
              is_archived = false;
              created_at = ts;
              updated_at = ts;
              deleted_at = none;
            };
            original_content = input.content;
            revised_content = input.content;
            tags = tags_of note_id s;
          })
  unfolding create created_note revised_of tags_of original_of store_code Option.bind
  create-get_note compute_hash ts generated original_id input s fresh empty =
      get_note-eq (or_else input.id generated) _ _ (some input.content) (some input.content)
        (Dict.get-set_self _ _ _) (original_of-put_new _ s fresh empty)
        (ap (λ o. Option.bind o (λ r. r.content)) (Dict.get-set_self _ _ _))

  get_note-put :
      (n : NoteRecord) (note_id : String) (s : Store)
      → n.id ≡ note_id
      → get_note note_id (Store.put now note n s).0 ≡ some (view_of note_id s n)
  unfolding get_note view_of revised_of tags_of original_of store_code
  get_note-put n note_id s e =
      ap (Option.map (view_of note_id s)) (Dict.get-set_at n.id note_id n s.collections.notes e)

  view_of-put :
      (m n : NoteRecord) (note_id : String) (s : Store)
      → view_of note_id (Store.put now note m s).0 n ≡ view_of note_id s n
  unfolding view_of revised_of tags_of original_of store_code
  view_of-put m n note_id s = refl

  get-put_note :
      (n : NoteRecord) (note_id : String) (s : Store)
      → n.id ≡ note_id
      → Store.get note note_id (Store.put now note n s).0 ≡ some n
  unfolding store_code
  get-put_note n note_id s e = Dict.get-set_at n.id note_id n s.collections.notes e

  -- Soft deletion and restoring of a note that the store has: both succeed, the deleted note is read
  -- back with nothing but the two timestamps changed, and the restored one with `deleted_at` null
  -- and nothing else changed but `updated_at`.
  pub restore-soft_delete :
      (ts ts' ts'' : ℕ) (note_id : String) (s : Store) (n : NoteRecord)
      → IsIndexed s.collections
      → Store.get note note_id s ≡ some n
      → (t u : Store) × (soft_delete now ts ts' note_id s ≡ ok t)
        × (restore now ts'' note_id t ≡ ok u)
        × (get_note note_id t
            ≡ some (view_of note_id s (record n { deleted_at = some ts; updated_at = ts' })))
        × (get_note note_id u
            ≡ some (view_of note_id s (record n { deleted_at = none; updated_at = ts'' })))
  unfolding soft_delete restore
  restore-soft_delete ts ts' ts'' note_id s n h q =
      let same : n.id ≡ note_id = id_of-get note note_id s h q in
      let deleted : NoteRecord = record n { deleted_at = some ts; updated_at = ts' } in
      let restored : NoteRecord = record n { deleted_at = none; updated_at = ts'' } in
      let t = (Store.put now note deleted s).0 in
      (
        t,
        (Store.put now note restored t).0,
        rw (q, soft_delete),
        rw (get-put_note deleted note_id s same, restore),
        get_note-put deleted note_id s same,
        get_note-put restored note_id t same ∙ ap some (view_of-put deleted restored note_id s),
      )

  edit_content-get_note :
      (ts : ℕ) (note_id : String) (content : Option String) (n : NoteRecord) (s : Store)
      → Store.get note note_id s ≡ some n
      → get_note note_id (edit_content now ts note_id content s)
        ≡ some (record (view_of note_id s n) {
          revised_content = or_else content (view_of note_id s n).revised_content;
        })
  unfolding edit_content edited get_note view_of revised_of tags_of original_of store_code
      Option.bind
  edit_content-get_note ts note_id none n s q = rw q
  edit_content-get_note ts note_id (some content) n s q =
      get_note-eq note_id (edit_content now ts note_id (some content) s) n (original_of note_id s)
        (some content) q refl (ap (λ o. Option.bind o (λ r. r.content)) (Dict.get-set_self _ _ _))

  -- `update` of a note that the store has: it succeeds, and the view that it returns has the title, format,
  -- visibility and flags that are given and the others as they were, the time of the call as the time of the
  -- update, the given content (if any) as revised content, and all else as before.
  pub update-get_note :
      (ts : ℕ) (note_id : String) (input : UpdateInput) (s : Store) (n : NoteRecord)
      → IsIndexed s.collections
      → Store.get note note_id s ≡ some n
      → let after : NoteRecord = record n {
        title = elim input.title [ none ↦ n.title | some title ↦ some title ];
        format = or_else input.format n.format;
        visibility = or_else input.visibility n.visibility;
        is_starred = or_else input.is_starred n.is_starred;
        is_pinned = or_else input.is_pinned n.is_pinned;
        is_archived = or_else input.is_archived n.is_archived;
        updated_at = ts;
      } in
        let v = view_of note_id s n in
        (t : Store) × (update now ts note_id input s
          ≡ ok (
            t,
            some (record v {
              note = after;
              revised_content = or_else input.content v.revised_content;
            }),
          ))
  unfolding update updated_note view_of
  update-get_note ts note_id input s n h q =
      let same : n.id ≡ note_id = id_of-get note note_id s h q in
      let t = (Store.put now note (updated_note ts input n) s).0 in
      (
        edit_content now ts note_id input.content t,
        rw (q, update)
            (ap (λ v. ok (edit_content now ts note_id input.content t, v))
              (edit_content-get_note ts note_id input.content _ t
                  (get-put_note (updated_note ts input n) note_id s same)
                ∙ ap some (
                    ap
                      (λ (v : NoteView).
                        let w : NoteView = record v {
                          revised_content = or_else input.content v.revised_content;
                        } in
                        w)
                      (view_of-put (updated_note ts input n) _ note_id s)))),
      )
