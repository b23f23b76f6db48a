-- ===== src/Records/Queries.antt =====
-- records/canonical-notes-repository.ts: the reads that list notes and links.
pub mod Laws
use fortemi_react.Common.{
  ℕ, String, Bool, not, ◌&&◌, ◌||◌, Option, none, List, [], ◌∷◌, ◌++◌, map, filter, take, length,
  leb, if◌then◌else◌, or_else, is_some, ◌==◌, string_eq, includes,
}
use fortemi_react.Common.Dict
use fortemi_react.Common.Dict.{Dict}
use fortemi_react.Common.Sort.{sort}
use fortemi_react.Common.Text.{text_includes}
use mathlib.Core.Option
use Prim.Native.String
use fortemi_react.Records.Types.{NoteRecord, LinkRecord}
use fortemi_react.Records.Tables.{note, note_revised_current, note_tag, link, collection_note}
use fortemi_react.Records.Store
use fortemi_react.Records.Store.{Store}

-- `new Map(entries)`
unfoldable pub entries_to_map {ℓ} : {V : Type ℓ} → Dict String V → List (String × V) → Dict String V
entries_to_map m [] = m
entries_to_map m ((k, v) ∷ es) = entries_to_map (Dict.set k v m) es

-- `n.deleted_at === null`
abbrev pub is_live : NoteRecord → Bool
is_live n = not (is_some n.deleted_at)

-- `b.updated_at.localeCompare(a.updated_at) <= 0`
abbrev pub is_newer : NoteRecord → NoteRecord → Bool
is_newer a b = leb b.updated_at a.updated_at

unfoldable pub list_recent : Option ℕ → Store → List NoteRecord
list_recent limit s =
    take (or_else limit 50) (sort is_newer (filter is_live (Store.list note none s)))

-- The Map from note id to revised content that `searchText` builds.
unfoldable pub revised_map : Store → Dict String (Option String)
revised_map s =
    entries_to_map [] (map (λ r. (r.id, r.content)) (Store.list note_revised_current none s))

-- The loop over the notes, with its `hits`.
unfoldable pub search_loop :
    (NoteRecord → Bool) → ℕ → List NoteRecord → List NoteRecord → List NoteRecord
search_loop hit limit hits [] = hits
search_loop hit limit hits (n ∷ ns) =
    let skipped = search_loop hit limit hits ns in
    let pushed = search_loop hit limit (hits ++ n ∷ []) ns in
    if is_some n.deleted_at
    then skipped
    else if hit n
    then if leb limit (length (hits ++ n ∷ [])) then hits ++ n ∷ [] else pushed
    else skipped

-- `lower` is `String.prototype.toLowerCase`, which goes by the Unicode tables of the engine.
module _ (lower : String → String) where
  unfoldable pub matches : String → Dict String (Option String) → NoteRecord → Bool
  matches needle revised n =
      text_includes
        (lower (
          String.◌++◌ (or_else n.title "")
            (String.◌++◌ "\n" (or_else (Option.bind (Dict.get n.id revised) (λ c. c)) ""))))
        needle

  unfoldable pub search_text : String → Option ℕ → Store → List NoteRecord
  search_text query limit s =
      search_loop (matches (lower query) (revised_map s)) (or_else limit 20) []
        (Store.list note none s)

unfoldable pub notes_by_tag : String → Store → List NoteRecord
notes_by_tag tag s =
    let note_ids = map (λ t. t.note_id) (filter (λ t. t.tag == tag) (Store.list note_tag none s)) in
    filter (λ n. includes n.id note_ids && is_live n) (Store.list note none s)

unfoldable pub links_of : String → Store → List LinkRecord
links_of note_id s =
    filter
      (λ l.
        not (is_some l.deleted_at) && (l.source_note_id == note_id || l.target_note_id == note_id))
      (Store.list link none s)

unfoldable pub notes_in_collection : String → Store → List NoteRecord
notes_in_collection collection_id s =
    let note_ids =
      map (λ cn. cn.note_id)
        (filter (λ cn. cn.collection_id == collection_id) (Store.list collection_note none s)) in
    filter (λ n. includes n.id note_ids && is_live n) (Store.list note none s)
