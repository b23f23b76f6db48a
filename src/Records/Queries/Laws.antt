-- ===== src/Records/Queries/Laws.antt =====
-- What the list and search reads return.
use fortemi_react.Common.{
  ℕ, zero, suc, ◌+◌, ◌≤◌, max, String, ◌≡◌, refl, sym, Bool, true, false, ◌&&◌, Option, none, List,
  [], ◌∷◌, ◌++◌, append_assoc, append-nil, filter, take, length, leb, or_else, arith, All, All-mono,
  All-take, filter-All, length-take, length-append, drop, min, leb→le, le→leb,
}
use fortemi_react.Common.Sort.{
  sort, sort-IsSorted, All-sort, IsSorted, take-sort-perm, length-sort, IsSorted-take, IsSorted-cut,
}
use mathlib.Core.List.{Perm}
use fortemi_react.Records.Types.{NoteRecord}
use fortemi_react.Records.Tables.{note}
use fortemi_react.Records.Store
use fortemi_react.Records.Store.{Store}
use fortemi_react.Records.Queries.{
  is_live, is_newer, list_recent, matches, revised_map, search_loop, search_text,
}

-- `updated_at` falls along the list.
abbrev pub IsNewestFirst : List NoteRecord → Type 0
IsNewestFirst [] = Unit
IsNewestFirst (n ∷ ns) = All (λ m. m.updated_at ≤ n.updated_at) ns × IsNewestFirst ns

IsNewestFirst-IsSorted : (ns : List NoteRecord) → IsSorted is_newer ns → IsNewestFirst ns
IsNewestFirst-IsSorted [] h = tt
IsNewestFirst-IsSorted (n ∷ ns) h =
    (All-mono (λ m q. leb→le _ _ q) ns h.0, IsNewestFirst-IsSorted ns h.1)

-- `listRecent` returns notes that are not deleted, the most recently updated first, as many as there are but
-- at most `limit` (50 if it is not given). With the notes it leaves out they are the notes of the store that are
-- not deleted, and none of those it leaves out was updated later than one that it returns.
pub list_recent_lem :
    (limit : Option ℕ) (s : Store)
    → let live = filter is_live (Store.list note none s) in
      All (λ n. n.deleted_at ≡ none) (list_recent limit s)
      × IsNewestFirst (list_recent limit s)
      × (length (list_recent limit s) ≡ min (or_else limit 50) (length live))
      × (left : List NoteRecord) × Perm (list_recent limit s ++ left) live
      × All (λ n. All (λ m. m.updated_at ≤ n.updated_at) left) (list_recent limit s)
unfolding list_recent
list_recent_lem limit s =
    let live = filter is_live (Store.list note none s) in
    let size = or_else limit 50 in
    let sorted = sort is_newer live in
    let in_order =
      sort-IsSorted is_newer (λ a b h. ground arith) (λ a b c h k. ground arith) live in
    (
      All-take _ size _ (
          All-sort is_newer _ _
            (All-mono (λ n h. not_deleted n h) live (filter-All is_live (Store.list note none s)))),
      IsNewestFirst-IsSorted _ (IsSorted-take is_newer size _ in_order),
      omega (arith, length-take size sorted, length-sort is_newer live),
      drop size sorted,
      take-sort-perm is_newer size live,
      All-mono (λ n. All-mono (λ m q. leb→le _ _ q) (drop size sorted)) (take size sorted)
          (IsSorted-cut is_newer size sorted in_order),
    )
  where
    not_deleted : (n : NoteRecord) → is_live n ≡ true → n.deleted_at ≡ none
    not_deleted n h = ground arith

search_loop-take :
    (hit : NoteRecord → Bool) (limit room : ℕ) (hits ns : List NoteRecord)
    → length hits + suc room ≡ max 1 limit
    → search_loop hit limit hits ns ≡ hits ++ take (suc room) (filter (λ n. is_live n && hit n) ns)
unfolding search_loop
search_loop-take hit limit room hits [] q = sym (append-nil hits)
search_loop-take hit limit zero hits (n ∷ ns) q =
    let rest = search_loop-take hit limit zero hits ns q in
    let full : leb limit (length (hits ++ n ∷ [])) ≡ true =
      le→leb _ _ (omega (arith, length-append hits (n ∷ []))) in
    ground (arith, rest, full)
search_loop-take hit limit (suc room) hits (n ∷ ns) q =
    let rest = search_loop-take hit limit (suc room) hits ns q in
    let pushed =
      search_loop-take hit limit room (hits ++ n ∷ []) ns
        (omega (arith, length-append hits (n ∷ []))) in
    let open_ : leb limit (length (hits ++ n ∷ [])) ≡ false =
      ground (arith, length-append hits (n ∷ [])) in
    ground (
      arith,
      rest,
      pushed,
      open_,
      append_assoc hits (n ∷ []) (take (suc room) (filter (λ n. is_live n && hit n) ns)),
    )

search_text-take :
    (hit : NoteRecord → Bool) (limit m : ℕ) (ns : List NoteRecord)
    → m ≡ max 1 limit
    → search_loop hit limit [] ns ≡ take m (filter (λ n. is_live n && hit n) ns)
search_text-take hit limit zero ns q = absurd (omega arith)
search_text-take hit limit (suc k) ns q = search_loop-take hit limit k [] ns (omega arith)

-- `searchText` returns the notes that are not deleted and whose lower-cased title and revised content
-- contain the lower-cased query, in the store's order, cut to the limit (20 if it is not given);
-- but a limit of 0 cuts to one.
pub search_text_lem :
    (lower : String → String) (query : String) (limit : Option ℕ) (s : Store)
    → search_text lower query limit s
      ≡ take (max 1 (or_else limit 20)) (
          filter
            (λ n. is_live n && matches lower (lower query) (revised_map s) n)
            (Store.list note none s))
unfolding search_text
search_text_lem lower query limit s =
    search_text-take (matches lower (lower query) (revised_map s)) (or_else limit 20) _
      (Store.list note none s) refl
