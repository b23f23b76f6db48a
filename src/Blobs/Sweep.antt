-- ===== src/Blobs/Sweep.antt =====
-- packages/core/src/blob-store.ts: what `gc` of `MemoryBlobStore` collects after `reconcile`.
use fortemi_react.Common.{
  ℕ, ◌+◌, ◌≡◌, inl, inr, refl, String, Bool, false, not, ◌||◌, Option, none, some, or_else, List,
  [], ◌∷◌, ltb, leb, if◌then◌else◌, ◌==◌, ==_iff, string_eq, arith, includes, Bool-cases,
  Option-cases,
}
use fortemi_react.Common.Dict
use fortemi_react.Common.Dict.{Dict, set-IsKeyed, delete-IsKeyed, IsKeyed}
use fortemi_react.Common.Sort.{sort}
use fortemi_react.Common.Text.{text_le}
use fortemi_react.Blobs.{Bytes}
use fortemi_react.Blobs.Memory.{
  MemoryEntry, Entries, Progress, read, count_live, reconcile_entry, reconcile_entries, reconcile,
  gc, is_collected, entry_text,
}
use fortemi_react.Blobs.Laws.{count_live_lem, get-reconcile}

abbrev uncollected : ℕ → ℕ → Option MemoryEntry → Option MemoryEntry
uncollected now min_age none = none
uncollected now min_age (some e) = if is_collected now min_age e then none else some e

pub get-gc :
    (now min_age : ℕ) (c : String) (m : Entries)
    → IsKeyed m
    → Dict.get c (gc now min_age m).0 ≡ uncollected now min_age (Dict.get c m)
unfolding gc Dict.get
get-gc now min_age c [] h = refl
get-gc now min_age c ((k, e) ∷ m) h =
    let later = get-gc now min_age c m h.1 in
    elim (Bool-cases (k == c)) [
      | inl t ↦
          let same : k ≡ c = (==_iff k c).0 t in
          let gone : Dict.get c m ≡ none = rw (← same) h.0 in
          elim (Bool-cases (is_collected now min_age e)) [
            | inl d ↦ rw (t, d) (rw gone at later)
            | inr d ↦ rw (t, d) (rw t refl)
          ]
      | inr t ↦ elim (Bool-cases (is_collected now min_age e)) [
        | inl d ↦ rw (t, d) later
        | inr d ↦ rw (t, d) (rw t later)
      ]
    ]

reconcile_entry-IsKeyed :
    (live : Dict String ℕ) (remove : Bool) (k : String) (p : Progress)
    → IsKeyed p.entries
    → IsKeyed (reconcile_entry live remove k p).entries
unfolding reconcile_entry
reconcile_entry-IsKeyed live remove k p h = elim (Option-cases (Dict.get k p.entries)) [
  | inl e ↦ rw (e, reconcile_entry) h
  | inr (entry, e) ↦
      let refcount = or_else (Dict.get k live) 0 in
      let put = set-IsKeyed k (record entry { refcount = refcount }) p.entries h in
      rw (e, reconcile_entry)
        (elim (Bool-cases (ltb 0 refcount)) [
          | inl n ↦ rw n put
          | inr n ↦ rw n (elim (Bool-cases remove) [
            | inl r ↦ rw r (delete-IsKeyed k _ put)
            | inr r ↦ rw r put
          ])
        ])
]

reconcile_entries-IsKeyed :
    (live : Dict String ℕ) (remove : Bool) (ks : List String) (p : Progress)
    → IsKeyed p.entries
    → IsKeyed (reconcile_entries live remove ks p).entries
unfolding reconcile_entries
reconcile_entries-IsKeyed live remove [] p h = h
reconcile_entries-IsKeyed live remove (k ∷ ks) p h =
    reconcile_entries-IsKeyed live remove ks (reconcile_entry live remove k p)
      (reconcile_entry-IsKeyed live remove k p h)

pub reconcile-IsKeyed :
    (live : List String) (remove : Bool) (m : Entries)
    → IsKeyed m
    → IsKeyed (reconcile live remove m).0
unfolding reconcile
reconcile-IsKeyed live remove m h =
    reconcile_entries-IsKeyed (count_live live []) remove
      (sort (λ c d. text_le (entry_text c) (entry_text d)) (Dict.keys m)) _ h

-- Whether the bytes of an entry survive: they are referenced, or too young.
abbrev pub survives : List String → ℕ → ℕ → String → MemoryEntry → Bool
survives live now min_age c e = includes c live || not (leb (e.created_at + min_age) now)

-- A reconciliation with the live checksums and a collection after it leave exactly the bytes that are live or
-- were stored less than the minimum age before; those read as before and every other checksum reads null.
pub gc-reconcile :
    (live : List String) (now min_age : ℕ) (c : String) (m : Entries)
    → IsKeyed m
    → read c (gc now min_age (reconcile live false m).0).0
      ≡ elim (Dict.get c m) as (λ _. Option Bytes) [
        | none ↦ none
        | some e ↦ if survives live now min_age c e then some e.bytes else none
      ]
unfolding read Dict.get
gc-reconcile live now min_age c m h =
    let kept = get-gc now min_age c (reconcile live false m).0 (reconcile-IsKeyed live false m h) in
    let counted = count_live_lem c live [] in
    rw (kept, get-reconcile live false c m)
      (elim (Option-cases (Dict.get c m)) [
        | inl e ↦ rw e refl
        | inr (x, e) ↦ rw e ground (arith, counted)
      ])
