-- ===== src/Blobs/Laws.antt =====
-- packages/core/src/blob-store.ts: which bytes `MemoryBlobStore` holds after its operations.
use fortemi_react.Common.{
  ℕ, ◌+◌, ◌≡◌, inl, inr, refl, ◌∙◌, String, Bool, not, ◌&&◌, ◌||◌, Option, none, some, is_some,
  or_else, List, [], ◌∷◌, any, ltb, if◌then◌else◌, ◌==◌, ==_iff, string_eq, arith, includes,
  Bool-cases, Option-cases,
}
use fortemi_react.Common.Dict
use fortemi_react.Common.Dict.{
  Dict, get-set, get-set_self, get-delete, get-delete_self, set-IsKeyed, All-entries-set,
  All-entries-get,
}
use fortemi_react.Common.Sort.{sort, any-sort}
use fortemi_react.Common.Text.{text_le}
use fortemi_react.Blobs.Memory.{
  MemoryEntry, Entries, Progress, count_live, reconcile_entry, reconcile_entries, reconcile,
  entry_text,
}

pub count_live_lem :
    (c : String) (cs : List String) (live : Dict String ℕ)
    → ltb 0 (or_else (Dict.get c (count_live cs live)) 0)
      ≡ (ltb 0 (or_else (Dict.get c live) 0) || includes c cs)
unfolding count_live
count_live_lem c [] live = ground arith
count_live_lem c (d ∷ cs) live = ground (
  arith,
  count_live_lem c cs (Dict.set d (or_else (Dict.get d live) 0 + 1) live),
  get-set d c (or_else (Dict.get d live) 0 + 1) live,
  ==_iff d c,
)

-- What becomes of an entry.
abbrev pub reconciled : Dict String ℕ → Bool → String → Option MemoryEntry → Option MemoryEntry
reconciled live remove c none = none
reconciled live remove c (some entry) =
    let refcount = or_else (Dict.get c live) 0 in
    if not (ltb 0 refcount) && remove then none else some (record entry { refcount = refcount })

reconciled_twice :
    (live : Dict String ℕ) (remove : Bool) (c : String) (o : Option MemoryEntry)
    → reconciled live remove c (reconciled live remove c o) ≡ reconciled live remove c o
reconciled_twice live remove c none = refl
reconciled_twice live remove c (some e) =
    elim (Bool-cases (not (ltb 0 (or_else (Dict.get c live) 0)) && remove)) [
      | inl t ↦ rw t refl
      | inr t ↦ rw t (rw t refl)
    ]

get-reconcile_entry :
    (live : Dict String ℕ) (remove : Bool) (k c : String) (p : Progress)
    → Dict.get c (reconcile_entry live remove k p).entries
      ≡ (if k == c then reconciled live remove c (Dict.get c p.entries) else Dict.get c p.entries)
unfolding reconcile_entry
get-reconcile_entry live remove k c p = elim (Option-cases (Dict.get k p.entries)) [
  | inl e ↦
      rw (e, reconcile_entry)
        (elim (Bool-cases (k == c)) [
          | inl t ↦ let same : k ≡ c = (==_iff k c).0 t in rw (t, ← same, e) refl
          | inr t ↦ rw t refl
        ])
  | inr (entry, e) ↦
      let refcount = or_else (Dict.get k live) 0 in
      let counted : MemoryEntry = record entry { refcount = refcount } in
      let dropped = get-delete k c (Dict.set k counted p.entries) in
      rw (e, reconcile_entry)
        (elim (Bool-cases (k == c)) [
          | inl t ↦
              let same : k ≡ c = (==_iff k c).0 t in
              rw (t, ← same, e)
                (elim (Bool-cases (ltb 0 refcount)) [
                  | inl n ↦ rw n (get-set_self k counted p.entries)
                  | inr n ↦ rw n (elim (Bool-cases remove) [
                    | inl r ↦ rw r (get-delete_self k (Dict.set k counted p.entries))
                    | inr r ↦ rw r (get-set_self k counted p.entries)
                  ])
                ])
          | inr t ↦
              let kept : Dict.get c (Dict.set k counted p.entries) ≡ Dict.get c p.entries =
                rw t at (get-set k c counted p.entries) in
              rw t (elim (Bool-cases (ltb 0 refcount)) [
                | inl n ↦ rw n kept
                | inr n ↦ rw n (elim (Bool-cases remove) [
                  | inl r ↦ rw r ((rw t at dropped) ∙ kept)
                  | inr r ↦ rw r kept
                ])
              ])
        ])
]

get-reconcile_entries :
    (live : Dict String ℕ) (remove : Bool) (ks : List String) (c : String) (p : Progress)
    → Dict.get c (reconcile_entries live remove ks p).entries ≡ (
        if any (λ k. k == c) ks
        then reconciled live remove c (Dict.get c p.entries)
        else Dict.get c p.entries)
unfolding reconcile_entries
get-reconcile_entries live remove [] c p = refl
get-reconcile_entries live remove (k ∷ ks) c p =
    let here = get-reconcile_entry live remove k c p in
    let again = get-reconcile_entries live remove ks c (reconcile_entry live remove k p) in
    elim (Bool-cases (k == c)) [
      | inl t ↦
          let first = rw t at here in
          rw t (
            again
            ∙ rw first (elim (Bool-cases (any (λ k. k == c) ks)) [
              | inl u ↦ rw u (reconciled_twice live remove c (Dict.get c p.entries))
              | inr u ↦ rw u refl
            ]))
      | inr t ↦ rw t (again ∙ rw (rw t at here) refl)
    ]

any-keys : (c : String) (m : Entries) → any (λ k. k == c) (Dict.keys m) ≡ is_some (Dict.get c m)
unfolding Dict.get
any-keys c [] = refl
any-keys c ((k, e) ∷ m) = ground (arith, any-keys c m)

-- A reconciliation gives every entry the number of its live references, and removes those without one if it
-- is to.
pub get-reconcile :
    (live : List String) (remove : Bool) (c : String) (entries : Entries)
    → Dict.get c (reconcile live remove entries).0
      ≡ reconciled (count_live live []) remove c (Dict.get c entries)
unfolding reconcile
get-reconcile live remove c entries =
    let order = λ (c : String) (d : String). text_le (entry_text c) (entry_text d) in
    get-reconcile_entries (count_live live []) remove (sort order (Dict.keys entries)) c _
    ∙ rw (any-sort order (λ k. k == c) (Dict.keys entries), any-keys c entries)
        (elim (Option-cases (Dict.get c entries)) [ inl e ↦ rw e refl | inr (x, e) ↦ rw e refl ])
