-- ===== src/Blobs/Memory.antt =====
-- packages/core/src/blob-store.ts: `MemoryBlobStore`. The hash of bytes is an argument.
use Prim.Native.String
use fortemi_react.Common.{
  ℕ, ◌+◌, ◌≡◌, String, Bool, not, ◌&&◌, Option, none, some, or_else, List, [], ◌∷◌, ◌++◌, filter,
  length, ltb, leb, nat_beq, if◌then◌else◌, string_eq, All,
}
use mathlib.Core.Option
use fortemi_react.Common.Dict
use fortemi_react.Common.Dict.{Dict}
use fortemi_react.Common.Sort.{sort}
use fortemi_react.Common.Text.{text_le}
use fortemi_react.Blobs.{Bytes, BlobReconcileResult, BlobGcResult}

pub record MemoryEntry : Type 0 where
  pub bytes : Bytes
  pub created_at : ℕ
  pub refcount : ℕ

abbrev pub Entries : Type 0
Entries = Dict String MemoryEntry

unfoldable pub read : String → Entries → Option Bytes
read checksum entries = Option.map MemoryEntry.bytes (Dict.get checksum entries)

unfoldable pub has : String → Entries → Bool
has checksum entries = Dict.has checksum entries

unfoldable pub delete : String → Entries → Entries × Bool
delete checksum entries = (Dict.delete checksum entries, Dict.has checksum entries)

-- The map `live` of `reconcile`.
unfoldable pub count_live : List String → Dict String ℕ → Dict String ℕ
count_live [] live = live
count_live (c ∷ cs) live = count_live cs (Dict.set c (or_else (Dict.get c live) 0 + 1) live)

pub record Progress : Type 0 where
  pub entries : Entries
  pub referenced : ℕ
  pub unreferenced : List String
  pub removed : ℕ
  pub bytes_freed : ℕ

-- One round of the loop of `reconcile`. The loop's `entry` is the object that stands in the map, so it is
-- looked up there.
unfoldable pub reconcile_entry : Dict String ℕ → Bool → String → Progress → Progress
reconcile_entry live remove checksum p = elim (Dict.get checksum p.entries) [
  | none ↦ p
  | some entry ↦
      let refcount = or_else (Dict.get checksum live) 0 in
      let entries = Dict.set checksum (record entry { refcount = refcount }) p.entries in
      if ltb 0 refcount
      then record p { entries = entries; referenced = p.referenced + 1 }
      else if remove
      then record p {
        entries = Dict.delete checksum entries;
        unreferenced = p.unreferenced ++ checksum ∷ [];
        removed = p.removed + 1;
        bytes_freed = p.bytes_freed + length entry.bytes;
      }
      else record p { entries = entries; unreferenced = p.unreferenced ++ checksum ∷ [] }
]

unfoldable pub reconcile_entries : Dict String ℕ → Bool → List String → Progress → Progress
unfolding reconcile_entry
reconcile_entries live remove [] p = p
reconcile_entries live remove (c ∷ cs) p =
    reconcile_entries live remove cs (reconcile_entry live remove c p)

-- The text by which `sort` compares an entry of the map.
abbrev pub entry_text : String → String
entry_text checksum = Prim.Native.String.◌++◌ checksum ",[object Object]"

unfoldable pub reconcile : List String → Bool → Entries → Entries × BlobReconcileResult
unfolding count_live reconcile_entries
reconcile live_checksums remove entries =
    let live = count_live live_checksums [] in
    let missing = sort text_le (filter (λ c. not (Dict.has c entries)) (Dict.keys live)) in
    let order = sort (λ c d. text_le (entry_text c) (entry_text d)) (Dict.keys entries) in
    let p = reconcile_entries live remove order (record {
      entries = entries;
      referenced = 0;
      unreferenced = [];
      removed = 0;
      bytes_freed = 0;
    }) in
    (
      p.entries,
      record {
        referenced = p.referenced;
        missing = missing;
        unreferenced = p.unreferenced;
        removed = p.removed;
        bytes_freed = p.bytes_freed;
      },
    )

-- `entry.refcount === 0 && entry.createdAt <= now - minAgeMs`
abbrev pub is_collected : ℕ → ℕ → MemoryEntry → Bool
is_collected now min_age entry = nat_beq entry.refcount 0 && leb (entry.created_at + min_age) now

-- The loop of `gc` over the entries in their order, which deletes the entry that it stands at.
unfoldable pub gc : ℕ → ℕ → Entries → Entries × BlobGcResult
gc now min_age [] = ([], record { collected = 0; bytes_freed = 0 })
gc now min_age ((checksum, entry) ∷ entries) =
    let rest = gc now min_age entries in
    if is_collected now min_age entry
    then (
      rest.0,
      record {
        collected = rest.1.collected + 1;
        bytes_freed = rest.1.bytes_freed + length entry.bytes;
      },
    )
    else ((checksum, entry) ∷ rest.0, rest.1)

module _ (compute_blob_hash : Bytes → String) where
  unfoldable pub put : ℕ → Bytes → Entries → Entries × String
  put now bytes entries =
      let checksum = compute_blob_hash bytes in
      elim (Dict.get checksum entries) [
        | some existing ↦ (
          Dict.set checksum (record existing { refcount = existing.refcount + 1 }) entries,
          checksum,
        )
        | none ↦ (
          Dict.set checksum (record { bytes = bytes; created_at = now; refcount = 1 }) entries,
          checksum,
        )
      ]

  -- Every entry stands once, under the hash of its bytes.
  abbrev pub IsAddressed : Entries → Type 0
  IsAddressed entries =
      Dict.IsKeyed entries × All (λ e. compute_blob_hash (MemoryEntry.bytes e.1) ≡ e.0) entries
