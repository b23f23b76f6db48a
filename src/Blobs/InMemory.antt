-- ===== src/Blobs/InMemory.antt =====
-- packages/core/src/blob-store.ts: `MemoryBlobStore` is a `BlobStore`, when no two texts of bytes that are stored
-- have the same hash.
use fortemi_react.Common.{
  ℕ, ◌≡◌, inl, inr, refl, sym, ap, ◌∙◌, String, true, false, some, List, includes, string_eq,
  Option-cases,
}
use mathlib.Core.Option
use fortemi_react.Common.Dict
use fortemi_react.Common.Dict.{get-set_self, set-IsKeyed, All-entries-set, All-entries-get}
use fortemi_react.Blobs.{Bytes, BlobStore}
use fortemi_react.Blobs.Memory.{
  MemoryEntry, Entries, read, has, delete, put, reconcile, gc, IsAddressed,
}
use fortemi_react.Blobs.Sweep.{gc-reconcile}

module _ (compute_blob_hash : Bytes → String) where
  pub put-IsAddressed :
      (t : ℕ) (b : Bytes) (m : Entries)
      → IsAddressed compute_blob_hash m
      → IsAddressed compute_blob_hash (put compute_blob_hash t b m).0
  unfolding put
  put-IsAddressed t b m h =
      let k = compute_blob_hash b in
      elim (Option-cases (Dict.get k m)) [
        | inl e ↦
            rw (e, put)
              (
                set-IsKeyed k _ m h.0,
                All-entries-set (λ e. compute_blob_hash (MemoryEntry.bytes e.1) ≡ e.0) k _ m
                    (λ j q. sym q) h.1,
              )
        | inr (old, e) ↦
            let hashed =
              All-entries-get (λ e. compute_blob_hash (MemoryEntry.bytes e.1) ≡ e.0) k m h.1 e in
            rw (e, put)
              (
                set-IsKeyed k _ m h.0,
                All-entries-set (λ e. compute_blob_hash (MemoryEntry.bytes e.1) ≡ e.0) k _ m
                    (λ j q. hashed ∙ sym q) h.1,
              )
      ]

  module _ (injective : (a b : Bytes) → compute_blob_hash a ≡ compute_blob_hash b → a ≡ b) where
    -- The bytes that were put are read back under the checksum that put returned.
    pub read-put :
        (t : ℕ) (b : Bytes) (m : Entries)
        → IsAddressed compute_blob_hash m
        → read (put compute_blob_hash t b m).1 (put compute_blob_hash t b m).0 ≡ some b
    unfolding read put
    read-put t b m h =
        let k = compute_blob_hash b in
        elim (Option-cases (Dict.get k m)) [
          | inl e ↦ rw (e, put) (ap (Option.map MemoryEntry.bytes) (get-set_self k _ m))
          | inr (old, e) ↦
              let hashed =
                All-entries-get (λ e. compute_blob_hash (MemoryEntry.bytes e.1) ≡ e.0) k m h.1 e in
              rw (e, put)
                (ap (Option.map MemoryEntry.bytes) (get-set_self k _ m)
                  ∙ ap some (injective old.bytes b hashed))
        ]

    pub read-gc :
        (live : List String) (t age : ℕ) (c : String) (m : Entries)
        → IsAddressed compute_blob_hash m
        → includes c live ≡ true
        → read c (gc t age (reconcile live false m).0).0 ≡ read c m
    unfolding read
    read-gc live t age c m h l =
        gc-reconcile live t age c m h.0
        ∙ elim (Option-cases (Dict.get c m)) [ inl e ↦ rw e refl | inr (x, e) ↦ rw e (rw l refl) ]

    abbrev pub memory_blob_store : BlobStore Entries
    memory_blob_store = record {
      put = put compute_blob_hash;
      read = read;
      has = has;
      delete = delete;
      reconcile = reconcile;
      gc = gc;
      IsSound = IsAddressed compute_blob_hash;
      put_sound = put-IsAddressed;
      read_put = read-put;
      read_gc = read-gc;
    }
