-- ===== src/Blobs.antt =====
-- packages/core/src/blob-store.ts: the interface `BlobStore` of attachment bytes, with what it promises of
-- reading, and its implementation in memory.
pub mod Memory
pub mod Laws
pub mod Sweep
pub mod InMemory
pub mod Tally
mod Tests
use fortemi_react.Common.{
  ℕ, String, Bool, true, false, ◌≡◌, Option, some, List, includes, string_eq,
}

abbrev pub Bytes : Type 0
Bytes = List ℕ

pub record BlobReconcileResult : Type 0 where
  pub referenced : ℕ
  pub missing : List String
  pub unreferenced : List String
  pub removed : ℕ
  pub bytes_freed : ℕ

pub record BlobGcResult : Type 0 where
  pub collected : ℕ
  pub bytes_freed : ℕ

-- The operations over a state S, with the time of the call where it is read, and the laws their callers rely
-- on: bytes that were put are read back, and a collection that follows a reconciliation leaves live bytes.
pub record BlobStore (S : Type 0) : Type 1 where
  pub put : ℕ → Bytes → S → S × String
  pub read : String → S → Option Bytes
  pub has : String → S → Bool
  pub delete : String → S → S × Bool
  pub reconcile : List String → Bool → S → S × BlobReconcileResult
  pub gc : ℕ → ℕ → S → S × BlobGcResult
  pub IsSound : S → Type 0
  pub put_sound : (t : ℕ) (b : Bytes) (s : S) → IsSound s → IsSound (put t b s).0
  pub read_put : (t : ℕ) (b : Bytes) (s : S) → IsSound s → read (put t b s).1 (put t b s).0 ≡ some b
  pub read_gc :
      (live : List String) (t age : ℕ) (c : String) (s : S)
      → IsSound s
      → includes c live ≡ true
      → read c (gc t age (reconcile live false s).0).0 ≡ read c s
