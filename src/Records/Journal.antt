-- ===== src/Records/Journal.antt =====
-- records/types.ts: the mutations of a batch, and the entries of the change journal.
use fortemi_react.Common.{ℕ, String}
use fortemi_react.Records.Tables.{CollectionName, RecordOf, id_of}

pub data Mutation : Type 0 where
  put : (c : CollectionName) → RecordOf c → Mutation
  delete : CollectionName → String → Mutation

-- The `op`, `id` and `record` of a journal entry.
pub data Change : Type 0 where
  put : (c : CollectionName) → String → RecordOf c → Change
  delete : CollectionName → String → Change

pub record JournalEntry : Type 0 where
  pub seq : ℕ
  pub ts : ℕ
  pub change : Change

-- The `entry` that the loop of `applyBatch` builds for a normalised mutation.
abbrev pub change_of : Mutation → Change
change_of (Mutation.put c r) = Change.put c (id_of c r) r
change_of (Mutation.delete c id) = Change.delete c id
