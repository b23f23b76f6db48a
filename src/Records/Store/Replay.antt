-- ===== src/Records/Store/Replay.antt =====
-- Rebuilding the collections of a store from its journal alone.
use fortemi_react.Common.{
  ℕ, suc, ◌+◌, ◌≡◌, refl, sym, ap, ◌∙◌, subst, append-nil, List, [], ◌∷◌, ◌++◌, append_assoc, arith,
  length, length-append, string_eq,
}
use fortemi_react.Common.Dict
use fortemi_react.Records.Tables.{Tables, table, set_table}
use fortemi_react.Records.Journal.{Mutation, Change, JournalEntry, change_of}
use fortemi_react.Records.Store.{
  Store, empty_store, normalize_record_mutation, write, entry_of, stage, apply_batch_loop,
  apply_batch,
}

-- What a consumer of the journal does with one entry.
unfoldable pub replay_change : Change → Tables → Tables
replay_change (Change.put c id r) t = set_table c (Dict.set id r (table c t)) t
replay_change (Change.delete c id) t = set_table c (Dict.delete id (table c t)) t

unfoldable pub replay : List JournalEntry → Tables → Tables
replay [] t = t
replay (e ∷ es) t = replay es (replay_change e.change t)

pub replay-append :
    (es fs : List JournalEntry) (t : Tables) → replay (es ++ fs) t ≡ replay fs (replay es t)
unfolding replay
replay-append [] fs t = refl
replay-append (e ∷ es) fs t = replay-append es fs (replay_change e.change t)

replay_change-change_of : (m : Mutation) (t : Tables) → replay_change (change_of m) t ≡ write m t
unfolding replay_change write
replay_change-change_of (Mutation.put c r) t = refl
replay_change-change_of (Mutation.delete c id) t = refl

-- The sequence numbers are n + 1, n + 2, and so on.
abbrev pub CountsFrom : ℕ → List JournalEntry → Type 0
CountsFrom n [] = Unit
CountsFrom n (e ∷ es) = (e.seq ≡ suc n) × CountsFrom (suc n) es

pub CountsFrom-append :
    (n m : ℕ) (es fs : List JournalEntry)
    → n + length es ≡ m
    → CountsFrom n es
    → CountsFrom m fs
    → CountsFrom n (es ++ fs)
CountsFrom-append n m [] fs q h k = let same : n ≡ m = omega arith in rw same k
CountsFrom-append n m (e ∷ es) fs q h k =
    (h.0, CountsFrom-append (suc n) m es fs (omega arith) h.1 k)

-- `t` comes from `s` by the commits of the entries `es`: they stand at the end of the journal under
-- the next sequence numbers, and replaying them on the collections of `s` gives those of `t`.
pub record Extends (s t : Store) (es : List JournalEntry) : Type 0 where
  pub journal : t.journal ≡ s.journal ++ es
  pub counts : CountsFrom s.seq es
  pub head : s.seq + length es ≡ t.seq
  pub rebuilds : replay es s.collections ≡ t.collections

pub Extends-refl : (s : Store) → Extends s s []
unfolding replay
Extends-refl s = record {
  journal = sym (append-nil s.journal);
  counts = tt;
  head = omega arith;
  rebuilds = refl;
}

pub Extends-trans :
    {s t u : Store} {es fs : List JournalEntry}
    → Extends s t es
    → Extends t u fs
    → Extends s u (es ++ fs)
Extends-trans {s} {t} {u} {es} {fs} h k = record {
  journal = k.journal ∙ ap (λ j. j ++ fs) h.journal ∙ append_assoc s.journal es fs;
  counts = CountsFrom-append s.seq t.seq es fs h.head h.counts k.counts;
  head = omega (arith, length-append es fs, h.head, k.head);
  rebuilds = replay-append es fs s.collections ∙ ap (replay fs) h.rebuilds ∙ k.rebuilds;
}

stage-Extends :
    (now : ℕ → ℕ) (s : Store) (m : Mutation) → Extends s (stage now s m).0 ((stage now s m).1 ∷ [])
unfolding stage entry_of replay
stage-Extends now s m = record {
  journal = refl;
  counts = (refl, tt);
  head = omega arith;
  rebuilds = replay_change-change_of (normalize_record_mutation m) s.collections;
}

apply_batch_loop-Extends :
    (now : ℕ → ℕ) (r s : Store) (es : List JournalEntry) (ms : List Mutation)
    → Extends r s es
    → Extends r (apply_batch_loop now s es ms).0 (apply_batch_loop now s es ms).1
unfolding apply_batch_loop
apply_batch_loop-Extends now r s es [] h = h
apply_batch_loop-Extends now r s es (m ∷ ms) h =
    apply_batch_loop-Extends now r (stage now s m).0 (es ++ (stage now s m).1 ∷ []) ms
      (Extends-trans h (stage-Extends now s m))

-- Every batch extends the store by the entries that it returns.
pub apply_batch-Extends :
    (now : ℕ → ℕ) (s : Store) (ms : List Mutation)
    → Extends s (apply_batch now s ms).0 (apply_batch now s ms).1
unfolding apply_batch
apply_batch-Extends now s [] = Extends-refl s
apply_batch-Extends now s (m ∷ ms) = apply_batch_loop-Extends now s s [] (m ∷ ms) (Extends-refl s)

-- The journal alone rebuilds the store.
abbrev pub IsJournaled : Store → Type 0
IsJournaled s = Extends empty_store s s.journal

pub IsJournaled-extend :
    {s t : Store} {es : List JournalEntry} → IsJournaled s → Extends s t es → IsJournaled t
IsJournaled-extend {t} h k = subst (Extends empty_store t) (sym k.journal) (Extends-trans h k)
