-- ===== src/Records/Store/Catchup.antt =====
-- A consumer that has followed the journal up to some sequence number reads the rest of it.
use fortemi_react.Common.{
  ℕ, suc, ◌+◌, ◌≤◌, ◌≡◌, refl, ap, ◌∙◌, List, [], ◌∷◌, ◌++◌, arith, length, filter, filter-append,
  ltb, none, Bool,
}
use fortemi_react.Records.Journal.{Mutation, JournalEntry}
use fortemi_react.Records.Tables.{no_records}
use fortemi_react.Records.Store.{Store, apply_batch, journal_since, head_seq, empty_store}
use fortemi_react.Records.Store.Replay.{
  CountsFrom, Extends, Extends-refl, Extends-trans, IsJournaled, replay, apply_batch-Extends,
  IsJournaled-extend,
}

abbrev after : ℕ → JournalEntry → Bool
after k e = ltb k e.seq

filter-after_none :
    (k n : ℕ) (es : List JournalEntry)
    → CountsFrom n es
    → n + length es ≤ k
    → filter (after k) es ≡ []
filter-after_none k n [] h q = refl
filter-after_none k n (e ∷ es) h q =
    ground (arith, filter-after_none k (suc n) es h.1 (omega arith), h.0)

filter-after_all :
    (k n : ℕ) (es : List JournalEntry) → CountsFrom n es → k ≤ n → filter (after k) es ≡ es
filter-after_all k n [] h q = refl
filter-after_all k n (e ∷ es) h q =
    ground (arith, filter-after_all k (suc n) es h.1 (omega arith), h.0)

-- The entries after the head of an earlier state are those committed since.
pub journal_since-Extends :
    {s t : Store} {es : List JournalEntry}
    → IsJournaled s
    → Extends s t es
    → journal_since (head_seq s) none t ≡ es
unfolding journal_since head_seq
journal_since-Extends {s} {t} {es} h k =
    ap (filter (after s.seq)) k.journal
    ∙ filter-append (after s.seq) s.journal es
    ∙ ap (λ xs. xs ++ filter (after s.seq) es)
        (filter-after_none s.seq 0 s.journal h.counts (omega (arith, h.head)))
    ∙ filter-after_all s.seq s.seq es k.counts (omega arith)

-- The state after some batches, in order.
unfoldable pub run_batches : (ℕ → ℕ) → Store → List (List Mutation) → Store
run_batches now s [] = s
run_batches now s (b ∷ bs) = run_batches now (apply_batch now s b).0 bs

run_batches-Extends :
    (now : ℕ → ℕ) (s : Store) (bs : List (List Mutation))
    → (es : List JournalEntry) × Extends s (run_batches now s bs) es
unfolding run_batches
run_batches-Extends now s [] = ([], Extends-refl s)
run_batches-Extends now s (b ∷ bs) =
    let (es, later) = run_batches-Extends now (apply_batch now s b).0 bs in
    ((apply_batch now s b).1 ++ es, Extends-trans (apply_batch-Extends now s b) later)

run_batches-IsJournaled :
    (now : ℕ → ℕ) (bs : List (List Mutation)) → IsJournaled (run_batches now empty_store bs)
run_batches-IsJournaled now bs =
    let (es, h) = run_batches-Extends now empty_store bs in
    IsJournaled-extend (Extends-refl empty_store) h

-- After any batches of puts and deletes on an empty store, replaying the whole journal on no records
-- gives exactly the collections, the journal's sequence numbers are 1, 2, 3, ..., and the head
-- sequence is the number of entries.
pub run_batches-rebuild :
    (now : ℕ → ℕ) (bs : List (List Mutation))
    → let s = run_batches now empty_store bs in
      (replay s.journal no_records ≡ s.collections)
      × CountsFrom 0 s.journal
      × (length s.journal ≡ head_seq s)
unfolding head_seq
run_batches-rebuild now bs =
    let h = run_batches-IsJournaled now bs in (h.rebuilds, h.counts, omega (arith, h.head))

-- A projection of the collections taken after the batches `bs` is brought up to date after further
-- batches `cs` by replaying only the entries of `journalSince` its head sequence.
pub run_batches-catchup :
    (now : ℕ → ℕ) (bs cs : List (List Mutation))
    → let s = run_batches now empty_store bs in
      let t = run_batches now s cs in
      replay (journal_since (head_seq s) none t) s.collections ≡ t.collections
run_batches-catchup now bs cs =
    let h = run_batches-IsJournaled now bs in
    let (es, k) = run_batches-Extends now (run_batches now empty_store bs) cs in
    ap (λ xs. replay xs (run_batches now empty_store bs).collections) (journal_since-Extends h k)
    ∙ k.rebuilds
