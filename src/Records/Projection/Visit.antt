-- ===== src/Records/Projection/Visit.antt =====
-- What a call of `visit` leaves in `collectionsParentFirst`, and what is thrown.
use fortemi_react.Common.{
  ℕ, zero, suc, ◌+◌, ◌<◌, String, true, false, Option, none, some, List, [], ◌∷◌, length, includes,
  ◌==◌, ==_iff, ==_refl, string_eq, All, All-mono, Bool-cases, Option-cases, inl, inr, ◌≡◌, refl,
  ap, arith,
}
use fortemi_react.Common.Result.{Result, ok, err}
use fortemi_react.Common.Dict.{Dict, get}
use fortemi_react.Records.Types.{CollectionRecord}
use fortemi_react.Records.Projection.{
  HierarchyError, Visits, index_from, parent_of, push, visit, visit_all, collections_parent_first,
}
use fortemi_react.Records.Projection.Order.{
  IsParentFirst, ids, IsOrderly, push-IsOrderly, remaining, remaining-lt, remaining-nil, IsIndex,
  index_from-IsIndex, ids-known,
}

-- What holds of a call that is within its fuel, and of its result unless it threw.
abbrev pub Returns {ℓ} : {A : Type ℓ} → (A → Type 0) → Option (Result HierarchyError A) → Type 0
Returns P none = ⊥
Returns P (some (err e)) = Unit
Returns P (some (ok a)) = P a

-- What one call of `visit` leaves: its collection visited, what was visited still so, and what is being
-- visited as it was.
abbrev IsVisited : List String → String → Visits → Visits → Type 0
IsVisited visiting i s s' =
    IsOrderly s'
    × ((includes i s'.visited ≡ true)
        × (((j : String) → includes j s.visited ≡ true → includes j s'.visited ≡ true)
            × ((j : String)
                → includes j visiting ≡ true
                → includes j s.visited ≡ false
                → includes j s'.visited ≡ false)))

push-IsVisited :
    (visiting : List String) (c : CollectionRecord) (s s' : Visits)
    → IsOrderly s'
    → includes c.id visiting ≡ false
    → includes c.id s.visited ≡ false
    → ((p : String) → parent_of c ≡ some p → includes p s'.visited ≡ true)
    → ((j : String) → includes j s.visited ≡ true → includes j s'.visited ≡ true)
    → ((j : String)
        → includes j (c.id ∷ visiting) ≡ true
        → includes j s.visited ≡ false
        → includes j s'.visited ≡ false)
    → IsVisited visiting c.id s (push c s')
push-IsVisited visiting c s s' h u new k later still = (
  push-IsOrderly c s' h (still c.id (ground (arith, ==_refl c.id)) new) k,
  (
    ground (arith, ==_refl c.id),
    (
      λ j e. ground (arith, later j e),
      λ j e f. elim (Bool-cases (c.id == j)) [
        | inl t ↦ absurd (cc (rw ((==_iff c.id j).0 t) at u, e))
        | inr t ↦ rw t (still j (rw t e) f)
      ],
    ),
  ),
)

Returns-then {ℓ κ} :
    {A : Type ℓ} {B : Type κ} {P : A → Type 0} (Q : B → Type 0)
    (r : Option (Result HierarchyError A)) (f : A → Option (Result HierarchyError B))
    → Returns P r
    → ((a : A) → P a → Returns Q (f a))
    → Returns Q (elim r [ none ↦ none | some (err e) ↦ some (err e) | some (ok a) ↦ f a ])
Returns-then Q none f h k = elim h [ ]
Returns-then Q (some (err e)) f h k = tt
Returns-then Q (some (ok a)) f h k = k a h

Returns-mono {ℓ} :
    {A : Type ℓ} {P Q : A → Type 0} (r : Option (Result HierarchyError A))
    → Returns P r
    → ((a : A) → P a → Q a)
    → Returns Q r
Returns-mono none h k = elim h [ ]
Returns-mono (some (err e)) h k = tt
Returns-mono (some (ok a)) h k = k a h

module _ (is : List String) (by_id : Dict String CollectionRecord)
    (indexed : IsIndex is by_id) where
  visit-IsVisited :
      (fuel : ℕ) (visiting : List String) (c : CollectionRecord) (s : Visits)
      → remaining visiting is < fuel
      → includes c.id is ≡ true
      → IsOrderly s
      → Returns (IsVisited visiting c.id s) (visit by_id fuel visiting c s)
  unfolding visit
  visit-IsVisited zero visiting c s r k h = absurd (ground (arith, r))
  visit-IsVisited (suc fuel) visiting c s r k h = elim (Bool-cases (includes c.id s.visited)) [
    | inl t ↦ rw t (h, (t, (λ j e. e, λ j e f. f)))
    | inr t ↦ rw t elim (Bool-cases (includes c.id visiting)) [
      | inl u ↦ rw u tt
      | inr u ↦ rw u elim (Option-cases (parent_of c)) [
        | inl none_parent ↦ rw none_parent (
            push-IsVisited visiting c s s h u t (λ p e. ground (arith, e, none_parent)) (λ j e. e)
              (λ j e f. f))
        | inr (p, has_parent) ↦ rw has_parent elim (Option-cases (get p by_id)) [
          | inl missing ↦ rw missing tt
          | inr (parent, found) ↦ rw found (
              let known = indexed p parent found in
              Returns-then (IsVisited visiting c.id s) (visit by_id fuel (c.id ∷ visiting) parent s)
                (λ s'. some (ok (push c s')))
                (visit-IsVisited fuel (c.id ∷ visiting) parent s
                  (ground (arith, remaining-lt c.id visiting is k u, r)) known.1 h)
                (λ s' v.
                  push-IsVisited visiting c s s' v.0 u t
                    (λ q e. ground (arith, e, has_parent, known.0, v.1.0)) v.1.1.0 v.1.1.1))
        ]
      ]
    ]
  ]

  visit_all-IsVisited :
      (fuel : ℕ) (cs : List CollectionRecord) (s : Visits)
      → length is < fuel
      → All (λ c. includes (CollectionRecord.id c) is ≡ true) cs
      → IsOrderly s
      → Returns
          (λ s'.
            IsOrderly s'
            × (All (λ c. includes (CollectionRecord.id c) s'.visited ≡ true) cs
                × ((j : String) → includes j s.visited ≡ true → includes j s'.visited ≡ true)))
          (visit_all by_id fuel cs s)
  unfolding visit_all
  visit_all-IsVisited fuel [] s r k h = (h, (tt, λ j e. e))
  visit_all-IsVisited fuel (c ∷ cs) s r k h =
      Returns-then _ (visit by_id fuel [] c s) (visit_all by_id fuel cs)
        (visit-IsVisited fuel [] c s (ground (arith, remaining-nil is, r)) k.0 h)
        (λ s' v.
          Returns-mono (visit_all by_id fuel cs s') (visit_all-IsVisited fuel cs s' r k.1 v.0)
            (λ s'' w. (w.0, ((w.1.1 c.id v.1.0, w.1.0), λ j e. w.1.1 j (v.1.1.0 j e)))))

length-map-ids : (cs : List CollectionRecord) → length (ids cs) ≡ length cs
length-map-ids [] = refl
length-map-ids (c ∷ cs) = ap suc (length-map-ids cs)

-- The ordering always ends within its fuel. Unless it throws, every id of a collection is in it, each id is
-- in it once, and each collection stands after its parent.
pub collections_parent_first-IsParentFirst :
    (collections : List CollectionRecord)
    → Returns
        (λ ordered.
          IsParentFirst ordered
          × All (λ c. includes (CollectionRecord.id c) (ids ordered) ≡ true) collections)
        (collections_parent_first collections)
unfolding collections_parent_first get
collections_parent_first-IsParentFirst cs =
    Returns-then _
      (visit_all (index_from [] cs) (length cs + 1) cs record { visited = []; ordered = [] })
      (λ s. some (ok (Visits.ordered s)))
      (visit_all-IsVisited (ids cs) (index_from [] cs)
        (index_from-IsIndex (ids cs) [] cs (λ p q e. absurd (ground (arith, e))) (ids-known cs))
        (length cs + 1) cs record { visited = []; ordered = [] } (ground (arith, length-map-ids cs))
        (ids-known cs) (λ i. refl, IsParentFirst.nothing))
      (λ s h. (h.0.1, All-mono (λ c e. ground (arith, e, h.0.0 c.id)) cs h.1.0))
