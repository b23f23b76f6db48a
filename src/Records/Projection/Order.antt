-- ===== src/Records/Projection/Order.antt =====
-- The lists that `collectionsParentFirst` orders and indexes, and the count that bounds how deep its calls are
-- nested.
use fortemi_react.Common.{
  ℕ, suc, ◌≤◌, ◌<◌, String, true, false, some, List, [], ◌∷◌, ◌++◌, map, length, includes, ◌==◌,
  ==_iff, ==_refl, if◌then◌else◌, string_eq, All, All-mono, Bool-cases, inl, inr, ◌≡◌, refl, subst,
  arith,
}
use fortemi_react.Common.Dict.{Dict, get, set, get-set}
use fortemi_react.Records.Types.{CollectionRecord}
use fortemi_react.Records.Projection.{Visits, index_from, parent_of, push}

abbrev pub ids : List CollectionRecord → List String
ids = map (λ c. CollectionRecord.id c)

-- Built by appending collections that are not in the list yet and whose parent is.
pub data IsParentFirst : List CollectionRecord → Type 0 where
  nothing : IsParentFirst []
  then_child :
      (cs : List CollectionRecord) (c : CollectionRecord)
      → IsParentFirst cs
      → includes c.id (ids cs) ≡ false
      → ((p : String) → parent_of c ≡ some p → includes p (ids cs) ≡ true)
      → IsParentFirst (cs ++ c ∷ [])

abbrev pub IsOrderly : Visits → Type 0
IsOrderly s =
    ((i : String) → includes i s.visited ≡ includes i (ids s.ordered)) × IsParentFirst s.ordered

includes-snoc :
    (i : String) (cs : List CollectionRecord) (c : CollectionRecord)
    → includes i (ids (cs ++ c ∷ [])) ≡ includes i (c.id ∷ ids cs)
includes-snoc i [] c = refl
includes-snoc i (d ∷ cs) c = ground (arith, includes-snoc i cs c)

pub push-IsOrderly :
    (c : CollectionRecord) (s : Visits)
    → IsOrderly s
    → includes c.id s.visited ≡ false
    → ((p : String) → parent_of c ≡ some p → includes p s.visited ≡ true)
    → IsOrderly (push c s)
push-IsOrderly c s (same, first) new h = (
  λ i. ground (arith, includes-snoc i s.ordered c, same i),
  then_child s.ordered c first (ground (arith, new, same c.id))
      (λ p e. ground (arith, h p e, same p)),
)

-- How many of the ids are not being visited.
abbrev pub remaining : List String → List String → ℕ
remaining visiting [] = 0
remaining visiting (i ∷ is) =
    if includes i visiting then remaining visiting is else suc (remaining visiting is)

remaining-le : (x : String) (v is : List String) → remaining (x ∷ v) is ≤ remaining v is
remaining-le x v [] = ground arith
remaining-le x v (i ∷ is) = ground (arith, remaining-le x v is)

pub remaining-lt :
    (x : String) (v is : List String)
    → includes x is ≡ true
    → includes x v ≡ false
    → remaining (x ∷ v) is < remaining v is
remaining-lt x v [] h k = ground arith
remaining-lt x v (i ∷ is) h k = elim (Bool-cases (i == x)) [
  | inl t ↦ (let e = (==_iff i x).0 t in ground (arith, remaining-le x v is, e, ==_refl x))
  | inr t ↦ ground (arith, remaining-lt x v is, h, k, remaining-le x v is)
]

pub remaining-nil : (is : List String) → remaining [] is ≡ length is
remaining-nil [] = refl
remaining-nil (i ∷ is) = ground (arith, remaining-nil is)

abbrev pub IsIndex : List String → Dict String CollectionRecord → Type 0
IsIndex is m =
    (p : String) (q : CollectionRecord) → get p m ≡ some q → (q.id ≡ p) × (includes q.id is ≡ true)

set-IsIndex :
    (is : List String) (m : Dict String CollectionRecord) (c : CollectionRecord)
    → IsIndex is m
    → includes c.id is ≡ true
    → IsIndex is (set c.id c m)
set-IsIndex is m c h k p q e = elim (Bool-cases (c.id == p)) [
  | inl t ↦
      (let same : c ≡ q = ground (arith, get-set c.id p c m, t, e) in
        subst (λ d. (CollectionRecord.id d ≡ p) × (includes (CollectionRecord.id d) is ≡ true)) same
          ((==_iff c.id p).0 t, k))
  | inr t ↦ h p q (ground (arith, get-set c.id p c m, t, e))
]

pub index_from-IsIndex :
    (is : List String) (m : Dict String CollectionRecord) (cs : List CollectionRecord)
    → IsIndex is m
    → All (λ c. includes (CollectionRecord.id c) is ≡ true) cs
    → IsIndex is (index_from m cs)
index_from-IsIndex is m [] h k = h
index_from-IsIndex is m (c ∷ cs) h k =
    index_from-IsIndex is (set c.id c m) cs (set-IsIndex is m c h k.0) k.1

pub ids-known :
    (cs : List CollectionRecord) → All (λ c. includes (CollectionRecord.id c) (ids cs) ≡ true) cs
ids-known [] = tt
ids-known (c ∷ cs) =
    (ground (arith, ==_refl c.id), All-mono (λ d h. ground (arith, h)) cs (ids-known cs))
