-- ===== src/Common/Dict.antt =====
-- A JavaScript Map as its entries in insertion order: `set` on a present key keeps the key's place.
use fortemi_react.Common.Equality.{Key, ◌==◌, ==_refl}
use fortemi_react.Common.Tests.{if◌then◌else◌, Bool-cases, is_some}
use fortemi_react.Common.Lists.{All, find}
use mathlib.Core.Path.{◌≡◌, refl, ap, ◌∙◌}
use mathlib.Core.Logic.{inl, inr}
use mathlib.Core.Bool.{Bool, true}
use mathlib.Core.Option.{Option, none, some}
use mathlib.Core.List.{List, [], ◌∷◌, ◌++◌, map, map-append}
use native.Mathlib.Omega.{arith}

abbrev pub Dict {ℓ κ} : Type ℓ → Type κ → Type (ℓ ⊔ κ)
Dict K V = List (K × V)

module _ {ℓ κ} {K : Type ℓ} {V : Type κ} where
  abbrev pub keys : Dict K V → List K
  keys = map (λ e. e.0)

  abbrev pub values : Dict K V → List V
  values = map (λ e. e.1)

module _ {ℓ κ} {K : Type ℓ} {V : Type κ} ⦃e : Key K⦄ where
  unfoldable pub get : K → Dict K V → Option V
  get k [] = none
  get k ((j, v) ∷ m) = if j == k then some v else get k m

  abbrev pub has : K → Dict K V → Bool
  has k m = is_some (get k m)

  unfoldable pub set : K → V → Dict K V → Dict K V
  set k v [] = (k, v) ∷ []
  set k v ((j, w) ∷ m) = if j == k then (j, v) ∷ m else (j, w) ∷ set k v m

  unfoldable pub delete : K → Dict K V → Dict K V
  delete k [] = []
  delete k ((j, w) ∷ m) = if j == k then delete k m else (j, w) ∷ delete k m

  pub get-set :
      (k j : K) (v : V) (m : Dict K V) → get j (set k v m) ≡ (if k == j then some v else get j m)
  unfolding get set
  get-set k j v [] = refl
  get-set k j v ((i, w) ∷ m) =
      ground (arith, e.is_same_iff i k, e.is_same_iff i j, e.is_same_iff k j, get-set k j v m)

  pub get-delete :
      (k j : K) (m : Dict K V) → get j (delete k m) ≡ (if k == j then none else get j m)
  unfolding get delete
  get-delete k j [] = ground arith
  get-delete k j ((i, w) ∷ m) =
      ground (arith, e.is_same_iff i k, e.is_same_iff i j, e.is_same_iff k j, get-delete k j m)

  pub get-set_self : (k : K) (v : V) (m : Dict K V) → get k (set k v m) ≡ some v
  get-set_self k v m = ground (arith, get-set k k v m, ==_refl k)

  pub get-set_at : (k j : K) (v : V) (m : Dict K V) → k ≡ j → get j (set k v m) ≡ some v
  get-set_at k j v m h = ground (arith, get-set k j v m, e.is_same_iff k j)

  pub get-delete_self : (k : K) (m : Dict K V) → get k (delete k m) ≡ none
  get-delete_self k m = ground (arith, get-delete k k m, ==_refl k)

  -- Each key stands once.
  abbrev pub IsKeyed : Dict K V → Type κ
  IsKeyed [] = Unit
  IsKeyed ((k, v) ∷ m) = (get k m ≡ none) × IsKeyed m

  pub set-IsKeyed : (k : K) (v : V) (m : Dict K V) → IsKeyed m → IsKeyed (set k v m)
  unfolding set get
  set-IsKeyed k v [] h = (refl, tt)
  set-IsKeyed k v ((j, w) ∷ m) h = elim (Bool-cases (j == k)) [
    | inl t ↦ rw t h
    | inr t ↦ rw t (
      ground (arith, get-set k j v m, e.is_same_iff j k, e.is_same_iff k j),
      set-IsKeyed k v m h.1,
    )
  ]

  pub delete-IsKeyed : (k : K) (m : Dict K V) → IsKeyed m → IsKeyed (delete k m)
  unfolding delete
  delete-IsKeyed k [] h = tt
  delete-IsKeyed k ((j, w) ∷ m) h = elim (Bool-cases (j == k)) [
    | inl t ↦ rw t (delete-IsKeyed k m h.1)
    | inr t ↦ rw t (ground (arith, get-delete k j m), delete-IsKeyed k m h.1)
  ]

  -- `set` on a new key appends.
  pub set_new : (k : K) (v : V) (m : Dict K V) → get k m ≡ none → set k v m ≡ m ++ (k, v) ∷ []
  unfolding get set
  set_new k v [] h = refl
  set_new k v ((j, w) ∷ m) h = ground (arith, set_new k v m)

  pub values-set_new :
      (k : K) (v : V) (m : Dict K V) → get k m ≡ none → values (set k v m) ≡ values m ++ v ∷ []
  values-set_new k v m h = ap values (set_new k v m h) ∙ map-append (λ e. e.1) m ((k, v) ∷ [])

-- What holds of every entry.
module _ {ℓ κ μ} {K : Type ℓ} {V : Type κ} ⦃e : Key K⦄ (P : V → Type μ) where
  pub All-set : (k : K) (v : V) (m : Dict K V) → P v → All P (values m) → All P (values (set k v m))
  unfolding set
  All-set k v [] p h = (p, tt)
  All-set k v ((j, w) ∷ m) p h = elim (Bool-cases (j == k)) [
    | inl t ↦ rw t (p, h.1)
    | inr t ↦ rw t (h.0, All-set k v m p h.1)
  ]

  pub All-delete : (k : K) (m : Dict K V) → All P (values m) → All P (values (delete k m))
  unfolding delete
  All-delete k [] h = tt
  All-delete k ((j, w) ∷ m) h = elim (Bool-cases (j == k)) [
    | inl t ↦ rw t (All-delete k m h.1)
    | inr t ↦ rw t (h.0, All-delete k m h.1)
  ]

  pub All-get : (k : K) (m : Dict K V) {v : V} → All P (values m) → get k m ≡ some v → P v
  unfolding get
  All-get k [] h q = absurd (cc)
  All-get k ((j, w) ∷ m) {v} h q = elim (Bool-cases (j == k)) [
    | inl t ↦ let same : w ≡ v = ground arith in rw (← same) h.0
    | inr t ↦ All-get k m h.1 (ground arith)
  ]

-- What holds of every entry, keys included.
module _ {ℓ κ μ} {K : Type ℓ} {V : Type κ} ⦃e : Key K⦄ (P : K × V → Type μ) where
  pub All-entries-set :
      (k : K) (v : V) (m : Dict K V) → ((j : K) → j ≡ k → P (j, v)) → All P m → All P (set k v m)
  unfolding set
  All-entries-set k v [] p h = (p k refl, tt)
  All-entries-set k v ((j, w) ∷ m) p h = elim (Bool-cases (j == k)) [
    | inl t ↦ rw t (p j ((e.is_same_iff j k).0 t), h.1)
    | inr t ↦ rw t (h.0, All-entries-set k v m p h.1)
  ]

  pub All-entries-delete : (k : K) (m : Dict K V) → All P m → All P (delete k m)
  unfolding delete
  All-entries-delete k [] h = tt
  All-entries-delete k ((j, w) ∷ m) h = elim (Bool-cases (j == k)) [
    | inl t ↦ rw t (All-entries-delete k m h.1)
    | inr t ↦ rw t (h.0, All-entries-delete k m h.1)
  ]

  pub All-entries-get : (k : K) (m : Dict K V) {v : V} → All P m → get k m ≡ some v → P (k, v)
  unfolding get
  All-entries-get k [] h q = absurd (cc)
  All-entries-get k ((j, w) ∷ m) {v} h q = elim (Bool-cases (j == k)) [
    | inl t ↦
        let same : j ≡ k = (e.is_same_iff j k).0 t in
        let hit : w ≡ v = ground arith in rw (← same, ← hit) h.0
    | inr t ↦ All-entries-get k m h.1 (ground arith)
  ]

-- A Map of records under their own keys.
module _ {ℓ κ} {K : Type ℓ} {V : Type κ} ⦃e : Key K⦄ (key : V → K) where
  pub get_of_find :
      (p : V → Bool) (m : Dict K V) (v : V)
      → IsKeyed m
      → All (λ x. key x.1 ≡ x.0) m
      → find p (values m) ≡ some v
      → get (key v) m ≡ some v
  unfolding get
  get_of_find p [] v u h q = cc
  get_of_find p ((j, w) ∷ m) v u h q = elim (Bool-cases (p w)) [
    | inl t ↦ ground (arith, e.is_same_iff j (key v), h.0)
    | inr f ↦
        let later : get (key v) m ≡ some v = get_of_find p m v u.1 h.1 (ground arith) in
        elim (Bool-cases (j == key v)) [
          | inl same ↦
              let here : j ≡ key v = (e.is_same_iff j (key v)).0 same in
              let gone : get (key v) m ≡ none = rw (← here) u.0 in cc
          | inr other ↦ rw other later
        ]
  ]

-- A search that finds nothing finds a new entry that passes its test.
pub find-set {ℓ κ} :
    {K : Type ℓ} {V : Type κ} ⦃e : Key K⦄ (p : V → Bool) (k : K) (v : V) (m : Dict K V)
    → find p (values m) ≡ none
    → p v ≡ true
    → find p (values (set k v m)) ≡ some v
unfolding set
find-set p k v [] h q = rw q
find-set p k v ((j, w) ∷ m) h q = ground (arith, find-set p k v m)
