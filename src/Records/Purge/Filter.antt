-- ===== src/Records/Purge/Filter.antt =====
-- Deleting from a Map of records, one by one, all those that pass a test.
use fortemi_react.Common.{
  String, ◌≡◌, refl, ◌∙◌, Bool, false, not, Option, none, some, List, [], ◌∷◌, map, filter, ◌==◌,
  ==_iff, string_eq, includes, arith, if◌then◌else◌, Bool-cases, Option-cases, inl, inr, All,
}
use fortemi_react.Common.Dict
use fortemi_react.Common.Dict.{Dict}

-- An optional value that passes a test.
abbrev pub keep {ℓ} : {A : Type ℓ} → (A → Bool) → Option A → Option A
keep p none = none
keep p (some a) = if p a then some a else none

module _ {ℓ} {V : Type ℓ} where
  unfoldable pub delete_all : List String → Dict String V → Dict String V
  delete_all [] m = m
  delete_all (k ∷ ks) m = delete_all ks (Dict.delete k m)

  pub get-delete_all :
      (ks : List String) (k : String) (m : Dict String V)
      → Dict.get k (delete_all ks m) ≡ (if includes k ks then none else Dict.get k m)
  unfolding delete_all
  get-delete_all [] k m = refl
  get-delete_all (j ∷ ks) k m =
      get-delete_all ks k (Dict.delete j m) ∙ ground (arith, Dict.get-delete j k m)

module _ {ℓ} {V : Type ℓ} (id : V → String) (p : V → Bool) where
  abbrev passing : Dict String V → List String
  passing m = map id (filter p (Dict.values m))

  abbrev IsKeyedById : Dict String V → Type ℓ
  IsKeyedById m = Dict.IsKeyed m × All (λ e. id e.1 ≡ e.0) m

  -- A key that is not there is not among the passing ones.
  includes_absent :
      (k : String) (m : Dict String V)
      → All (λ e. id e.1 ≡ e.0) m
      → Dict.get k m ≡ none
      → includes k (passing m) ≡ false
  unfolding Dict.get
  includes_absent k [] h q = refl
  includes_absent k ((j, v) ∷ m) h q =
      ground (arith, includes_absent k m h.1, ==_iff j k, ==_iff (id v) k, h.0)

  includes_present :
      (k : String) (v : V) (m : Dict String V)
      → IsKeyedById m
      → Dict.get k m ≡ some v
      → includes k (passing m) ≡ p v
  unfolding Dict.get
  includes_present k v [] h q = cc
  includes_present k v ((j, w) ∷ m) h q = elim (Bool-cases (j == k)) [
    | inl t ↦
        let same : j ≡ k = (==_iff j k).0 t in
        let gone : Dict.get k m ≡ none = rw (← same) h.0.0 in
        ground (arith, includes_absent k m h.1.1 gone, ==_iff (id w) k, h.1.0, Bool-cases (p w))
    | inr f ↦
        ground (arith, includes_present k v m (h.0.1, h.1.1), ==_iff (id w) k, h.1.0, ==_iff j k)
  ]

  -- What is left are the records that do not pass.
  pub get-delete_passing :
      (k : String) (m : Dict String V)
      → IsKeyedById m
      → Dict.get k (delete_all (passing m) m) ≡ keep (λ v. not (p v)) (Dict.get k m)
  get-delete_passing k m h = get-delete_all (passing m) k m ∙ elim (Option-cases (Dict.get k m)) [
    | inl e ↦ ground (arith, e)
    | inr (v, e) ↦ ground (arith, e, includes_present k v m h e)
  ]
