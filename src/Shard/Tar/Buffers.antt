-- ===== src/Shard/Tar/Buffers.antt =====
-- Uint8Array and text as lists of numbers, read and written at an index.
use fortemi_react.Common.{
  ℕ, zero, suc, ◌+◌, ◌≡◌, ◌<◌, refl, ap, ◌∙◌, Bool, true, false, ◌&&◌, Option, none, some, List, [],
  ◌∷◌, ◌++◌, length, nat_beq, nat_beq_iff, Key, nat_eq, arith, ◌↔◌,
}

abbrev pub Bytes : Type 0
Bytes = List ℕ

abbrev pub Units : Type 0
Units = List ℕ

unfoldable pub units_same : Units → Units → Bool
units_same [] [] = true
units_same (x ∷ xs) (y ∷ ys) = nat_beq x y && units_same xs ys
units_same _ _ = false

pub units_same_iff : (xs ys : Units) → (units_same xs ys ≡ true) ↔ (xs ≡ ys)
unfolding units_same
units_same_iff [] [] = ((λ h. refl), (λ h. refl))
units_same_iff [] (y ∷ ys) = ((λ h. absurd (cc)), (λ h. absurd (cc)))
units_same_iff (x ∷ xs) [] = ((λ h. absurd (cc)), (λ h. absurd (cc)))
units_same_iff (x ∷ xs) (y ∷ ys) =
    let later = units_same_iff xs ys in
    (
      (λ h.
          let one : nat_beq x y ≡ true = ground (arith, h) in
          let two : units_same xs ys ≡ true = ground (arith, h) in
          ap (λ z. z ∷ xs) ((nat_beq_iff x y).0 one) ∙ ap (λ zs. y ∷ zs) (later.0 two)),
      (λ h.
          let one : x ≡ y = cc h in
          let two : xs ≡ ys = cc h in rw ((nat_beq_iff x y).1 one) (later.1 two)),
    )

instance abbrev pub units_eq : Key Units
units_eq = record { is_same = units_same; is_same_iff = units_same_iff }

module _ {ℓ} {A : Type ℓ} where
  -- `xs[i]`
  abbrev pub get_elem? : List A → ℕ → Option A
  get_elem? [] i = none
  get_elem? (x ∷ xs) zero = some x
  get_elem? (x ∷ xs) (suc i) = get_elem? xs i

  -- `xs[i] = v`, which does nothing out of range.
  unfoldable pub set_elem : ℕ → A → List A → List A
  set_elem i v [] = []
  set_elem zero v (x ∷ xs) = v ∷ xs
  set_elem (suc i) v (x ∷ xs) = x ∷ set_elem i v xs

  abbrev pub drop : ℕ → List A → List A
  drop zero xs = xs
  drop (suc n) [] = []
  drop (suc n) (x ∷ xs) = drop n xs

  pub length-set_elem : (i : ℕ) (v : A) (xs : List A) → length (set_elem i v xs) ≡ length xs
  unfolding set_elem
  length-set_elem i v [] = refl
  length-set_elem zero v (x ∷ xs) = refl
  length-set_elem (suc i) v (x ∷ xs) = ap suc (length-set_elem i v xs)

  pub get_elem?-set_elem_ne :
      (i j : ℕ) (v : A) (xs : List A)
      → nat_beq i j ≡ false
      → get_elem? (set_elem i v xs) j ≡ get_elem? xs j
  unfolding set_elem
  get_elem?-set_elem_ne i j v [] h = refl
  get_elem?-set_elem_ne zero zero v (x ∷ xs) h = absurd (cc)
  get_elem?-set_elem_ne zero (suc j) v (x ∷ xs) h = refl
  get_elem?-set_elem_ne (suc i) zero v (x ∷ xs) h = refl
  get_elem?-set_elem_ne (suc i) (suc j) v (x ∷ xs) h =
      get_elem?-set_elem_ne i j v xs (ground (arith, h))

  pub get_elem?-set_elem :
      (i : ℕ) (v : A) (xs : List A) → i < length xs → get_elem? (set_elem i v xs) i ≡ some v
  unfolding set_elem
  get_elem?-set_elem i v [] h = absurd (omega arith)
  get_elem?-set_elem zero v (x ∷ xs) h = refl
  get_elem?-set_elem (suc i) v (x ∷ xs) h = get_elem?-set_elem i v xs (omega arith)

  pub get_elem?-append :
      (xs ys : List A) (i : ℕ) → get_elem? (xs ++ ys) (length xs + i) ≡ get_elem? ys i
  get_elem?-append [] ys i = ap (get_elem? ys) (omega arith)
  get_elem?-append (x ∷ xs) ys i =
      let next : suc (length xs) + i ≡ suc (length xs + i) = omega arith in
      ap (get_elem? (x ∷ (xs ++ ys))) next ∙ get_elem?-append xs ys i

  pub get_elem?-append_left :
      (xs ys : List A) (i : ℕ) → i < length xs → get_elem? (xs ++ ys) i ≡ get_elem? xs i
  get_elem?-append_left [] ys i h = absurd (omega arith)
  get_elem?-append_left (x ∷ xs) ys zero h = refl
  get_elem?-append_left (x ∷ xs) ys (suc i) h = get_elem?-append_left xs ys i (omega arith)

  pub drop-append : (xs ys : List A) → drop (length xs) (xs ++ ys) ≡ ys
  drop-append [] ys = refl
  drop-append (x ∷ xs) ys = drop-append xs ys

unfoldable pub zeros : ℕ → Bytes
zeros zero = []
zeros (suc n) = 0 ∷ zeros n

pub length-zeros : (n : ℕ) → length (zeros n) ≡ n
unfolding zeros
length-zeros zero = refl
length-zeros (suc n) = ap suc (length-zeros n)

pub get_elem?-zeros : (n i : ℕ) → i < n → get_elem? (zeros n) i ≡ some 0
unfolding zeros
get_elem?-zeros zero i h = absurd (omega arith)
get_elem?-zeros (suc n) zero h = refl
get_elem?-zeros (suc n) (suc i) h = get_elem?-zeros n i (omega arith)
