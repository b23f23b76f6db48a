-- ===== src/Graph/Expand/Reached.antt =====
-- packages/graph/src/neighborhood.ts: what the expansion reaches.
use fortemi_react.Common.{
  ℕ, zero, suc, String, ◌≡◌, Bool, true, false, List, [], ◌∷◌, All, All-append, All-mono,
  if◌then◌else◌, includes, or_else, nat_beq, Bool-cases, inl, inr, string_eq, some, arith, ◌+◌,
  subst, ==_refl, ◌||◌,
}
use fortemi_react.Common.Dict
use fortemi_react.Common.Dict.{Dict}
use fortemi_react.Graph.{CommunityGraph, add, build_adjacency}
use fortemi_react.Graph.Expand.{start, visit, visit_all, hops, expand_neighborhood}

-- A node that at most so many edges lead to, from one of the seeds.
pub data Within (adjacency : Dict String (List String)) (seeds : List String)
    : ℕ → String → Type 0 where
  seed : (n : ℕ) (x : String) → includes x seeds ≡ true → Within adjacency seeds n x
  hop :
      (n : ℕ) (x y : String)
      → Within adjacency seeds n x
      → includes y (or_else (Dict.get x adjacency) []) ≡ true
      → Within adjacency seeds (suc n) y

All-includes : (xs : List String) → All (λ y. includes y xs ≡ true) xs
All-includes [] = tt
All-includes (x ∷ xs) =
    (ground (arith, ==_refl x), All-mono (λ y h. ground arith) xs (All-includes xs))

by_frontier :
    (P : String → Type 0) (next seen further : List String)
    → All P seen
    → All P further
    → All P (elim next [ [] ↦ seen | x ∷ xs ↦ further ])
by_frontier P [] seen further h k = h
by_frontier P (x ∷ xs) seen further h k = k

both {ℓ κ} : {A : Type ℓ} (Q : A → Type κ) (b : Bool) (u v : A) → Q u → Q v → Q (if b then u else v)
both Q true u v h k = h
both Q false u v h k = k

module _ (adjacency : Dict String (List String)) (seeds : List String) where
  later : (n : ℕ) (x : String) → Within adjacency seeds n x → Within adjacency seeds (suc n) x
  later n x (seed k y h) = seed _ y h
  later n x (hop k z y w h) = hop _ z y (later k z w) h

  after : (d n : ℕ) (x : String) → Within adjacency seeds n x → Within adjacency seeds (n + d) x
  after zero n x h = subst (λ m. Within adjacency seeds m x) (omega arith) h
  after (suc d) n x h =
      subst (λ m. Within adjacency seeds m x) (omega arith) (after d (suc n) x (later n x h))

  All-add :
      (n : ℕ) (x : String) (xs : List String)
      → Within adjacency seeds n x
      → All (Within adjacency seeds n) xs
      → All (Within adjacency seeds n) (add x xs)
  All-add n x xs p h = elim (Bool-cases (includes x xs)) [
    | inl t ↦ rw t h
    | inr f ↦ rw f (All-append _ xs (x ∷ []) h (p, tt))
  ]

  start-Within :
      (any_seed : Bool) (n : ℕ) (xs seen : List String)
      → All (Within adjacency seeds n) xs
      → All (Within adjacency seeds n) seen
      → All (Within adjacency seeds n) (start any_seed adjacency xs seen)
  start-Within any_seed n [] seen hx h = h
  start-Within any_seed n (x ∷ xs) seen hx h =
      elim (Bool-cases (Dict.has x adjacency || any_seed)) [
        | inl t ↦ rw t (start-Within any_seed n xs (add x seen) hx.1 (All-add n x seen hx.0 h))
        | inr f ↦ rw f (start-Within any_seed n xs seen hx.1 h)
      ]

  visit-Within :
      (n : ℕ) (xs seen next : List String)
      → All (Within adjacency seeds n) xs
      → All (Within adjacency seeds n) seen
      → All (Within adjacency seeds n) next
      → All (Within adjacency seeds n) (visit xs seen next).0
        × All (Within adjacency seeds n) (visit xs seen next).1
  visit-Within n [] seen next hx hs hn = (hs, hn)
  visit-Within n (x ∷ xs) seen next hx hs hn =
      both (λ p. All (Within adjacency seeds n) p.0 × All (Within adjacency seeds n) p.1)
        (includes x seen) (visit xs seen next) (visit xs (add x seen) (add x next))
        (visit-Within n xs seen next hx.1 hs hn)
        (visit-Within n xs (add x seen) (add x next) hx.1 (All-add n x seen hx.0 hs)
          (All-add n x next hx.0 hn))

  neighbors-Within :
      (n : ℕ) (x : String)
      → Within adjacency seeds n x
      → All (Within adjacency seeds (suc n)) (or_else (Dict.get x adjacency) [])
  neighbors-Within n x w =
      All-mono (λ y h. hop n x y w h) _ (All-includes (or_else (Dict.get x adjacency) []))

  visit_all-Within :
      (n : ℕ) (ids seen next : List String)
      → All (Within adjacency seeds n) ids
      → All (Within adjacency seeds (suc n)) seen
      → All (Within adjacency seeds (suc n)) next
      → All (Within adjacency seeds (suc n)) (visit_all adjacency ids seen next).0
        × All (Within adjacency seeds (suc n)) (visit_all adjacency ids seen next).1
  visit_all-Within n [] seen next hi hs hn = (hs, hn)
  visit_all-Within n (x ∷ ids) seen next hi hs hn =
      let neighbors = or_else (Dict.get x adjacency) [] in
      let (hs', hn') = visit-Within (suc n) neighbors seen next (neighbors-Within n x hi.0) hs hn in
      let (seen', next') = visit neighbors seen next in
      visit_all-Within n ids seen' next' hi.1 hs' hn'

  hops-Within :
      (d n : ℕ) (frontier seen : List String)
      → All (Within adjacency seeds n) frontier
      → All (Within adjacency seeds n) seen
      → All (Within adjacency seeds (n + d)) (hops adjacency d frontier seen)
  hops-Within zero n frontier seen hf hs = All-mono (after 0 n) seen hs
  hops-Within (suc d) n frontier seen hf hs =
      let (hs', hn') = visit_all-Within n frontier seen [] hf (All-mono (later n) seen hs) tt in
      let (seen', next) = visit_all adjacency frontier seen [] in
      let rest : All (Within adjacency seeds (n + suc d)) (hops adjacency d next seen') =
        subst (λ m. All (Within adjacency seeds m) (hops adjacency d next seen')) (omega arith)
          (hops-Within d (suc n) next seen' hn' hs') in
      let stopped : All (Within adjacency seeds (n + suc d)) seen' =
        subst (λ m. All (Within adjacency seeds m) seen') (omega arith)
          (All-mono (after d (suc n)) seen' hs') in
      by_frontier _ next seen' _ stopped rest

-- The expansion of seeds to a depth, with the seeds included, has only ids that are seeds or that a
-- path of adjacent nodes, of at most that many steps, leads to from a seed.
pub expand_neighborhood-Within :
    (g : CommunityGraph) (seeds : List String) (depth : ℕ)
    → All
        (Within (build_adjacency g) seeds depth)
        (expand_neighborhood g seeds (record { depth = some depth; include_seeds = some true }))
unfolding expand_neighborhood
expand_neighborhood-Within g seeds depth =
    let adjacency = build_adjacency g in
    let from = All-mono (λ x h. seed 0 x h) seeds (All-includes seeds) in
    let first_seen = start (nat_beq depth 0) adjacency seeds [] in
    let begun = start-Within adjacency seeds (nat_beq depth 0) 0 seeds [] from tt in
    subst (λ m. All (Within adjacency seeds m) (hops adjacency depth first_seen first_seen))
      (omega arith) (hops-Within adjacency seeds depth 0 first_seen first_seen begun begun)
