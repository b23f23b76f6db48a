-- ===== src/Graph/Filter.antt =====
-- packages/graph/src/filter.ts: what `filterCommunityGraph` keeps.
use fortemi_react.Common.{
  String, ◌≡◌, refl, ap, ◌∙◌, Bool, true, some, List, [], ◌∷◌, map, filter, ◌==◌, ==_iff, string_eq,
  includes, arith, Bool-cases, inl, inr, All, All-filter,
}
use fortemi_react.Graph.{
  GraphNode, GraphCommunity, CommunityGraph, GraphFilter, visible_ids, trim, filter_community_graph,
}

abbrev pub ids_of : List GraphNode → List String
ids_of = map (λ n. GraphNode.id n)

abbrev pub AreNodes : CommunityGraph → List String → Type 0
AreNodes g = All (λ x. includes x (ids_of g.nodes) ≡ true)

-- Every edge joins two nodes of the graph, and every community has nodes of the graph only.
abbrev pub IsClosed : CommunityGraph → Type 0
IsClosed g =
    All
      (λ e.
        (includes e.source (ids_of g.nodes) ≡ true) × (includes e.target (ids_of g.nodes) ≡ true))
      g.edges
    × All (λ c. AreNodes g c.nodes) g.communities

includes-filter :
    (x : String) (ids : List String) (ns : List GraphNode)
    → includes x (ids_of ns) ≡ true
    → includes x ids ≡ true
    → includes x (ids_of (filter (λ n. includes (GraphNode.id n) ids) ns)) ≡ true
includes-filter x ids [] h k = h
includes-filter x ids (n ∷ ns) h k = elim (Bool-cases (n.id == x)) [
  | inl t ↦
      let kept : includes n.id ids ≡ true = ap (λ i. includes i ids) ((==_iff n.id x).0 t) ∙ k in
      rw kept (rw t refl)
  | inr f ↦
      let rest = includes-filter x ids ns (rw f at h) k in
      elim (Bool-cases (includes n.id ids)) [
        | inl kept ↦ rw kept (rw f rest)
        | inr dropped ↦ rw dropped rest
      ]
]

-- A filter by one test keeps what holds of the elements that pass it.
All-filter_test {ℓ κ μ} :
    {A : Type ℓ} {P : A → Type κ} {Q : A → Type μ} (p : A → Bool)
    → ((x : A) → p x ≡ true → P x → Q x)
    → (xs : List A) → All P xs
    → All Q (filter p xs)
All-filter_test p f [] h = tt
All-filter_test p f (x ∷ xs) h = elim (Bool-cases (p x)) [
  | inl t ↦ rw t (f x t h.0, All-filter_test p f xs h.1)
  | inr t ↦ rw t (All-filter_test p f xs h.1)
]

All-trim :
    (ids : List String) (ns : List GraphNode) (cs : List GraphCommunity)
    → All (λ c. All (λ x. includes x (ids_of ns) ≡ true) c.nodes) cs
    → All
        (λ c.
          All
            (λ x. includes x (ids_of (filter (λ n. includes (GraphNode.id n) ids) ns)) ≡ true)
            c.nodes)
        (map (trim ids) cs)
All-trim ids ns [] h = tt
All-trim ids ns (c ∷ cs) h =
    (All-filter_test _ (λ x t k. includes-filter x ids ns k t) c.nodes h.0, All-trim ids ns cs h.1)

-- A graph whose edges and communities are about its nodes stays such a graph when it is filtered: no
-- edge that is kept has lost an end, and no community that is kept has lost a member that it lists.
pub filter_community_graph-IsClosed :
    (g : CommunityGraph) (f : GraphFilter)
    → IsClosed g
    → IsClosed (filter_community_graph (some g) (some f))
unfolding filter_community_graph
filter_community_graph-IsClosed g f h =
    let ids = visible_ids g f in
    (
      All-filter_test _
          (λ e t k. (
            includes-filter e.source ids g.nodes k.0 (ground arith),
            includes-filter e.target ids g.nodes k.1 (ground arith),
          ))
          g.edges h.0,
      All-filter _ _ _ (All-trim ids g.nodes g.communities h.1),
    )
