-- ===== src/Graph/Expand.antt =====
-- packages/graph/src/neighborhood.ts: the breadth-first expansion, and packages/graph/src/contract.ts: the
-- filter that the renderers share.
pub mod Reached
use fortemi_react.Common.{
  ℕ, zero, suc, String, Bool, true, false, not, ◌||◌, Option, none, some, List, [], ◌∷◌, map,
  filter, length, leb, nat_beq, includes, if◌then◌else◌, or_else, string_eq,
}
use fortemi_react.Common.Dict
use fortemi_react.Common.Dict.{Dict}
use fortemi_react.Graph.{
  GraphNode, CommunityGraph, GraphFilter, add, without, build_adjacency, filter_community_graph,
  compute_degrees,
}

pub record ExpandOptions : Type 0 where
  pub depth : Option ℕ
  pub include_seeds : Option Bool

-- The seeds that the graph has; all of them where the depth is 0.
abbrev pub start : Bool → Dict String (List String) → List String → List String → List String
start any_seed adjacency [] seen = seen
start any_seed adjacency (x ∷ xs) seen =
    let skipped = start any_seed adjacency xs seen in
    let added = start any_seed adjacency xs (add x seen) in
    if Dict.has x adjacency || any_seed then added else skipped

-- The loop over the neighbors of one node, with the ids seen and those of the next frontier.
abbrev pub visit : List String → List String → List String → List String × List String
visit [] seen next = (seen, next)
visit (x ∷ xs) seen next =
    let known = visit xs seen next in
    let fresh = visit xs (add x seen) (add x next) in if includes x seen then known else fresh

abbrev pub visit_all :
    Dict String (List String) → List String → List String → List String → List String × List String
visit_all adjacency [] seen next = (seen, next)
visit_all adjacency (id ∷ ids) seen next =
    let (seen', next') = visit (or_else (Dict.get id adjacency) []) seen next in
    visit_all adjacency ids seen' next'

-- The loop over the hops.
abbrev pub hops : Dict String (List String) → ℕ → List String → List String → List String
hops adjacency zero frontier seen = seen
hops adjacency (suc n) frontier seen =
    let (seen', next) = visit_all adjacency frontier seen [] in
    let further = hops adjacency n next seen' in elim next [ [] ↦ seen' | x ∷ xs ↦ further ]

abbrev pub drop_all : List String → List String → List String
drop_all [] seen = seen
drop_all (x ∷ xs) seen = drop_all xs (without x seen)

unfoldable pub expand_neighborhood : CommunityGraph → List String → ExpandOptions → List String
expand_neighborhood g seeds options =
    let depth = or_else options.depth 1 in
    let adjacency = build_adjacency g in
    let first_seen = start (nat_beq depth 0) adjacency seeds [] in
    let seen = hops adjacency depth first_seen first_seen in
    if or_else options.include_seeds true then seen else drop_all seeds seen

unfoldable pub subgraph_for_nodes : CommunityGraph → List String → CommunityGraph
subgraph_for_nodes g node_ids = filter_community_graph (some g) (
    some (record {
      community_ids = none;
      edge_kinds = none;
      node_ids = some node_ids;
      node_predicate = none;
    }))

unfoldable pub neighborhood_subgraph : CommunityGraph → List String → ExpandOptions → CommunityGraph
unfolding expand_neighborhood subgraph_for_nodes
neighborhood_subgraph g seeds options = subgraph_for_nodes g (expand_neighborhood g seeds options)

pub record GraphControlFilters : Type 0 where
  pub community_ids : Option (List String)
  pub edge_kinds : Option (List String)
  pub node_ids : Option (List String)
  pub min_degree : Option ℕ

abbrev pub visible : GraphControlFilters → GraphFilter
visible f = record {
  community_ids = f.community_ids;
  edge_kinds = f.edge_kinds;
  node_ids = f.node_ids;
  node_predicate = none;
}

unfoldable pub apply_control_filters :
    Option CommunityGraph → Option GraphControlFilters → CommunityGraph
unfolding subgraph_for_nodes
apply_control_filters g filters =
    let base = filter_community_graph g (map_option filters) in
    let min_degree : ℕ = elim filters [ none ↦ 0 | some f ↦ or_else f.min_degree 0 ] in
    let degree = compute_degrees base in
    let keep =
      map (λ n. GraphNode.id n)
        (filter (λ n. leb min_degree (or_else (Dict.get (GraphNode.id n) degree) 0)) base.nodes) in
    if leb min_degree 0
    then base
    else if nat_beq (length keep) (length base.nodes)
    then base
    else subgraph_for_nodes base keep
  where
    map_option : Option GraphControlFilters → Option GraphFilter
    map_option none = none
    map_option (some f) = some (visible f)
