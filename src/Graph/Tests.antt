-- ===== src/Graph/Tests.antt =====
-- A triangle with a pendant node.
use Prim.Native.Nat.{◌%◌}
use fortemi_react.Common.{
  includes, length, arith, String, ◌≡◌, refl, none, some, [], ◌∷◌, All, true, or_else, string_eq,
}
use fortemi_react.Common.Dict
use fortemi_react.Graph.{
  build_adjacency, GraphNode, GraphEdge, CommunityGraph, GraphFilter, filter_community_graph,
  compute_degrees,
}
use fortemi_react.Graph.Expand.{expand_neighborhood}
use fortemi_react.Graph.Expand.Reached.{Within, expand_neighborhood-Within}
use fortemi_react.Graph.Colors.{
  color_at, distance, spelled, color_for_community, community_colors, color_for_community-includes,
}
use fortemi_react.Graph.Filter.{IsClosed, filter_community_graph-IsClosed}
use fortemi_react.Graph.Degrees.{ends_at, compute_degrees-ends_at}

abbrev edge : String → String → GraphEdge
edge a b = record { source = a; target = b; weight = 1; kind = some "link" }

abbrev node : String → GraphNode
node a = record { id = a }

abbrev triangle : CommunityGraph
triangle = record {
  nodes = node "a" ∷ node "b" ∷ node "c" ∷ node "d" ∷ [];
  edges = edge "a" "b" ∷ edge "b" "c" ∷ edge "c" "a" ∷ edge "c" "d" ∷ [];
  communities = record { id = "k"; nodes = "a" ∷ "b" ∷ [] } ∷ [];
}

abbrev without_d : GraphFilter
without_d = record {
  community_ids = none;
  edge_kinds = some ("link" ∷ []);
  node_ids = some ("a" ∷ "c" ∷ "e" ∷ []);
  node_predicate = none;
}

triangle-IsClosed : IsClosed triangle
triangle-IsClosed =
    (((refl, refl), ((refl, refl), ((refl, refl), ((refl, refl), tt)))), ((refl, (refl, tt)), tt))

filter_community_graph-IsClosed_example :
    IsClosed (filter_community_graph (some triangle) (some without_d))
filter_community_graph-IsClosed_example =
    filter_community_graph-IsClosed triangle without_d triangle-IsClosed

compute_degrees-ends_at_example :
    or_else (Dict.get "c" (compute_degrees triangle)) 0 ≡ ends_at "c" triangle.edges
compute_degrees-ends_at_example = compute_degrees-ends_at triangle "c"

expand_neighborhood-Within_example :
    All (Within (build_adjacency triangle) ("d" ∷ []) 2) (
      expand_neighborhood triangle
        ("d" ∷ [])
        (record { depth = some 2; include_seeds = some true }))
expand_neighborhood-Within_example = expand_neighborhood-Within triangle ("d" ∷ []) 2

color_for_community-includes_example :
    (c : String) × (color_for_community (some "k") (some community_colors) none ≡ some c)
    × (color_at community_colors (distance (spelled "k" 0) % length community_colors) ≡ some c)
    × (includes c community_colors ≡ true)
color_for_community-includes_example =
    color_for_community-includes "k" community_colors none refl (omega arith)
