-- ===== src/Graph.antt =====
-- packages/graph/src: the graph model of types.ts, the filter of filter.ts, the degrees of degree.ts and
-- the adjacency and expansion of neighborhood.ts. A Set is the list of its values in the order of
-- insertion. Weights are not read by this code.
pub mod Filter
pub mod Degrees
pub mod Expand
pub mod Colors
mod Tests
use fortemi_react.Common.{
  ℕ, zero, suc, ◌+◌, String, Bool, true, false, not, ◌&&◌, Option, none, some, List, [], ◌∷◌, ◌++◌,
  map, filter, length, ltb, leb, nat_beq, ◌==◌, string_eq, includes, if◌then◌else◌, or_else,
}
use mathlib.Core.Option
use fortemi_react.Common.Dict
use fortemi_react.Common.Dict.{Dict}

pub record GraphNode : Type 0 where
  pub id : String

pub record GraphEdge : Type 0 where
  pub source : String
  pub target : String
  pub weight : ℕ
  pub kind : Option String

pub record GraphCommunity : Type 0 where
  pub id : String
  pub nodes : List String

pub record CommunityGraph : Type 0 where
  pub nodes : List GraphNode
  pub edges : List GraphEdge
  pub communities : List GraphCommunity

pub record GraphFilter : Type 0 where
  pub community_ids : Option (List String)
  pub edge_kinds : Option (List String)
  pub node_ids : Option (List String)
  pub node_predicate : Option (GraphNode → Bool)

-- `Set.prototype.add`
abbrev pub add : String → List String → List String
add x xs = if includes x xs then xs else xs ++ x ∷ []

abbrev pub add_all : List String → List String → List String
add_all [] set = set
add_all (x ∷ xs) set = add_all xs (add x set)

-- `Set.prototype.delete`
abbrev pub without : String → List String → List String
without x = filter (λ y. not (y == x))

-- The ids of the nodes of the communities that are allowed.
abbrev pub community_members : List String → List GraphCommunity → List String → List String
community_members allowed [] set = set
community_members allowed (c ∷ cs) set =
    let rest = community_members allowed cs set in
    let with_members = community_members allowed cs (add_all c.nodes set) in
    if includes c.id allowed then with_members else rest

unfoldable pub candidate_ids : CommunityGraph → GraphFilter → List String
candidate_ids g f = elim (or_else f.community_ids []) [
  | [] ↦ add_all (or_else f.node_ids (map (λ n. GraphNode.id n) g.nodes)) []
  | c ∷ cs ↦ community_members (c ∷ cs) g.communities []
]

-- The loop that deletes the ids whose node fails the predicate.
abbrev pub narrow : (GraphNode → Bool) → List GraphNode → List String → List String
narrow predicate [] ids = ids
narrow predicate (n ∷ ns) ids =
    let kept = narrow predicate ns ids in
    let dropped = narrow predicate ns (without n.id ids) in
    if includes n.id ids && not (predicate n) then dropped else kept

unfoldable pub visible_ids : CommunityGraph → GraphFilter → List String
unfolding candidate_ids
visible_ids g f = elim f.node_predicate [
  | none ↦ candidate_ids g f
  | some predicate ↦ narrow predicate g.nodes (candidate_ids g f)
]

abbrev pub is_kind : Option (List String) → GraphEdge → Bool
is_kind none e = true
is_kind (some kinds) e = includes (or_else e.kind "") kinds

abbrev pub trim : List String → GraphCommunity → GraphCommunity
trim ids c = record c { nodes = filter (λ n. includes n ids) c.nodes }

unfoldable pub filter_community_graph : Option CommunityGraph → Option GraphFilter → CommunityGraph
unfolding visible_ids
filter_community_graph none f = record { nodes = []; edges = []; communities = [] }
filter_community_graph (some g) f =
    let given : GraphFilter = or_else f (record {
      community_ids = none;
      edge_kinds = none;
      node_ids = none;
      node_predicate = none;
    }) in
    let ids = visible_ids g given in
    record {
      nodes = filter (λ n. includes (GraphNode.id n) ids) g.nodes;
      edges =
          filter
            (λ e.
              includes (GraphEdge.source e) ids
              && (includes (GraphEdge.target e) ids && is_kind given.edge_kinds e))
            g.edges;
      communities =
          filter (λ c. ltb 0 (length (GraphCommunity.nodes c))) (map (trim ids) g.communities);
    }

-- `degree.set(id, (degree.get(id) ?? 0) + 1)`
abbrev pub count_end : String → Dict String ℕ → Dict String ℕ
count_end id degree = Dict.set id (or_else (Dict.get id degree) 0 + 1) degree

abbrev pub zero_degrees : List GraphNode → Dict String ℕ → Dict String ℕ
zero_degrees [] degree = degree
zero_degrees (n ∷ ns) degree = zero_degrees ns (Dict.set n.id 0 degree)

abbrev pub count_edges : List GraphEdge → Dict String ℕ → Dict String ℕ
count_edges [] degree = degree
count_edges (e ∷ es) degree = count_edges es (count_end e.target (count_end e.source degree))

unfoldable pub compute_degrees : CommunityGraph → Dict String ℕ
compute_degrees g = count_edges g.edges (zero_degrees g.nodes [])

-- `ensure`
abbrev pub ensure : String → Dict String (List String) → Dict String (List String)
ensure id adjacency = elim (Dict.get id adjacency) [
  | none ↦ Dict.set id [] adjacency
  | some set ↦ adjacency
]

-- `ensure(id).add(neighbor)`
abbrev pub connect : String → String → Dict String (List String) → Dict String (List String)
connect id neighbor adjacency =
    Dict.set id (add neighbor (or_else (Dict.get id adjacency) [])) adjacency

abbrev pub ensure_all : List GraphNode → Dict String (List String) → Dict String (List String)
ensure_all [] adjacency = adjacency
ensure_all (n ∷ ns) adjacency = ensure_all ns (ensure n.id adjacency)

abbrev pub connect_all : List GraphEdge → Dict String (List String) → Dict String (List String)
connect_all [] adjacency = adjacency
connect_all (e ∷ es) adjacency =
    connect_all es (connect e.target e.source (connect e.source e.target adjacency))

unfoldable pub build_adjacency : CommunityGraph → Dict String (List String)
build_adjacency g = connect_all g.edges (ensure_all g.nodes [])

unfoldable pub neighbors_of : CommunityGraph → String → List String
unfolding build_adjacency
neighbors_of g node_id = or_else (Dict.get node_id (build_adjacency g)) []
