-- ===== src/Graph/Degrees.antt =====
-- packages/graph/src/degree.ts: what `computeDegrees` counts.
use fortemi_react.Common.{
  ℕ, ◌+◌, String, ◌≡◌, refl, ap, ◌∙◌, Bool, true, false, Option, some, List, [], ◌∷◌, or_else, ◌==◌,
  ==_iff, string_eq, if◌then◌else◌, arith, Bool-cases, inl, inr,
}
use fortemi_react.Common.Dict
use fortemi_react.Common.Dict.{Dict, get-set}
use fortemi_react.Graph.{
  GraphNode, GraphEdge, CommunityGraph, count_end, count_edges, zero_degrees, compute_degrees,
}

-- The ends of a list of edges at a node; a loop has two.
abbrev pub ends_at : String → List GraphEdge → ℕ
ends_at id [] = 0
ends_at id (e ∷ es) =
    (if e.source == id then 1 else 0) + ((if e.target == id then 1 else 0) + ends_at id es)

abbrev degree_at : String → Dict String ℕ → ℕ
degree_at id degree = or_else (Dict.get id degree) 0

or_else-if :
    (b : Bool) (n : ℕ) (o : Option ℕ)
    → or_else (if b then some n else o) 0 ≡ (if b then n else or_else o 0)
or_else-if true n o = refl
or_else-if false n o = refl

degree_at-count_end :
    (id k : String) (degree : Dict String ℕ)
    → degree_at k (count_end id degree) ≡ (if id == k then 1 else 0) + degree_at k degree
degree_at-count_end id k degree =
    ap (λ o. or_else o 0) (get-set id k _ degree)
    ∙ or_else-if (id == k) _ _
    ∙ elim (Bool-cases (id == k)) [
      | inl t ↦ rw t (ap (λ i. degree_at i degree + 1) ((==_iff id k).0 t) ∙ omega arith)
      | inr f ↦ rw f (omega arith)
    ]

degree_at-count_edges :
    (k : String) (es : List GraphEdge) (degree : Dict String ℕ)
    → degree_at k (count_edges es degree) ≡ ends_at k es + degree_at k degree
degree_at-count_edges k [] degree = omega arith
degree_at-count_edges k (e ∷ es) degree = omega (
  arith,
  degree_at-count_edges k es (count_end e.target (count_end e.source degree)),
  degree_at-count_end e.target k (count_end e.source degree),
  degree_at-count_end e.source k degree,
)

degree_at-zero_degrees :
    (k : String) (ns : List GraphNode) (degree : Dict String ℕ)
    → degree_at k degree ≡ 0
    → degree_at k (zero_degrees ns degree) ≡ 0
degree_at-zero_degrees k [] degree h = h
degree_at-zero_degrees k (n ∷ ns) degree h = degree_at-zero_degrees k ns (Dict.set n.id 0 degree) (
    ap (λ o. or_else o 0) (get-set n.id k 0 degree)
    ∙ or_else-if (n.id == k) 0 _
    ∙ ground (arith, h))

-- The degree of a node is the number of the ends of edges at it, where an edge from a node to itself
-- has two; nodes without an edge and unknown ids have degree 0.
pub compute_degrees-ends_at :
    (g : CommunityGraph) (id : String)
    → or_else (Dict.get id (compute_degrees g)) 0 ≡ ends_at id g.edges
unfolding compute_degrees Dict.get
compute_degrees-ends_at g id = omega (
  arith,
  degree_at-count_edges id g.edges (zero_degrees g.nodes []),
  degree_at-zero_degrees id g.nodes [] refl,
)
