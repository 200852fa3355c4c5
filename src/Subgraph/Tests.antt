-- ===== src/Subgraph/Tests.antt =====
-- Two parts of a canvas, and a wire to a component that is not there.
use hopper_pi.Prelude.{ℕ, String, ◌≡◌, refl, true, some, List, [], ◌∷◌, all, one}
use hopper_pi.Subgraph.{
  Wire, SubGraph, has, clusters, compute_sub_graphs, visit_all, component_id, is_in,
}
use hopper_pi.Subgraph.Closed.{total}
use hopper_pi.Subgraph.Parts.{leads_out, clusters_partition, sub_graphs_lead_out}

abbrev decimal : ℕ → String
decimal n = "0"

abbrev ids : List String
ids = "a" ∷ "b" ∷ "c" ∷ "d" ∷ "e" ∷ []

abbrev wires : List Wire
wires =
    record { from = "a.out"; to = "gone.in" }
    ∷ record { from = "d.out"; to = "c.in" }
    ∷ record { from = "e.out"; to = "d.in" }
    ∷ record { from = "a.out"; to = "b.in" }
    ∷ record { from = "b.out"; to = "slider" }
    ∷ []

clusters_found : clusters ids wires ≡ some (("a" ∷ "b" ∷ []) ∷ ("c" ∷ "d" ∷ "e" ∷ []) ∷ [])
unfolding clusters visit_all component_id
clusters_found = refl

sub_graphs_found :
    compute_sub_graphs decimal ids wires
    ≡ some (
        record {
          id = "subgraph_0";
          components = "c" ∷ "d" ∷ "e" ∷ [];
          internal_wires =
              record { from = "d.out"; to = "c.in" } ∷ record { from = "e.out"; to = "d.in" } ∷ [];
          external_wires = [];
        }
        ∷ record {
          id = "subgraph_0";
          components = "a" ∷ "b" ∷ [];
          internal_wires = record { from = "a.out"; to = "b.in" } ∷ [];
          external_wires =
              record { from = "a.out"; to = "gone.in" }
              ∷ record { from = "b.out"; to = "slider" }
              ∷ [];
        }
        ∷ [])
unfolding compute_sub_graphs visit_all component_id is_in
sub_graphs_found = refl

clusters_partition_example :
    (cs : List (List String)) × (clusters ids wires ≡ some cs)
    × ((k : String) → total k cs ≡ one (has ids k))
clusters_partition_example = clusters_partition ids wires

sub_graphs_lead_out_example :
    (subs : List SubGraph) × (compute_sub_graphs decimal ids wires ≡ some subs)
    × (all (leads_out ids) subs ≡ true)
sub_graphs_lead_out_example = sub_graphs_lead_out decimal ids wires
