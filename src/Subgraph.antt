-- ===== src/Subgraph.antt =====
-- src/services/subgraph.ts: the connected parts of a canvas. `ids` are the keys of its components;
-- `none` is fuel that ran out.
pub mod Walks
pub mod Closed
pub mod Parts
mod Tests
use Prim.Native.Char.{Char, code}
use Prim.Native.String.{◌∷◌}
use Prim.Native.String as Str
use hopper_pi.Prelude.{
  ℕ, zero, suc, String, Bool, true, false, ◌&&◌, ◌||◌, not, Option, none, some, List, [], ◌∷◌, ◌++◌,
  ◌==◌, nat_eq, ltb, length, any, keep_where, is_some, if◌then◌else◌,
}

pub record Wire : Type 0 where
  pub from : String
  pub to : String

pub record SubGraph : Type 0 where
  pub id : String
  pub components : List String
  pub internal_wires : List Wire
  pub external_wires : List Wire

abbrev pub has : List String → String → Bool
has ks k = any (λ x. x == k) ks

prepend : Char → Option String → Option String
prepend c none = none
prepend c (some rest) = some (c ∷ rest)

-- The text before the first dot.
unfoldable pub component_id : String → Option String
unfolding prepend
component_id String.[] = none
component_id (c ∷ rest) = if nat_eq (code c) b'.' then some "" else prepend c (component_id rest)

-- fromId && componentIds.has(fromId)
unfoldable pub is_known : List String → Option String → Bool
is_known ids none = false
is_known ids (some k) = not (k == "") && has ids k

abbrev pub is_internal : List String → Wire → Bool
is_internal ids w = is_known ids (component_id w.from) && is_known ids (component_id w.to)

abbrev pub is_id : String → Option String → Bool
is_id k none = false
is_id k (some j) = j == k

abbrev pub list_of : Option String → List String
list_of none = []
list_of (some k) = k ∷ []

-- The neighbours of a component that a wire adds.
unfoldable pub ends : List String → String → Wire → List String
unfolding is_known
ends ids id w =
    if is_internal ids w
    then (if is_id id (component_id w.from) then list_of (component_id w.to) else [])
      ++ (if is_id id (component_id w.to) then list_of (component_id w.from) else [])
    else []

-- adjacency.get(id), in the order in which the wires add to it; one that is added again is listed again,
-- and its second visit does nothing.
unfoldable pub adjacent : List String → List Wire → String → List String
unfolding ends
adjacent ids [] id = []
adjacent ids (w ∷ wires) id = ends ids id w ++ adjacent ids wires id

pub record Walk : Type 0 where
  pub visited : List String
  pub cluster : List String
  pub queue : List String

unfoldable pub visit : String → Walk → Walk
visit k w = if has w.visited k then w else record {
  visited = w.visited ++ k ∷ [];
  cluster = w.cluster ++ k ∷ [];
  queue = w.queue ++ k ∷ [];
}

unfoldable pub visit_all : List String → Walk → Walk
unfolding visit
visit_all [] w = w
visit_all (k ∷ ks) w = visit_all ks (visit k w)

module _ (neighbours : String → List String) where
  -- while (queue.length > 0): the queue is the list of what is to do, and the walk's own queue what the
  -- step adds to it.
  unfoldable pub walk : ℕ → List String → Walk → Option Walk
  walk fuel [] w = some w
  walk zero (current ∷ queue) w = none
  walk (suc fuel) (current ∷ queue) w =
      let next = visit_all (neighbours current) (record w { queue = queue }) in
      walk fuel next.queue next

  abbrev start : List String → String → Walk
  start visited id = record { visited = visited ++ id ∷ []; cluster = id ∷ []; queue = id ∷ [] }

  unfoldable pub clusters_of : ℕ → List String → List String → Option (List (List String))
  unfolding walk
  clusters_of fuel [] visited = some []
  clusters_of fuel (id ∷ ids) visited = elim (has visited id) [
    | true ↦ clusters_of fuel ids visited
    | false ↦ elim (walk fuel (id ∷ []) (start visited id)) [
      | none ↦ none
      | some w ↦ elim (clusters_of fuel ids w.visited) [
        | none ↦ none
        | some rest ↦ some (w.cluster ∷ rest)
      ]
    ]
  ]

-- clusters.sort((a, b) => b.length - a.length), which is stable.
unfoldable pub insert : List String → List (List String) → List (List String)
insert c [] = c ∷ []
insert c (d ∷ rest) = if ltb (length c) (length d) then d ∷ insert c rest else c ∷ d ∷ rest

unfoldable pub sort : List (List String) → List (List String)
unfolding insert
sort [] = []
sort (c ∷ rest) = insert c (sort rest)

unfoldable pub clusters : List String → List Wire → Option (List (List String))
unfolding adjacent clusters_of
clusters ids wires = clusters_of (adjacent ids wires) (length ids) ids []

unfoldable pub is_in : List String → Option String → Bool
is_in cluster none = false
is_in cluster (some k) = has cluster k

abbrev pub from_in : List String → Wire → Bool
from_in cluster w = is_in cluster (component_id w.from)

abbrev pub to_in : List String → Wire → Bool
to_in cluster w = is_in cluster (component_id w.to)

-- `decimal` is the text of a number.
module _ (decimal : ℕ → String) where
  unfoldable pub sub_graph : List Wire → ℕ → List String → SubGraph
  sub_graph wires index cluster = record {
    id = Str.◌++◌ "subgraph_" (decimal index);
    components = cluster;
    internal_wires = keep_where (λ w. from_in cluster w && to_in cluster w) wires;
    external_wires =
        keep_where
          (λ w.
            not (from_in cluster w && to_in cluster w) && (from_in cluster w || to_in cluster w))
          wires;
  }

  unfoldable pub numbered : List Wire → ℕ → List (List String) → List SubGraph
  unfolding sub_graph
  numbered wires index [] = []
  numbered wires index (c ∷ rest) = sub_graph wires index c ∷ numbered wires (suc index) rest

  -- One part, or none that is more than a component, is not worth telling.
  unfoldable pub sub_graphs_of : List String → List Wire → List (List String) → List SubGraph
  unfolding numbered sort
  sub_graphs_of ids wires found =
      if nat_eq (length found) 1 || nat_eq (length found) (length ids)
      then []
      else numbered wires 0 (sort found)

  unfoldable pub compute_sub_graphs : List String → List Wire → Option (List SubGraph)
  unfolding clusters sub_graphs_of
  compute_sub_graphs [] wires = some []
  compute_sub_graphs (k ∷ ks) wires = elim (clusters (k ∷ ks) wires) [
    | none ↦ none
    | some found ↦ some (sub_graphs_of (k ∷ ks) wires found)
  ]
