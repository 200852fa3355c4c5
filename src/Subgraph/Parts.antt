-- ===== src/Subgraph/Parts.antt =====
-- What computeSubGraphs of src/services/subgraph.ts tells of a canvas.
use mathlib.Core.List.{Memᴰ}
use hopper_pi.Prelude.{
  ℕ, suc, String, ◌≡◌, refl, sym, ap, ◌∙◌, inl, inr, Bool, true, false, ◌&&◌, ◌||◌, not, some, List,
  [], ◌∷◌, eq_refl, arith, all, all-append, one, keep_where, Bool-cases, Option-cases,
}
use hopper_pi.Subgraph.{
  Wire, SubGraph, has, component_id, is_known, is_internal, ends, adjacent, insert, sort, clusters,
  is_in, from_in, to_in, sub_graph, numbered, sub_graphs_of, compute_sub_graphs,
}
use hopper_pi.Subgraph.Walks.{has-append}
use hopper_pi.Subgraph.Closed.{total, IsPartition, partitions}

ends-known : (ids : List String) (k : String) (w : Wire) → all (has ids) (ends ids k w) ≡ true
unfolding ends is_known
ends-known ids k w = elim (Option-cases (component_id w.from)) [
  | inl e ↦ ground arith
  | inr (a, e) ↦ elim (Option-cases (component_id w.to)) [
    | inl f ↦ ground arith
    | inr (b, f) ↦ ground arith
  ]
]

ends-symmetric :
    (ids : List String) (j k : String) (w : Wire)
    → has (ends ids j w) k ≡ true
    → has (ends ids k w) j ≡ true
unfolding ends is_known
ends-symmetric ids j k w h = elim (Option-cases (component_id w.from)) [
  | inl e ↦ ground arith
  | inr (a, e) ↦ elim (Option-cases (component_id w.to)) [
    | inl f ↦ ground arith
    | inr (b, f) ↦ ground arith
  ]
]

adjacent-known :
    (ids : List String) (wires : List Wire) (k : String)
    → all (has ids) (adjacent ids wires k) ≡ true
unfolding adjacent
adjacent-known ids [] k = refl
adjacent-known ids (w ∷ wires) k = ground (
  arith,
  all-append (has ids) (ends ids k w) (adjacent ids wires k),
  ends-known ids k w,
  adjacent-known ids wires k,
)

either :
    (a b c d : Bool)
    → (a ≡ true → c ≡ true)
    → (b ≡ true → d ≡ true)
    → (a || b) ≡ true
    → (c || d) ≡ true
either true b c d f g h = ground (arith, f refl)
either false b c d f g h = ground (arith, g h)

adjacent-symmetric :
    (ids : List String) (wires : List Wire) (j k : String)
    → has (adjacent ids wires j) k ≡ true
    → has (adjacent ids wires k) j ≡ true
unfolding adjacent
adjacent-symmetric ids [] j k h = h
adjacent-symmetric ids (w ∷ wires) j k h =
    has-append (ends ids k w) (adjacent ids wires k) j
    ∙ either (has (ends ids j w) k) (has (adjacent ids wires j) k) (has (ends ids k w) j)
        (has (adjacent ids wires k) j) (ends-symmetric ids j k w) (adjacent-symmetric ids wires j k)
        (sym (has-append (ends ids j w) (adjacent ids wires j) k) ∙ h)

ends_meet :
    (ids : List String) (w : Wire) (a b : String)
    → is_internal ids w ≡ true
    → component_id w.from ≡ some a
    → component_id w.to ≡ some b
    → has (ends ids a w) b ≡ true
unfolding ends
ends_meet ids w a b i e f = ground (arith, eq_refl a, eq_refl b)

adjacent-meets :
    (ids : List String) (wires : List Wire) (w : Wire) (a b : String)
    → Memᴰ w wires
    → is_internal ids w ≡ true
    → component_id w.from ≡ some a
    → component_id w.to ≡ some b
    → has (adjacent ids wires a) b ≡ true
unfolding adjacent
adjacent-meets ids [] w a b m i e f = elim m [ ]
adjacent-meets ids (x ∷ wires) w a b (Memᴰ.head q) i e f = ground (
  arith,
  has-append (ends ids a x) (adjacent ids wires a) b,
  ap (λ z. has (ends ids a z) b) q,
  ends_meet ids w a b i e f,
)
adjacent-meets ids (x ∷ wires) w a b (Memᴰ.tail m) i e f = ground (
  arith,
  has-append (ends ids a x) (adjacent ids wires a) b,
  adjacent-meets ids wires w a b m i e f,
)

mem_all :
    (ks ids : List String)
    → ((k : String) → has ks k ≡ true → has ids k ≡ true)
    → all (has ids) ks ≡ true
mem_all [] ids h = refl
mem_all (k ∷ ks) ids h = ground (arith, h k, eq_refl k, mem_all ks ids (λ j m. h j (ground arith)))

module _ (ids : List String) (wires : List Wire) where
  divided :
      (cs : List (List String)) × (clusters ids wires ≡ some cs)
      × IsPartition ids
          (adjacent ids wires)
          (adjacent-known ids wires)
          (adjacent-symmetric ids wires)
          ids
          []
          cs
  unfolding clusters
  divided =
      partitions ids (adjacent ids wires) (adjacent-known ids wires) (adjacent-symmetric ids wires)
        ids [] (mem_all ids ids (λ k h. h)) (λ k. omega arith) (λ x y h n. ground arith)

-- Every canvas is divided: the fuel, one step of a walk for each component, is enough, every component is
-- in exactly one cluster, once, and nothing else is in any.
pub clusters_partition :
    (ids : List String) (wires : List Wire)
    → (cs : List (List String)) × (clusters ids wires ≡ some cs)
      × ((k : String) → total k cs ≡ one (has ids k))
unfolding clusters
clusters_partition ids wires =
    let (cs, e, p) = divided ids wires in
    (cs, e, λ k. ground (arith, p.covers k, p.once k, p.known k))

-- A cluster has both ends of a wire, or neither, where both are components.
abbrev parts_no_wire : List String → List String → Wire → Bool
parts_no_wire ids c w =
    not (is_internal ids w) || (from_in c w && to_in c w) || not (from_in c w || to_in c w)

closed_parts_none :
    (ids : List String) (wires : List Wire) (c : List String) (w : Wire)
    → ((x y : String) → has c x ≡ true → has (adjacent ids wires x) y ≡ true → has c y ≡ true)
    → Memᴰ w wires
    → parts_no_wire ids c w ≡ true
unfolding is_in is_known
closed_parts_none ids wires c w h m = elim (Option-cases (component_id w.from)) [
  | inl e ↦ ground arith
  | inr (a, e) ↦ elim (Option-cases (component_id w.to)) [
    | inl f ↦ ground arith
    | inr (b, f) ↦ elim (Bool-cases (is_internal ids w)) [
      | inr i ↦ ground arith
      | inl i ↦
          let n = adjacent-meets ids wires w a b m i e f in
          ground (arith, n, adjacent-symmetric ids wires a b n, h a b, h b a)
    ]
  ]
]

all_of_mem :
    {A : Type 0} (p : A → Bool) (xs : List A) → ((x : A) → Memᴰ x xs → p x ≡ true) → all p xs ≡ true
all_of_mem p [] h = refl
all_of_mem p (x ∷ xs) h =
    ground (arith, h x (Memᴰ.head refl), all_of_mem p xs (λ y m. h y (Memᴰ.tail m)))

all-insert :
    (p : List String → Bool) (c : List String) (cs : List (List String))
    → all p (insert c cs) ≡ (p c && all p cs)
unfolding insert
all-insert p c [] = refl
all-insert p c (d ∷ cs) = ground (arith, all-insert p c cs)

all-sort : (p : List String → Bool) (cs : List (List String)) → all p (sort cs) ≡ all p cs
unfolding sort
all-sort p [] = refl
all-sort p (c ∷ cs) = ground (arith, all-insert p c (sort cs), all-sort p cs)

-- The external wires of a subgraph have an end that is no component.
abbrev pub leads_out : List String → SubGraph → Bool
leads_out ids s = all (λ w. not (is_internal ids w)) s.external_wires

external_leads_out :
    (ids c : List String) (wires : List Wire)
    → all (parts_no_wire ids c) wires ≡ true
    → all
        (λ w. not (is_internal ids w))
        (keep_where (λ w. not (from_in c w && to_in c w) && (from_in c w || to_in c w)) wires)
      ≡ true
external_leads_out ids c [] h = refl
external_leads_out ids c (w ∷ wires) h = ground (arith, external_leads_out ids c wires)

numbered_lead_out :
    (decimal : ℕ → String) (ids : List String) (wires : List Wire) (n : ℕ) (cs : List (List String))
    → all (λ c. all (parts_no_wire ids c) wires) cs ≡ true
    → all (leads_out ids) (numbered decimal wires n cs) ≡ true
unfolding numbered sub_graph
numbered_lead_out decimal ids wires n [] h = refl
numbered_lead_out decimal ids wires n (c ∷ cs) h =
    ground (arith, external_leads_out ids c wires, numbered_lead_out decimal ids wires (suc n) cs)

-- computeSubGraphs always ends, and no wire between two components of the canvas is an external wire of any
-- subgraph: an end of each external wire is no component.
pub sub_graphs_lead_out :
    (decimal : ℕ → String) (ids : List String) (wires : List Wire)
    → (subs : List SubGraph) × (compute_sub_graphs decimal ids wires ≡ some subs)
      × (all (leads_out ids) subs ≡ true)
unfolding compute_sub_graphs sub_graphs_of
sub_graphs_lead_out decimal [] wires = ([], refl, refl)
sub_graphs_lead_out decimal (k ∷ ks) wires =
    let ids = k ∷ ks in
    let (cs, e, p) = divided ids wires in
    let test = λ (c : List String). all (parts_no_wire ids c) wires in
    let closed = all_of_mem test cs (λ c m.
      all_of_mem (parts_no_wire ids c) wires
        (λ w. closed_parts_none ids wires c w (p.closed c m))) in
    (
      sub_graphs_of decimal ids wires cs,
      ground (arith, e),
      ground (arith, numbered_lead_out decimal ids wires 0 (sort cs) (all-sort test cs ∙ closed)),
    )
