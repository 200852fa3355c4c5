-- ===== src/Subgraph/Walks.antt =====
-- The breadth-first walk of src/services/subgraph.ts, over any neighbours among the components.
use hopper_pi.Prelude.{
  eq_refl, Bool-cases, inl, inr, some, zero, ℕ, suc, ◌+◌, ◌≤◌, String, ◌≡◌, refl, true, false, ◌||◌,
  not, List, [], ◌∷◌, ◌++◌, ◌==◌, eq_iff, arith, ltb, length, length-append, all, all-append, count,
  count-append,
}
use hopper_pi.Subgraph.{walk, has, Walk, visit, visit_all}

-- How often a component is listed.
abbrev pub times : String → List String → ℕ
times k ks = count (λ x. x == k) ks

pub has-times : (ks : List String) (k : String) → has ks k ≡ ltb 0 (times k ks)
has-times [] k = refl
has-times (x ∷ ks) k = ground (arith, has-times ks k)

pub has-append : (xs ys : List String) (k : String) → has (xs ++ ys) k ≡ (has xs k || has ys k)
has-append [] ys k = refl
has-append (x ∷ xs) ys k = ground (arith, has-append xs ys k)

module _ (ids : List String) where
  abbrev pub unvisited : List String → ℕ
  unvisited visited = count (λ i. not (has visited i)) ids

not_more :
    (is : List String) (k : String) (v : List String)
    → count (λ i. not (has (v ++ k ∷ []) i)) is ≤ count (λ i. not (has v i)) is
not_more [] k v = omega arith
not_more (i ∷ is) k v = ground (arith, has-append v (k ∷ []) i, not_more is k v)

pub one_less :
    (is : List String) (k : String) (v : List String)
    → has is k ≡ true
    → has v k ≡ false
    → suc (count (λ i. not (has (v ++ k ∷ []) i)) is) ≤ count (λ i. not (has v i)) is
one_less [] k v h n = ground arith
one_less (i ∷ is) k v h n =
    ground
      (arith, has-append v (k ∷ []) i, eq_iff i k, eq_iff k i, not_more is k v, one_less is k v)

module _ (ids previous : List String) where
  -- A walk that goes on from what was visited before.
  pub record IsWalk (w : Walk) : Type 0 where
    pub sum : (k : String) → times k w.visited ≡ times k previous + times k w.cluster
    pub once : (k : String) → times k w.visited ≤ 1
    pub known : all (has ids) w.cluster ≡ true

  visit-IsWalk : (j : String) (w : Walk) → has ids j ≡ true → IsWalk w → IsWalk (visit j w)
  unfolding visit
  visit-IsWalk j w k h = record {
    sum = λ i. ground (
      arith,
      h.sum i,
      count-append (λ x. x == i) w.visited (j ∷ []),
      count-append (λ x. x == i) w.cluster (j ∷ []),
    );
    once = λ i. ground (
      arith,
      h.once i,
      has-times w.visited j,
      eq_iff j i,
      count-append (λ x. x == i) w.visited (j ∷ []),
    );
    known = ground (arith, h.known, all-append (has ids) w.cluster (j ∷ []));
  }

  visit_all-IsWalk :
      (ks : List String) (w : Walk) → all (has ids) ks ≡ true → IsWalk w → IsWalk (visit_all ks w)
  unfolding visit_all
  visit_all-IsWalk [] w k h = h
  visit_all-IsWalk (j ∷ ks) w k h =
      visit_all-IsWalk ks (visit j w) (ground arith) (visit-IsWalk j w (ground arith) h)

-- What is waiting and what is not yet visited.
abbrev left : List String → Walk → ℕ
left ids w = length w.queue + unvisited ids w.visited

visit-left :
    (ids : List String) (j : String) (w : Walk)
    → has ids j ≡ true
    → left ids (visit j w) ≤ left ids w
unfolding visit
visit-left ids j w h = ground (arith, one_less ids j w.visited h, length-append w.queue (j ∷ []))

visit_all-left :
    (ids ks : List String) (w : Walk)
    → all (has ids) ks ≡ true
    → left ids (visit_all ks w) ≤ left ids w
unfolding visit_all
visit_all-left ids [] w h = omega arith
visit_all-left ids (j ∷ ks) w h =
    ground (arith, visit-left ids j w, visit_all-left ids ks (visit j w))

visit_all-seen :
    (ks : List String) (w : Walk) (y : String)
    → has w.visited y ≡ true
    → has (visit_all ks w).visited y ≡ true
unfolding visit_all visit
visit_all-seen [] w y h = h
visit_all-seen (j ∷ ks) w y h =
    visit_all-seen ks (visit j w) y (ground (arith, has-append w.visited (j ∷ []) y))

visit_all-sees :
    (ks : List String) (w : Walk) (y : String)
    → has ks y ≡ true
    → has (visit_all ks w).visited y ≡ true
unfolding visit_all visit
visit_all-sees [] w y h = ground arith
visit_all-sees (j ∷ ks) w y h = ground (
  arith,
  has-append w.visited (j ∷ []) y,
  eq_iff j y,
  eq_refl y,
  visit_all-sees ks (visit j w) y,
  visit_all-seen ks (visit j w) y,
)

visit_all-waits :
    (ks : List String) (w : Walk) (x : String)
    → has w.queue x ≡ true
    → has (visit_all ks w).queue x ≡ true
unfolding visit_all visit
visit_all-waits [] w x h = h
visit_all-waits (j ∷ ks) w x h =
    visit_all-waits ks (visit j w) x (ground (arith, has-append w.queue (j ∷ []) x))

-- What joins the cluster waits.
visit_all-adds :
    (ks : List String) (w : Walk) (x : String)
    → has (visit_all ks w).cluster x ≡ true
    → (has w.cluster x || has (visit_all ks w).queue x) ≡ true
unfolding visit_all visit
visit_all-adds [] w x h = ground arith
visit_all-adds (j ∷ ks) w x h = ground (
  arith,
  has-append w.cluster (j ∷ []) x,
  has-append w.queue (j ∷ []) x,
  visit_all-adds ks (visit j w) x,
  visit_all-waits ks (visit j w) x,
)

module _ (ids : List String) (neighbours : String → List String) where
  -- Whoever is in the cluster and waits no more has its neighbours visited.
  abbrev pub IsDone : List String → Walk → Type 0
  IsDone queue w =
      (x y : String)
      → has w.cluster x ≡ true
      → has queue x ≡ false
      → has (neighbours x) y ≡ true
      → has w.visited y ≡ true

  step-IsDone :
      (c : String) (queue : List String) (w : Walk)
      → IsDone (c ∷ queue) w
      → IsDone
          (visit_all (neighbours c) (record w { queue = queue })).queue
          (visit_all (neighbours c) (record w { queue = queue }))
  step-IsDone c queue w d x y i q n =
      let before = record w { queue = queue } in
      elim (Bool-cases (c == x)) [
        | inl e ↦ visit_all-sees (neighbours c) before y (rw ((eq_iff c x).0 e) n)
        | inr e ↦ ground (
          arith,
          visit_all-adds (neighbours c) before x i,
          visit_all-waits (neighbours c) before x,
          visit_all-seen (neighbours c) before y,
          d x y,
        )
      ]

  -- With fuel for what is left, the walk ends, and everything in its cluster has its neighbours visited.
  pub walk_ends :
      (previous : List String) (fuel : ℕ) (queue : List String) (w : Walk)
      → ((k : String) → all (has ids) (neighbours k) ≡ true)
      → length queue + unvisited ids w.visited ≤ fuel
      → IsWalk ids previous w
      → IsDone queue w
      → (r : Walk) × (walk neighbours fuel queue w ≡ some r)
        × IsWalk ids previous r
        × IsDone [] r
        × ((y : String) → has w.visited y ≡ true → has r.visited y ≡ true)
  unfolding walk
  walk_ends previous fuel [] w k l h d = (w, refl, h, d, λ y s. s)
  walk_ends previous zero (c ∷ queue) w k l h d = ground arith
  walk_ends previous (suc fuel) (c ∷ queue) w k l h d =
      let before = record w { queue = queue } in
      let next = visit_all (neighbours c) before in
      let (r, e, i, f, s) =
        walk_ends previous fuel next.queue next k
          (omega (arith, visit_all-left ids (neighbours c) before (k c)))
          (visit_all-IsWalk ids previous (neighbours c) before (k c)
            (record { sum = h.sum; once = h.once; known = h.known }))
          (step-IsDone c queue w d) in
      (r, e, i, f, λ y t. s y (visit_all-seen (neighbours c) before y t))
