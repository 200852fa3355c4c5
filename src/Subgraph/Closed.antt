-- ===== src/Subgraph/Closed.antt =====
-- The parts of a canvas that src/services/subgraph.ts finds.
use mathlib.Core.List.{Memᴰ}
use hopper_pi.Prelude.{
  ℕ, suc, ◌+◌, ◌≤◌, String, ◌≡◌, refl, inl, inr, Bool, true, false, not, some, List, [], ◌∷◌, ◌++◌,
  ◌==◌, eq_iff, eq_refl, arith, length, all, count, count-append, Bool-cases,
}
use hopper_pi.Subgraph.{has, Walk, start, clusters_of}
use hopper_pi.Subgraph.Walks.{
  times, has-times, has-append, unvisited, one_less, IsWalk, IsDone, walk_ends,
}

-- How often a component is listed in the clusters.
abbrev pub total : String → List (List String) → ℕ
total k [] = 0
total k (c ∷ rest) = times k c + total k rest

count-le-length : (p : String → Bool) (ks : List String) → count p ks ≤ length ks
count-le-length p [] = omega arith
count-le-length p (k ∷ ks) = ground (arith, count-le-length p ks)

start_left :
    (ids visited : List String) (id : String)
    → has ids id ≡ true
    → has visited id ≡ false
    → suc (unvisited ids (visited ++ id ∷ [])) ≤ length ids
start_left ids visited id h n =
    omega (arith, one_less ids id visited h n, count-le-length (λ i. not (has visited i)) ids)

module _ (ids : List String) (neighbours : String → List String)
    (are_known : (k : String) → all (has ids) (neighbours k) ≡ true)
    (symmetric : (j k : String) → has (neighbours j) k ≡ true → has (neighbours k) j ≡ true) where
  -- Neighbours of members are members.
  abbrev pub IsClosed : List String → Type 0
  IsClosed c = (x y : String) → has c x ≡ true → has (neighbours x) y ≡ true → has c y ≡ true

  abbrev pub AllClosed : List (List String) → Type 0
  AllClosed cs = (c : List String) → Memᴰ c cs → IsClosed c

  pub record IsPartition (todo visited : List String) (cs : List (List String)) : Type 0 where
    pub covers : (k : String) → has todo k ≡ true → times k visited + total k cs ≡ 1
    pub once : (k : String) → times k visited + total k cs ≤ 1
    pub known : (k : String) → 1 ≤ total k cs → has ids k ≡ true
    pub closed : AllClosed cs

  start-IsWalk :
      (visited : List String) (id : String)
      → has ids id ≡ true
      → has visited id ≡ false
      → ((k : String) → times k visited ≤ 1)
      → IsWalk ids visited (start neighbours visited id)
  start-IsWalk visited id h n o = record {
    sum = λ k. ground (arith, count-append (λ x. x == k) visited (id ∷ []));
    once = λ k. ground (
      arith,
      o k,
      has-times visited id,
      eq_iff id k,
      count-append (λ x. x == k) visited (id ∷ []),
    );
    known = ground arith;
  }

  all-has :
      (ks : List String) (k : String) → all (has ids) ks ≡ true → has ks k ≡ true → has ids k ≡ true
  all-has [] k a h = ground arith
  all-has (j ∷ ks) k a h = ground (arith, eq_iff j k, all-has ks k)

  -- What was visited before, and the cluster of a walk, are closed each.
  visited-IsClosed :
      (visited : List String) (w : Walk)
      → IsWalk ids visited w
      → IsDone ids neighbours [] w
      → IsClosed visited
      → IsClosed w.visited
  visited-IsClosed visited w i d c x y h n = ground (
    arith,
    i.sum x,
    i.sum y,
    has-times w.visited x,
    has-times w.visited y,
    has-times visited x,
    has-times visited y,
    has-times w.cluster x,
    c x y,
    d x y,
  )

  cluster-IsClosed :
      (visited : List String) (w : Walk)
      → IsWalk ids visited w
      → IsDone ids neighbours [] w
      → IsClosed visited
      → IsClosed w.cluster
  cluster-IsClosed visited w i d c x y h n = ground (
    arith,
    i.sum x,
    i.sum y,
    i.once x,
    has-times w.visited y,
    has-times visited x,
    has-times visited y,
    has-times w.cluster x,
    has-times w.cluster y,
    symmetric x y n,
    c y x,
    d x y h refl n,
  )

  AllClosed-cons :
      (c : List String) (cs : List (List String)) → IsClosed c → AllClosed cs → AllClosed (c ∷ cs)
  AllClosed-cons c cs h a d (Memᴰ.head e) x y = rw e (h x y)
  AllClosed-cons c cs h a d (Memᴰ.tail m) x y = a d m x y

  -- A walk from a component that was not visited, and the parts found after it.
  IsPartition-cons :
      (id : String) (todo visited : List String) (w : Walk) (cs : List (List String))
      → IsWalk ids visited w
      → IsDone ids neighbours [] w
      → has w.visited id ≡ true
      → IsClosed visited
      → IsPartition todo w.visited cs
      → IsPartition (id ∷ todo) visited (w.cluster ∷ cs)
  IsPartition-cons id todo visited w cs i d s c p = record {
    covers =
        λ k h. ground (arith, i.sum k, p.covers k, p.once k, eq_iff id k, has-times w.visited id);
    once = λ k. omega (arith, i.sum k, p.once k);
    known = λ k h. ground (arith, p.known k, has-times w.cluster k, all-has w.cluster k i.known);
    closed = AllClosed-cons w.cluster cs (cluster-IsClosed visited w i d c) p.closed;
  }

  IsPartition-skip :
      (id : String) (todo visited : List String) (cs : List (List String))
      → has visited id ≡ true
      → IsPartition todo visited cs
      → IsPartition (id ∷ todo) visited cs
  IsPartition-skip id todo visited cs s p = record {
    covers = λ k h. ground (arith, p.covers k, p.once k, eq_iff id k, has-times visited id);
    once = p.once;
    known = p.known;
    closed = p.closed;
  }

  pub partitions :
      (todo visited : List String)
      → all (has ids) todo ≡ true
      → ((k : String) → times k visited ≤ 1)
      → IsClosed visited
      → (cs : List (List String)) × (clusters_of neighbours (length ids) todo visited ≡ some cs)
        × IsPartition todo visited cs
  unfolding clusters_of
  partitions [] visited a o c = (
    [],
    refl,
    record {
      covers = λ k h. ground arith;
      once = λ k. omega (arith, o k);
      known = λ k h. ground arith;
      closed = λ d m. elim m [ ];
    },
  )
  partitions (id ∷ todo) visited a o c = elim (Bool-cases (has visited id)) [
    | inl e ↦
        let (cs, f, p) = partitions todo visited (ground arith) o c in
        (cs, ground (arith, f), IsPartition-skip id todo visited cs e p)
    | inr e ↦
        let (w, g, i, d, s) =
          walk_ends ids neighbours visited (length ids) (id ∷ []) (start neighbours visited id)
            are_known (omega (arith, start_left ids visited id (ground arith) e))
            (start-IsWalk visited id (ground arith) e o) (λ x y h q n. ground arith) in
        let (cs, f, p) =
          partitions todo w.visited (ground arith) i.once (visited-IsClosed visited w i d c) in
        (
          w.cluster ∷ cs,
          ground (arith, g, f),
          IsPartition-cons id todo visited w cs i d
              (s id (ground (arith, eq_refl id, has-append visited (id ∷ []) id))) c p,
        )
  ]
