-- ===== src/CanvasFilter/OnePass.antt =====
-- The comment in `expandExcludedIds` (src/services/canvas-filter.ts, lines 24 to 26): one pass over the
-- undirected graph is sufficient.
use hopper_pi.Prelude.{
  String, ◌≡◌, refl, inl, inr, Bool, true, false, ◌&&◌, ◌||◌, List, [], ◌∷◌, ◌++◌, eq_iff, eq_refl,
  arith, all, keep_where, Bool-cases,
}
use hopper_pi.CanvasFilter.{Wire, before_dot, has, ends, neighbors, is_cut_off, expand_excluded_ids}

has-append : (xs ys : List String) (k : String) → has (xs ++ ys) k ≡ (has xs k || has ys k)
unfolding has
has-append [] ys k = refl
has-append (x ∷ xs) ys k = ground (arith, has-append xs ys k)

has-keep_where :
    (p : String → Bool) (xs : List String) (k : String)
    → has (keep_where p xs) k ≡ (has xs k && p k)
unfolding has
has-keep_where p [] k = refl
has-keep_where p (x ∷ xs) k = ground (arith, has-keep_where p xs k, eq_iff x k)

all-has :
    (p : String → Bool) (xs : List String) (k : String)
    → all p xs ≡ true
    → has xs k ≡ true
    → p k ≡ true
unfolding has
all-has p [] k a h = ground arith
all-has p (x ∷ xs) k a h = ground (arith, all-has p xs k, eq_iff x k)

failing :
    (p : String → Bool) (xs : List String)
    → all p xs ≡ false
    → (k : String) × (has xs k ≡ true) × (p k ≡ false)
unfolding has
failing p [] h = absurd (ground arith)
failing p (x ∷ xs) h = elim (Bool-cases (p x)) [
  | inl e ↦ let (k, m, f) = failing p xs (ground arith) in (k, ground arith, f)
  | inr e ↦ (x, ground (arith, eq_refl x), e)
]

-- The graph has no direction, and a neighbour is an end of a wire.
has-neighbors :
    (j k : String) (ws : List Wire) → has (neighbors j ws) k ≡ true → has (neighbors k ws) j ≡ true
unfolding has neighbors
has-neighbors j k [] h = ground arith
has-neighbors j k (w ∷ ws) h = ground (
  arith,
  has-neighbors j k ws,
  eq_iff (before_dot w.from) j,
  eq_iff (before_dot w.to) j,
  eq_iff (before_dot w.from) k,
  eq_iff (before_dot w.to) k,
)

pub has-expand :
    (ws : List Wire) (xs : List String) (k : String)
    → has (expand_excluded_ids ws xs) k ≡ (has xs k || (has (ends ws) k && is_cut_off ws xs k))
unfolding expand_excluded_ids
has-expand ws xs k = ground (
  arith,
  has-append xs (keep_where (is_cut_off ws xs) (ends ws)) k,
  has-keep_where (is_cut_off ws xs) (ends ws) k,
)

-- What a second pass would cut off was excluded already.
cut_off_again :
    (ws : List Wire) (xs : List String) (k : String)
    → is_cut_off ws (expand_excluded_ids ws xs) k ≡ true
    → has (ends ws) k ≡ true
    → has (expand_excluded_ids ws xs) k ≡ true
unfolding is_cut_off
cut_off_again ws xs k c e = elim (Bool-cases (all (has xs) (neighbors k ws))) [
  | inl a ↦ ground (arith, has-expand ws xs k)
  | inr a ↦
      let (j, m, f) = failing (has xs) (neighbors k ws) a in
      ground (
        arith,
        has-expand ws xs j,
        has-expand ws xs k,
        all-has (has (expand_excluded_ids ws xs)) (neighbors k ws) j c m,
        all-has (has xs) (neighbors j ws) k,
        has-neighbors k j ws m,
      )
]

-- One pass over the wires is sufficient: a second pass, started from what the first one excludes,
-- excludes the same components.
pub one_pass_suffices :
    (ws : List Wire) (xs : List String) (k : String)
    → has (expand_excluded_ids ws (expand_excluded_ids ws xs)) k ≡ has (expand_excluded_ids ws xs) k
one_pass_suffices ws xs k =
    ground (arith, has-expand ws (expand_excluded_ids ws xs) k, cut_off_again ws xs k)
