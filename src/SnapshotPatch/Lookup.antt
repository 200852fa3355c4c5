-- ===== src/SnapshotPatch/Lookup.antt =====
-- What a table of the browser has at the keys of the rows of the next one
-- (src/protocol/snapshot-patch.ts).
use mathlib.Core.List.{Memᴰ}
use hopper_pi.Prelude.{
  String, ◌≡◌, refl, inl, inr, Bool, true, false, ◌&&◌, not, none, some, List, [], ◌∷◌, ◌++◌, arith,
  ◌==◌, eq_iff, eq_refl, any, all, keep_where, if◌then◌else◌, Option-cases,
}
use hopper_pi.SnapshotPatch.Fields.{is_plain}
use hopper_pi.SnapshotPatch.{
  Value, text, number, null, undefined, Row, field, is_same, key, equal, row_at, is_changed,
}

-- Rows with the same key that `equal` takes for the same.
abbrev pub same_row : Row → Row → Bool
same_row a b = key a == key b && equal a b && is_plain a

abbrev pub all_same : List Row → List Row → Bool
all_same [] [] = true
all_same (a ∷ rows) (b ∷ bs) = same_row a b && all_same rows bs
all_same _ _ = false

abbrev pub has_key : String → Row → Bool
has_key k r = key r == k

-- No two rows have the same key.
abbrev pub has_unique_keys : List Row → Bool
has_unique_keys [] = true
has_unique_keys (r ∷ rows) = not (any (has_key (key r)) rows) && has_unique_keys rows

is_same_refl : (v : Value) → is_same v v ≡ true
unfolding is_same
is_same_refl (text a) = eq_refl a
is_same_refl (number a) = eq_refl a
is_same_refl null = refl
is_same_refl undefined = refl

fields_same : (a fs : Row) → all (λ f. is_same (field f.name a) (field f.name a)) fs ≡ true
fields_same a [] = refl
fields_same a (f ∷ fs) = ground (arith, is_same_refl (field f.name a), fields_same a fs)

equal_refl : (a : Row) → equal a a ≡ true
unfolding equal
equal_refl a = ground (arith, fields_same a a)

row_at-append :
    (k : String) (xs ys : List Row)
    → row_at k (xs ++ ys) ≡ elim (row_at k ys) [ none ↦ row_at k xs | some y ↦ some y ]
row_at-append k [] ys = elim (Option-cases (row_at k ys)) [
  | inl e ↦ ground arith
  | inr (y, e) ↦ ground arith
]
row_at-append k (x ∷ xs) ys = elim (Option-cases (row_at k ys)) [
  | inl e ↦ ground (arith, row_at-append k xs ys)
  | inr (y, e) ↦ ground (arith, row_at-append k xs ys)
]

not_kept :
    (c : Row → Bool) (k : String) (rs : List Row)
    → any (has_key k) rs ≡ false
    → row_at k (keep_where c rs) ≡ none
not_kept c k [] h = refl
not_kept c k (r ∷ rs) h = ground (arith, not_kept c k rs)

other_key :
    (k : String) (row : Row) (rs : List Row)
    → any (has_key k) rs ≡ false
    → Memᴰ row rs
    → (key row == k) ≡ false
other_key k row [] h m = elim m [ ]
other_key k row (r ∷ rs) h (Memᴰ.head e) = rw e (ground arith)
other_key k row (r ∷ rs) h (Memᴰ.tail m) = other_key k row rs (ground arith) m

pub row_at-keep_where :
    (c : Row → Bool) (row : Row) (rs : List Row)
    → has_unique_keys rs ≡ true
    → Memᴰ row rs
    → row_at (key row) (keep_where c rs) ≡ (if c row then some row else none)
row_at-keep_where c row [] u m = elim m [ ]
row_at-keep_where c row (r ∷ rs) u (Memᴰ.head e) =
    rw e (ground (arith, eq_refl (key r), not_kept c (key r) rs (ground arith)))
row_at-keep_where c row (r ∷ rs) u (Memᴰ.tail m) = ground (
  arith,
  other_key (key r) row rs (ground arith) m,
  eq_iff (key r) (key row),
  eq_iff (key row) (key r),
  row_at-keep_where c row rs (ground arith) m,
)

row_at-key : (k : String) (rs : List Row) (x : Row) → row_at k rs ≡ some x → (key x == k) ≡ true
row_at-key k [] x h = ground arith
row_at-key k (r ∷ rs) x h = elim (Option-cases (row_at k rs)) [
  | inl e ↦ ground arith
  | inr (y, e) ↦ ground (arith, row_at-key k rs x)
]

row_at-is_plain :
    (k : String) (rs : List Row) (x : Row)
    → all is_plain rs ≡ true
    → row_at k rs ≡ some x
    → is_plain x ≡ true
row_at-is_plain k [] x p h = ground arith
row_at-is_plain k (r ∷ rs) x p h = elim (Option-cases (row_at k rs)) [
  | inl e ↦ ground arith
  | inr (y, e) ↦ ground (arith, row_at-is_plain k rs x)
]

pub all_mem : (rs : List Row) (x : Row) → all is_plain rs ≡ true → Memᴰ x rs → is_plain x ≡ true
all_mem [] x p m = elim m [ ]
all_mem (r ∷ rs) x p (Memᴰ.head e) = rw e (ground arith)
all_mem (r ∷ rs) x p (Memᴰ.tail m) = all_mem rs x (ground arith) m

-- What the prior rows with the changed ones have at the key of a row.
abbrev pub finds : List Row → Row → Bool
finds rows row = elim (row_at (key row) rows) [ none ↦ false | some x ↦ same_row x row ]

pub finds_row :
    (old rows : List Row) (row : Row)
    → all is_plain old ≡ true
    → all is_plain rows ≡ true
    → has_unique_keys rows ≡ true
    → Memᴰ row rows
    → finds (old ++ keep_where (is_changed old) rows) row ≡ true
unfolding is_changed
finds_row old rows row p q u m = elim (Option-cases (row_at (key row) old)) [
  | inl e ↦ ground (
    arith,
    row_at-append (key row) old (keep_where (is_changed old) rows),
    row_at-keep_where (is_changed old) row rows u m,
    equal_refl row,
    eq_refl (key row),
    all_mem rows row q m,
  )
  | inr (x, e) ↦ ground (
    arith,
    row_at-append (key row) old (keep_where (is_changed old) rows),
    row_at-keep_where (is_changed old) row rows u m,
    equal_refl row,
    eq_refl (key row),
    row_at-key (key row) old x e,
    row_at-is_plain (key row) old x p e,
    all_mem rows row q m,
  )
]
