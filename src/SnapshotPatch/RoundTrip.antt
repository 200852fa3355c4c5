-- ===== src/SnapshotPatch/RoundTrip.antt =====
-- A patch turns the snapshot it was made from into the one it was made for
-- (src/protocol/snapshot-patch.ts).
use mathlib.Core.List.{Memᴰ}
use hopper_pi.Prelude.{
  String, ◌≡◌, refl, ap, sym, ◌∙◌, inl, inr, Bool, true, false, Option, none, some, List, [], ◌∷◌,
  ◌++◌, map, arith, all, eq_iff, any, keep_where, is_none, Bool-cases,
}
use hopper_pi.Prelude.Table.{Keyed, IsUnique, get}
use hopper_pi.Prelude.Objects.{assign_all, get-assign_all}
use hopper_pi.SnapshotPatch.Fields.{is_plain, equal_fields}
use hopper_pi.SnapshotPatch.{
  field, Table, tables, Row, key, row_at, is_changed, is_reordered, is_any, table_change, collect,
  apply_change, rows_of, Snapshot, snapshot_patch, applied, or_else, apply_snapshot_patch,
}
use hopper_pi.SnapshotPatch.Lookup.{
  same_row, all_same, has_key, has_unique_keys, row_at-keep_where, finds, finds_row,
}

Collects : List Row → List Row → Type 0
Collects pool rows =
    (rs : List Row) × (collect pool (map key rows) ≡ some rs) × (all_same rs rows ≡ true)

collect_cons :
    (pool : List Row) (row : Row) (rows : List Row) (found : Option Row)
    → row_at (key row) pool ≡ found
    → elim found [ none ↦ false | some x ↦ same_row x row ] ≡ true
    → Collects pool rows
    → Collects pool (row ∷ rows)
unfolding collect Collects
collect_cons pool row rows none e f (rs, q, s) = ground arith
collect_cons pool row rows (some x) e f (rs, q, s) = (x ∷ rs, ground arith, ground arith)

collect_all :
    (pool rows : List Row)
    → ((row : Row) → Memᴰ row rows → finds pool row ≡ true)
    → Collects pool rows
unfolding collect Collects
collect_all pool [] h = ([], refl, refl)
collect_all pool (row ∷ rows) h =
    collect_cons pool row rows (row_at (key row) pool) refl (h row (Memᴰ.head refl))
      (collect_all pool rows (λ r m. h r (Memᴰ.tail m)))

same_keys : (old rows : List Row) → is_reordered old rows ≡ false → map key old ≡ map key rows
unfolding is_reordered
same_keys [] [] h = refl
same_keys [] (r ∷ rows) h = ground arith
same_keys (o ∷ old) [] h = ground arith
same_keys (o ∷ old) (r ∷ rows) h = ground (arith, eq_iff (key r) (key o), same_keys old rows)

-- Rows that are neither changed nor reordered are kept as they are.
kept_same :
    (old todo rows : List Row)
    → all is_plain todo ≡ true
    → ((o : Row) → Memᴰ o todo → row_at (key o) old ≡ some o)
    → is_reordered todo rows ≡ false
    → is_any (keep_where (is_changed old) rows) ≡ false
    → all_same todo rows ≡ true
unfolding is_reordered is_any is_changed
kept_same old [] [] p h k n = refl
kept_same old [] (r ∷ rows) p h k n = ground arith
kept_same old (o ∷ todo) [] p h k n = ground arith
kept_same old (o ∷ todo) (r ∷ rows) p h k n = ground (
  arith,
  eq_iff (key r) (key o),
  eq_iff (key o) (key r),
  h o (Memᴰ.head refl),
  kept_same old todo rows (ground arith) (λ x m. h x (Memᴰ.tail m)),
)

has_key_of_keys :
    (k : String) (xs ys : List Row)
    → is_reordered xs ys ≡ false
    → any (has_key k) xs ≡ any (has_key k) ys
unfolding is_reordered
has_key_of_keys k [] [] h = refl
has_key_of_keys k [] (y ∷ ys) h = ground arith
has_key_of_keys k (x ∷ xs) [] h = ground arith
has_key_of_keys k (x ∷ xs) (y ∷ ys) h =
    ground (arith, eq_iff (key y) (key x), has_key_of_keys k xs ys)

unique_of_keys :
    (xs ys : List Row)
    → is_reordered xs ys ≡ false
    → has_unique_keys ys ≡ true
    → has_unique_keys xs ≡ true
unfolding is_reordered
unique_of_keys [] [] h u = refl
unique_of_keys [] (y ∷ ys) h u = refl
unique_of_keys (x ∷ xs) [] h u = ground arith
unique_of_keys (x ∷ xs) (y ∷ ys) h u =
    ground (arith, eq_iff (key y) (key x), has_key_of_keys (key y) xs ys, unique_of_keys xs ys)

keep_all : (rs : List Row) → keep_where (λ r. true) rs ≡ rs
keep_all [] = refl
keep_all (r ∷ rs) = ap (λ x. r ∷ x) (keep_all rs)

row_at_own :
    (rs : List Row) (row : Row)
    → has_unique_keys rs ≡ true
    → Memᴰ row rs
    → row_at (key row) rs ≡ some row
row_at_own rs row u m =
    ap (row_at (key row)) (sym (keep_all rs)) ∙ row_at-keep_where (λ r. true) row rs u m

-- What the change of a table makes of it.
Restores : Option (List Row) → List Row → Type 0
Restores kept rows =
    (o : Option (List Row)) × (apply_change kept (rows_of kept) (table_change (rows_of kept) rows)
      ≡ some o)
    × (all_same (rows_of o) rows ≡ true)

restores :
    (kept : Option (List Row)) (rows : List Row)
    → all is_plain (rows_of kept) ≡ true
    → all is_plain rows ≡ true
    → has_unique_keys rows ≡ true
    → Restores kept rows
unfolding Restores apply_change table_change Collects
restores kept rows p q' u =
    let old = rows_of kept in
    let (rs, q, s) =
      collect_all (old ++ keep_where (is_changed old) rows) rows
        (λ row m. finds_row old rows row p q' u m) in
    elim (Bool-cases (is_reordered old rows)) [
      | inl e ↦ (some rs, ground (arith, q), s)
      | inr e ↦ elim (Bool-cases (is_any (keep_where (is_changed old) rows))) [
        | inl n ↦ (some rs, ground (arith, q, same_keys old rows e), s)
        | inr n ↦ (
          kept,
          ground arith,
          kept_same old old rows p (λ o. row_at_own old o (unique_of_keys old rows e u)) e n,
        )
      ]
    ]

no_row_missing :
    {A : Type 0} (p : A → Bool) (xs : List A) → ((x : A) → p x ≡ false) → any p xs ≡ false
no_row_missing p [] h = refl
no_row_missing p (x ∷ xs) h = ground (arith, h x, no_row_missing p xs h)

-- The rows of one table and of another, in order: each with the same key and, by every name, the same value.
pub SameRows : List Row → List Row → Type 0
SameRows [] [] = Unit {0}
SameRows (a ∷ rows) (b ∷ bs) =
    (key a ≡ key b) × ((name : String) → field name a ≡ field name b) × SameRows rows bs
SameRows _ _ = ⊥

all_same-SameRows : (rows bs : List Row) → all_same rows bs ≡ true → SameRows rows bs
unfolding SameRows
all_same-SameRows [] [] h = tt
all_same-SameRows [] (b ∷ bs) h = absurd (ground arith)
all_same-SameRows (a ∷ rows) [] h = absurd (ground arith)
all_same-SameRows (a ∷ rows) (b ∷ bs) h = (
  ground (arith, eq_iff (key a) (key b)),
  λ name. equal_fields a b name (ground arith) (ground arith),
  all_same-SameRows rows bs (ground arith),
)

module _ {A : Type 0} ⦃keyed : Keyed A⦄ where
  -- Where the rows of both snapshots have fields of different names, none of them undefined, no two rows of a
  -- table of the next snapshot have the same key, and no two of its values the same name: applying the
  -- patch from a snapshot to the next succeeds, and gives the next event cursor, every value of the
  -- next snapshot, and in each table the rows of the next snapshot in their order, each with the same
  -- key and the same value in every field.
  pub apply_snapshot_patch-snapshot_patch :
      (previous next : Snapshot A)
      → ((t : Table) → all is_plain (rows_of (previous.rows t)) ≡ true)
      → ((t : Table) → all is_plain (rows_of (next.rows t)) ≡ true)
      → ((t : Table) → has_unique_keys (rows_of (next.rows t)) ≡ true)
      → IsUnique next.values
      → (r : Snapshot A) × (apply_snapshot_patch previous (snapshot_patch previous next) ≡ some r)
        × (r.event_cursor ≡ next.event_cursor)
        × ((k : String) (v : A) → get k next.values ≡ some v → get k r.values ≡ some v)
        × ((t : Table) → SameRows (rows_of (r.rows t)) (rows_of (next.rows t)))
  unfolding apply_snapshot_patch snapshot_patch Restores
  apply_snapshot_patch-snapshot_patch previous next p q' u n =
      let patch = snapshot_patch previous next in
      let missing =
        no_row_missing (λ t. is_none (applied previous patch t)) tables
          (λ t.
            let (o, q, s) = restores (previous.rows t) (rows_of (next.rows t)) (p t) (q' t) (u t) in
            ap is_none q) in
      (
        record {
          event_cursor = next.event_cursor;
          values = assign_all previous.values next.values;
          rows = λ t. or_else (previous.rows t) (applied previous patch t);
        },
        ground (arith, missing),
        refl,
        λ k v e. get-assign_all k v previous.values next.values n e,
        λ t.
            let (o, q, s) = restores (previous.rows t) (rows_of (next.rows t)) (p t) (q' t) (u t) in
            rw q (all_same-SameRows (rows_of o) (rows_of (next.rows t)) s),
      )
