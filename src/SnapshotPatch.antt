-- ===== src/SnapshotPatch.antt =====
-- src/protocol/snapshot-patch.ts: what changed between two snapshots of the history, for the browser.
-- An object is the list of its fields. A number is its text, as String(n) gives it. `A` is what
-- stands outside the tables, by name.
pub mod Fields
pub mod Lookup
pub mod RoundTrip
mod Tests
use Prim.Native.String as Str
use hopper_pi.Prelude.{
  ℕ, String, Bool, true, false, ◌&&◌, ◌||◌, not, Option, none, some, List, [], ◌∷◌, ◌++◌, map, ◌==◌,
  nat_eq, length, any, all, find_last, keep_where, is_none, if◌then◌else◌,
}
use hopper_pi.Prelude.Table.{Keyed, get}
use hopper_pi.Prelude.Objects.{assign_all}

pub data Table : Type 0 where
  conversations sessions tasks turns events records recoveries questions inputs : Table

abbrev pub tables : List Table
tables =
    conversations ∷ sessions ∷ tasks ∷ turns ∷ events ∷ records ∷ recoveries ∷ questions ∷ inputs
    ∷ []

pub data Value : Type 0 where
  text : String → Value
  number : String → Value
  null undefined : Value

pub record Field : Type 0 where
  pub name : String
  pub value : Value

instance abbrev pub field_keyed : Keyed Field
field_keyed = record { key = λ f. f.name }

abbrev pub Row : Type 0
Row = List Field

-- The value of a field that an object has, or does not have.
unfoldable pub value_of : Option Field → Value
value_of none = undefined
value_of (some f) = f.value

unfoldable pub field : String → Row → Value
unfolding value_of
field name row = value_of (get name row)

-- `===`
unfoldable pub is_same : Value → Value → Bool
is_same (text a) (text b) = a == b
is_same (number a) (number b) = a == b
is_same null null = true
is_same undefined undefined = true
is_same _ _ = false

-- String(value)
show : Value → String
show (text a) = a
show (number a) = a
show null = "null"
show undefined = "undefined"

is_defined : Value → Bool
is_defined undefined = false
is_defined _ = true

unfoldable pub key : Row → String
unfolding show is_defined
key row =
    if is_defined (field "kind" row) && is_defined (field "id" row)
    then Str.◌++◌ (show (field "kind" row)) (Str.◌++◌ ":" (show (field "id" row)))
    else show (field "id" row)

unfoldable pub equal : Row → Row → Bool
unfolding is_same field
equal a b = nat_eq (length a) (length b) && all (λ f. is_same (field f.name a) (field f.name b)) a

pub record Change : Type 0 where
  pub upsert : List Row
  pub order : Option (List String)

-- What a Map of the rows by key has: the last one.
abbrev pub row_at : String → List Row → Option Row
row_at k rows = find_last (λ r. key r == k) rows

is_changed_from : Row → Option Row → Bool
unfolding equal
is_changed_from row none = true
is_changed_from row (some old) = not (equal old row)

unfoldable pub is_changed : List Row → Row → Bool
unfolding is_changed_from
is_changed old row = is_changed_from row (row_at (key row) old)

-- old.length !== rows.length || rows.some((row, index) => key(row) !== key(old[index]))
unfoldable pub is_reordered : List Row → List Row → Bool
is_reordered [] [] = false
is_reordered [] (r ∷ rows) = true
is_reordered (o ∷ old) [] = true
is_reordered (o ∷ old) (r ∷ rows) = not (key r == key o) || is_reordered old rows

is_any : List Row → Bool
is_any [] = false
is_any (r ∷ rows) = true

unfoldable pub table_change : List Row → List Row → Option Change
unfolding is_changed is_reordered is_any
table_change old rows =
    let upsert = keep_where (is_changed old) rows in
    if is_any upsert || is_reordered old rows
    then some (record {
      upsert = upsert;
      order = if is_reordered old rows then some (map key rows) else none;
    })
    else none

-- The row of each key, or nothing where a row is missing.
unfoldable pub collect : List Row → List String → Option (List Row)
collect rows [] = some []
collect rows (k ∷ ids) = elim (row_at k rows) [
  | none ↦ none
  | some r ↦ elim (collect rows ids) [ none ↦ none | some rest ↦ some (r ∷ rest) ]
]

abbrev pub ids_of : Option (List String) → List Row → List String
ids_of (some order) prior = order
ids_of none prior = map key prior

-- A table without a change is kept as it is, absent or not.
unfoldable pub apply_change :
    Option (List Row) → List Row → Option Change → Option (Option (List Row))
unfolding collect
apply_change kept prior none = some kept
apply_change kept prior (some c) = elim (collect (prior ++ c.upsert) (ids_of c.order prior)) [
  | none ↦ none
  | some rows ↦ some (some rows)
]

abbrev pub rows_of : Option (List Row) → List Row
rows_of none = []
rows_of (some rows) = rows

abbrev pub or_else : {A : Type 0} → A → Option A → A
or_else a none = a
or_else a (some b) = b

-- SnapshotRows
pub record Snapshot (A : Type 0) : Type 0 where
  pub event_cursor : ℕ
  pub values : List A
  pub rows : Table → Option (List Row)

-- `values` has the event cursor too.
pub record SnapshotPatch (A : Type 0) : Type 0 where
  pub base_cursor : ℕ
  pub event_cursor : ℕ
  pub values : List A
  pub changes : Table → Option Change

module _ {A : Type 0} ⦃keyed : Keyed A⦄ where
  unfoldable pub snapshot_patch : Snapshot A → Snapshot A → SnapshotPatch A
  snapshot_patch previous next = record {
    base_cursor = previous.event_cursor;
    event_cursor = next.event_cursor;
    values = next.values;
    changes = λ t. table_change (rows_of (previous.rows t)) (rows_of (next.rows t));
  }

  abbrev pub applied : Snapshot A → SnapshotPatch A → Table → Option (Option (List Row))
  applied previous patch t =
      apply_change (previous.rows t) (rows_of (previous.rows t)) (patch.changes t)

  -- `none` where a row is missing, or the patch does not follow.
  unfoldable pub apply_snapshot_patch : Snapshot A → SnapshotPatch A → Option (Snapshot A)
  apply_snapshot_patch previous patch =
      if not (nat_eq previous.event_cursor patch.base_cursor)
        || any (λ t. is_none (applied previous patch t)) tables
      then none
      else some (record {
        event_cursor = patch.event_cursor;
        values = assign_all previous.values patch.values;
        rows = λ t. or_else (previous.rows t) (applied previous patch t);
      })
