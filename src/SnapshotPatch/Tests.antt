-- ===== src/SnapshotPatch/Tests.antt =====
-- A turn ends and a task is added.
use hopper_pi.Prelude.{all, String, ◌≡◌, refl, true, Option, none, some, List, [], ◌∷◌, arith}
use hopper_pi.Prelude.Table.{get}
use hopper_pi.SnapshotPatch.{
  Table, tasks, turns, text, Field, Row, field_keyed, rows_of, Snapshot, snapshot_patch,
  apply_snapshot_patch, key, field,
}
use hopper_pi.SnapshotPatch.Lookup.{has_unique_keys}
use hopper_pi.SnapshotPatch.Fields.{is_plain}
use hopper_pi.SnapshotPatch.RoundTrip.{SameRows, apply_snapshot_patch-snapshot_patch}

abbrev row : String → String → Row
row id state =
    record { name = "id"; value = text id } ∷ record { name = "state"; value = text state } ∷ []

abbrev busy : Field
busy = record { name = "busy"; value = text "yes" }

abbrev rows_before : Table → Option (List Row)
rows_before tasks = some (row "a" "running" ∷ [])
rows_before turns = some (row "t1" "running" ∷ row "t0" "completed" ∷ [])
rows_before _ = none

abbrev rows_after : Table → Option (List Row)
rows_after tasks = some (row "b" "queued" ∷ row "a" "running" ∷ [])
rows_after turns = some (row "t1" "completed" ∷ row "t0" "completed" ∷ [])
rows_after _ = none

abbrev previous : Snapshot Field
previous = record { event_cursor = 4; values = []; rows = rows_before }

abbrev next : Snapshot Field
next = record { event_cursor = 7; values = busy ∷ []; rows = rows_after }

rows_after_unique : (t : Table) → has_unique_keys (rows_of (rows_after t)) ≡ true
unfolding key field get
rows_after_unique Table.conversations = refl
rows_after_unique Table.sessions = refl
rows_after_unique tasks = refl
rows_after_unique turns = refl
rows_after_unique Table.events = refl
rows_after_unique Table.records = refl
rows_after_unique Table.recoveries = refl
rows_after_unique Table.questions = refl
rows_after_unique Table.inputs = refl

rows_before_plain : (t : Table) → all is_plain (rows_of (rows_before t)) ≡ true
rows_before_plain Table.conversations = refl
rows_before_plain Table.sessions = refl
rows_before_plain tasks = refl
rows_before_plain turns = refl
rows_before_plain Table.events = refl
rows_before_plain Table.records = refl
rows_before_plain Table.recoveries = refl
rows_before_plain Table.questions = refl
rows_before_plain Table.inputs = refl

rows_after_plain : (t : Table) → all is_plain (rows_of (rows_after t)) ≡ true
rows_after_plain Table.conversations = refl
rows_after_plain Table.sessions = refl
rows_after_plain tasks = refl
rows_after_plain turns = refl
rows_after_plain Table.events = refl
rows_after_plain Table.records = refl
rows_after_plain Table.recoveries = refl
rows_after_plain Table.questions = refl
rows_after_plain Table.inputs = refl

apply_snapshot_patch-snapshot_patch_example :
    (r : Snapshot Field) × (apply_snapshot_patch previous (snapshot_patch previous next) ≡ some r)
    × (r.event_cursor ≡ 7)
    × ((k : String) (v : Field) → get k (busy ∷ []) ≡ some v → get k r.values ≡ some v)
    × ((t : Table) → SameRows (rows_of (r.rows t)) (rows_of (rows_after t)))
apply_snapshot_patch-snapshot_patch_example =
    apply_snapshot_patch-snapshot_patch previous next rows_before_plain rows_after_plain
      rows_after_unique (λ k. ground arith)

-- Applied again, the patch does not follow.
stale_patch : apply_snapshot_patch next (snapshot_patch previous next) ≡ none
unfolding apply_snapshot_patch snapshot_patch
stale_patch = refl
