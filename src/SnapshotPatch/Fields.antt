-- ===== src/SnapshotPatch/Fields.antt =====
-- Rows that `equal` of src/protocol/snapshot-patch.ts takes for the same have the same fields, where the
-- fields of a row have different names and none is undefined.
use hopper_pi.Prelude.{
  ◌≤◌, ◌<◌, String, ◌≡◌, refl, sym, ◌∙◌, inl, inr, Bool, true, false, ◌&&◌, not, [], ◌∷◌, arith,
  ◌==◌, eq_iff, eq_refl, any, all, delete_where, length, Bool-cases,
}
use hopper_pi.Prelude.Table.{get}
use hopper_pi.SnapshotPatch.{
  Value, text, number, null, undefined, field_keyed, Row, field, is_same, value_of, equal,
}

abbrev names : String → Row → Bool
names k row = any (λ f. f.name == k) row

abbrev is_given : Value → Bool
is_given undefined = false
is_given _ = true

-- As parsed from JSON.
abbrev pub is_plain : Row → Bool
is_plain [] = true
is_plain (f ∷ row) = not (names f.name row) && is_given f.value && is_plain row

is_same_sound : (v w : Value) → is_same v w ≡ true → v ≡ w
unfolding is_same
is_same_sound (text a) (text b) h = ground (arith, eq_iff a b)
is_same_sound (number a) (number b) h = ground (arith, eq_iff a b)
is_same_sound null null h = refl
is_same_sound undefined undefined h = refl
is_same_sound (text a) (number b) h = ground arith
is_same_sound (text a) null h = ground arith
is_same_sound (text a) undefined h = ground arith
is_same_sound (number a) (text b) h = ground arith
is_same_sound (number a) null h = ground arith
is_same_sound (number a) undefined h = ground arith
is_same_sound null (text b) h = ground arith
is_same_sound null (number b) h = ground arith
is_same_sound null undefined h = ground arith
is_same_sound undefined (text b) h = ground arith
is_same_sound undefined (number b) h = ground arith
is_same_sound undefined null h = ground arith

delete_named :
    (k : String) (b : Row)
    → names k b ≡ true
    → length (delete_where (λ f. f.name == k) b) < length b
delete_named k [] h = ground arith
delete_named k (f ∷ b) h = ground (arith, delete_named k b, delete_shorter k b)
  where
    delete_shorter : (k : String) (b : Row) → length (delete_where (λ f. f.name == k) b) ≤ length b
    delete_shorter k [] = omega arith
    delete_shorter k (f ∷ b) = ground (arith, delete_shorter k b)

names-delete :
    (j k : String) (b : Row)
    → (j == k) ≡ false
    → names j b ≡ true
    → names j (delete_where (λ f. f.name == k) b) ≡ true
names-delete j k [] n h = h
names-delete j k (f ∷ b) n h =
    ground (arith, eq_iff f.name j, eq_iff f.name k, names-delete j k b n)

-- A row with different names, all of which another one has, is not longer.
fits : (a b : Row) → is_plain a ≡ true → all (λ f. names f.name b) a ≡ true → length a ≤ length b
fits [] b p h = omega arith
fits (f ∷ a) b p h = ground (
  arith,
  delete_named f.name b,
  fits a (delete_where (λ g. g.name == f.name) b) (ground arith)
      (others a (ground arith) (ground arith)),
)
  where
    others :
        (xs : Row)
        → names f.name xs ≡ false
        → all (λ g. names g.name b) xs ≡ true
        → all (λ g. names g.name (delete_where (λ x. x.name == f.name) b)) xs ≡ true
    others [] n h = refl
    others (x ∷ xs) n h = ground (arith, names-delete x.name f.name b, others xs)

not_named : (k : String) (a : Row) → names k a ≡ false → field k a ≡ undefined
unfolding field value_of get
not_named k [] h = refl
not_named k (f ∷ a) h = ground (arith, not_named k a)

given_named : (k : String) (b : Row) → is_given (field k b) ≡ true → names k b ≡ true
given_named k b h = elim (Bool-cases (names k b)) [
  | inl e ↦ e
  | inr e ↦ ground (arith, not_named k b e)
]

field_given :
    (k : String) (a : Row) → is_plain a ≡ true → names k a ≡ true → is_given (field k a) ≡ true
unfolding field value_of get
field_given k [] p h = ground arith
field_given k (f ∷ a) p h = ground (arith, field_given k a)

all_named :
    (p : String → Bool) (a : Row) (k : String)
    → all (λ f. p f.name) a ≡ true
    → names k a ≡ true
    → p k ≡ true
all_named p [] k h n = ground arith
all_named p (f ∷ a) k h n = ground (arith, eq_iff f.name k, all_named p a k)

fields_found :
    (a b todo : Row)
    → ((k : String) → names k todo ≡ true → names k a ≡ true)
    → is_plain a ≡ true
    → all (λ f. is_same (field f.name a) (field f.name b)) todo ≡ true
    → all (λ f. names f.name b) todo ≡ true
fields_found a b [] w p h = refl
fields_found a b (f ∷ todo) w p h = ground (
  arith,
  eq_refl f.name,
  w f.name,
  field_given f.name a p,
  is_same_sound (field f.name a) (field f.name b),
  given_named f.name b,
  fields_found a b todo (λ k n. w k (ground arith)) p,
)

pub equal_fields :
    (a b : Row) (k : String) → equal a b ≡ true → is_plain a ≡ true → field k a ≡ field k b
unfolding equal
equal_fields a b k e p = elim (Bool-cases (names k a)) [
  | inl n ↦
      is_same_sound (field k a) (field k b)
        (all_named (λ j. is_same (field j a) (field j b)) a k (ground arith) n)
  | inr n ↦ elim (Bool-cases (names k b)) [
    | inr m ↦ not_named k a n ∙ sym (not_named k b m)
    | inl m ↦ absurd (
        ground (
          arith,
          fits (record { name = k; value = null } ∷ a) b (ground arith)
              (ground (arith, fields_found a b a (λ j h. h) p)),
        ))
  ]
]
