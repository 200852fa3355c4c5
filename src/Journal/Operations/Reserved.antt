-- ===== src/Journal/Operations/Reserved.antt =====
-- src/host/shared/journal.ts, `reserve`: destination after destination.
use hopper_pi.Prelude.{
  String, ◌≡◌, refl, true, none, some, List, [], ◌∷◌, arith, any, Option-cases, Bool-cases, eq_iff,
  ◌++◌, ◌==◌, inl, inr,
}
use hopper_pi.Prelude.Table.{get, get-append, get-append_new}
use hopper_pi.Journal.Rows.{
  Reservation, question_keyed, operation_keyed, reservation_keyed, task_keyed, turn_keyed,
}
use hopper_pi.Journal.Database.{Db, ok, required}
use hopper_pi.Journal.Operations.{Destination, insert_reservations}

pub reserved : String → Destination → Db → Db
reserved op x d = record d {
  reservations =
      d.reservations
      ++ record { destination = x.identity; operation_id = op; baseline = x.baseline } ∷ [];
}

reserve_step :
    (op : String) (x : Destination) (xs : List Destination) (d d' : Db)
    → insert_reservations op (x ∷ xs) d ≡ ok (tt, d')
    → (get x.identity d.reservations ≡ none)
      × (insert_reservations op xs (reserved op x d) ≡ ok (tt, d'))
unfolding insert_reservations required reserved
reserve_step op x xs d d' h = (ground arith, ground arith)

pub reserve_kept :
    (op k : String) (xs : List Destination) (d d' : Db) (r : Reservation)
    → insert_reservations op xs d ≡ ok (tt, d')
    → get k d.reservations ≡ some r
    → get k d'.reservations ≡ some r
unfolding insert_reservations reserved
reserve_kept op k [] d d' r h g = ground arith
reserve_kept op k (x ∷ xs) d d' r h g =
    let (n, rest) = reserve_step op x xs d d' h in
    reserve_kept op k xs (reserved op x d) d' r rest (get-append k d.reservations _ r g)

free_before :
    (op k : String) (x : Destination) (d : Db)
    → get k (reserved op x d).reservations ≡ none
    → get k d.reservations ≡ none
unfolding reserved
free_before op k x d h = elim (Option-cases (get k d.reservations)) [
  | inl e ↦ e
  | inr (r, e) ↦ ground (
    arith,
    get-append k d.reservations
        (record { destination = x.identity; operation_id = op; baseline = x.baseline } ∷ []) r e,
  )
]

abbrev pub IsHeld : String → String → Db → Type 0
IsHeld op k d = (r : Reservation) × (get k d.reservations ≡ some r) × (r.operation_id ≡ op)

pub held :
    (op k : String) (x : Destination) (xs : List Destination) (d d' : Db)
    → insert_reservations op xs (reserved op x d) ≡ ok (tt, d')
    → get k d.reservations ≡ none
    → (x.identity == k) ≡ true
    → IsHeld op k d'
unfolding reserved
held op k x xs d d' h n e =
    (_, reserve_kept op k xs (reserved op x d) d' _ h (get-append_new k d.reservations _ n e), refl)

pub reserves_free :
    (op k : String) (xs : List Destination) (d d' : Db)
    → insert_reservations op xs d ≡ ok (tt, d')
    → any (λ x. x.identity == k) xs ≡ true
    → (get k d.reservations ≡ none) × IsHeld op k d'
reserves_free op k [] d d' h a = ground arith
reserves_free op k (x ∷ xs) d d' h a =
    let (n, rest) = reserve_step op x xs d d' h in
    elim (Bool-cases (x.identity == k)) [
      | inl e ↦
          let free : get k d.reservations ≡ none = ground (arith, n, eq_iff x.identity k) in
          (free, held op k x xs d d' rest free e)
      | inr e ↦
          let (f, g) = reserves_free op k xs (reserved op x d) d' rest (ground arith) in
          (free_before op k x d f, g)
    ]
