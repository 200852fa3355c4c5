-- ===== src/Journal/Requests/Once.antt =====
-- src/host/shared/journal.ts: a request that is repeated, and another request between.
use hopper_pi.Prelude.{
  String, ◌≡◌, refl, inl, inr, Bool, true, false, none, some, [], ◌∷◌, ◌++◌, arith, ◌==◌, eq_iff,
  eq_refl, subst, sym, Option-cases,
}
use hopper_pi.Prelude.Table.{get, get-append_new}
use hopper_pi.Journal.Database.{
  Db, Tx, ok, err, required, Request, Receipt, request_conflict, Result-cases,
}
use hopper_pi.Journal.Requests.{RequestPayload, request, replay, request_keyed}

abbrev is_live : Receipt → Bool
is_live (Receipt.deleted c) = false
is_live r = true

-- The row of the request is in the table, with its payload's hash and a receipt that can be
-- replayed.
unfoldable pub IsStored :
    (RequestPayload → String) → String → RequestPayload → Receipt → Db → Type 0
IsStored hash id p r d =
    (x : Request) × (get id d.requests ≡ some x)
    × ((x.hash == hash p) ≡ true)
    × (x.receipt ≡ r)
    × (is_live r ≡ true)

module _ (hash : RequestPayload → String) (id : String) (p : RequestPayload) (w : Tx Receipt) where
  stored_hit :
      (d d' : Db) (r : Receipt) (x : Request)
      → get id d.requests ≡ some x
      → request hash id p w d ≡ ok (r, d')
      → (d' ≡ d) × ((x.hash == hash p) ≡ true) × (x.receipt ≡ r) × (is_live r ≡ true)
  unfolding request required replay
  stored_hit d d' r x g h = (ground arith, ground arith, ground arith, ground arith)

  stored_miss :
      (d d1 d' : Db) (r b : Receipt)
      → get id d.requests ≡ none
      → w d ≡ ok (b, d1)
      → d1.requests ≡ d.requests
      → request hash id p w d ≡ ok (r, d')
      → (d'.requests ≡ d.requests ++ record { id = id; hash = hash p; receipt = r } ∷ []) × (r ≡ b)
  unfolding request required
  stored_miss d d1 d' r b g f k h = (ground arith, ground arith)

  stored_failed :
      (d d' : Db) (r : Receipt) (e : _)
      → get id d.requests ≡ none
      → w d ≡ err e
      → request hash id p w d ≡ ok (r, d')
      → ⊥
  unfolding request required
  stored_failed d d' r e g f h = ground arith

  -- After a request that succeeded it is stored, if its work leaves the requests alone and makes no
  -- tombstone.
  pub request-IsStored :
      (d d' : Db) (r : Receipt)
      → ((b : Receipt) (e : Db) → w d ≡ ok (b, e) → (e.requests ≡ d.requests) × (is_live b ≡ true))
      → request hash id p w d ≡ ok (r, d')
      → IsStored hash id p r d'
  unfolding IsStored
  request-IsStored d d' r keeps h = elim (Option-cases (get id d.requests)) [
    | inr (x, g) ↦
        let (same, q, e, l) = stored_hit d d' r x g h in
        (x, subst (λ y. get id y.requests ≡ some x) (sym same) g, q, e, l)
    | inl g ↦ elim (Result-cases (w d)) [
      | inl (e, f) ↦ absurd (stored_failed d d' r e g f h)
      | inr (x, f) ↦
          let (rows, q) = stored_miss d x.1 d' r x.0 g f (keeps x.0 x.1 f).0 h in
          (
            record { id = id; hash = hash p; receipt = r },
            rw rows (get-append_new id d.requests _ g (eq_refl id)),
            eq_refl (hash p),
            refl,
            subst (λ y. is_live y ≡ true) (sym q) (keeps x.0 x.1 f).1,
          )
    ]
  ]

  -- A stored request is answered from the table, whatever its work would do now.
  pub request_again :
      (d : Db) (r : Receipt)
      → IsStored hash id p r d
      → required id d ≡ ok (tt, d)
      → request hash id p w d ≡ ok (r, d)
  unfolding IsStored request replay
  request_again d r (x, g, q, e, l) n = ground arith

  -- Under another payload, of another hash, the identity is refused.
  pub request_other :
      (other : RequestPayload) (d : Db) (r : Receipt)
      → IsStored hash id other r d
      → required id d ≡ ok (tt, d)
      → (hash other == hash p) ≡ false
      → request hash id p w d ≡ err request_conflict
  unfolding IsStored request
  request_other other d r (x, g, q, e, l) n c =
      ground
        (arith, eq_iff x.hash (hash other), eq_iff (hash other) (hash p), eq_iff x.hash (hash p))
