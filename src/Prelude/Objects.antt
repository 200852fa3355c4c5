-- ===== src/Prelude/Objects.antt =====
-- Objects whose fields are rows with a key, in the order of insertion.
use hopper_pi.Prelude.{
  String, ◌≡◌, refl, inl, inr, true, false, some, List, [], ◌∷◌, ◌++◌, arith, ◌==◌, eq_iff,
  if◌then◌else◌, Bool-cases, eq_refl, is_some, count,
}
use hopper_pi.Prelude.Table.{Keyed, IsUnique, get, put}

module _ {R : Type 0} ⦃t : Keyed R⦄ where
  -- rows[row.id] = row
  unfoldable pub assign : R → List R → List R
  assign r rows =
      if is_some (get (t.key r) rows) then put (t.key r) (λ x. r) rows else rows ++ r ∷ []

  -- { ...rows, ...news }, and with no rows Object.fromEntries.
  unfoldable pub assign_all : List R → List R → List R
  unfolding assign
  assign_all rows [] = rows
  assign_all rows (r ∷ news) = assign_all (assign r rows) news

  get-put_same :
      (k : String) (r : R) (rows : List R)
      → is_some (get (t.key r) rows) ≡ true
      → get k (put (t.key r) (λ x. r) rows) ≡ (if t.key r == k then some r else get k rows)
  unfolding get put
  get-put_same k r [] h = ground arith
  get-put_same k r (x ∷ rows) h = ground (
    arith,
    eq_iff (t.key x) (t.key r),
    eq_iff (t.key r) k,
    eq_refl (t.key r),
    get-put_same k r rows,
  )

  get-append_same :
      (k : String) (r : R) (rows : List R)
      → is_some (get (t.key r) rows) ≡ false
      → get k (rows ++ r ∷ []) ≡ (if t.key r == k then some r else get k rows)
  unfolding get
  get-append_same k r [] h = refl
  get-append_same k r (x ∷ rows) h = ground (
    arith,
    eq_iff (t.key x) k,
    eq_iff (t.key r) k,
    eq_refl k,
    eq_iff (t.key x) (t.key r),
    get-append_same k r rows,
  )

  get-assign :
      (k : String) (r : R) (rows : List R)
      → get k (assign r rows) ≡ (if t.key r == k then some r else get k rows)
  unfolding assign
  get-assign k r rows = elim (Bool-cases (is_some (get (t.key r) rows))) [
    | inl e ↦ ground (arith, get-put_same k r rows e)
    | inr e ↦ ground (arith, get-append_same k r rows e)
  ]

  get-assign_others :
      (k : String) (rows news : List R)
      → count (λ r. t.key r == k) news ≡ 0
      → get k (assign_all rows news) ≡ get k rows
  unfolding assign_all
  get-assign_others k rows [] h = refl
  get-assign_others k rows (r ∷ news) h =
      ground (arith, get-assign k r rows, get-assign_others k (assign r rows) news)

  -- What objects that are spread have at the name of a new value.
  pub get-assign_all :
      (k : String) (v : R) (rows news : List R)
      → IsUnique news
      → get k news ≡ some v
      → get k (assign_all rows news) ≡ some v
  unfolding assign_all get
  get-assign_all k v rows [] u h = ground arith
  get-assign_all k v rows (r ∷ news) u h = ground (
    arith,
    u k,
    get-assign k r rows,
    get-assign_others k (assign r rows) news,
    get-assign_all k v (assign r rows) news (λ j. omega (arith, u j)),
  )
