-- ===== src/Prelude/Table.antt =====
-- Database tables as lists of rows in rowid order. A row is found by its primary key; a write by
-- key changes the one row that has it.
use hopper_pi.Prelude.{
  ◌+◌, ◌≤◌, String, ◌≡◌, refl, Bool, true, false, ◌&&◌, not, Option, none, some, List, [], ◌∷◌,
  ◌++◌, arith, ◌==◌, eq_iff, if◌then◌else◌, one, count, count-append, count-le-add, all,
}

pub record Keyed (R : Type 0) : Type 0 where
  pub key : R → String

module _ {R : Type 0} ⦃t : Keyed R⦄ where
  -- SELECT * FROM t WHERE id=?
  unfoldable pub get : String → List R → Option R
  get k [] = none
  get k (r ∷ rs) = if t.key r == k then some r else get k rs

  -- UPDATE t SET ... WHERE id=?
  unfoldable pub put : String → (R → R) → List R → List R
  put k f [] = []
  put k f (r ∷ rs) = if t.key r == k then f r ∷ rs else r ∷ put k f rs

  -- The rows with a smaller rowid than the row of `k`.
  unfoldable pub before : String → List R → List R
  before k [] = []
  before k (r ∷ rs) = if t.key r == k then [] else r ∷ before k rs

  abbrev pub IsUnique : List R → Type 0
  IsUnique rs = (k : String) → count (λ r. t.key r == k) rs ≤ 1

  pub key-get : (k : String) (rs : List R) (r : R) → get k rs ≡ some r → (t.key r == k) ≡ true
  unfolding get
  key-get k [] r h = ground arith
  key-get k (x ∷ rs) r h = ground (arith, key-get k rs r)

  pub count-key_of_get-none :
      (k : String) (rs : List R) → get k rs ≡ none → count (λ r. t.key r == k) rs ≡ 0
  unfolding get
  count-key_of_get-none k [] h = omega arith
  count-key_of_get-none k (x ∷ rs) h = ground (arith, count-key_of_get-none k rs)

  -- A write by key moves the count of a test by what it changes at that row.
  pub count-put :
      (p : R → Bool) (k : String) (f : R → R) (rs : List R) (r : R)
      → get k rs ≡ some r
      → count p (put k f rs) + one (p r) ≡ count p rs + one (p (f r))
  unfolding get put
  count-put p k f [] r h = ground arith
  count-put p k f (x ∷ rs) r h = ground (arith, count-put p k f rs r)

  pub put_missing : (k : String) (f : R → R) (rs : List R) → get k rs ≡ none → put k f rs ≡ rs
  unfolding get put
  put_missing k f [] h = refl
  put_missing k f (x ∷ rs) h = ground (arith, put_missing k f rs)

  -- A test that no write turns on is not counted more often.
  pub count-put-le :
      (p : R → Bool) (k : String) (f : R → R) (rs : List R)
      → ((r : R) → one (p (f r)) ≤ one (p r))
      → count p (put k f rs) ≤ count p rs
  unfolding put
  count-put-le p k f [] h = omega arith
  count-put-le p k f (x ∷ rs) h = ground (arith, h x, count-put-le p k f rs h)

  pub IsUnique-put :
      (k : String) (f : R → R) (rs : List R)
      → ((r : R) → t.key (f r) ≡ t.key r)
      → IsUnique rs
      → IsUnique (put k f rs)
  IsUnique-put k f rs same u j =
      omega (arith, u j, count-put-le (λ r. t.key r == j) k f rs (λ r. ground (arith, same r)))

  pub IsUnique-append :
      (rs : List R) (r : R) → get (t.key r) rs ≡ none → IsUnique rs → IsUnique (rs ++ r ∷ [])
  IsUnique-append rs r h u k = ground (
    arith,
    u k,
    count-append (λ x. t.key x == k) rs (r ∷ []),
    count-key_of_get-none (t.key r) rs h,
    eq_iff (t.key r) k,
  )

  -- Where a key is unique and its row fails the test, only the other rows count.
  pub count_apart :
      (p : R → Bool) (k : String) (rs : List R) (r : R)
      → IsUnique rs
      → get k rs ≡ some r
      → p r ≡ false
      → count p rs ≤ count (λ x. p x && not (t.key x == k)) rs
  unfolding get
  count_apart p k [] r u h n = omega arith
  count_apart p k (x ∷ rs) r u h n = ground (
    arith,
    u k,
    count_apart p k rs r (λ j. omega (arith, u j)),
    count-le-add p (λ x. p x && not (t.key x == k)) (λ x. t.key x == k) rs (λ y. ground arith),
  )

  pub get-append :
      (k : String) (rs qs : List R) (r : R) → get k rs ≡ some r → get k (rs ++ qs) ≡ some r
  unfolding get
  get-append k [] qs r h = ground arith
  get-append k (x ∷ rs) qs r h = ground (arith, get-append k rs qs r)

  -- What a key finds after a write by key that leaves the keys.
  pub get-put :
      (j k : String) (f : R → R) (rs : List R) (r : R)
      → ((x : R) → t.key (f x) ≡ t.key x)
      → get j rs ≡ some r
      → get j (put k f rs) ≡ some (if k == j then f r else r)
  unfolding get put
  get-put j k f [] r same h = ground arith
  get-put j k f (x ∷ rs) r same h =
      ground
        (arith, same x, eq_iff k j, eq_iff (t.key x) j, eq_iff (t.key x) k, get-put j k f rs r same)

  pub get-put_missing :
      (j k : String) (f : R → R) (rs : List R)
      → ((x : R) → t.key (f x) ≡ t.key x)
      → get j rs ≡ none
      → get j (put k f rs) ≡ none
  unfolding get put
  get-put_missing j k f [] same h = refl
  get-put_missing j k f (x ∷ rs) same h = ground (arith, same x, get-put_missing j k f rs same)

  pub get-append_new :
      (k : String) (rs : List R) (r : R)
      → get k rs ≡ none
      → (t.key r == k) ≡ true
      → get k (rs ++ r ∷ []) ≡ some r
  unfolding get
  get-append_new k [] r n h = ground arith
  get-append_new k (x ∷ rs) r n h = ground (arith, get-append_new k rs r)

  -- A test that a write by key keeps at the row it changes holds of all rows afterwards.
  pub all-put :
      (p : R → Bool) (k : String) (f : R → R) (rs : List R)
      → ((r : R) → (t.key r == k) ≡ true → p r ≡ true → p (f r) ≡ true)
      → all p rs ≡ true
      → all p (put k f rs) ≡ true
  unfolding put
  all-put p k f [] h a = refl
  all-put p k f (x ∷ rs) h a = ground (arith, h x, all-put p k f rs h)

  pub all-get :
      (p : R → Bool) (k : String) (rs : List R) (r : R)
      → all p rs ≡ true
      → get k rs ≡ some r
      → p r ≡ true
  unfolding get
  all-get p k [] r a g = ground arith
  all-get p k (x ∷ rs) r a g = ground (arith, all-get p k rs r)
