-- ===== src/Prelude/Lists.antt =====
-- Lists over the native numbers: length, counting, search.
use Prim.Native.Nat.{ℕ, suc, ◌+◌, ◌≤◌}
use mathlib.Core.Path.{◌≡◌, refl}
use mathlib.Core.Bool.{Bool, true, false, ◌&&◌, ◌||◌}
use mathlib.Core.Option.{Option, none, some}
use mathlib.Core.List.{List, [], ◌∷◌, ◌++◌, map}
use native.Mathlib.Omega.{arith}
use hopper_pi.Prelude.Tests.{if◌then◌else◌}

-- A test as a number, so that counts add up.
abbrev pub one : Bool → ℕ
one true = 1
one false = 0

module _ {ℓ} {A : Type ℓ} where
  abbrev pub length : List A → ℕ
  length [] = 0
  length (x ∷ xs) = suc (length xs)

  pub length-append : (xs ys : List A) → length (xs ++ ys) ≡ length xs + length ys
  length-append [] ys = omega arith
  length-append (x ∷ xs) ys = omega (arith, length-append xs ys)

  abbrev pub count : (A → Bool) → List A → ℕ
  count p [] = 0
  count p (x ∷ xs) = one (p x) + count p xs

  abbrev pub any : (A → Bool) → List A → Bool
  any p [] = false
  any p (x ∷ xs) = p x || any p xs

  abbrev pub all : (A → Bool) → List A → Bool
  all p [] = true
  all p (x ∷ xs) = p x && all p xs

  pub count-append : (p : A → Bool) (xs ys : List A) → count p (xs ++ ys) ≡ count p xs + count p ys
  count-append p [] ys = omega arith
  count-append p (x ∷ xs) ys = omega (arith, count-append p xs ys)

  -- No row passes the test exactly when none is counted.
  pub count_of_not_any : (p : A → Bool) (xs : List A) → any p xs ≡ false → count p xs ≡ 0
  count_of_not_any p [] h = omega arith
  count_of_not_any p (x ∷ xs) h = ground (arith, count_of_not_any p xs)

  pub count_mono :
      (p q : A → Bool) (xs : List A) → ((x : A) → one (p x) ≤ one (q x)) → count p xs ≤ count q xs
  count_mono p q [] h = omega arith
  count_mono p q (x ∷ xs) h = omega (arith, count_mono p q xs h, h x)

  -- A count is the sum of the counts of two tests that cover it.
  pub count-le-add :
      (p q r : A → Bool) (xs : List A)
      → ((x : A) → one (p x) ≤ one (q x) + one (r x))
      → count p xs ≤ count q xs + count r xs
  count-le-add p q r [] h = omega arith
  count-le-add p q r (x ∷ xs) h = omega (arith, count-le-add p q r xs h, h x)

  -- The first row that passes a test, and the last.
  abbrev pub find : (A → Bool) → List A → Option A
  find p [] = none
  find p (x ∷ xs) = if p x then some x else find p xs

  abbrev pub find_last : (A → Bool) → List A → Option A
  find_last p [] = none
  find_last p (x ∷ xs) = elim (find_last p xs) [
    | some y ↦ some y
    | none ↦ if p x then some x else none
  ]

  -- UPDATE t SET ... WHERE ..., and DELETE FROM t WHERE ...
  abbrev pub map_where : (A → Bool) → (A → A) → List A → List A
  map_where p f [] = []
  map_where p f (x ∷ xs) = (if p x then f x else x) ∷ map_where p f xs

  abbrev pub delete_where : (A → Bool) → List A → List A
  delete_where p [] = []
  delete_where p (x ∷ xs) = let rest = delete_where p xs in if p x then rest else x ∷ rest

  pub all-append : (p : A → Bool) (xs ys : List A) → all p (xs ++ ys) ≡ (all p xs && all p ys)
  all-append p [] ys = refl
  all-append p (x ∷ xs) ys = ground (arith, all-append p xs ys)

  pub all-map :
      (p : A → Bool) (f : A → A) (xs : List A)
      → ((x : A) → p x ≡ true → p (f x) ≡ true)
      → all p xs ≡ true
      → all p (map f xs) ≡ true
  all-map p f [] h a = refl
  all-map p f (x ∷ xs) h a = ground (arith, h x, all-map p f xs h)

  abbrev pub keep_where : (A → Bool) → List A → List A
  keep_where p [] = []
  keep_where p (x ∷ xs) = let rest = keep_where p xs in if p x then x ∷ rest else rest

  -- A write to the first row that passes a test.
  abbrev pub update_first : (A → Bool) → (A → A) → List A → List A
  update_first p f [] = []
  update_first p f (x ∷ xs) = if p x then f x ∷ xs else x ∷ update_first p f xs

  -- It moves a count by what it changes at the row found.
  pub count-update_first :
      (p q : A → Bool) (f : A → A) (xs : List A) (x : A)
      → find q xs ≡ some x
      → count p (update_first q f xs) + one (p x) ≡ count p xs + one (p (f x))
  count-update_first p q f [] x h = ground arith
  count-update_first p q f (y ∷ ys) x h = ground (arith, count-update_first p q f ys x)

  pub count-update_first-le :
      (p q : A → Bool) (f : A → A) (xs : List A)
      → ((x : A) → one (p (f x)) ≤ one (p x))
      → count p (update_first q f xs) ≤ count p xs
  count-update_first-le p q f [] h = omega arith
  count-update_first-le p q f (x ∷ xs) h = ground (arith, h x, count-update_first-le p q f xs h)

  pub count-delete_where-le :
      (p q : A → Bool) (xs : List A) → count p (delete_where q xs) ≤ count p xs
  count-delete_where-le p q [] = omega arith
  count-delete_where-le p q (x ∷ xs) = ground (arith, count-delete_where-le p q xs)

  -- A test that follows from another one holds wherever the other does.
  pub all_weaker :
      (p q : A → Bool) (xs : List A)
      → ((x : A) → p x ≡ true → q x ≡ true)
      → all p xs ≡ true
      → all q xs ≡ true
  all_weaker p q [] k h = refl
  all_weaker p q (x ∷ xs) k h = ground (arith, k x, all_weaker p q xs k)
