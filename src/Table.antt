-- ===== src/Table.antt =====
-- A table as a list of rows under a primary key: SELECT … WHERE key = $1 and UPDATE … WHERE key = $1.
-- The key is unique, so the first row that has it is the only one.
use ai_social_publisher.Common.{
  ℕ, false, ◌≡◌, refl, Option, none, some, List, [], ◌∷◌, ◌++◌, arith, ◌==◌, if◌then◌else◌,
}

module _ {ℓ} {A : Type ℓ} (key : A → ℕ) where
  unfoldable pub find_by : ℕ → List A → Option A
  find_by k [] = none
  find_by k (x ∷ xs) = let rest = find_by k xs in if key x == k then some x else rest

  -- The row with the key of `a` becomes `a`.
  unfoldable pub put_by : A → List A → List A
  put_by a [] = []
  put_by a (x ∷ xs) = let rest = put_by a xs in if key x == key a then a ∷ xs else x ∷ rest

  pub find_by-key : (k : ℕ) (xs : List A) (a : A) → find_by k xs ≡ some a → key a ≡ k
  unfolding find_by
  find_by-key k [] a h = ground arith
  find_by-key k (x ∷ xs) a h = ground (arith, find_by-key k xs a)

  pub find_by-put_by_self :
      (a b : A) (xs : List A) → find_by (key a) xs ≡ some b → find_by (key a) (put_by a xs) ≡ some a
  unfolding find_by put_by
  find_by-put_by_self a b [] h = ground arith
  find_by-put_by_self a b (x ∷ xs) h = ground (arith, find_by-put_by_self a b xs)

  pub find_by-put_by_ne :
      (a : A) (k : ℕ) (xs : List A) → (key a == k) ≡ false → find_by k (put_by a xs) ≡ find_by k xs
  unfolding find_by put_by
  find_by-put_by_ne a k [] h = refl
  find_by-put_by_ne a k (x ∷ xs) h = ground (arith, find_by-put_by_ne a k xs)

  -- A new row at the end hides no row.
  pub find_by-append :
      (k : ℕ) (xs ys : List A) (a : A) → find_by k xs ≡ some a → find_by k (xs ++ ys) ≡ some a
  unfolding find_by
  find_by-append k [] ys a h = ground arith
  find_by-append k (x ∷ xs) ys a h = ground (arith, find_by-append k xs ys a)
