-- ===== src/Prelude/Sorted.antt =====
-- Sorting by a total order: `sorted` of Python, by insertion, and `min`. What they answer depends on
-- the elements alone.
use mathlib.Core.Path.{ap₂, subst}
use procuresignal.Prelude.{
  Bool, Bool-cases, List, [], all, ap, arith, if◌then◌else◌, inl, inr, refl, sym, true, ℕ, ◌&&◌,
  ◌+◌, ◌<◌, ◌∷◌, ◌≡◌,
}
use procuresignal.Prelude.Order.{IsOrder}
use procuresignal.Prelude.Table.{rowcount}

module _ {A : Type 0} (le : A → A → Bool) where
  -- The same element, for an order that is antisymmetric.
  abbrev pub same : A → A → Bool
  same a b = le a b && le b a

  abbrev pub times : A → List A → ℕ
  times a xs = rowcount (same a) xs

  unfoldable pub insert_by : A → List A → List A
  insert_by a [] = a ∷ []
  insert_by a (x ∷ xs) = let rest = insert_by a xs in if le a x then a ∷ x ∷ xs else x ∷ rest

  unfoldable pub sort_by : List A → List A
  unfolding insert_by
  sort_by [] = []
  sort_by (x ∷ xs) = insert_by x (sort_by xs)

  -- `min`, which keeps the first of equal elements.
  unfoldable pub min_by : A → List A → A
  min_by best [] = best
  min_by best (x ∷ xs) = min_by (if le best x then best else x) xs

  abbrev pub IsSorted : List A → Type 0
  IsSorted [] = Unit
  IsSorted (x ∷ xs) = (all (le x) xs ≡ true) × IsSorted xs

  rowcount-insert_by :
      (p : A → Bool) (b : A) (xs : List A)
      → rowcount p (insert_by b xs) ≡ (if p b then 1 else 0) + rowcount p xs
  unfolding insert_by
  rowcount-insert_by p b [] = refl
  rowcount-insert_by p b (x ∷ xs) = ground (arith, rowcount-insert_by p b xs)

  pub rowcount-sort_by : (p : A → Bool) (xs : List A) → rowcount p (sort_by xs) ≡ rowcount p xs
  unfolding sort_by
  rowcount-sort_by p [] = refl
  rowcount-sort_by p (x ∷ xs) =
      ground (arith, rowcount-insert_by p x (sort_by xs), rowcount-sort_by p xs)

  all-insert_by : (p : A → Bool) (a : A) (xs : List A) → all p (insert_by a xs) ≡ (p a && all p xs)
  unfolding insert_by
  all-insert_by p a [] = refl
  all-insert_by p a (x ∷ xs) = ground (arith, all-insert_by p a xs)

  module _ (o : IsOrder le) where
    all-le : (a x : A) (xs : List A) → le a x ≡ true → all (le x) xs ≡ true → all (le a) xs ≡ true
    all-le a x [] h k = refl
    all-le a x (y ∷ xs) h k = ground (arith, h, k, o.trans a x y, all-le a x xs h)

    insert_by-IsSorted : (a : A) (xs : List A) → IsSorted xs → IsSorted (insert_by a xs)
    unfolding insert_by
    insert_by-IsSorted a [] s = (refl, tt)
    insert_by-IsSorted a (x ∷ xs) (h, s) = elim (Bool-cases (le a x)) [
      | inl before_it ↦
          rw (before_it, insert_by) (ground (arith, before_it, all-le a x xs before_it h), (h, s))
      | inr after_it ↦
          rw (after_it, insert_by)
            (
              ground (arith, all-insert_by (le x) a xs, h, after_it, o.total a x),
              insert_by-IsSorted a xs s,
            )
    ]

    pub sort_by-IsSorted : (xs : List A) → IsSorted (sort_by xs)
    unfolding sort_by
    sort_by-IsSorted [] = tt
    sort_by-IsSorted (x ∷ xs) = insert_by-IsSorted x (sort_by xs) (sort_by-IsSorted xs)

    pub le_refl : (a : A) → le a a ≡ true
    le_refl a = ground (arith, o.total a a)

    times-le : (p : A → Bool) (a : A) (xs : List A) → all p xs ≡ true → 0 < times a xs → p a ≡ true
    times-le p a [] h k = ground (arith, k)
    times-le p a (x ∷ xs) h k = elim (Bool-cases (same a x)) [
      | inl e ↦
          subst (λ (y : A). p y ≡ true)
            (sym (o.antisym a x (ground (arith, e)) (ground (arith, e)))) (ground (arith, h))
      | inr d ↦ times-le p a xs (ground (arith, h)) (ground (arith, k, d))
    ]

    -- A sorted list is told by how often it has each element.
    pub sorted_unique :
        (xs ys : List A) → IsSorted xs → IsSorted ys → ((a : A) → times a xs ≡ times a ys) → xs ≡ ys
    sorted_unique [] [] s t h = refl
    sorted_unique [] (y ∷ ys) s t h = ground (arith, h y, le_refl y)
    sorted_unique (x ∷ xs) [] s t h = ground (arith, h x, le_refl x)
    sorted_unique (x ∷ xs) (y ∷ ys) (s, ss) (t, ts) h =
        let head : x ≡ y =
          o.antisym x y
            (times-le (le x) y (x ∷ xs) (ground (arith, s, le_refl x))
              (ground (arith, h y, le_refl y)))
            (times-le (le y) x (y ∷ ys) (ground (arith, t, le_refl y))
              (ground (arith, h x, le_refl x))) in
        ap₂ (λ (z : A) (zs : List A). z ∷ zs) head
          (sorted_unique xs ys ss ts (λ a. ground (arith, h a, ap (λ (z : A). same a z) head)))
