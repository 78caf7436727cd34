-- ===== src/Prelude/Sets.antt =====
-- Lists seen as the sets of their elements, for an order that tells elements apart: what `any`, `all`
-- and `min` answer depends on the set alone.
use mathlib.Core.Path.{subst}
use procuresignal.Prelude.{
  Bool, Bool-cases, List, [], all, any, arith, false, if◌then◌else◌, inl, inr, refl, sym, true,
  ◌&&◌, ◌∷◌, ◌≡◌,
}
use procuresignal.Prelude.Order.{IsOrder}
use procuresignal.Prelude.Sorted.{le_refl, min_by, same}

pub eq_of_true : (a b : Bool) → (a ≡ true → b ≡ true) → (b ≡ true → a ≡ true) → a ≡ b
eq_of_true true b f g = sym (f refl)
eq_of_true false true f g = g refl
eq_of_true false false f g = refl

module _ {A : Type 0} (le : A → A → Bool) where
  abbrev pub is_in : A → List A → Bool
  is_in a xs = any (same le a) xs

  -- The same elements, however often and in whatever order.
  abbrev pub HasSameElements : List A → List A → Type 0
  HasSameElements xs ys = (a : A) → is_in a xs ≡ is_in a ys

  pub all-min_by :
      (p : A → Bool) (x : A) (xs : List A) → all p (x ∷ xs) ≡ true → p (min_by le x xs) ≡ true
  unfolding min_by
  all-min_by p x [] h = ground (arith, h)
  all-min_by p x (y ∷ xs) h = all-min_by p (if le x y then x else y) xs (ground (arith, h))

  module _ (o : IsOrder le) where
    pub same→eq : (a b : A) → same le a b ≡ true → a ≡ b
    same→eq a b h = o.antisym a b (ground (arith, h)) (ground (arith, h))

    pub same-flip : (p : A → Bool) (a b : A) → same le a b ≡ true → p b ≡ p a
    same-flip p a b h = subst (λ (c : A). p c ≡ p a) (same→eq a b h) refl

    pub is_in-all :
        (p : A → Bool) (a : A) (xs : List A) → is_in a xs ≡ true → all p xs ≡ true → p a ≡ true
    is_in-all p a [] h k = ground (arith, h)
    is_in-all p a (x ∷ xs) h k = elim (Bool-cases (same le a x)) [
      | inl e ↦ ground (arith, k, same-flip p a x e)
      | inr d ↦ is_in-all p a xs (ground (arith, h, d)) (ground (arith, k))
    ]

    all-of_in :
        (p : A → Bool) (xs : List A) → ((a : A) → is_in a xs ≡ true → p a ≡ true) → all p xs ≡ true
    all-of_in p [] h = refl
    all-of_in p (x ∷ xs) h =
        ground (arith, h x, le_refl le o x, all-of_in p xs (λ a i. h a (ground (arith, i))))

    pub all-HasSameElements :
        (p : A → Bool) (xs ys : List A) → HasSameElements xs ys → all p xs ≡ all p ys
    all-HasSameElements p xs ys h =
        eq_of_true (all p xs) (all p ys)
          (λ k. all-of_in p ys (λ a i. is_in-all p a xs (ground (arith, h a, i)) k))
          (λ k. all-of_in p xs (λ a i. is_in-all p a ys (ground (arith, h a, i)) k))

    -- An element is the least one, when it is there and comes before all.
    pub same-min_by :
        (a x : A) (xs : List A)
        → same le a (min_by le x xs) ≡ (is_in a (x ∷ xs) && all (le a) (x ∷ xs))
    unfolding min_by
    same-min_by a x [] = ground arith
    same-min_by a x (y ∷ xs) = elim (Bool-cases (le x y)) [
      | inl e ↦ rw (e) (ground (arith, e, same-min_by a x xs, o.trans a x y, o.trans x y a))
      | inr d ↦
          rw (d) (ground (arith, d, o.total x y, same-min_by a y xs, o.trans a y x, o.trans y x a))
    ]
