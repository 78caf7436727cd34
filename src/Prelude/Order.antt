-- ===== src/Prelude/Order.antt =====
-- The order of texts by their code points, and of tuples of texts: Python's `<=` on `str` and on
-- `tuple[str, ...]`. A total order is what `sorted` and `min` need for one answer.
use text.Mathlib.TextEquality.{Char-path}
use Prim.Native.Char.{Char, code}
use procuresignal.Prelude.{
  Bool, List, String, [], arith, eq_iff, false, if◌then◌else◌, ltb, refl, str_eq, true, ◌&&◌, ◌==◌,
  ◌||◌, ◌∷◌, ◌≡◌,
}
use mathlib.Core.Path.{ap₂}

pub record IsOrder {ℓ} {A : Type ℓ} (le : A → A → Bool) : Type ℓ where
  pub total : (a b : A) → (le a b || le b a) ≡ true
  pub trans : (a b c : A) → le a b ≡ true → le b c ≡ true → le a c ≡ true
  pub antisym : (a b : A) → le a b ≡ true → le b a ≡ true → a ≡ b

unfoldable pub text_le : String → String → Bool
text_le String.[] t = true
text_le (String.◌∷◌ c s) String.[] = false
text_le (String.◌∷◌ c s) (String.◌∷◌ d t) =
    ltb (code c) (code d) || ((code c == code d) && text_le s t)

unfoldable pub tuple_le : List String → List String → Bool
unfolding text_le
tuple_le [] ys = true
tuple_le (x ∷ xs) [] = false
tuple_le (x ∷ xs) (y ∷ ys) = if str_eq x y then tuple_le xs ys else text_le x y

text_le-total : (a b : String) → (text_le a b || text_le b a) ≡ true
unfolding text_le
text_le-total String.[] b = refl
text_le-total (String.◌∷◌ c s) String.[] = refl
text_le-total (String.◌∷◌ c s) (String.◌∷◌ d t) = ground (arith, text_le-total s t)

text_le_trans : (a b c : String) → text_le a b ≡ true → text_le b c ≡ true → text_le a c ≡ true
unfolding text_le
text_le_trans String.[] b c h k = refl
text_le_trans (String.◌∷◌ x a) String.[] c h k = ground (arith, h)
text_le_trans (String.◌∷◌ x a) (String.◌∷◌ y b) String.[] h k = ground (arith, k)
text_le_trans (String.◌∷◌ x a) (String.◌∷◌ y b) (String.◌∷◌ z c) h k =
    ground (arith, h, k, text_le_trans a b c)

text_le-antisym : (a b : String) → text_le a b ≡ true → text_le b a ≡ true → a ≡ b
unfolding text_le
text_le-antisym String.[] String.[] h k = refl
text_le-antisym String.[] (String.◌∷◌ y b) h k = ground (arith, k)
text_le-antisym (String.◌∷◌ x a) String.[] h k = ground (arith, h)
text_le-antisym (String.◌∷◌ x a) (String.◌∷◌ y b) h k =
    ap₂ (λ (c : Char) (s : String). String.◌∷◌ c s) (Char-path x y (ground (arith, h, k)))
      (text_le-antisym a b (ground (arith, h, k)) (ground (arith, h, k)))

tuple_le-total : (a b : List String) → (tuple_le a b || tuple_le b a) ≡ true
unfolding tuple_le
tuple_le-total [] b = refl
tuple_le-total (x ∷ a) [] = refl
tuple_le-total (x ∷ a) (y ∷ b) =
    ground (arith, eq_iff x y, eq_iff y x, text_le-total x y, tuple_le-total a b)

tuple_le_trans :
    (a b c : List String) → tuple_le a b ≡ true → tuple_le b c ≡ true → tuple_le a c ≡ true
unfolding tuple_le
tuple_le_trans [] b c h k = refl
tuple_le_trans (x ∷ a) [] c h k = ground (arith, h)
tuple_le_trans (x ∷ a) (y ∷ b) [] h k = ground (arith, k)
tuple_le_trans (x ∷ a) (y ∷ b) (z ∷ c) h k = ground (
  arith,
  h,
  k,
  eq_iff x y,
  eq_iff y z,
  eq_iff x z,
  text_le_trans x y z,
  text_le-antisym x y,
  tuple_le_trans a b c,
)

tuple_le-antisym : (a b : List String) → tuple_le a b ≡ true → tuple_le b a ≡ true → a ≡ b
unfolding tuple_le
tuple_le-antisym [] [] h k = refl
tuple_le-antisym [] (y ∷ b) h k = ground (arith, k)
tuple_le-antisym (x ∷ a) [] h k = ground (arith, h)
tuple_le-antisym (x ∷ a) (y ∷ b) h k =
    ground (arith, h, k, eq_iff x y, eq_iff y x, text_le-antisym x y, tuple_le-antisym a b)

pub text_le-IsOrder : IsOrder text_le
text_le-IsOrder = record { total = text_le-total; trans = text_le_trans; antisym = text_le-antisym }

pub tuple_le-IsOrder : IsOrder tuple_le
tuple_le-IsOrder = record {
  total = tuple_le-total;
  trans = tuple_le_trans;
  antisym = tuple_le-antisym;
}
