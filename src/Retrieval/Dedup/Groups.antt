-- ===== src/Retrieval/Dedup/Groups.antt =====
-- The groups of `deduplicate_within_run`: each fingerprint has one, with the articles that have it,
-- and a group's winner is its least article by `_preference`.
use mathlib.Core.Path.{subst}
use procuresignal.Prelude.{
  Bool, Bool-cases, List, String, [], all, arith, eq_iff, eq_refl, if◌then◌else◌, inl, inr,
  is_empty, keep, refl, str_eq, sym, true, ◌&&◌, ◌++◌, ◌∷◌, ◌≡◌,
}
use procuresignal.Prelude.Table.{rowcount}
use procuresignal.Prelude.Sorted.{le_refl, min_by, same, times}
use procuresignal.Prelude.Sets.{all-min_by, eq_of_true, is_in, same-flip, same-min_by, same→eq}
use procuresignal.Retrieval.Dedup.{
  Library, RawArticle, add_to_group, article_fingerprint, group_articles, preference_le, result_le,
  winners,
}
use procuresignal.Retrieval.Dedup.Orders.{TellsApart, preference_le-IsOrder, result_le-IsOrder}

abbrev pub Groups : Type 0 → Type 0
Groups T = List (String × RawArticle T × List (RawArticle T))

-- The articles that a fingerprint's group has.
abbrev pub members : {T : Type 0} → String → Groups T → List (RawArticle T)
members key [] = []
members key ((k, first, more) ∷ groups) = if str_eq k key then first ∷ more else members key groups

append_nil : {T : Type 0} (xs : List (RawArticle T)) → xs ++ [] ≡ xs
append_nil [] = refl
append_nil (x ∷ xs) = ground (arith, append_nil xs)

append_snoc :
    {T : Type 0} (xs : List (RawArticle T)) (a : RawArticle T) (ys : List (RawArticle T))
    → (xs ++ a ∷ []) ++ ys ≡ xs ++ a ∷ ys
append_snoc [] a ys = refl
append_snoc (x ∷ xs) a ys = ground (arith, append_snoc xs a ys)

module _ {T : Type 0} (lib : Library T) where
  abbrev pub has_fingerprint : String → RawArticle T → Bool
  has_fingerprint key a = str_eq (article_fingerprint lib a) key

  -- Every group has the articles of its own fingerprint, and no fingerprint has two groups.
  abbrev pub IsGrouped : Groups T → Type 0
  IsGrouped [] = Unit
  IsGrouped ((k, first, more) ∷ groups) =
      (all (has_fingerprint k) (first ∷ more) ≡ true)
      × (is_empty (members k groups) ≡ true)
      × IsGrouped groups

  members-add_to_group :
      (key k : String) (a : RawArticle T) (groups : Groups T)
      → members key (add_to_group lib k a groups)
        ≡ (if str_eq k key then members key groups ++ a ∷ [] else members key groups)
  unfolding add_to_group
  members-add_to_group key k a [] = refl
  members-add_to_group key k a ((k', first, more) ∷ groups) =
      ground (arith, eq_iff k' k, eq_iff k' key, eq_iff k key, members-add_to_group key k a groups)

  pub members-group_articles :
      (key : String) (groups : Groups T) (articles : List (RawArticle T))
      → members key (group_articles lib groups articles)
        ≡ members key groups ++ keep (has_fingerprint key) articles
  unfolding group_articles
  members-group_articles key groups [] = sym (append_nil (members key groups))
  members-group_articles key groups (a ∷ articles) = ground (
    arith,
    members-group_articles key (add_to_group lib (article_fingerprint lib a) a groups) articles,
    members-add_to_group key (article_fingerprint lib a) a groups,
    append_snoc (members key groups) a (keep (has_fingerprint key) articles),
  )

  all-snoc :
      (p : RawArticle T → Bool) (xs : List (RawArticle T)) (a : RawArticle T)
      → all p (xs ++ a ∷ []) ≡ (all p xs && p a)
  all-snoc p [] a = ground arith
  all-snoc p (x ∷ xs) a = ground (arith, all-snoc p xs a)

  add-IsGrouped :
      (k : String) (a : RawArticle T) (groups : Groups T)
      → has_fingerprint k a ≡ true
      → IsGrouped groups
      → IsGrouped (add_to_group lib k a groups)
  unfolding add_to_group
  add-IsGrouped k a [] h g = (ground (arith, h), refl, tt)
  add-IsGrouped k a ((k', first, more) ∷ groups) h (own, once, g) =
      elim (Bool-cases (str_eq k' k)) [
        | inl e ↦
            rw (e) (
              ground (arith, own, h, e, eq_iff k' k, all-snoc (has_fingerprint k') more a),
              once,
              g,
            )
        | inr d ↦ rw (d) (
          own,
          ground (arith, once, d, eq_iff k k', eq_iff k' k, members-add_to_group k' k a groups),
          add-IsGrouped k a groups h g,
        )
      ]

  pub group-IsGrouped :
      (groups : Groups T) (articles : List (RawArticle T))
      → IsGrouped groups
      → IsGrouped (group_articles lib groups articles)
  unfolding group_articles
  group-IsGrouped groups [] g = g
  group-IsGrouped groups (a ∷ articles) g =
      group-IsGrouped (add_to_group lib (article_fingerprint lib a) a groups) articles
        (add-IsGrouped (article_fingerprint lib a) a groups (eq_refl (article_fingerprint lib a)) g)

  module _ (h : TellsApart lib) where
    same_orders : (a b : RawArticle T) → same (result_le lib) a b ≡ same (preference_le lib) a b
    same_orders a b =
        eq_of_true (same (result_le lib) a b) (same (preference_le lib) a b)
          (λ e.
            subst (λ (c : RawArticle T). same (preference_le lib) a c ≡ true)
              (same→eq (result_le lib) (result_le-IsOrder lib h) a b e)
              (ground (arith, le_refl (preference_le lib) (preference_le-IsOrder lib h) a)))
          (λ e.
            subst (λ (c : RawArticle T). same (result_le lib) a c ≡ true)
              (same→eq (preference_le lib) (preference_le-IsOrder lib h) a b e)
              (ground (arith, le_refl (result_le lib) (result_le-IsOrder lib h) a)))

    -- A winner is an article that comes before all that share its fingerprint.
    pub times-winners :
        (a : RawArticle T) (groups : Groups T)
        → IsGrouped groups
        → times (result_le lib) a (winners lib groups) ≡ (
            if is_in (preference_le lib) a (members (article_fingerprint lib a) groups)
              && all (preference_le lib a) (members (article_fingerprint lib a) groups)
            then 1
            else 0)
    unfolding winners
    times-winners a [] g = refl
    times-winners a ((k, first, more) ∷ groups) (own, once, g) = ground (
      arith,
      once,
      own,
      eq_iff k (article_fingerprint lib a),
      eq_iff (article_fingerprint lib a) k,
      times-winners a groups g,
      same_orders a (min_by (preference_le lib) first more),
      same-min_by (preference_le lib) (preference_le-IsOrder lib h) a first more,
      all-min_by (preference_le lib) (has_fingerprint k) first more own,
      same-flip (preference_le lib) (preference_le-IsOrder lib h) (has_fingerprint k) a
          (min_by (preference_le lib) first more),
    )

  -- A group gives one article, which has its fingerprint.
  pub rowcount-winners :
      (key : String) (groups : Groups T)
      → IsGrouped groups
      → rowcount (has_fingerprint key) (winners lib groups)
        ≡ (if is_empty (members key groups) then 0 else 1)
  unfolding winners
  rowcount-winners key [] g = refl
  rowcount-winners key ((k, first, more) ∷ groups) (own, once, g) = ground (
    arith,
    once,
    own,
    eq_iff k key,
    eq_iff (article_fingerprint lib (min_by (preference_le lib) first more)) key,
    eq_iff (article_fingerprint lib (min_by (preference_le lib) first more)) k,
    rowcount-winners key groups g,
    all-min_by (preference_le lib) (has_fingerprint k) first more own,
  )
