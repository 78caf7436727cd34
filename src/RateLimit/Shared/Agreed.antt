-- ===== src/RateLimit/Shared/Agreed.antt =====
-- api/rate_limit.py: the window in Redis and the in-process one keep the same attempts.
use mathlib.Core.Path.{subst}
use procuresignal.Prelude.{
  All, Bool-cases, List, String, [], ap, arith, eq_iff, eq_refl, false, inl, inr, leb, ltb, refl,
  str_eq, sym, ℕ, ◌++◌, ◌+◌, ◌*◌, ◌<◌, ◌∷◌, ◌∙◌, ◌≡◌, ◌≤◌, keep-append,
}
use procuresignal.RateLimit.{Settings, check, retry_after, second}
use procuresignal.RateLimit.Attempts.{Windows}
use procuresignal.RateLimit.Checked.{check-IsValid, check-eq, live-check, nonempty}
use procuresignal.RateLimit.Laws.{live}
use procuresignal.RateLimit.Recording.{live-noted, noted, noted-IsValid}
use procuresignal.RateLimit.Shared.{
  Backend, SortedSet, added_set, present, pruned_scores, pruned_set, shared_wait, with_set, zadd,
}
use procuresignal.RateLimit.Valid.{IsValid, IsValid-le}

-- Scores up to a time, which leave the window before the key expires.
abbrev pub Within : ℕ → ℕ → ℕ → List ℕ → Type 0
Within window now expires scores = All (λ t. (t ≤ now) × (t + window ≤ expires)) scores

zadd-latest :
    (window now t expires : ℕ) (xs : List ℕ)
    → now < t
    → Within window now expires xs
    → zadd t xs ≡ xs ++ t ∷ []
zadd-latest window now t expires [] h w = refl
zadd-latest window now t expires (x ∷ xs) h w =
    ground (arith, h, w.0.0, zadd-latest window now t expires xs h w.1)

module _ (window : ℕ) where
  pruned-pruned :
      (now later : ℕ) (xs : List ℕ)
      → now ≤ later
      → pruned_scores window later (pruned_scores window now xs) ≡ pruned_scores window later xs
  pruned-pruned now later [] h = refl
  pruned-pruned now later (x ∷ xs) h = ground (arith, pruned-pruned now later xs h)

  pruned-Within :
      (t now expires : ℕ) (xs : List ℕ)
      → Within window now expires xs
      → Within window now expires (pruned_scores window t xs)
  pruned-Within t now expires [] w = tt
  pruned-Within t now expires (x ∷ xs) w = elim (Bool-cases (ltb t (x + window))) [
    | inl l ↦ rw l (w.0, pruned-Within t now expires xs w.1)
    | inr g ↦ rw g (pruned-Within t now expires xs w.1)
  ]

  gone_when_expired :
      (now later expires : ℕ) (xs : List ℕ)
      → Within window now expires xs
      → expires ≤ later
      → pruned_scores window later xs ≡ []
  gone_when_expired now later expires [] w h = refl
  gone_when_expired now later expires (x ∷ xs) w h =
      ground (arith, w.0.1, gone_when_expired now later expires xs w.1 h)

  -- The expiry of a key loses no score that is still inside the window.
  pruned-present :
      (now t later : ℕ) (z : SortedSet)
      → Within window now z.expires_at z.scores
      → t ≤ later
      → pruned_scores window later (present t z) ≡ pruned_scores window later z.scores
  pruned-present now t later z w h = elim (Bool-cases (leb z.expires_at t)) [
    | inl e ↦
        rw e (sym (gone_when_expired now later z.expires_at z.scores w (ground (arith, h, e))))
    | inr e ↦ rw e refl
  ]

  present-Within :
      (now t : ℕ) (z : SortedSet)
      → Within window now z.expires_at z.scores
      → Within window now z.expires_at (present t z)
  present-Within now t z w = elim (Bool-cases (leb z.expires_at t)) [
    | inl e ↦ rw e tt
    | inr e ↦ rw e w
  ]

  Within-latest :
      (now t more expires : ℕ) (xs : List ℕ)
      → now ≤ t
      → Within window now expires xs
      → Within window t (t + (window + more)) (xs ++ t ∷ [])
  Within-latest now t more expires [] h w = ((omega arith, omega arith), tt)
  Within-latest now t more expires (x ∷ xs) h w = (
    (omega (arith, h, w.0.0), omega (arith, h, w.0.0)),
    Within-latest now t more expires xs h w.1,
  )

  Within-le :
      (now t expires : ℕ) (xs : List ℕ)
      → now ≤ t
      → Within window now expires xs
      → Within window t expires xs
  Within-le now t expires [] h w = tt
  Within-le now t expires (x ∷ xs) h w =
      ((omega (arith, h, w.0.0), w.0.1), Within-le now t expires xs h w.1)

-- A property of every key's set, after one of them is replaced.
with_set-every :
    (Q : String → SortedSet → Type 0) (key : String) (z : SortedSet) (b : Backend) (j : String)
    → Q key z
    → (str_eq key j ≡ false → Q j (b j))
    → Q j (with_set key z b j)
with_set-every Q key z b j at_key at_other = elim (Bool-cases (str_eq key j)) [
  | inl e ↦ rw e (subst (λ k. Q k z) ((eq_iff key j).0 e) at_key)
  | inr e ↦ rw e (at_other e)
]

module _ (c : Settings) where
  -- The two windows have the same attempts from `now` on.
  abbrev pub Agree : ℕ → Windows → Backend → Type 0
  Agree now s b =
      IsValid now s
      × ((later : ℕ) (j : String)
          → now ≤ later
          → live c.window later j s ≡ pruned_scores c.window later (b j).scores)
      × ((j : String) → Within c.window now (b j).expires_at (b j).scores)

  pub check-Agree :
      (now t : ℕ) (key : String) (s : Windows) (b : Backend)
      → now ≤ t
      → Agree now s b
      → Agree t (check c key t s).0 (with_set key (pruned_set c key t b) b)
  check-Agree now t key s b h a =
      let v = IsValid-le now t s h a.0 in
      let w = a.2 key in
      (
        check-IsValid c key t s v,
        (λ later j l.
            live-check c key t s later j v l
            ∙ with_set-every
                (λ k z. live c.window later k s ≡ pruned_scores c.window later z.scores) key
                (pruned_set c key t b) b j
                (a.1 later key (omega (arith, h, l))
                  ∙ sym (pruned-present c.window now t later (b key) w l)
                  ∙ sym (pruned-pruned c.window t later (present t (b key)) l))
                (λ e. a.1 later j (omega (arith, h, l)))),
        (λ j.
            with_set-every (λ k z. Within c.window t z.expires_at z.scores) key
              (pruned_set c key t b) b j
              (Within-le c.window now t (b key).expires_at _ h (
                pruned-Within c.window t now (b key).expires_at (present t (b key))
                  (present-Within c.window now t (b key) w)))
              (λ e. Within-le c.window now t (b j).expires_at (b j).scores h (a.2 j))),
      )

  retry_after-shared_wait :
      (t : ℕ) (l : List ℕ) → 0 < c.max_attempts → retry_after c t (nonempty l) ≡ shared_wait c t l
  unfolding retry_after
  retry_after-shared_wait t [] m = ground (arith, m)
  retry_after-shared_wait t (x ∷ l) m = refl

  pub check-answer :
      (now t : ℕ) (key : String) (s : Windows) (b : Backend)
      → 0 < c.max_attempts
      → now ≤ t
      → Agree now s b
      → (check c key t s).1 ≡ shared_wait c t (pruned_set c key t b).scores
  check-answer now t key s b m h a =
      check-eq c key t s
      ∙ retry_after-shared_wait t (live c.window t key s) m
      ∙ ap (shared_wait c t)
          (a.1 t key h ∙ sym (pruned-present c.window now t t (b key) (a.2 key) (omega arith)))

  pub record-Agree :
      (now t : ℕ) (key : String) (s : Windows) (b : Backend)
      → now < t
      → Agree now s b
      → Agree t (noted c key t s) (with_set key (added_set c key t b) b)
  record-Agree now t key s b h a =
      let v = IsValid-le now t s (omega arith) a.0 in
      let w = a.2 key in
      let kept = pruned_scores c.window t (present t (b key)) in
      let within : Within c.window now (b key).expires_at kept =
        pruned-Within c.window t now (b key).expires_at (present t (b key))
          (present-Within c.window now t (b key) w) in
      let latest : zadd t kept ≡ kept ++ t ∷ [] =
        zadd-latest c.window now t (b key).expires_at kept h within in
      (
        noted-IsValid c key t s v,
        (λ later j l.
            with_set-every
              (λ k z.
                live c.window later k (noted c key t s) ≡ pruned_scores c.window later z.scores)
              key (added_set c key t b) b j
              (rw
                (
                  latest,
                  keep-append (λ x. ltb later (x + c.window)) kept (t ∷ []),
                  pruned-pruned c.window t later (present t (b key)) l,
                  pruned-present c.window now t later (b key) w l,
                )
                (ground (
                  arith,
                  live-noted c key t later key s l v,
                  a.1 later key (omega (arith, h, l)),
                  eq_refl key,
                )))
              (λ e.
                ground
                  (arith, e, live-noted c key t later j s l v, a.1 later j (omega (arith, h, l))))),
        (λ j.
            with_set-every (λ k z. Within c.window t z.expires_at z.scores) key
              (added_set c key t b) b j
              (rw latest (
                Within-latest c.window now t (60 * second) (b key).expires_at kept (omega arith)
                  within))
              (λ e. Within-le c.window now t (b j).expires_at (b j).scores (omega arith) (a.2 j))),
      )
