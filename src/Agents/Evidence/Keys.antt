-- ===== src/Agents/Evidence/Keys.antt =====
-- shared/procuresignal/agents/analysis.py: the keys of a result.
-- A key is cited by a result where an object anywhere in it has the key as its `event_key`.
use procuresignal.Prelude.{
  Bool, Option, String, arith, contains, contains-append, eq_iff, false, inl, inr, none, refl, some,
  str_eq, sym, true, ◌||◌, ◌↔◌, ◌∙◌, ◌≡◌, ◌⊎◌,
}
use procuresignal.Agents.Evidence.{
  Items, Json, Members, array, event_keys_in, get, item, keys_of_items, keys_of_members, member,
  no_items, no_members, object, own_key, scalar, text,
}

mutual
  pub data Cites (key : String) : Json → Type 0 where
    own :
        (ms : Members)
        → get "event_key" ms ≡ some (text key)
        → str_eq key "" ≡ false
        → Cites key (object ms)
    of_member : (ms : Members) → CitesMember key ms → Cites key (object ms)
    of_item : (items : Items) → CitesItem key items → Cites key (array items)

  pub data CitesItem (key : String) : Items → Type 0 where
    head_item : (j : Json) (items : Items) → Cites key j → CitesItem key (item j items)
    tail_item : (j : Json) (items : Items) → CitesItem key items → CitesItem key (item j items)

  pub data CitesMember (key : String) : Members → Type 0 where
    head_member :
        (k : String) (j : Json) (ms : Members) → Cites key j → CitesMember key (member k j ms)
    tail_member :
        (k : String) (j : Json) (ms : Members)
        → CitesMember key ms
        → CitesMember key (member k j ms)

contains-own_key :
    (key : String) (ms : Members)
    → contains key (own_key (get "event_key" ms)) ≡ true
    → (get "event_key" ms ≡ some (text key)) × (str_eq key "" ≡ false)
contains-own_key key ms h = found (get "event_key" ms) h
  where
    found :
        (o : Option Json)
        → contains key (own_key o) ≡ true
        → (o ≡ some (text key)) × (str_eq key "" ≡ false)
    found none h = ground (arith, h)
    found (some scalar) h = ground (arith, h)
    found (some (array items)) h = ground (arith, h)
    found (some (object ms)) h = ground (arith, h)
    found (some (text t)) h = (ground (arith, h, eq_iff t key), ground (arith, h, eq_iff t key))

pub either : (a b : Bool) → (a || b) ≡ true → (a ≡ true) ⊎ (b ≡ true)
either true b h = inl refl
either false b h = inr h

mutual
  unfolding event_keys_in

  pub event_keys_in-Cites :
      (key : String) (j : Json) → contains key (event_keys_in j) ≡ true → Cites key j
  event_keys_in-Cites key scalar h = ground (arith, h)
  event_keys_in-Cites key (text t) h = ground (arith, h)
  event_keys_in-Cites key (array items) h = of_item items (keys_of_items-CitesItem key items h)
  event_keys_in-Cites key (object ms) h =
      elim (either _ _
        (sym (contains-append key (own_key (get "event_key" ms)) (keys_of_members ms)) ∙ h)) [
          | inl mine ↦ let (e, f) = contains-own_key key ms mine in own ms e f
          | inr theirs ↦ of_member ms (keys_of_members-CitesMember key ms theirs)
        ]

  keys_of_items-CitesItem :
      (key : String) (items : Items)
      → contains key (keys_of_items items) ≡ true
      → CitesItem key items
  keys_of_items-CitesItem key no_items h = ground (arith, h)
  keys_of_items-CitesItem key (item j items) h =
      elim (either _ _ (sym (contains-append key (event_keys_in j) (keys_of_items items)) ∙ h)) [
        | inl first ↦ head_item j items (event_keys_in-Cites key j first)
        | inr others ↦ tail_item j items (keys_of_items-CitesItem key items others)
      ]

  keys_of_members-CitesMember :
      (key : String) (ms : Members) → contains key (keys_of_members ms) ≡ true → CitesMember key ms
  keys_of_members-CitesMember key no_members h = ground (arith, h)
  keys_of_members-CitesMember key (member k j ms) h =
      elim (either _ _ (sym (contains-append key (event_keys_in j) (keys_of_members ms)) ∙ h)) [
        | inl first ↦ head_member k j ms (event_keys_in-Cites key j first)
        | inr others ↦ tail_member k j ms (keys_of_members-CitesMember key ms others)
      ]

mutual
  unfolding event_keys_in

  Cites-event_keys_in :
      (key : String) (j : Json) → Cites key j → contains key (event_keys_in j) ≡ true
  Cites-event_keys_in key (object _) (own ms e f) = ground (
    arith,
    e,
    f,
    contains-append key (own_key (get "event_key" ms)) (keys_of_members ms),
    eq_iff key key,
  )
  Cites-event_keys_in key (object _) (of_member ms c) = ground (
    arith,
    contains-append key (own_key (get "event_key" ms)) (keys_of_members ms),
    CitesMember-keys_of_members key ms c,
  )
  Cites-event_keys_in key (array _) (of_item items c) = CitesItem-keys_of_items key items c

  CitesItem-keys_of_items :
      (key : String) (items : Items)
      → CitesItem key items
      → contains key (keys_of_items items) ≡ true
  CitesItem-keys_of_items key _ (head_item j items c) = ground (
    arith,
    contains-append key (event_keys_in j) (keys_of_items items),
    Cites-event_keys_in key j c,
  )
  CitesItem-keys_of_items key _ (tail_item j items c) = ground (
    arith,
    contains-append key (event_keys_in j) (keys_of_items items),
    CitesItem-keys_of_items key items c,
  )

  CitesMember-keys_of_members :
      (key : String) (ms : Members) → CitesMember key ms → contains key (keys_of_members ms) ≡ true
  CitesMember-keys_of_members key _ (head_member k j ms c) = ground (
    arith,
    contains-append key (event_keys_in j) (keys_of_members ms),
    Cites-event_keys_in key j c,
  )
  CitesMember-keys_of_members key _ (tail_member k j ms c) = ground (
    arith,
    contains-append key (event_keys_in j) (keys_of_members ms),
    CitesMember-keys_of_members key ms c,
  )

-- event_keys_in finds a key in a result exactly if some object in it, however deep, has it as its
-- event_key.
pub event_keys_in_iff :
    (key : String) (j : Json) → (contains key (event_keys_in j) ≡ true) ↔ Cites key j
event_keys_in_iff key j = (event_keys_in-Cites key j, Cites-event_keys_in key j)
