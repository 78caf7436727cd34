-- ===== src/Privacy/Tests.antt =====
-- One person in three tables of the inventory, and rows on both sides of a window.
use procuresignal.Prelude.{
  arith, All, List, String, [], if◌then◌else◌, none, refl, some, str_eq, ◌∷◌, ◌≡◌,
}
use procuresignal.Privacy.Database.{delete_where, clear_where, Cell, Database, Row, number, words}
use procuresignal.Privacy.Inventory.{inventory}
use procuresignal.Privacy.Subject.{
  User, erase_subject, export_subject, redacted, row_to_dict, shown,
}
use procuresignal.Privacy.Erased.{IsGone, erase-IsGone}
use procuresignal.Privacy.Exported.{export_subject-erase_subject, only_retained}
use procuresignal.Privacy.Retention.{
  IsFresh, RetentionPolicy, default_policy, prune-IsFresh, prune_expired_records,
}

abbrev person : User
person = record { id = 7; public_id = "p-7" }

-- A row of two cells
abbrev row : String → Cell → String → Cell → Row
row c a d b = λ x. if str_eq x c then some a else if str_eq x d then some b else none

abbrev tables : Database
tables table =
    if str_eq table "users"
    then row "id" (number 7) "email" (words "a@b.c")
      ∷ row "id" (number 8) "email" (words "d@e.f")
      ∷ []
    else if str_eq table "chat_messages"
    then row "user_id" (words "p-7") "created_at" (number 100) ∷ []
    else if str_eq table "watchlists"
    then row "created_by_user_id" (number 7) "id" (number 1) ∷ []
    else if str_eq table "audit_log"
    then row "actor_user_id" (number 7) "id" (number 1) ∷ []
    else []

abbrev no_keys : String → List Row → Database → Database
no_keys table rows db = db

erase_subject_receipt :
    (erase_subject no_keys person inventory tables).1.retained ≡ ("audit_log", 1) ∷ []
unfolding erase_subject inventory clear_where delete_where
erase_subject_receipt = refl

erase-IsGone_example :
    All (IsGone person (erase_subject no_keys person inventory tables).0) inventory
unfolding inventory
erase-IsGone_example =
    erase-IsGone no_keys (λ t r db u c v. omega arith) person inventory tables refl

abbrev policy : RetentionPolicy
policy = record { raw_days = 14; processed_days = 30; feed_days = 14; risk_event_days = 14 }

default_policy_example : default_policy inventory ≡ some policy
unfolding default_policy inventory
default_policy_example = refl

prune-IsFresh_example :
    All
      (IsFresh policy 40000000 (prune_expired_records no_keys policy 40000000 inventory tables).0)
      inventory
prune-IsFresh_example =
    prune-IsFresh no_keys policy 40000000 (λ t r db u c v. omega arith) inventory tables

export_subject-erase_subject_example :
    export_subject
      (λ t. "id" ∷ "user_id" ∷ [])
      (λ s. s)
      person
      (erase_subject no_keys person inventory tables).0
      inventory
    ≡ only_retained
        (λ t. "id" ∷ "user_id" ∷ [])
        (λ s. s)
        person
        (erase_subject no_keys person inventory tables).0
        inventory
unfolding inventory
export_subject-erase_subject_example =
    export_subject-erase_subject (λ t. "id" ∷ "user_id" ∷ []) (λ s. s) person no_keys
      (λ t r db u c v. omega arith) inventory tables refl

-- A credential is held, and not handed over.
token_redacted :
    row_to_dict
      (λ t. [])
      (λ s. s)
      ("id" ∷ "token_hash" ∷ [])
      (row "id" (number 7) "token_hash" (words "x"))
    ≡ ("id", shown (some (number 7))) ∷ ("token_hash", redacted) ∷ []
token_redacted = refl
