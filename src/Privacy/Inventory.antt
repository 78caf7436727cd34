-- ===== src/Privacy/Inventory.antt =====
-- shared/procuresignal/privacy/inventory.py: every table and what it holds about a person. The texts
-- that explain an entry are not modelled.
use procuresignal.Prelude.{List, Option, String, [], none, some, ℕ, ◌∷◌}

pub data SubjectLink : Type 0 where
  user_id_int user_public_id unlinked : SubjectLink

pub data ErasureAction : Type 0 where
  delete anonymise retain : ErasureAction

-- BEHAVIOURAL_RETENTION_DAYS
abbrev pub behavioural_retention_days : ℕ
behavioural_retention_days = 400

pub record PersonalDataTable : Type 0 where
  pub table : String
  pub link : SubjectLink
  pub link_column : Option String
  pub erasure : ErasureAction
  pub retention_days : Option ℕ
  pub retention_column : String
  pub cascades_from : Option String

-- An entry with the dataclass's defaults
abbrev pub linked : String → SubjectLink → String → ErasureAction → PersonalDataTable
linked table link column erasure = record {
  table = table;
  link = link;
  link_column = some column;
  erasure = erasure;
  retention_days = none;
  retention_column = "created_at";
  cascades_from = none;
}

-- `_none`
abbrev pub not_personal : String → PersonalDataTable
not_personal table = record {
  table = table;
  link = unlinked;
  link_column = none;
  erasure = retain;
  retention_days = none;
  retention_column = "created_at";
  cascades_from = none;
}

abbrev pub kept_for : ℕ → String → PersonalDataTable → PersonalDataTable
kept_for days column e = record e { retention_days = some days; retention_column = column }

abbrev pub cascading : String → PersonalDataTable → PersonalDataTable
cascading parent e = record e { cascades_from = some parent }

unfoldable pub inventory : List PersonalDataTable
inventory =
    linked "users" user_id_int "id" delete
    ∷ linked "memberships" user_id_int "user_id" delete
    ∷ kept_for 90 "expires_at" (linked "refresh_tokens" user_id_int "user_id" delete)
    ∷ kept_for 180 "created_at"
        (linked "organization_invitations" user_id_int "invited_by_user_id" anonymise)
    ∷ linked "user_news_preferences" user_public_id "user_id" delete
    ∷ kept_for 14 "surfaced_at" (linked "user_news_feed" user_public_id "user_id" delete)
    ∷ kept_for 30 "created_at" (linked "news_article_matches" user_public_id "user_id" delete)
    ∷ kept_for behavioural_retention_days "last_message_at"
        (linked "chat_conversations" user_public_id "user_id" delete)
    ∷ kept_for behavioural_retention_days "created_at"
        (linked "chat_messages" user_public_id "user_id" delete)
    ∷ kept_for behavioural_retention_days "created_at"
        (linked "search_feedback" user_id_int "user_id" delete)
    ∷ kept_for 180 "created_at" (linked "notifications" user_id_int "recipient_user_id" delete)
    ∷ kept_for behavioural_retention_days "started_at"
        (linked "agent_runs" user_id_int "requested_by_user_id" delete)
    ∷ cascading "agent_runs" (not_personal "agent_steps")
    ∷ cascading "agent_runs"
        (linked "agent_recommendations" user_id_int "decided_by_user_id" anonymise)
    ∷ linked "watchlists" user_id_int "created_by_user_id" anonymise
    ∷ linked "watchlist_entries" user_id_int "added_by_user_id" anonymise
    ∷ linked "alert_rules" user_id_int "created_by_user_id" anonymise
    ∷ linked "audit_log" user_id_int "actor_user_id" retain
    ∷ kept_for 30 "created_at" (not_personal "dead_letters")
    ∷ not_personal "organizations"
    ∷ not_personal "suppliers"
    ∷ not_personal "supplier_aliases"
    ∷ not_personal "article_supplier_mentions"
    ∷ kept_for 14 "ingested_at" (not_personal "news_articles_raw")
    ∷ kept_for 30 "processed_at" (not_personal "news_articles_processed")
    ∷ cascading "news_articles_processed" (not_personal "article_embeddings")
    ∷ kept_for 14 "published_at" (not_personal "risk_events")
    ∷ not_personal "signals"
    ∷ not_personal "signal_metadata"
    ∷ not_personal "signal_supply_chain_impact"
    ∷ not_personal "news_pipeline_runs"
    ∷ not_personal "news_priority_events"
    ∷ not_personal "news_retrieval_runs"
    ∷ not_personal "news_retrieval_source_outcomes"
    ∷ not_personal "news_retrieval_circuits"
    ∷ not_personal "enrichment_cache"
    ∷ not_personal "llm_spend"
    ∷ []
