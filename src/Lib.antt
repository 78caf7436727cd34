-- ===== src/Lib.antt =====
-- ProcureSignal: procurement intelligence. Retrieval workers fetch articles under leases and
-- circuits, an enrichment run reads them within a budget, agents and scoring read what was stored,
-- and the API serves it behind rate limits. This library models the parts that decide what may
-- happen: each is a record of state with one function for each operation.
--
-- RateLimit: api/rate_limit.py. `Windows` is `RateLimiter._attempts`; `check`, `record_attempt`
--   (`record`), `prune` (`_prune`) and `evict_expired` (`_evict_expired`) are its methods. An
--   IndexError or ValueError is `none`. RateLimit.Shared is
--   `RedisWindow`, on sorted sets as lists of scores.
-- Enrichment.Budget: shared/procuresignal/enrichment/budget.py. `Spend` is a row of LlmSpend;
--   `consume`, `consume_overage`, `within_budget`, `remaining_tokens` are the functions, and
--   Budget.Race the interleavings of their statements.
-- Enrichment.Policy: shared/procuresignal/enrichment/policy.py, `EnrichmentBudget` and the
--   validation of `EnrichmentPolicy`.
-- Enrichment.Router, Enrichment.Cache and Enrichment.Pipeline: shared/procuresignal/enrichment,
--   router.py, cache.py and pipeline.py. `process_raw_articles` folds `process_one` over the selected
--   articles on a `State` of tables, budget and metrics; the analyses and the model are a `Models`.
-- Retrieval.Circuit, Retrieval.RunLease and Retrieval.SourceLease:
--   shared/procuresignal/retrieval/audit.py, the methods of `RetrievalAuditRepository` on circuits,
--   on runs and on the outcome of each source in a run. The orchestrator and the fetcher call them.
--   `claim_source` reads before it updates, so `claim_seen` is given what it has read; the `commit`
--   flag of the methods is not modelled.
-- Retrieval.Dedup and Retrieval.Persistence: shared/procuresignal/retrieval/deduplication.py and
--   persistence.py. Groups are an association list by fingerprint, `sorted` and `min` those of
--   Prelude.Sorted by a total order (Prelude.Order). The times of an article are of any type that a
--   `Library` gives the texts of, and stored articles have them as the texts of isoformat().
-- Retrieval.Orchestrator: shared/procuresignal/retrieval/orchestrator.py. Orchestrator.Claim is
--   `_claim`, `retrieve_source` is `_source`, and Orchestrator.Sources is `run`, on a `World` of all
--   tables that the others change between the statements.
-- Retrieval.Fetcher: shared/procuresignal/retrieval/fetching.py, `SafeFetcher` on a network that may
--   reply anything, with a `CircuitStore` that the methods of Retrieval.Circuit fill. A fetch gives a
--   result or raises, and what `_attempt` does not catch, as the ValueError of urljoin, is none.
-- Agents.Loop: shared/procuresignal/agents/loop.py. The model client and the dispatcher are the
--   functions of a `World`; the budget is that of Enrichment.Budget, with no other worker.
-- Agents.Evidence: shared/procuresignal/agents/analysis.py, which runs the loop with results in JSON
--   and stores the recommendations whose evidence the tools returned. The parsing of the model's
--   text is a parameter, as its texts are not modelled.
-- Auth.Store, Auth.Sessions and Auth.Access: shared/procuresignal/auth/service.py (sign-in,
--   rotation and revocation) on the tables of models/auth.py, with
--   `resolve_access_token` and `require_role` of api/dependencies.py. `Request` and `serve` are the
--   handlers of api/routers/auth.py that call them, each with its commit. Hashing, password checks
--   and random values are parameters. Auth.Registration is
--   `register`, `create_invitation` and `_redeem_invitation`; slugs of organizations are not modelled.
-- Notifications.Outbox: shared/procuresignal/notifications/outbox.py and the drain of
--   transports/in_app.py. The texts of notifications are not modelled.
-- Notifications.Rules: shared/procuresignal/notifications/rules.py, the evaluation whose matches are
--   queued. Rules.Create is `create_alert_rule`.
--
-- Privacy: shared/procuresignal/privacy/inventory.py and subject.py, and
--   shared/procuresignal/jobs/retention.py. A row is a function from columns to cells, and what the
--   foreign keys do is the function `on_delete`. The values of an export are cells, and the dates
--   and the person's own fields in it and in a receipt are not modelled.
--
-- A table is the list of its rows (Prelude.Table); an UPDATE or a SELECT of the source is a
-- function on it, with NULL compared as SQL does. Other code runs between two statements wherever
-- the source awaits, and the relations and call lists of the modules say so. Texts are native
-- strings, numbers are natural numbers, and times are seconds or microseconds. Loops are structural
-- recursions, so no fuel is needed.
--
-- Not modelled: web handlers, schemas, migrations, model clients, text rules and floating-point
-- scores, and the parts that only move data between them.
pub mod Prelude
pub mod RateLimit
pub mod Privacy
pub mod Enrichment
pub mod Retrieval
pub mod Agents
pub mod Auth
pub mod Notifications
