-- ===== src/Lib.antt =====
-- The ingestion service of BidPilot (services/ingestion/bidpilot_ingestion).
--
-- The service keeps one PostgreSQL database. A scheduler turns the schedules of the sources and a table
-- of periodic jobs into rows of a job queue. Workers claim jobs, run the handler of the job's kind in a
-- transaction, and record its end. Handlers write notices, events and notifications, and put follow-up
-- jobs into the same queue.
--
--   Prelude    Boolean tests, lists, results and the exceptions of the code.
--   Store      The tables as lists of rows (packages/db/prisma/schema.prisma) and the monad of a
--              transaction: a function of the database that returns a value with a new database, or an
--              exception with none, which is the rollback.
--   Queue      queue.py. `enqueue_with`, `claim`, `complete`, `fail`, `reclaim_stale` and `queue_depth` are
--              the functions of the same names, the SQL of each written as a function on the rows.
--              Queue/Lifecycle is the step relation of any number of workers in any order.
--   Sources    The source registry in pipeline.py: `load_source` and `record_fetch_failure`.
--   Worker     worker.py: `process_one` over a table of handlers, which is a parameter.
--   Scheduler  scheduler.py: the cron parser, `cron_matches`, `time_bucket` and `tick`.
--   Health     health.py: `evaluate`, `should_page` and `run_source_health`.
--   Tenancy    db.py and alerts.py: the context that the row policies read, `assert_policy_bound` and
--              `set_org_context`. A query under a context sees the rows of that organisation.
--   Alerts     alerts.py: `working_days_before` (Days), `due_deadline_alerts` (Due),
--              `run_deadline_alerts` (Run), `run_vault_freshness` (Vault) and
--              `escalate_unacknowledged` (Escalate). The clock of the database and the argument `now` are
--              the same instant.
--   Canonical  canonical.py: the canonical notice over a type of amounts, and its validators (Clean).
--   Matching   matching.py: `apply_hard_filters` (Filters), `score_notice` without its texts for the
--              reader (Score) and `run_funnel` (Funnel). The type of amounts with its order,
--              `normalize_text`, floating-point operations and the score that the funnel uses are
--              arguments.
--   Gateway    ai/cache.py (Cache) and ai/gateway.py: one request to a model with its circuits, attempts
--              and fallbacks (Call), and behind the cache (Complete). The provider is an argument that may
--              answer each call differently.
--   Fetch      pipeline.py: `build_adapter`, `store_raw` and `run_source_fetch`; the adapters are an argument.
--   Dedupe     dedupe.py: `normalize_buyer_name` (Names), the measures of similarity (Similar),
--              `same_tender` (Verdict), `merge` (Merge) and `cluster_notices` (Clusters). Floating-point
--              operations and Unicode tables are arguments.
--   Pipeline   pipeline.py: `upsert_notice` (Upsert), `_load_canonical` (Load), `run_normalize`
--              (Normalize), `run_dedupe` (Cluster) and `run_match` (Match). The adapters and the score are
--              arguments. A stored notice is not validated again when it is loaded, and amounts are
--              whole numbers of cents, so that the rounding by the column is not seen. `run_match` does
--              not assert the role that it runs under, so that whether it bypasses the row policies is an
--              argument.
--   Notify     notify.py: `render_notification` (Render), `run_notify_send` (Send) and `run_daily_digest`
--              (Digest). The transport is an argument that may answer each attempt differently, and so is
--              the test by which the mail library refuses a header, which raises.
--   Evals      evals.py: `match_requirements` (Match). The similarity of two texts is an argument.
--   Documents  documents.py: the prompt text, `page_window` and `verify_citation`.
--   Examples   Sample data and runs of the code on them.
--
-- An instant is a number of microseconds since the year 1, and the fields of a calendar date that a cron
-- expression reads are given with it. The time, the worker's name and the random part of identifiers
-- come from the environment record `Env`; drawn identifiers are taken to be new, so that no primary key
-- conflicts. The rows that other open transactions have locked
-- (`FOR UPDATE SKIP LOCKED`) are a predicate that `claim` takes. Two loops run on fuel: the digits of a
-- number are computed in one round more than the number, which is more than it has digits, and a buyer's
-- name is stripped in one round more than it has characters, which is enough because a round that changes
-- it shortens it. Every other loop of the modelled code runs over a list or a number.
--
-- Not modelled: HTTP and the sending of mail, logging, the endless loop of the worker, the parsers of
-- the sources and of inbound mail, the metrics of the evaluation harness, the TypeScript applications,
-- and columns that no modelled code reads.
pub mod Prelude
pub mod Store
pub mod Queue
pub mod Sources
pub mod Worker
pub mod Scheduler
pub mod Health
pub mod Tenancy
pub mod Alerts
pub mod Canonical
pub mod Matching
pub mod Gateway
pub mod Documents
pub mod Fetch
pub mod Dedupe
pub mod Pipeline
pub mod Notify
pub mod Evals
pub mod Examples
