-- ===== src/Lib.antt =====
-- contextql-server: a control plane around the contextql engine. It keeps a catalog of contexts
-- (named sets of entities, some of them materialized), synchronizes memberships from a DeepSee
-- service, answers queries within limits, refreshes contexts on a schedule, and keeps registries
-- and an audit log in SQLite.
--
-- How the parts interact. The synchronizer (app/connectors/deepsee/synchronizer.py) asks the client
-- (client.py) for snapshot pages and change events; the client calls the service with retries and
-- checks every response; the events are filtered, sorted, folded into one delta and handed to the
-- engine's membership store, and then the new watermark and event ids are committed to the state
-- repository (app/repositories/synchronizer_state.py). The store publishes a snapshot through the
-- catalog repository (app/repositories/context_catalog.py), whose promotion is one transaction. The
-- services of app/services stand beside this and write to the audit log. The mock service
-- (mock_service.py) takes the place of a DeepSee endpoint in tests. The handlers of app/api call one
-- service each and turn its end into a status; at start-up the migrations run before the services
-- are made.
--
-- Where what is modelled:
--   Errors            app/connectors/deepsee/models.py, its error classes; `Result` is a call that may
--                     raise, `Exec W` (Errors/Exec) one that also changes a world `W`
--   DeepSee/Models    models.py: ChangeEvent, SnapshotPage, ChangeBatch, CasesResponse
--   DeepSee/Decimal   `int(text)` and the number formats that watermarks and cursors use
--   DeepSee/Auth      auth.py: resolve_credential
--   DeepSee/Client    client.py: fetch_snapshot, fetch_changes, fetch_cases, _call_with_retry and the
--                     validations; Retry, Contract and Calls hold its theorems
--   DeepSee/Mock      mock_service.py; Mock/Pages its `snapshot` and `changes`, Mock/Cases its
--                     `cases`, Mock/Bench puts it into a world with a clock and an environment, and
--                     Mock/Numbered is its event log by the numbers of the events
--   DeepSee/Providers mcp_provider.py and remote_provider.py
--   DeepSee/Sync      synchronizer.py: the paging loops; Sync/Changes is _filter_events and
--                     _fold_events, Sync/Run is bootstrap and sync_once; their children hold
--                     theorems, and Run/Marks, Run/CaughtUp and Run/Returns bring it together with
--                     the log of the mock
--   Sql               BEGIN, statements, COMMIT or ROLLBACK, with a fault at any statement
--   SyncState         synchronizer_state.py: load and commit
--   Repository        the tables of context_catalog.py; Repository/Contexts is save_context,
--                     drop_context, record_execution and load_contexts, Repository/Snapshots is
--                     promote_snapshot and prune_history, Repository/Hydrate is hydrate_runtime,
--                     Repository/Backfill is _backfill_v2_rows, and Repository/Reachable what any
--                     sequence of these calls can reach (Repository/Backed has its lemmas)
--   Database          app/db/connection.py: the migrations, and the connection of the module
--   Services          app/services: Audit, Providers and Identities (over Table), Queries, Scheduler
--                     (tick and _refresh; Scheduler/Threads is start, stop and the loop), and Ddl and
--                     Catalog, the statements and the guards of catalog_service.py, with its update
--                     (Catalog/Updates), its reads (Catalog/Listings) and its preview
--                     (Catalog/Previews)
--   Api               app/api: Api is how a service's end becomes a status; Api/Contexts,
--                     Api/Providers, Api/Registries and Api/Queries are the handlers, with the
--                     constraints of app/models that a request or an answer can fail
--   Examples          the theorems at concrete inputs, and runs of the code
--
-- The representation. Scores are in ten-thousandths, intervals of the scheduler in ten-thousandths
-- of a second, delays in milliseconds; so the jitter and the backoff are exact. The text of a time is
-- the instant that it names, or unreadable, and SQL compares such texts as their instants, which they
-- order alike when all are written in one zone and format. An exception is a value; of its message
-- the code or the leading words are kept. A dict is an association list, a set a list without order.
-- Tables are lists of rows, and the JSON in a column is the value that it holds. Entity ids are
-- natural numbers, as the membership store's bitmaps need.
--
-- Bounds and fuel. The paging loops recurse on the pages that are left, from the source's own limit
-- of 10000 pages (MAX_PAGES), and at zero they raise as the source does. The retry loop recurses on the
-- attempts that are left, from max_retries. So neither has a bound that the source has not. The loop
-- of the scheduler's thread has no end of its own; it is a step relation.
--
-- Parameters. The DeepSee service, the clock, the sleeper and the environment are a record of
-- functions on a world (`Service`); the engine's membership store, its analyzer and its executor,
-- the bitmap codec, SHA-256 and UUIDs are arguments too, as are the values of the engine's
-- EntityKeyType, the runtime that hydration fills, and what a migration script does to the tables.
-- What a theorem needs of them stands among its hypotheses: that a delta has its documented effect,
-- that a counter counts the calls, that logging does not raise.
--
-- Not modelled: start-up and wiring (app/main.py, app/dependencies.py, app/core, app/config.py), which
-- construct the services; app/providers, glue between the engine and the provider objects; the
-- fields of app/models that pass through a handler unchanged; the contextql engine; the locks of the
-- repositories, since a call is one step here, and so is a call of the scheduler's start or stop, where
-- the code takes no lock: two starts at one time are not modelled; logging; and the demo, which prints.
pub mod Prelude
pub mod Errors
pub mod Sql
pub mod SyncState
pub mod Repository
pub mod DeepSee
pub mod Services
pub mod Examples
pub mod Api
pub mod Database
