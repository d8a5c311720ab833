-- ===== src/Lib.antt =====
-- A model of memgw, a gateway in front of AI memory providers, and the theorems that make it correct.
--
-- The program. A request names a tenant by its credential and an end-user by a scope. The core
-- (src/memgw/core.py) resolves which provider serves the subject (src/memgw/router.py), checks what
-- that provider can do (src/memgw/degrade.py, src/memgw/capabilities.py), hands the scope under the
-- credential's tenant to the provider's adapter (src/memgw/adapters/base.py), and maps the
-- provider's native ids to gateway ids in the catalog (src/memgw/catalog.py). The routes
-- (src/memgw/server) authenticate a caller and call the core.
--
-- The files.
-- - Types, Types/ScopeLaws: src/memgw/types.py. A constructor of a pydantic model is a function
--   `build_…` that returns the record or raises; `model_copy` is a record update.
-- - Errors: src/memgw/errors.py. An error is its class, code and status. `Result` is an answer or an
--   exception; `Exec` (Exec) is code that changes a state and may raise, where what was written
--   before a raise stays.
-- - Capabilities, Degrade, Degrade/Rules: src/memgw/capabilities.py and src/memgw/degrade.py.
-- - Ids and Catalog: src/memgw/catalog.py. `Schema` has the tables as lists of rows, whose keys an
--   insertion checks; `Store` the state of a catalog and what it reads from outside; `Index` the
--   statements on memory_index; `Mapping` the method `_map` and its callers; `Rows`, `Bindings` and
--   `Journal` the other methods on the tables; `Lifecycle` has `init`, `upgrade` and `schema_state`.
--   The other modules of Catalog hold proofs.
-- - Router, Router/Resolution: src/memgw/router.py.
-- - Adapter: src/memgw/adapters/base.py, as a record of operations on the provider's own state. The
--   modules of Adapters are instances of it: Pgvector is src/memgw/adapters/pgvector.py, a table of
--   rows with its statements (`Table`) and the operations (`Writes`, `Reads`, `Erasing`, `Instance`);
--   Mem0 and Zep are src/memgw/adapters/mem0.py and zep.py, over a client that is a parameter;
--   Registry is src/memgw/adapters/__init__.py. Pgvector/Served puts the core over Pgvector.
-- - Embedding: src/memgw/embedding.py. Settings: src/memgw/settings.py, with the parsers in `Parsing`
--   and the configuration in `Loading`. Client: src/memgw/client.py, the requests and errors of proxy
--   mode (`Remote`) and the verbs in embedded mode (`Embedded`). Cli: src/memgw/cli.py, the checks of
--   `doctor` and `preflight` and the command `migrate` (`Doctor`); `Reports` holds proofs.
-- - Core: src/memgw/core.py. `State` has `MemoryCore` and the world that its verbs change, the
--   catalog and the providers' state; `Internals` the private methods, `Writes` and `Reads` the
--   verbs. The other modules of Core hold proofs.
-- - Server: src/memgw/server/auth.py (`Auth`), and src/memgw/server/routes.py with the bodies of
--   src/memgw/server/schemas.py (`Routes`). `App` has the handlers of exceptions and the middleware of
--   src/memgw/server/app.py. `Credentials`, `Callers` and `Audit` hold proofs.
-- - Observability: src/memgw/observability.py, the log as a list of events in a `Trail`; `Trails` holds
--   proofs.
-- - Prelude and Dict: lists, texts, Boolean tests and Python's dictionaries. Tests: runs.
--
-- Parameters. The clock, the random source, SHA-256, pydantic's dump of an episode and the rows that
-- other processes commit between two statements of `_map` are functions in `Env` (Catalog/Store);
-- each reading of the clock moves the catalog's tick. A provider is an `Adapter P` for any state P.
-- Alembic and SQLAlchemy's inspection of a database are a record with documented laws.
--
-- What the adapters call is a parameter too: an embedder, an extractor, a package's or a service's
-- client, `json.loads`, Python's `str` and `int`, and the arithmetic of floating-point numbers. The
-- module globals of `new_id` have other users, so Pgvector reads them through a function for what these
-- leave there. The order of the rows of a table carries no meaning; the database may refuse a row for
-- a reason of its own, by `refuses`, and comes upon rows of one distance in an order of its own, by
-- `scans`.
--
-- Loops. `_map` makes at most three passes, as in the source, and the model counts them down;
-- `_chunks` takes the number of its elements as fuel, which is enough since each chunk has one at
-- least, and so do the chunks of Pgvector's `delete_scope`. Mem0's `delete_scope` and Zep's `self_test`
-- take fuel as an argument: more than the memories of the scope, and more than the tests of the clock
-- before the deadline, are enough. All else is structural.
--
-- Not modelled. Messages and details of errors, but for their place in a reply; the fields that a verb
-- of the core puts into its event (Server/Audit takes any verb and any fields), and what the handlers
-- of Python's logging do; FastAPI's parsing of a request, and pydantic's of an answer; times and
-- floating-point numbers beyond carrying them and comparing them by a parameter; the database beneath
-- the statements, with its plans, and the migration scripts; the regular expression of `parse_scope`;
-- the wiring of the application and of the command line. An interleaving of processes is modelled
-- where `_map` handles it, in the globals of `new_id`, and
-- nowhere else.
pub mod Prelude
pub mod Dict
pub mod Errors
pub mod Json
pub mod Types
pub mod Capabilities
pub mod Degrade
pub mod Exec
pub mod Observability
pub mod Ids
pub mod Catalog
pub mod Adapter
pub mod Router
pub mod Core
pub mod Embedding
pub mod Adapters
pub mod Settings
pub mod Client
pub mod Cli
pub mod Server
pub mod Tests
