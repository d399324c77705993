-- ===== src/Lib.antt =====
-- A verification library for the OmniAI backend (backend/app).
--
-- The backend serves chat over a user's documents. Middlewares filter requests, routes call the
-- services, and the services keep rows in SQL tables, chunks in a vector store and files on disk.
-- Modelled are the parts with logic of their own, each in a folder named for it:
--   Prelude     tests, lists and texts that the parts share.
--   Rows        the queries of SQLAlchemy that the services use: `filter(...).first()` is
--               `find_first`, `update` is `update_where`, `delete` is `delete_where`.
--   RateLimit   backend/app/services/rate_limit_service.py and the rate limiters of
--               backend/app/middleware/production.py: Limiter is InMemoryRateLimitMiddleware,
--               Redis is RedisRateLimitMiddleware, which falls back on the first.
--   Access      backend/app/core/admin_access.py and backend/app/core/rbac.py, and in Csrf
--               backend/app/middleware/csrf.py with backend/app/core/cookie_auth.py.
--   Workspace   the tables, with Folders (backend/app/services/folder_service.py), Collections
--               (backend/app/services/collection_service.py) and Sessions
--               (backend/app/services/session_service.py).
--   Ingestion   backend/app/services/indexing_progress.py and detect_stale_indexing, with Chunks and
--               Worker (backend/app/services/documents_services.py and ingestion_service.py) and
--               Queue (backend/app/services/ingestion_queue.py). Routes dispatch documents to the
--               queue, workers run ingest_document_record, and clients poll the status.
--   Uploads     upload_document of backend/app/api/upload_routes.py, with Names and Validation
--               (backend/app/core/upload_validation.py) and Security
--               (backend/app/services/upload_security_service.py). It ends in the queue or in the
--               worker of Ingestion.
--   Accounts    backend/app/services/settings_service.py and get_current_user of
--               backend/app/core/security.py, through which Requests sends every operation;
--               a sign-in is get_or_create_oauth_user of backend/app/services/oauth_service.py with
--               the start of a session, and Refresh is refresh_session and logout_session of
--               backend/app/api/oauth_routes.py, which Requests sends too.
--   Caching     backend/app/services/redis_cache_service.py.
--   Routing     backend/app/core/model_catalog.py, backend/app/services/model_router.py and the
--               constructors of backend/app/core/llm.py.
--   Search      backend/app/services/hybrid_search.py.
--   Calculator  backend/app/tools/calculator.py.
--   Chunker     chunk_text of backend/app/rag/chunker.py.
--   Connectors  backend/app/connectors/sync_engine.py.
--   Memory      backend/app/services/user_memory_service.py.
--   Documents   the routes of backend/app/api/upload_routes.py that list, count, watch and delete documents.
--   GitHub      backend/app/services/github_connector_service.py: Account is the connection, Paths,
--               Archive and Download are the files of a repository, and Sync, which ends in the queue of
--               Ingestion, is sync_repository.
--   Notifications  backend/app/services/notification_service.py.
--   Agents      backend/app/agents/scheduler.py (Schedule), backend/app/agents/lifecycle.py,
--               backend/app/agents/executor.py (Runs), and poll_due_agents of
--               backend/app/jobs/agent_jobs.py (Polling), which runs the agents that are due.
-- A function has the name and the arguments of its source; the state that it changes is an
-- argument and a result, and an exception is a value.
--
-- Clocks are natural numbers, in microseconds for the rate limiter and the cache and in seconds
-- for the others; the clock of the agents starts on a Monday. The answer of Redis to the
-- limiter's pipeline, the collation of the database, and whether the analytics tables, the
-- commit, the disk and the vector store work are arguments, and so are the loaders, the text
-- splitter, the embedding model, the handlers of the agents and what RQ answers; so are SHA-256,
-- `json`, password hashing, one-time codes, Unicode's NFKC, the regular expressions of the
-- router, the scanner of uploads, BM25, floats, httpx and tarfile. Text is a list of characters; `lower` and
-- `strip` are those of the ASCII letters and of white space, and `lower` is an argument where it
-- meets other text. A `Db` is the committed state: what a call changed and did not commit is
-- dropped. Time stamps of rows, lengths of columns and foreign keys are left out, but
-- that a row elsewhere may keep the database from deleting a user, as is the decimal text of header
-- values. An order of rows by a time is the database's where it decides on the pages of a list. The loop over the batches of chunks runs on fuel, one
-- unit for each chunk, which is enough since a batch has a chunk at least, and so does
-- chunk_text, for which one unit per character is proved enough; all other functions are
-- structural.
--
-- Not modelled: the other HTTP routes, the requests to language models, loaders, embeddings and the
-- vector store, the exchanges of OAuth, and the single connectors beside GitHub, which call outside services; usage figures,
-- analytics and the marketplace, which copy and add up rows; the frontend.
pub mod Prelude
pub mod Rows
pub mod Access
pub mod Accounts
pub mod Agents
pub mod Caching
pub mod Calculator
pub mod Chunker
pub mod Connectors
pub mod Documents
pub mod GitHub
pub mod Ingestion
pub mod Memory
pub mod Notifications
pub mod RateLimit
pub mod Routing
pub mod Search
pub mod Uploads
pub mod Workspace
