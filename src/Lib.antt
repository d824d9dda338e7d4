-- ===== src/Lib.antt =====
-- A verification library for rag-ai-system, a Go service that indexes a vault of markdown notes and
-- answers questions over it. An indexing pass walks the vault (internal/vault), saves each changed
-- note with its chunks (internal/chunk, internal/storage), removes the notes whose files are gone
-- and embeds the new chunks (embed). A question is embedded, the nearest chunks are found, and a
-- prompt built from them (rag) goes to a model (knowledge). The HTTP server (internal/httpapi)
-- offers both, and calls of other services are retried (backoff).
--
-- Files and the code that they model:
--   Prelude, Text    no code: numbers, lists, results; strings, strings.TrimSpace, bufio.Scanner,
--                    the bytes of a string, and net/url in Text/Url
--   Chunk            internal/chunk/cut.go: Cut, extractParagraphs, splitByRunes
--   Backoff          backoff/backoff.go: Mark, Policy, Do, delay, sleep; backoff/http.go:
--                    MarkTransport, IsTransientStatus, and ParseRetryAfter in RetryAfter;
--                    GoogleHint: backoff/google.go, and classifyGoogleErr
--   Http             what the clients of embed and llm share: a POST, its answer, its failures
--   Embed            embed/embed.go: Space, Validate, Slug, sanitize, Provider, checkResult;
--                    embed/middleware.go: WithRetry, WithRateLimit, Batched; OpenAi, Ollama,
--                    Google, Fake and Factory: the files of those names in embed
--   Llm              llm/llm.go, llm/middleware.go, llm/stub.go; OpenAi: llm/openai.go and
--                    llm/openrouter.go; Ollama, Google and Factory: the files of those names
--   Rag              rag/prompt.go: Ref, BuildUserPrompt, Sources
--   Vault            internal/vault/parser.go: yamlParser; Vault/Scan: internal/vault/vault.go
--   Storage          internal/storage/upsert.go: SaveNoteWithChunks; embeddings.go: PendingChunks,
--                    SaveEmbeddings, Stats, DeleteMissingNotes; Spaces: spaces.go, EnsureSpace
--                    and Spaces; Search: the statement of search.go; Dsn: postgres.go, DSNFromEnv
--                    and NewPool; Keys: the constraints that the migrations declare;
--                    Migrate: internal/migrate/migrate.go, Up
--   Knowledge        knowledge/knowledge.go: Index, embedPending, Search, Ask, and in Open the
--                    functions Open, Close and Stats, with knowledge/config.go; Postgres:
--                    knowledge/postgres.go; Ask and Cites: internal/storage/search.go, Search
--   Config           internal/config/env.go
--   Cmd              cmd/ingest/main.go, cmd/ask/main.go, cmd/server/main.go: run
--   Httpapi          internal/httpapi: auth.go and the guard of Serve, reindex.go, middleware.go,
--                    handlers.go with the lines that respondUpstreamError logs; Stack: Handler of
--                    server.go, its routes and the request id; Server: Serve from the start of its
--                    goroutine on; Listen in it: Run and the guard of Serve; Contexts in it:
--                    withTimeout and the contexts of requests and of the shutdown
--   Testdb           internal/testdb/testdb.go: New, NewRaw and replaceDatabase
-- The modules below one of these hold its lemmas and are named for what they prove; Tests modules
-- run the theorems on concrete inputs.
--
-- State. The tables are lists of rows in `Db`, and a transaction that fails returns the tables
-- it began with. DeleteMissingNotes deletes notes, and the model what its ON DELETE CASCADE
-- takes with them: chunks without a note and vectors without a chunk, the same on tables that
-- satisfy their foreign keys. chunk_index, a SMALLINT of the schema, has no upper bound here.
-- Rows of notes and chunks get their ids from counters without the gaps that a sequence of
-- Postgres can have; `Catalog` keeps the identity of embedding_spaces with its gaps. The state
-- of providers, contexts and clocks is a type parameter that calls pass on. Background indexing
-- is a step relation: each critical section of the mutex is one step. So is Serve: a step is a
-- request that comes or is answered, a failure of the listener, a receive, the cancellation, or
-- one of the two ends of Shutdown.
--
-- Numbers and text. A string is the list of its runes, which stands for valid UTF-8; Auth and
-- Text/Url work on bytes. Go's int is an unbounded integer `ℤ`, so sums that would overflow an int
-- are beside the model, but for ParseRetryAfter, whose product wraps around in 64 bits. A duration
-- is a count of nanoseconds and a delay is a whole number of them, where the code rounds a float64.
-- Floats are a parameter type with their operations. An error keeps the fixed part of its text.
-- sort.Slice may leave elements of the same index in any order, and the model keeps theirs.
--
-- Fuel. The split of a paragraph runs on its length plus one, Do on `MaxAttempts` as it is
-- normalized, Batched on the number of texts, embedPending on the number of chunks that wait plus
-- one and its inner loop on the number that it has read, and decimal digits on the number plus one.
-- Every round takes one rune, one attempt, one text, one chunk or one digit at least.
--
-- Parameters, since their code is not in the repository: SHA-256, unicode.ToLower and the classes of
-- unicode, the parsers of strconv and time, the entries that filepath.WalkDir visits with what
-- reading them gives, whether a statement or a transaction of the database fails, pgxpool, goose,
-- the distance of two vectors and its order, an HTTP exchange, the client of genai, the rate limiter,
-- random draws, JSON coding, and what net.Listen gives.
--
-- Not modelled: the SQL of the migrations and what goose does with it; that an hnsw index answers a
-- search approximately, where the model has the rows that the statement asks for; the quoting of
-- identifiers by pgx; the limit on how much of a provider's answer is read; what a
-- handler does once its time limit has passed; the socket timeouts of http.Server; the parsing of
-- flags, signals and the wording of what the commands print.
pub mod Cmd
pub mod Prelude
pub mod Text
pub mod Chunk
pub mod Backoff
pub mod Http
pub mod Embed
pub mod Llm
pub mod Rag
pub mod Vault
pub mod Storage
pub mod Testdb
pub mod Knowledge
pub mod Config
pub mod Httpapi
