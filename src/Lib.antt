-- ===== src/Lib.antt =====
-- SafeShield, a question-answering service over insurance policies (backend/). A policy PDF is
-- uploaded, extracted into blocks, cut into chunks, embedded and stored; a question retrieves
-- chunks by two rankings fused into one, and a model answers from them with citations.
-- Accounts, sessions and documents are guarded by the API's routes.
--
-- Each module models one part of backend/app and is named for it. Functions are named as in the
-- source, in this language's spelling.
--
-- Prelude: names from the libraries, lists under Boolean tests, Python's str as a list of code
-- points (Strings), and exceptions with state (Effects).
-- Config: backend/app/config.py, the settings and the check that refuses an unsafe production
-- start.
-- Auth: backend/app/api/auth.py, backend/app/core/security.py, backend/app/core/deps.py,
-- backend/app/db.py and the models of users and tokens. A request runs on a copy of the
-- database that get_db commits when the handler returns and rolls back when it raises; Routes
-- has the handlers, Service the histories of requests, Cases takes the handlers apart, and
-- Rotation, Kept, Replay, Families, Access and Races hold the proofs.
-- Corpus: backend/app/models/document.py and backend/app/models/chunk.py, the rows and who may
-- see them.
-- Rag: backend/app/rag/retrieve.py, the hybrid query clause by clause (Retrieve), with its
-- decimal scores counted in units of 10^-20 (Score) and ORDER BY as a stable sort (Order);
-- Results, Scope and Fusion hold the proofs.
-- Answer: backend/app/rag/synthesize.py (Synthesize) and backend/app/api/chat.py (Chat). A
-- generator is the list of what it yields and counts; Client, Numbering, Refusal and Reach hold
-- the proofs.
-- Extract: backend/app/rag/extract.py, a page as pdfplumber reads it into lines and blocks.
-- Regex is the matcher of Python's re for the source's expressions, which Headings writes down;
-- a repetition has the length of the text as fuel, since every round takes a character.
-- Characters cleans text and renders tables, Lines builds lines, Pages finds running headers
-- and makes the blocks; Lacking, TableLines, Markdown, Bounds, Kept, Boilerplate and Ingested
-- hold the proofs.
-- Chunker: backend/app/rag/chunk.py, with the tokenizer as parameter. Sentences, Headings and
-- Chunks hold the definitions, the other modules the proofs. The loop over a sentence that is
-- too long runs on fuel, which is the sentence's length: every round takes a character at
-- least.
-- Embed: backend/app/rag/embed.py, the batches to the embedding API, the fake vectors (Fake)
-- and the choice of the provider; the loop over batches has the number of texts as fuel, the
-- one that stretches a digest the number of dimensions, and each round of either makes
-- progress.
-- Documents: backend/app/rag/ingest.py (Ingest), backend/app/worker/tasks.py (Worker),
-- backend/app/core/storage.py (Storage), backend/app/core/files.py (Files) and
-- backend/app/api/documents.py (Routes) on one World of tables, files and jobs. An ingestion is
-- two transactions with arbitrary other requests in between; Lifetime interleaves them as
-- steps, Recovery runs the queue after a sweep, Acceptable says which files the validation lets
-- through, and Refinement states what a store promises.
-- Ops: backend/app/api/ops.py, liveness and readiness.
-- Requests: backend/app/core/observability.py (Middleware, with the service inside as an
-- arbitrary function) and backend/app/core/ratelimit.py (RateLimit).
-- Seeding: backend/scripts/seed_corpus.py, the loop over the bundled policies; Updated, Again,
-- Frame, Leaves and Twice follow what one file and then a whole run leave for the next run.
-- Eval: backend/eval/run_eval.py, the cases and their scores (Cases), the run over them (Runs),
-- the summary and the report (Summary) and the comparison with the baseline (Gate); Ranks,
-- Regression, Rounds and Bounds hold the proofs.
--
-- How the parts meet: the routes of Documents put a row, a file and a job into the World;
-- Worker and Ingest turn the file into rows by way of Extract and Chunker; Seeding does the
-- same for the shared corpus; Retrieve reads the rows under the visibility of Corpus; Answer
-- sends what was retrieved, and Eval measures both. Requests stands around every route.
-- Identity comes from Auth as the number of the caller.
--
-- Conventions: a uuid is a number and its text is given by a parameter; instants and durations
-- are numbers of one unit; a float that is only compared is a number that orders alike.
-- Third-party code (Argon2, JWT, SHA-256, Postgres' text search and distance, tiktoken,
-- pdfplumber, the embedding and chat clients) is a parameter, and what a theorem relies on is a
-- hypothesis of it.
--
-- Floats that are computed with (the places and sizes of words, the scores of the evaluation)
-- are an abstract type with the operations that the source uses, a parameter, and so are
-- Unicode's tables where the source asks for digits, word characters or lower case.
--
-- Not modelled: the metrics endpoint and the values of timers, the set-up of logging, the
-- counting of slowapi, the migrations, the wiring of the application, the frontend and the
-- deployment files: they hold no logic of this program's own, or only third-party calls. What
-- only prints (most of the evaluation's report, the log lines of the seeding) is left out. So
-- is a cancellation from outside (the timeout of a job), which the handlers of an ingestion do
-- not catch.
pub mod Prelude
pub mod Config
pub mod Auth
pub mod Corpus
pub mod Rag
pub mod Answer
pub mod Chunker
pub mod Extract
pub mod Eval
pub mod Seeding
pub mod Requests
pub mod Documents
pub mod Embed
pub mod Ops
