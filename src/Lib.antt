-- ===== src/Lib.antt =====
-- Archiviste Nocilia, the Python workers (workers/src/archiviste_workers) and the export of the Drive folder: a
-- model of what happens to a question about the archives of Nocilia, from the request to the answer and the
-- stored conversation, of the panel that checks a claim against its sources, of the way of a
-- file from Drive into the corpus and its index, and of the evaluation of the workers over golden questions.
--
-- Parts and files:
--   Prelude: shared names, lists, texts as lists of code points, and Boolean tests.
--   Chunk, Acl (services/acl.py): retrieved chunks and `filter_chunks_by_tier`. Acl/Clearance gives
--   the tiers ranks and proves the filter against them.
--   Memory (generate/memory.py, and the owned tail of conversation/repository.py): the window of
--   earlier turns. Memory/Window has its laws.
--   Parser (generate/parser.py): citations and follow-up questions of an answer, the patterns
--   written as scanners in Parser/Brackets and Parser/Followups.
--   Pricing, Llm (generate/pricing.py, services/llm.py): token counts and costs.
--   Injection, Prompt (generate/injection_filter.py, generate/prompt.py): the messages of each mode.
--   Services: the clients that a request reaches. They call other processes, so each is a function
--   from the call to its result, fixed for the run of one request.
--   Intent (services/intent.py), Request (the parse of generate/router.py and generate/models.py).
--   Pipeline (generate/_pipeline.py): a run is the list of its effects in order; Pipeline/Finalized
--   has views of such a list.
--   Router (generate/router.py): the blocking endpoint. Router/Contexts, Router/Decide and
--   Router/Finish follow `_handle_generate`, `_decide_mode` and `_invoke_and_finalize`.
--   Stream (generate/stream_router.py): the streaming endpoint; Stream/Branches has one function for
--   each generator of events.
--   Tickets (services/ticket_service.py): the table of lore-gap tickets.
--   Contradiction (contradiction/): the judges, their majority, the redaction and the ticket policy;
--   Contradiction/Endpoint (contradiction/router.py) is the endpoint over the panel.
--   Token (auth_metadata/token.py): the cache of the access token, each stretch between two awaits a step.
--   Fixtures and the Tests modules: concrete runs.
--   Storage (conversation/gcs_storage.py): the creation of an object and the append of a
--   block to it while others write too; Storage/Writers has many writers as steps of one system.
--   Conversation (conversation/repository.py, models.py): the tables of the conversations and the
--   message of a turn. Conversation/Post (conversation/router.py) is the endpoint `post_message` over
--   the tables and the object of Storage; Conversation/Ordinals has the statements of many requests as steps.
--   Ingest (ingest/): the tables of documents and chunks, with the frontmatter in Ingest/Frontmatter and
--   `process_file` with the loop of the command in Ingest/Pipeline.
--   Drive (scripts/gdrive_export/): the export of the Drive folder into the corpus. Drive/Frontmatter has the
--   frontmatter that is merged and written, Drive/Sync a rendered file and an image against the state of the
--   last run, Drive/Archive, Drive/Tabs and Drive/Turns the other turns of `run_sync`, Drive/Slugs and Drive/Paths
--   the names; Drive/Exported joins the export with the ingestion. Drive/Listing has the walk over the folders,
--   Drive/Sheets the text of a tab, Drive/Docs and Drive/Images the text and the images of a Google Doc, Drive/Sidecars and Drive/Gdocs its turn, and
--   Drive/Whole `run_sync` from the state file to the state file.
--   Retrieve (retrieve/, services/retrieve_client.py): the search endpoint and its client; Retrieve/Asked has it
--   under the query that the generation endpoints ask for.
--   Eval (eval/): the evaluation of the workers over golden questions. Eval/Clients (clients.py) has the requests with their
--   retries, Eval/Entries (ragas_runner.py, stub_llm.py) the questions, Eval/Metrics (metrics.py) the overlap, the recall and
--   the breakdown, Eval/Gates (gates.py) the two gates, Eval/Bump (baseline_skip.py) the change that skips the second one,
--   Eval/Target (oidc.py) which workers are called with a token, and Eval/Runner (ragas_runner.py) `main` from its arguments to the exit code. The other modules below Eval have the proofs.
--
-- Conventions: a score and a distance are held in millionths, a price in cents per million tokens
-- and a cost in millionths of a euro. `str.lower` and the word characters of `re`
-- follow the Unicode tables and are parameters. A read of a clock is a parameter. In Pipeline the outcome of a ticket
-- attempt is a parameter too, of which only the telemetry depends. In Eval a float is an element of a type with the operations
-- that the code uses, so its theorems hold for any rounding and with NaN; the error rate is compared exactly, which is what the
-- floats give for less than 2 ^ 50 entries.
-- Fuel: `leaks_loop` runs on the length of the text, of which every turn takes 24 characters;
-- `attempts` and `attempts_from` run on the four attempts of the source; `show_nat` runs on the number plus one, which is above its count of digits; `list_pages` runs on any fuel, and one
-- more than the folders and next pages of the tree is enough.
--
-- Not modelled: structured logs, the JSON text of events and responses, the SQL of the query
-- log, the providers' clients, the walk over the corpus, the embedding model, the renderer of presentations in the export, the JSON of its state file,
-- of the evaluation its judge, the JSON of its files, its SQL and the call for its token, and the programs beside the workers.
pub mod Prelude
pub mod Chunk
pub mod Acl
pub mod Memory
pub mod Parser
pub mod Pricing
pub mod Llm
pub mod Injection
pub mod Prompt
pub mod Services
pub mod Intent
pub mod Request
pub mod Pipeline
pub mod Router
pub mod Stream
pub mod Tickets
pub mod Contradiction
pub mod Storage
pub mod Conversation
pub mod Ingest
pub mod Drive
pub mod Retrieve
pub mod Eval
pub mod Fixtures
pub mod Token
