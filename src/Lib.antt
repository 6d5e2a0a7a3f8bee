-- ===== src/Lib.antt =====
-- Hangar AI keeps memories, documents, skills and policies of the workspaces of an organization. This
-- library models the core of its server, the functions of packages/hangar-server/src/store.rs,
-- packages/hangar-server/src/sharing.rs and packages/hangar-server/src/graph.rs, as functions on the
-- canonical database, on the working memory and on the files of the indexes.
--
-- The parts, the file that models each, and what it stands for:
-- - Prelude: shared names, Boolean tests, lists, texts, the outcomes of fallible code
--   (`anyhow::Result`, with the messages of the source), and machine words. Additions on u32, usize and
--   u128 keep the wrap-around of a release build. A text is a sequence of characters, and `len` counts
--   the bytes of its UTF-8 form.
-- - Platform: the interface to code outside the repository, taken as a parameter by every operation.
--   Platform/Defs is the record of operations and laws for redb tables (get after insert, iteration in
--   the order of the keys), the digest, and the text of a uuid; a call is given the uuids that it draws
--   and the times that it reads, by their places in the source. Platform/Sample fills the record with
--   lists of rows. Platform/Rows and Platform/Exclusive hold the lemmas on rows and on tables in which
--   no two rows clash. That the iteration of a table with text keys gives each row under the key that
--   finds it is a hypothesis of the theorem that needs it (IsOnce of Projections/Rebuild/Removals).
-- - Types: the structs and enums, one file for each group. A uuid is its number, an f32 its bit
--   pattern.
-- - Database and Store: the redb tables as a record, and the database with the working memory.
-- - Scope: `Role::allows`, `ensure_scope`, `validate_scope`, `validate_catalog_name`.
-- - Events: `insert_audit_event`, `insert_outbox_event`, `audit`.
-- - Keys: `issue_api_key_for_subject` and `authenticate`.
-- - Outbox: `list_outbox_events`, and a reader who follows its cursor.
-- - Memory: `create_memory`, `transition_memory`, `expire_due_memories`, `get_memory`.
-- - Working: `create_working_session`, `get_working_session`, `append_working_memory`,
--   `update_working_summary`. These act in process memory, and what they prune stays pruned when they
--   fail.
-- - Promotion: `promote_working_memory`, from a working session to a proposed memory, and in
--   Promotion/Limited `promote_working_memory_with_limits`.
-- - Ingestion: `enqueue_document`, `claim_next_ingestion_job`, `fail_claimed_ingestion_job`,
--   `retry_dead_letter_ingestion_job`, `recover_incomplete_ingestion_jobs` and the reads.
-- - Chunks: `chunk_text`, with the parts of a long paragraph cut by bytes and decoded as
--   `from_utf8_lossy` does.
-- - Graph: `extract` and `query_terms` of graph.rs, with the Unicode tables as the parameter `Letters`;
--   in Graph/Store `materialize_graph_chunks`, and in Graph/Traversal the walk of `graph_candidates`.
-- - Floats: the arithmetic of f32 on bit patterns and `total_cmp`, as a parameter.
-- - Projections: `process_claimed_ingestion_job`, with its first transaction in Projections/Prepare (the
--   ANN keys in Projections/Keys), the rows that a new generation is made of in Projections/Publish, and
--   its second transaction in Projections/Confirm; in Projections/Rebuild `rebuild_graph_workspace`. The
--   vector and text indexes, which stand on usearch,
--   tantivy and an embedding model (vector.rs and text.rs), are the parameter `Indexing`: operations that
--   replace and search files, and may fail.
-- - Sharing and Shares: the audiences and review states of sharing.rs, `propose_memory_share` and
--   `review_memory_share`.
-- - Guardrails: `create_guardrail_policy`, `transition_guardrail_policy`, `evaluate_guardrail`.
-- - Skills: `create_skill`, `transition_skill`, `get_published_skill`.
-- - Listings: `list_guardrail_policies`, `list_published_skills`, `list_memory_shares`, which sort.
-- - Quotas: `workspace_usage` and the operations with limits.
-- - Context: `compile_context_package`. The words of a query, the counting of their matches and the
--   ranks of sources among retrieved chunks are a parameter.
-- - Retrieval: `retrieve` on memories, and in Retrieval/Chunks `retrieve_chunks`, which fuses the scores
--   of the three indexes for chunks that canonical storage shows as ready; in Retrieval/Graph
--   `retrieve_graph`.
-- - Tests: concrete runs of the operations.
--
-- An operation on the database gives the new database with its result, or the error of a transaction
-- that redb discards. Operations on one store follow one another, since the server holds it under a
-- lock, so interleavings are sequences of steps: each part has a step relation with one constructor for
-- each operation, and its closure. The steps that draw a uuid for a new row have the premise that no row
-- has it. Every loop goes over the rows of a table or over a list, by structural recursion, but for two.
-- The walk over the graph has one round for each seed and one for each of the 128 edges that it may
-- follow: a round takes a vertex from the queue, and only an edge that was followed adds one. The search
-- for a free ANN key has one round more than there are keys in use, since each round passes one of them.
-- (See Graph/Traversal/Ends and Projections/Keys/Fresh.)
--
-- Not modelled: the rebuilding of all workspaces at the start (`reconcile_*`), that of the text index
-- (`rebuild_text_workspace`) and the cleanup of old
-- generations, whose errors the source ignores; the indexes inside vector.rs and text.rs; blobs and their
-- files; the export of a workspace; backups; and the HTTP,
-- gRPC, MCP and command-line layers.
pub mod Prelude
pub mod Platform
pub mod Types
pub mod Database
pub mod Scope
pub mod Sharing
pub mod Events
pub mod Memory
pub mod Working
pub mod Store
pub mod Keys
pub mod Outbox
pub mod Promotion
pub mod Chunks
pub mod Floats
pub mod Graph
pub mod Ingestion
pub mod Guardrails
pub mod Shares
pub mod Skills
pub mod Listings
pub mod Projections
pub mod Quotas
pub mod Context
pub mod Retrieval
pub mod Tests
