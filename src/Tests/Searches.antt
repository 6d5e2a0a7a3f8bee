-- ===== src/Tests/Searches.antt =====
-- Runs of the searches, of the graph and of the listings.
use hangar_ia.Prelude.{
  ◌≤◌, All, IsRanked, ℕ, ◌≡◌, refl, none, some, List, [], ◌∷◌, length, ok, arith, is_blank,
  is_whitespace,
}
use hangar_ia.Platform.Sample.{sample, call_at}
use hangar_ia.Types.Memory.{Memory, MemoryLifecycle}
use hangar_ia.Types.Access.{Role, IssuedApiKey}
use hangar_ia.Types.Sharing.{SubjectKind}
use hangar_ia.Types.Projections.{DocumentChunk}
use hangar_ia.Database.{Database}
use hangar_ia.Events.{insert_outbox_event}
use hangar_ia.Memory.Records.{new_memory}
use hangar_ia.Memory.Expiry.{Swept}
use hangar_ia.Keys.{check_key_scope, issue_api_key_for_subject, new_key, store_key}
use hangar_ia.Keys.Laws.{IsIssued, issue_api_key-IsIssued}
use hangar_ia.Outbox.{list_outbox_events}
use hangar_ia.Outbox.Pages.{events_behind, follow, follow-all}
use hangar_ia.Context.{Search}
use hangar_ia.Floats.{whole}
use hangar_ia.Graph.{extract}
use hangar_ia.Graph.Extraction.{IsExtraction, extract-IsExtraction}
use hangar_ia.Graph.Store.{materialize_graph_chunks}
use hangar_ia.Graph.Traversal.{GraphCandidate, graph_candidates}
use hangar_ia.Graph.Traversal.Reached.{IsFound, graph_candidates_total}
use hangar_ia.Projections.Confirm.{process_claimed_ingestion_job}
use hangar_ia.Retrieval.{retrieve}
use hangar_ia.Retrieval.Graph.{GraphResult, fewer_hops, retrieve_graph}
use hangar_ia.Retrieval.Graph.Shown.{IsShown, retrieve_graph-IsShown}
use hangar_ia.Retrieval.Answers.{IsAnswer, retrieve-IsAnswer}
use hangar_ia.Retrieval.Chunks.{RetrievedChunk, retrieve_chunks, text_candidates, vector_candidates}
use hangar_ia.Retrieval.Chunks.Visible.{IsRanking, retrieve_chunks-IsRanking}
use hangar_ia.Types.Events.{object, end}
use hangar_ia.Outbox.{collect_events}
use hangar_ia.Prelude.{◌≤◌, trim_start, trim_end, trim, split, any_char}
use hangar_ia.Events.{insert_audit_event}
use hangar_ia.Ingestion.{
  enqueue_document, existing_job_id, store_new_document, claim_next_ingestion_job, write_job,
}
use hangar_ia.Ingestion.Jobs.{new_document, new_job, check_new_document, claimed_job, is_eligible}
use hangar_ia.Chunks.{split_paragraphs, push_paragraph, fill_chunks, chunk_text}
use hangar_ia.Projections.Keys.{skip_used, free_key, allocate}
use hangar_ia.Projections.Prepare.{
  new_chunks, insert_chunks, insert_manifests, write_prepared, prepare_job,
}
use hangar_ia.Projections.Publish.{
  readable_chunk, text_entries_from, ready_text_entries, vector_entries_from, ready_vector_entries,
  check_new_keys, publish_generation_with_pending, publish_text_generation_with_pending,
  text_generation_key, insert_active_text_generation,
}
use hangar_ia.Projections.Confirm.{
  succeeded_job, succeeded_document, embed_all, mark_ready, record_success, write_confirmed,
  confirm_job,
}
use hangar_ia.Graph.{is_stopword, relate, relate_all, is_skipped, collect_entities}
use hangar_ia.Graph.Store.{
  vector_scope_key, graph_scope_key, graph_entity_key, graph_edge_adjacency_key, load_entities,
  load_edges, new_entity, add_entity, add_entities, new_edge, store_edge, store_evidence, add_edge,
  add_relation, add_relations, add_chunks,
}
use hangar_ia.Tests.Data.{no_rows, a_fact}
use hangar_ia.Tests.Projections.{letters, engine, processed}

-- The words of a query are the query itself, and every content holds it once.
abbrev one_word : Search
one_word = record {
  terms = λ query. query ∷ [];
  matches = λ term content. 1;
  local_source_ranks = ok (λ source. none);
}

abbrev published : Memory
published = record (new_memory sample (call_at 100 1) a_fact) {
  lifecycle = MemoryLifecycle.published;
}

abbrev one_memory : Database sample
one_memory = record no_rows { memories = sample.uuids.insert 1 published no_rows.memories }

retrieve-IsAnswer_example :
    (results : List Memory) × (count : ℕ) × (db' : Database sample) × (retrieve sample one_word
        (call_at 300 20)
        (call_at 300 30)
        "acme"
        "lab"
        "water"
        5
        one_memory
      ≡ (ok results, db'))
    × Swept sample (call_at 300 20) one_memory count db'
    × IsAnswer sample one_word ("water" ∷ []) "acme" "lab" (call_at 300 30).clock 5 db' results
retrieve-IsAnswer_example =
    retrieve-IsAnswer sample one_word (call_at 300 20) (call_at 300 30) "acme" "lab" "water" 5
      one_memory refl

abbrev the_key : IssuedApiKey
the_key = new_key sample (call_at 100 1) "acme" (some "lab") Role.reader SubjectKind.agent

abbrev with_key : Database sample
with_key = store_key sample 100 the_key no_rows

key_issued :
    issue_api_key_for_subject sample
      (call_at 100 1)
      "acme"
      (some "lab")
      Role.reader
      SubjectKind.agent
      no_rows
    ≡ ok (the_key, with_key)
unfolding issue_api_key_for_subject check_key_scope is_blank is_whitespace
key_issued = refl

issue_api_key-IsIssued_example :
    IsIssued sample "acme" (some "lab") Role.reader SubjectKind.agent no_rows the_key with_key
issue_api_key-IsIssued_example =
    issue_api_key-IsIssued sample (call_at 100 1) "acme" (some "lab") Role.reader SubjectKind.agent
      no_rows the_key with_key key_issued

extract-IsExtraction_example : IsExtraction letters (extract letters "water and ice on water")
extract-IsExtraction_example = extract-IsExtraction letters "water and ice on water"

graph_candidates_total_example :
    (found : List GraphCandidate) × (graph_candidates sample letters whole "acme" "lab" "water" 5 2
        processed.database
      ≡ some found)
    × IsFound sample letters whole "acme" "lab" 5 2 processed.database found
graph_candidates_total_example =
    graph_candidates_total sample letters whole "acme" "lab" "water" 5 2 processed.database

a_chunk : DocumentChunk
a_chunk = record { id = 60; document_id = 3; ordinal = 0; content = "water and ice" }

abbrev two_events : Database sample
two_events =
    insert_outbox_event sample 2 200 "later.v1" "things/2" "acme" (some "lab") (object end) (
      insert_outbox_event sample 1 100 "sooner.v1" "things/1" "acme" (some "lab") (object end)
        no_rows)

-- Pages of one event each.
follow-all_example :
    follow sample "acme" (some "lab") 2 none 1 two_events
    ≡ events_behind "acme" (some "lab") none (sample.uuids.rows two_events.outbox_events)
unfolding insert_outbox_event events_behind
follow-all_example =
    follow-all sample "acme" (some "lab") 2 none 1 two_events (refl, (refl, tt)) (omega arith)

-- A limit of 0 still gives one event.
limit_zero : length (list_outbox_events sample "acme" (some "lab") none 0 two_events) ≡ 1
unfolding insert_outbox_event list_outbox_events collect_events
limit_zero = refl

retrieve_chunks-IsRanking_example :
    (results : List RetrievedChunk) × (retrieve_chunks sample engine "acme" "lab" letters whole
        "water" 5 processed
      ≡ ok results)
    × IsRanking sample engine "acme" "lab" processed.database letters whole "water" 5
        ((50, 1) ∷ [])
        ((1, 0x3F800000) ∷ [])
        results
unfolding is_blank is_whitespace trim_start trim_end trim split any_char insert_outbox_event
    insert_audit_event enqueue_document existing_job_id store_new_document claim_next_ingestion_job
    write_job new_document new_job check_new_document claimed_job is_eligible split_paragraphs
    push_paragraph fill_chunks chunk_text skip_used free_key allocate new_chunks insert_chunks
    insert_manifests write_prepared prepare_job readable_chunk text_entries_from ready_text_entries
    vector_entries_from ready_vector_entries check_new_keys publish_generation_with_pending
    publish_text_generation_with_pending text_generation_key insert_active_text_generation
    succeeded_job succeeded_document embed_all mark_ready record_success write_confirmed confirm_job
    process_claimed_ingestion_job is_stopword relate relate_all is_skipped collect_entities extract
    vector_scope_key graph_scope_key graph_entity_key graph_edge_adjacency_key load_entities
    load_edges new_entity add_entity add_entities new_edge store_edge store_evidence add_edge
    add_relation add_relations add_chunks materialize_graph_chunks text_candidates vector_candidates
retrieve_chunks-IsRanking_example =
    retrieve_chunks-IsRanking sample engine letters whole "acme" "lab" "water" 5 processed
      ((50, 1) ∷ []) ((1, 0x3F800000) ∷ []) refl refl refl

retrieve_graph-IsShown_example :
    (results : List GraphResult) × (retrieve_graph sample "acme" "lab" letters whole "water" 5 2
        processed.database
      ≡ ok results)
    × (length results ≤ 5)
    × IsRanked fewer_hops results
    × All (IsShown sample "acme" "lab" 2 processed.database) results
unfolding is_blank is_whitespace
retrieve_graph-IsShown_example =
    retrieve_graph-IsShown sample letters whole "acme" "lab" "water" 5 2 processed.database refl
