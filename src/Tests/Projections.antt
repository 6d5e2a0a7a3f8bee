-- ===== src/Tests/Projections.antt =====
-- A run of the processing of a document, with small indexes, and a search in what it leaves.
use hangar_ia.Prelude.{
  ℕ, String, len, ◌≡◌, refl, List, [], ◌∷◌, map, Outcome, ok, err, leb, ◌&&◌, is_blank,
  is_whitespace, trim_start, trim_end, trim, arith,
}
use hangar_ia.Platform.Sample.{sample, call_at}
use hangar_ia.Types.Ingestion.{ClaimedIngestionJob, IngestionJob}
use hangar_ia.Types.Projections.{DocumentChunk}
use hangar_ia.Database.{Database}
use hangar_ia.Events.{insert_outbox_event}
use hangar_ia.Ingestion.{
  enqueue_document, existing_job_id, store_new_document, claim_next_ingestion_job, write_job,
}
use hangar_ia.Ingestion.Jobs.{new_document, new_job, check_new_document, claimed_job, is_eligible}
use hangar_ia.Chunks.{split_paragraphs, lossy_parts, push_paragraph, fill_chunks, chunk_text}
use hangar_ia.Chunks.Squeeze.{IsAscii}
use hangar_ia.Chunks.Lossless.{IsChunked, chunk_text-IsChunked}
use hangar_ia.Graph.{Letters}
use hangar_ia.Graph.Store.{vector_scope_key}
use hangar_ia.Projections.{TextEntry, Indexing}
use hangar_ia.Projections.Keys.{Allocation, skip_used, free_key, allocate}
use hangar_ia.Projections.Keys.Fresh.{IsAllocated, allocate-IsAllocated}
use hangar_ia.Projections.Prepare.{
  Prepared, new_chunks, insert_chunks, insert_manifests, write_prepared, prepare_job,
}
use hangar_ia.Projections.Prepare.Pending.{IsPrepared}
use hangar_ia.Projections.Publish.{
  readable_chunk, text_entries_from, ready_text_entries, vector_entries_from, ready_vector_entries,
  check_new_keys, publish_generation_with_pending, publish_text_generation_with_pending,
}
use hangar_ia.Projections.Confirm.{Projected, embed_all, text_entry, process_claimed_ingestion_job}
use hangar_ia.Projections.Confirm.Second.{IsConfirmed}
use hangar_ia.Projections.Confirm.Confirmed.{process_claimed_ingestion_job-IsConfirmed}
use hangar_ia.Floats.{whole}
use hangar_ia.Ingestion.Links.{HasLinks}
use hangar_ia.Retrieval.Chunks.{gather, rank_chunks}
use hangar_ia.Retrieval.Chunks.Hidden.{IsKeyed}
use hangar_ia.Retrieval.Chunks.Unseen.{prepare_job-unseen}
use hangar_ia.Projections.Prepare.{chunk_key}
use hangar_ia.Tests.Data.{database_of, a_document}
use hangar_ia.Tests.Queue.{claimed_once, claimed_once-HasLinks, first_claim}

-- The small letters.
abbrev pub letters : Letters
letters = record {
  is_alphanumeric = λ c. leb 97 c && leb c 122;
  is_alphabetic = λ c. leb 97 c && leb c 122;
  to_lowercase = λ word. word;
}

-- Indexes that keep what is published and find all of it.
abbrev pub engine : Indexing
engine = record {
  Vector = ℕ;
  VectorFiles = List (ℕ × ℕ);
  TextFiles = List TextEntry;
  profile = record { provider = "toy"; model_revision = "1"; dimensions = 1 };
  embed = λ content. ok (len content);
  publish_vectors = λ o w entries files. ok entries;
  search_vectors = λ o w vector limit files. ok (map (λ entry. (entry.0, 0)) files);
  publish_text = λ o w generation entries files. ok entries;
  search_text = λ o w generation query limit files. ok (map (λ entry. (entry.chunk_id, 1)) files);
}

abbrev claim : ClaimedIngestionJob
claim = record { job = first_claim; content = "water and ice" }

abbrev before : Projected sample engine
before = record { database = claimed_once; vectors = []; texts = [] }

abbrev prepared : Outcome (Prepared × Database sample) → Prepared
prepared (ok r) = r.0
prepared (err message) = record {
  job_key = 0;
  document_key = 0;
  job = first_claim;
  document = new_document sample (call_at 100 1) a_document;
  prepared_chunks = [];
  prepared_vectors = [];
}

abbrev the_preparation : Outcome (Prepared × Database sample)
the_preparation = prepare_job sample engine.profile (call_at 300 50) claim claimed_once

abbrev pending : Prepared
pending = prepared the_preparation

abbrev with_pending : Database sample
with_pending = database_of the_preparation

job_prepared : the_preparation ≡ ok (pending, with_pending)
unfolding enqueue_document check_new_document existing_job_id store_new_document new_document
    new_job is_blank is_whitespace insert_outbox_event claim_next_ingestion_job claimed_job
    is_eligible write_job split_paragraphs push_paragraph fill_chunks chunk_text trim_start trim_end
    trim skip_used free_key allocate new_chunks prepare_job vector_scope_key
job_prepared = refl

abbrev pub entries : List (ℕ × ℕ)
entries = (1, 13) ∷ []

abbrev pub written_texts : List TextEntry
written_texts = map text_entry pending.prepared_chunks

process_claimed_ingestion_job-IsConfirmed_example :
    (job' : IngestionJob) × (db' : Database sample) × (process_claimed_ingestion_job sample engine
        letters
        (call_at 300 50)
        77
        (λ n. n)
        (λ n. n)
        (λ n. n)
        (call_at 400 80)
        claim
        before
      ≡ (ok job', record { database = db'; vectors = entries; texts = written_texts }))
    × IsPrepared sample engine.profile (call_at 300 50) claim claimed_once pending with_pending
    × IsConfirmed sample (call_at 400 80) 77 pending with_pending db' job'
unfolding enqueue_document check_new_document existing_job_id store_new_document new_document
    new_job is_blank is_whitespace insert_outbox_event claim_next_ingestion_job claimed_job
    is_eligible write_job split_paragraphs push_paragraph fill_chunks chunk_text trim_start trim_end
    trim skip_used free_key allocate new_chunks prepare_job vector_scope_key write_prepared
    insert_chunks insert_manifests embed_all publish_generation_with_pending
    publish_text_generation_with_pending vector_entries_from ready_vector_entries readable_chunk
    text_entries_from ready_text_entries check_new_keys
process_claimed_ingestion_job-IsConfirmed_example =
    process_claimed_ingestion_job-IsConfirmed sample engine letters (call_at 300 50)
      (call_at 400 80) 77 (λ n. n) (λ n. n) (λ n. n) claim before pending with_pending entries
      entries written_texts job_prepared refl refl refl

ascii : IsAscii "ab\n\nc"
ascii = (omega arith, (omega arith, (omega arith, (omega arith, (omega arith, tt)))))

chunk_text-IsChunked_example : IsChunked "ab\n\nc" 3 (chunk_text "ab\n\nc" 3)
chunk_text-IsChunked_example = chunk_text-IsChunked "ab\n\nc" 3 (omega arith) ascii

chunks_of_paragraphs : chunk_text "ab\n\nc" 3 ≡ "ab" ∷ "c" ∷ []
unfolding chunk_text split_paragraphs push_paragraph fill_chunks trim trim_start trim_end
    is_whitespace
chunks_of_paragraphs = refl

-- A paragraph longer than the maximum that is not ASCII loses a letter.
torn_letter : chunk_text "aaaéb" 4 ≡ "aaa�" ∷ "�b" ∷ []
unfolding chunk_text split_paragraphs push_paragraph fill_chunks lossy_parts trim trim_start
    trim_end is_whitespace
torn_letter = refl

abbrev two_chunks : List DocumentChunk
two_chunks = new_chunks (call_at 300 50) 3 0 ("water" ∷ "ice" ∷ [])

abbrev scope : String
scope = "acme:lab"

abbrev two_keys : Outcome (Allocation sample)
two_keys = allocate sample scope two_chunks (1 ∷ 2 ∷ []) 2 []

abbrev the_keys : Outcome (Allocation sample) → Allocation sample
the_keys (ok r) = r
the_keys (err message) = record { prepared_vectors = []; next_ann_key = 0; vector_chunks = [] }

allocate-IsAllocated_example :
    IsAllocated sample scope two_chunks (1 ∷ 2 ∷ []) 2 (the_keys two_keys)
unfolding allocate free_key skip_used new_chunks
allocate-IsAllocated_example =
    allocate-IsAllocated sample scope two_chunks (1 ∷ 2 ∷ []) 2 [] (the_keys two_keys) refl

-- What the processing leaves.
abbrev pub processed : Projected sample engine
processed =
    (process_claimed_ingestion_job sample engine letters (call_at 300 50) 77 (λ n. n) (λ n. n)
      (λ n. n) (call_at 400 80) claim before).1

-- The claim of a job whose first attempt stored a chunk before it was cut off.
abbrev old_chunk : DocumentChunk
old_chunk = record { id = 9; document_id = claim.job.document_id; ordinal = 0; content = "water" }

abbrev with_chunk : Database sample
with_chunk = record claimed_once {
  chunks = sample.texts.insert (chunk_key sample old_chunk) old_chunk [];
}

with_chunk-HasLinks : HasLinks sample with_chunk
with_chunk-HasLinks = record {
  at = λ k j e.
      let link = claimed_once-HasLinks.at k j e in
      record {
        id = link.id;
        document = link.document;
        stored = link.stored;
        fits = link.fits;
        payload = link.payload;
        kept = link.kept;
      };
}

old_chunk-IsKeyed : IsKeyed sample claim.job.document_id with_chunk.chunks
old_chunk-IsKeyed c old e found = ground (arith, found)

abbrev second_preparation : Outcome (Prepared × Database sample)
second_preparation = prepare_job sample engine.profile (call_at 300 50) claim with_chunk

prepare_job-unseen_example :
    rank_chunks sample engine "acme" "lab" letters whole
      (gather [] ((1, 5) ∷ []) [])
      5
      (database_of second_preparation)
    ≡ rank_chunks sample engine "acme" "lab" letters whole (gather [] ((1, 5) ∷ []) []) 5 with_chunk
unfolding enqueue_document check_new_document existing_job_id store_new_document new_document
    new_job is_blank is_whitespace insert_outbox_event claim_next_ingestion_job claimed_job
    is_eligible write_job split_paragraphs push_paragraph fill_chunks chunk_text trim_start trim_end
    trim skip_used free_key allocate new_chunks prepare_job vector_scope_key insert_chunks
prepare_job-unseen_example =
    prepare_job-unseen sample engine letters whole "acme" "lab" (call_at 300 50) claim
      (gather [] ((1, 5) ∷ []) []) 5 with_chunk (database_of second_preparation)
      (prepared second_preparation) with_chunk-HasLinks refl old_chunk-IsKeyed ((refl, tt), tt) refl
