-- ===== src/Tests/Memories.antt =====
-- Runs of the operations on memories.
use hangar_ia.Prelude.{ℕ, ◌≡◌, ◌↔◌, refl, some, ok, inr, is_blank, is_whitespace}
use hangar_ia.Platform.Sample.{sample, call_at}
use hangar_ia.Types.Memory.{Memory, validated, published}
use hangar_ia.Database.{Database}
use hangar_ia.Events.{insert_outbox_event, insert_audit_event}
use hangar_ia.Memory.{
  create_memory, transition_memory, expire_due_memories, get_memory, check_transition, expire_keys,
  record_expiries,
}
use hangar_ia.Memory.Records.{
  new_memory, moved, check_new_memory, ensure_retention, is_valid_transition, expire_memory,
  due_keys, is_due,
}
use hangar_ia.Memory.Invariant.{
  Reach, here, next, created, transitioned, HasValidMemories, empty-HasValidMemories,
  Reach-HasValidMemories,
}
use hangar_ia.Memory.History.{Kept, Reach-Kept, Reach-final}
use hangar_ia.Memory.Accept.{Allowed, check_transition_iff}
use hangar_ia.Memory.Expiry.{Swept, expire_due_memories_lem}
use hangar_ia.Memory.Reading.{IsCurrent, get_memory-IsCurrent}
use hangar_ia.Tests.Data.{database_of, no_rows, a_fact, brief_fact, to, superseded_by}

abbrev fact : Memory
fact = new_memory sample (call_at 100 1) a_fact

abbrev with_fact : Database sample
with_fact = database_of (create_memory sample (call_at 100 1) a_fact no_rows)

a_fact-created : create_memory sample (call_at 100 1) a_fact no_rows ≡ ok (fact, with_fact)
unfolding create_memory check_new_memory is_blank is_whitespace ensure_retention new_memory
    insert_outbox_event
a_fact-created = refl

-- The fact, once it was reviewed, and once it was published.
abbrev reviewed_fact : Memory
reviewed_fact = moved 200 (to validated) fact

abbrev with_reviewed : Database sample
with_reviewed =
    database_of (transition_memory sample (call_at 200 10) 1 "acme" "lab" (to validated) with_fact)

abbrev published_fact : Memory
published_fact = moved 300 (to published) reviewed_fact

abbrev with_published : Database sample
with_published =
    database_of
      (transition_memory sample (call_at 300 20) 1 "acme" "lab" (to published) with_reviewed)

a_fact-reviewed :
    transition_memory sample (call_at 200 10) 1 "acme" "lab" (to validated) with_fact
    ≡ ok (some reviewed_fact, with_reviewed)
unfolding create_memory check_new_memory is_blank is_whitespace ensure_retention new_memory
    insert_outbox_event transition_memory check_transition is_valid_transition moved
a_fact-reviewed = refl

a_fact-published :
    transition_memory sample (call_at 300 20) 1 "acme" "lab" (to published) with_reviewed
    ≡ ok (some published_fact, with_published)
unfolding create_memory check_new_memory is_blank is_whitespace ensure_retention new_memory
    insert_outbox_event transition_memory check_transition is_valid_transition moved
a_fact-published = refl

history : Reach sample no_rows with_published
unfolding create_memory
history =
    next
      (next (next here (created (call_at 100 1) a_fact fact refl a_fact-created)) (
        transitioned (call_at 200 10) 1 "acme" "lab" (to validated) (some reviewed_fact)
          a_fact-reviewed))
      (transitioned (call_at 300 20) 1 "acme" "lab" (to published) (some published_fact)
        a_fact-published)

Reach-HasValidMemories_example : HasValidMemories sample with_published
Reach-HasValidMemories_example =
    Reach-HasValidMemories sample (empty-HasValidMemories sample) history

later : Reach sample with_fact with_published
later =
    next
      (next here (
        transitioned (call_at 200 10) 1 "acme" "lab" (to validated) (some reviewed_fact)
          a_fact-reviewed))
      (transitioned (call_at 300 20) 1 "acme" "lab" (to published) (some published_fact)
        a_fact-published)

Reach-Kept_example : Kept sample 1 fact with_published
unfolding create_memory check_new_memory is_blank is_whitespace ensure_retention insert_outbox_event
    new_memory
Reach-Kept_example = Reach-Kept sample {db = with_fact} 1 fact refl later

-- A fact that lives until 500, and the table after a sweep at 600.
abbrev with_brief : Database sample
with_brief = database_of (create_memory sample (call_at 100 30) brief_fact with_published)

abbrev expired_fact : Memory
expired_fact = expire_memory 600 (new_memory sample (call_at 100 30) brief_fact)

abbrev with_expired : Database sample
with_expired = database_of {A = ℕ} (expire_due_memories sample (call_at 600 40) with_brief)

-- One more fact, after the sweep.
abbrev with_more : Database sample
with_more = database_of (create_memory sample (call_at 700 60) a_fact with_expired)

more-created :
    create_memory sample (call_at 700 60) a_fact with_expired
    ≡ ok (new_memory sample (call_at 700 60) a_fact, with_more)
unfolding create_memory check_new_memory is_blank is_whitespace ensure_retention new_memory
    insert_outbox_event
more-created = refl

Reach-final_example : sample.uuids.get 30 with_more.memories ≡ some expired_fact
unfolding create_memory check_new_memory is_blank is_whitespace ensure_retention new_memory
    insert_outbox_event transition_memory check_transition is_valid_transition moved
    expire_due_memories due_keys is_due expire_keys expire_memory record_expiries insert_audit_event
Reach-final_example =
    Reach-final sample {db = with_expired} {db' = with_more} 30 expired_fact refl (inr refl) (
      next here (
        created (call_at 700 60) a_fact (new_memory sample (call_at 700 60) a_fact) refl
          more-created))

-- The published fact, against a replacement that was only proposed.
check_transition_iff_example :
    (check_transition sample
        (call_at 400 40)
        "acme"
        "lab"
        (superseded_by 30)
        published_fact
        with_brief
      ≡ ok tt)
    ↔ Allowed sample (call_at 400 40) "acme" "lab" (superseded_by 30) published_fact with_brief
check_transition_iff_example =
    check_transition_iff sample (call_at 400 40) "acme" "lab" (superseded_by 30) published_fact
      with_brief

expire_due_memories_lem_example :
    (count : ℕ) × (db' : Database sample) × (expire_due_memories sample (call_at 600 40) with_brief
      ≡ ok (count, db'))
    × Swept sample (call_at 600 40) with_brief count db'
expire_due_memories_lem_example = expire_due_memories_lem sample (call_at 600 40) with_brief

published_fact-read :
    get_memory sample (call_at 400 40) 1 "acme" "lab" with_published
    ≡ ok (some published_fact, with_published)
unfolding create_memory check_new_memory is_blank is_whitespace ensure_retention new_memory
    insert_outbox_event transition_memory check_transition is_valid_transition moved
    expire_due_memories due_keys is_due expire_keys expire_memory record_expiries insert_audit_event
    get_memory
published_fact-read = refl

get_memory-IsCurrent_example :
    IsCurrent sample (call_at 400 40) 1 "acme" "lab" published_fact with_published with_published
get_memory-IsCurrent_example =
    get_memory-IsCurrent sample (call_at 400 40) 1 "acme" "lab" published_fact with_published
      with_published published_fact-read
