-- ===== src/Memory/Outcomes.antt =====
-- What a creation and a transition that succeed have tested and written.
use hangar_ia.Prelude.{
  String, ◌≡◌, none, some, ok, Option, ◌⊎◌, inl, inr, arith, >>-eq-ok, Option-cases,
}
use hangar_ia.Platform.{Uuid, Platform, Call}
use hangar_ia.Types.Memory.{Memory, NewMemory, MemoryTransition}
use hangar_ia.Database.{Database}
use hangar_ia.Events.{insert_outbox_event}
use hangar_ia.Memory.{create_memory, check_transition, transition_memory}
use hangar_ia.Memory.Records.{check_new_memory, new_memory, moved}

module _ (p : Platform) where
  open p.uuids use {get, insert}

  pub record Created (call : Call) (new : NewMemory) (db : Database p) (m : Memory)
      (db' : Database p) : Type 0 where
    pub checked : check_new_memory (call.clock 0) new ≡ ok tt
    pub memory : m ≡ new_memory p call new
    pub stored : db'.memories ≡ insert (call.ids 0) (new_memory p call new) db.memories
    pub frame : db' ≡ record db { memories = db'.memories; outbox_events = db'.outbox_events }

  pub create_memory-ok :
      (call : Call) (new : NewMemory) (db : Database p) {m : Memory} {db' : Database p}
      → create_memory p call new db ≡ ok (m, db')
      → Created call new db m db'
  unfolding create_memory new_memory insert_outbox_event
  create_memory-ok call new db h =
      let a = >>-eq-ok (check_new_memory (call.clock 0) new) _ h in
      record { checked = a.0; memory = ground arith; stored = ground arith; frame = ground arith }

  pub record Transitioned (call : Call) (id : Uuid) (o w : String) (t : MemoryTransition)
      (db : Database p) (r : Option Memory) (db' : Database p) : Type 0 where
    pub memory : Memory
    pub found : get id db.memories ≡ some memory
    pub checked : check_transition p call o w t memory db ≡ ok tt
    pub result : r ≡ some (moved (call.clock 2) t memory)
    pub stored : db'.memories ≡ insert id (moved (call.clock 2) t memory) db.memories

  pub transition_memory-ok :
      (call : Call) (id : Uuid) (o w : String) (t : MemoryTransition) (db : Database p)
      {r : Option Memory} {db' : Database p}
      → transition_memory p call id o w t db ≡ ok (r, db')
      → ((get id db.memories ≡ none) × (db' ≡ db)) ⊎ Transitioned call id o w t db r db'
  unfolding transition_memory insert_outbox_event
  transition_memory-ok call id o w t db h = elim (Option-cases (get id db.memories)) [
    | inl missing ↦ inl (missing, ground arith)
    | inr (m, found) ↦
        let k = rw (found, transition_memory) at h in
        let a = >>-eq-ok (check_transition p call o w t m db) _ k in
        inr (record {
          memory = m;
          found = found;
          checked = a.0;
          result = ground arith;
          stored = ground arith;
        })
  ]
