-- ===== src/Working/Invariant.antt =====
-- Every sequence of working-memory operations keeps the store within its bounds.
use hangar_ia.Prelude.{ℕ, ◌≡◌, String, nat_eq}
use hangar_ia.Platform.{Uuid, Platform, Call}
use hangar_ia.Types.Working.{NewWorkingSession, NewWorkingMemoryEntry, WorkingMemoryStore}
use hangar_ia.Working.{
  prune_expired_working_sessions, create_working_session, get_working_session,
  append_working_memory, update_working_summary,
}
use hangar_ia.Working.Capacity.{
  HasCapacity, prune-HasCapacity, create-HasCapacity, get-HasCapacity, append-HasCapacity,
  update-HasCapacity,
}

-- One call on the working memory, whatever its outcome.
pub data WorkingStep (p : Platform) (a b : WorkingMemoryStore) : Type 0 where
  pruned : (now : ℕ) → b ≡ prune_expired_working_sessions now a → WorkingStep p a b
  opens :
      (call : Call) (new : NewWorkingSession)
      → b ≡ (create_working_session call new a).1
      → WorkingStep p a b
  reads :
      (call : Call) (id : Uuid) (o w : String) (who : Uuid)
      → b ≡ (get_working_session call id o w who a).1
      → WorkingStep p a b
  appends :
      (call : Call) (id : Uuid) (o w : String) (who : Uuid) (new : NewWorkingMemoryEntry)
      → b ≡ (append_working_memory p call id o w who new a).1
      → WorkingStep p a b
  summarises :
      (call : Call) (id : Uuid) (o w : String) (who : Uuid) (content : String)
      → b ≡ (update_working_summary p call id o w who content a).1
      → WorkingStep p a b

pub data WorkingReach (p : Platform) (a : WorkingMemoryStore) : WorkingMemoryStore → Type 0 where
  here : WorkingReach p a a
  next : {b c : WorkingMemoryStore} → WorkingReach p a b → WorkingStep p b c → WorkingReach p a c

WorkingStep-HasCapacity :
    {p : Platform} {a b : WorkingMemoryStore} → WorkingStep p a b → HasCapacity a → HasCapacity b
WorkingStep-HasCapacity {a = a} (pruned now e) c = rw e (prune-HasCapacity now a c)
WorkingStep-HasCapacity {a = a} (opens call new e) c = rw e (create-HasCapacity call new a c)
WorkingStep-HasCapacity {a = a} (reads call id o w who e) c =
    rw e (get-HasCapacity call id o w who a c)
WorkingStep-HasCapacity {p} {a} (appends call id o w who new e) c =
    rw e (append-HasCapacity p call id o w who new a c)
WorkingStep-HasCapacity {p} {a} (summarises call id o w who content e) c =
    rw e (update-HasCapacity p call id o w who content a c)

-- Whatever calls are made on the working memory, and however they end, the store keeps at most 1024
-- sessions, each with at most 64 entries of at most 8 KiB, at most 64 KiB in all, and at most a day to
-- live.
pub WorkingReach-HasCapacity :
    {p : Platform} {a b : WorkingMemoryStore} → HasCapacity a → WorkingReach p a b → HasCapacity b
WorkingReach-HasCapacity c here = c
WorkingReach-HasCapacity c (next r s) = WorkingStep-HasCapacity s (WorkingReach-HasCapacity c r)
