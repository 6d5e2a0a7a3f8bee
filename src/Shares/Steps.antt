-- ===== src/Shares/Steps.antt =====
-- The operations on grants as steps of a database.
use hangar_ia.Prelude.{ℕ, String, Option, none, ◌≡◌, ok, nat_eq, string_eq}
use hangar_ia.Platform.{Uuid, Platform, Call}
use hangar_ia.Types.Sharing.{ShareAudience, ShareReviewState, MemoryShare}
use hangar_ia.Database.{Database}
use hangar_ia.Shares.{propose_memory_share, review_memory_share}

module _ (p : Platform) where
  open p.uuids use {get, insert, rows, get-insert, get-rows, get-empty}

  -- One operation: a proposal under an id that no grant has, a review, or anything that leaves the
  -- grants alone.
  pub data ShareStep : Database p → Database p → Type 1 where
    proposed :
        {db db' : Database p} (call : Call) (o w : String) (id : Uuid) (a : ShareAudience)
        (by : Uuid) (t : Option ℕ) (share : MemoryShare)
        → get (call.ids 0) db.memory_shares ≡ none
        → propose_memory_share p call o w id a by t db ≡ ok (share, db')
        → ShareStep db db'
    reviewing :
        {db db' : Database p} (call : Call) (id : Uuid) (o w : String) (s : ShareReviewState)
        (by : Uuid) (remark : Option String) (r : Option MemoryShare)
        → review_memory_share p call id o w s by remark db ≡ ok (r, db')
        → ShareStep db db'
    elsewhere : {db db' : Database p} → db'.memory_shares ≡ db.memory_shares → ShareStep db db'

  pub data ShareReach (db : Database p) : Database p → Type 1 where
    start : ShareReach db db
    next : {db1 db2 : Database p} → ShareReach db db1 → ShareStep db1 db2 → ShareReach db db2
