-- ===== src/Listings/Order.antt =====
-- The order and the members of a listing of grants.
use mathlib.Core.List.{Perm}
use hangar_ia.Prelude.{
  String, ◌≡◌, true, false, map, filter, arith, sort_by-perm, sort_by-IsRanked, IsRanked,
}
use hangar_ia.Platform.{Platform}
use hangar_ia.Types.Sharing.{MemoryShare}
use hangar_ia.Database.{Database}
use hangar_ia.Scope.{in_scope}
use hangar_ia.Listings.{by_id, list_memory_shares}

by_id_total : (x y : MemoryShare) → by_id x y ≡ false → by_id y x ≡ true
by_id_total x y h = ground arith

by_id_trans : (x y z : MemoryShare) → by_id x y ≡ true → by_id y z ≡ true → by_id x z ≡ true
by_id_trans x y z h k = ground arith

-- The grants of the source workspace, each as often as the table holds it, by ascending id.
list_memory_shares_lem :
    (p : Platform) (o w : String) (db : Database p)
    → IsRanked by_id (list_memory_shares p o w db)
      × Perm (list_memory_shares p o w db) (
          filter
            (λ (share : MemoryShare). in_scope share.organization_id share.source_workspace_id o w)
            (map (λ row. row.1) (p.uuids.rows db.memory_shares)))
unfolding list_memory_shares
list_memory_shares_lem p o w db =
    (sort_by-IsRanked by_id by_id_total by_id_trans _, sort_by-perm by_id _)
