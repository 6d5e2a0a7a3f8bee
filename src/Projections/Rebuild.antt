-- ===== src/Projections/Rebuild.antt =====
-- `clear_graph_workspace` and `rebuild_graph_workspace` of packages/hangar-server/src/store.rs: the
-- graph of a workspace, made again from the chunks that canonical storage shows as ready.
pub mod Cleared
pub mod Removals
use Prim.Native.String.{◌++◌ as append}
use text.Mathlib.Text.{starts_with}
use hangar_ia.Prelude.{
  ℕ, String, Bool, true, false, List, [], ◌∷◌, map, filter, any, length, Eq, Outcome, ok, ◌>>=◌,
  ◌==◌, nat_eq, if◌then◌else◌,
}
use hangar_ia.Platform.{Uuid, Platform, Call, Redb}
use hangar_ia.Types.Projections.{DocumentChunk, GraphEntity, GraphEdge, GraphEdgeEvidence}
use hangar_ia.Database.{Database}
use hangar_ia.Scope.{in_scope}
use hangar_ia.Graph.{Letters}
use hangar_ia.Graph.Store.{graph_scope_key, materialize_graph_chunks}
use hangar_ia.Projections.Publish.{ready_graph_chunks}

-- A loop that removes the rows of a list of keys.
unfoldable pub remove_all :
    {K : Type 0} {e : Eq K} (r : Redb K e) {V : Type 0} → List K → r.Table V → r.Table V
remove_all r [] table = table
remove_all r (key ∷ rest) table = remove_all r rest (r.remove key table)

module _ (p : Platform) (organization_id workspace_id : String) where
  -- `edge_ids`
  abbrev pub scoped_edge_ids : Database p → List Uuid
  scoped_edge_ids db =
      map (λ (edge : GraphEdge). edge.id)
        (filter
          (λ (edge : GraphEdge).
            in_scope edge.organization_id edge.workspace_id organization_id workspace_id)
          (map (λ row. row.1) (p.uuids.rows db.graph_edges)))

  -- The keys of an adjacency table that begin with the key of the scope.
  abbrev pub adjacency_keys : p.texts.Table Uuid → List String
  adjacency_keys table =
      filter (λ key. starts_with key (append (graph_scope_key p organization_id workspace_id) ":"))
        (map (λ row. row.0) (p.texts.rows table))

  abbrev pub evidence_keys : List Uuid → Database p → List String
  evidence_keys edge_ids db =
      map (λ (row : String × GraphEdgeEvidence). row.0)
        (filter (λ (row : String × GraphEdgeEvidence). any (λ id. row.1.edge_id == id) edge_ids)
          (p.texts.rows db.graph_edge_evidence))

  abbrev pub entity_keys : Database p → List String
  entity_keys db =
      map (λ (row : String × GraphEntity). row.0)
        (filter
          (λ (row : String × GraphEntity).
            in_scope row.1.organization_id row.1.workspace_id organization_id workspace_id)
          (p.texts.rows db.graph_entities))

  unfoldable pub clear_graph_workspace : Database p → Database p
  clear_graph_workspace db =
      let edge_ids = scoped_edge_ids db in
      record db {
        graph_edges = remove_all p.uuids edge_ids db.graph_edges;
        graph_edges_by_source =
            remove_all p.texts (adjacency_keys db.graph_edges_by_source) db.graph_edges_by_source;
        graph_edges_by_target =
            remove_all p.texts (adjacency_keys db.graph_edges_by_target) db.graph_edges_by_target;
        graph_edge_evidence = remove_all p.texts (evidence_keys edge_ids db) db.graph_edge_evidence;
        graph_entities = remove_all p.texts (entity_keys db) db.graph_entities;
      }

  unfoldable pub rebuild_graph_workspace : Letters → Call → Database p → Outcome (ℕ × Database p)
  rebuild_graph_workspace letters call db = do
    let chunks = ready_graph_chunks p organization_id workspace_id db
    db' ←
        materialize_graph_chunks p letters (call.clock 0) organization_id workspace_id chunks
          (clear_graph_workspace db)
    ok (length chunks, db')
