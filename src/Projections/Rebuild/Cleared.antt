-- ===== src/Projections/Rebuild/Cleared.antt =====
-- What the clearing and the rebuilding of a graph do to its tables.
use mathlib.Core.List.{Memᴰ}
use mathlib.Core.List.Memᴰ
use Prim.Native.String.{◌++◌ as append}
use text.Mathlib.Text.{starts_with}
use hangar_ia.Prelude.{
  String, ◌≡◌, ◌↔◌, ◌≢◌, refl, sym, ap, ◌∙◌, Bool, true, false, Bool-cases, inl, inr, some,
  some_inj, List, [], ◌∷◌, map, any, length, ok, arith, ◌==◌, ==_iff, nat_eq, string_eq,
}
use hangar_ia.Platform.{Uuid, Platform, Call}
use hangar_ia.Platform.Rows.{row_found}
use hangar_ia.Types.Projections.{GraphEntity, GraphEdge, GraphEdgeEvidence}
use hangar_ia.Database.{Database}
use hangar_ia.Scope.{in_scope}
use hangar_ia.Graph.{Letters}
use hangar_ia.Graph.Store.{graph_scope_key, materialize_graph_chunks}
use hangar_ia.Graph.Materialized.{OnlyGraph, materialize_graph_chunks_total}
use hangar_ia.Projections.Publish.{ready_graph_chunks}
use hangar_ia.Projections.Rebuild.{scoped_edge_ids, clear_graph_workspace, rebuild_graph_workspace}
use hangar_ia.Projections.Rebuild.Removals.{
  IsOnce, remove_all_iff, unlisted_iff, found_row, remove_keys_iff, remove_rows_iff,
}

Memᴰ-values :
    {K V : Type 0} (row : K × V) (rows : List (K × V))
    → Memᴰ row rows
    → Memᴰ row.1 (map (λ (r : K × V). r.1) rows)
Memᴰ-values row [] m = elim m [ ]
Memᴰ-values row (r ∷ rows) (Memᴰ.head e) = Memᴰ.head (ap (λ x. x.1) e)
Memᴰ-values row (r ∷ rows) (Memᴰ.tail m) = Memᴰ.tail (Memᴰ-values row rows m)

any_flip : (k : Uuid) (ks : List Uuid) → any (λ id. k == id) ks ≡ any (λ id. id == k) ks
any_flip k [] = refl
any_flip k (j ∷ ks) = ground (arith, any_flip k ks, ==_iff k j, ==_iff j k)

module _ (p : Platform) (o w : String) where
  abbrev is_scoped : GraphEdge → Bool
  is_scoped edge = in_scope edge.organization_id edge.workspace_id o w

  -- Evidence that is for no edge of the workspace.
  abbrev pub IsOutside : Database p → GraphEdgeEvidence → Type 0
  IsOutside db e =
      (key : Uuid) (edge : GraphEdge)
      → p.uuids.get key db.graph_edges ≡ some edge
      → in_scope edge.organization_id edge.workspace_id o w ≡ true
      → e.edge_id ≢ edge.id

  -- A clearing leaves, of the five tables, just the rows of the other workspaces: the edges and the
  -- entities that are not of this one, the evidence that is for no edge of it, and the adjacencies
  -- whose keys do not begin with its key.
  pub record IsCleared (db db' : Database p) : Type 0 where
    pub edges :
        (key : Uuid) (edge : GraphEdge)
        → (p.uuids.get key db'.graph_edges ≡ some edge) ↔ (
            (p.uuids.get key db.graph_edges ≡ some edge)
            × (in_scope edge.organization_id edge.workspace_id o w ≡ false))
    pub entities :
        (key : String) (entity : GraphEntity)
        → (p.texts.get key db'.graph_entities ≡ some entity) ↔ (
            (p.texts.get key db.graph_entities ≡ some entity)
            × (in_scope entity.organization_id entity.workspace_id o w ≡ false))
    pub evidence :
        (key : String) (e : GraphEdgeEvidence)
        → (p.texts.get key db'.graph_edge_evidence ≡ some e)
          ↔ ((p.texts.get key db.graph_edge_evidence ≡ some e) × IsOutside db e)
    pub by_source :
        (key : String) (id : Uuid)
        → (p.texts.get key db'.graph_edges_by_source ≡ some id) ↔ (
            (p.texts.get key db.graph_edges_by_source ≡ some id)
            × (starts_with key (append (graph_scope_key p o w) ":") ≡ false))
    pub by_target :
        (key : String) (id : Uuid)
        → (p.texts.get key db'.graph_edges_by_target ≡ some id) ↔ (
            (p.texts.get key db.graph_edges_by_target ≡ some id)
            × (starts_with key (append (graph_scope_key p o w) ":") ≡ false))

  -- Edges are stored under their ids.
  abbrev pub HasEdgeIds : Database p → Type 0
  HasEdgeIds db =
      (key : Uuid) (edge : GraphEdge) → p.uuids.get key db.graph_edges ≡ some edge → edge.id ≡ key

  -- An id is not among those of the edges of the workspace.
  outside_iff :
      (id : Uuid) (db : Database p)
      → (any (λ k. k == id) (scoped_edge_ids p o w db) ≡ false) ↔ (
          (key : Uuid) (edge : GraphEdge)
          → p.uuids.get key db.graph_edges ≡ some edge
          → edge.id ≡ id
          → in_scope edge.organization_id edge.workspace_id o w ≡ false)
  outside_iff id db =
      let rows = p.uuids.rows db.graph_edges in
      let out =
        unlisted_iff (λ (edge : GraphEdge). edge.id) is_scoped (map (λ row. row.1) rows) id in
      (
        λ h key edge found same.
            out.0 h edge
              (Memᴰ-values (key, edge) rows
                (found_row key edge rows (sym (p.uuids.get-rows key db.graph_edges) ∙ found)))
              same,
        λ h. out.1 (λ edge m same.
            let (row, listed, value) = Memᴰ.of_map (λ (row : Uuid × GraphEdge). row.1) rows m in
            h row.0 edge (row_found p db.graph_edges row listed ∙ ap some value) same),
      )

  clear_graph_workspace-edges :
      (db : Database p) (key : Uuid) (edge : GraphEdge)
      → HasEdgeIds db
      → (p.uuids.get key (clear_graph_workspace p o w db).graph_edges ≡ some edge)
        ↔ ((p.uuids.get key db.graph_edges ≡ some edge) × (is_scoped edge ≡ false))
  unfolding clear_graph_workspace
  clear_graph_workspace-edges db key edge ids =
      let gone = remove_all_iff p.uuids (scoped_edge_ids p o w db) db.graph_edges key edge in
      let out = outside_iff key db in
      (
        λ h.
            let (found, apart) = gone.0 h in
            (found, out.0 apart key edge found (ids key edge found)),
        λ h. gone.1 (
          h.0,
          out.1 (λ k x found same.
              let here : k ≡ key = sym (ids k x found) ∙ same in
              let value : x ≡ edge =
                some_inj (sym found ∙ (ap (λ j. p.uuids.get j db.graph_edges) here ∙ h.0)) in
              ap is_scoped value ∙ h.1),
        ),
      )

  clear_graph_workspace-evidence :
      (db : Database p) (key : String) (e : GraphEdgeEvidence)
      → IsOnce p.texts db.graph_edge_evidence
      → (p.texts.get key (clear_graph_workspace p o w db).graph_edge_evidence ≡ some e)
        ↔ ((p.texts.get key db.graph_edge_evidence ≡ some e) × IsOutside db e)
  unfolding clear_graph_workspace
  clear_graph_workspace-evidence db key e once =
      let ids = scoped_edge_ids p o w db in
      let gone =
        remove_rows_iff p.texts db.graph_edge_evidence
          (λ (row : String × GraphEdgeEvidence). any (λ id. row.1.edge_id == id) ids) key e once in
      let out = outside_iff e.edge_id db in
      (
        λ h.
            let (found, apart) = gone.0 h in
            (
              found,
              λ k edge at inside same. ground (
                arith,
                inside,
                out.0 (sym (any_flip e.edge_id ids) ∙ apart) k edge at (sym same),
              ),
            ),
        λ h. gone.1 (
          h.0,
          any_flip e.edge_id ids
              ∙ out.1 (λ k edge at same. elim (Bool-cases (is_scoped edge)) [
                | inl inside ↦ absurd (h.1 k edge at inside (sym same))
                | inr outside ↦ outside
              ]),
        ),
      )

  clear_graph_workspace-IsCleared :
      (db : Database p)
      → HasEdgeIds db
      → IsOnce p.texts db.graph_entities
      → IsOnce p.texts db.graph_edge_evidence
      → IsCleared db (clear_graph_workspace p o w db)
  unfolding clear_graph_workspace
  clear_graph_workspace-IsCleared db ids entities_once evidence_once = record {
    edges = λ key edge. clear_graph_workspace-edges db key edge ids;
    entities = λ key entity.
        remove_rows_iff p.texts db.graph_entities
          (λ (row : String × GraphEntity). in_scope row.1.organization_id row.1.workspace_id o w)
          key entity entities_once;
    evidence = λ key e. clear_graph_workspace-evidence db key e evidence_once;
    by_source =
        remove_keys_iff p.texts db.graph_edges_by_source
          (λ key. starts_with key (append (graph_scope_key p o w) ":"));
    by_target =
        remove_keys_iff p.texts db.graph_edges_by_target
          (λ key. starts_with key (append (graph_scope_key p o w) ":"));
  }

  -- Where edges stand under their ids, and the entities and the evidence are listed each under its own
  -- key, the rebuilding of a graph never fails and gives the number of ready chunks. It writes the
  -- graph of these chunks on the cleared tables, of which the rows of the workspace are gone, and just
  -- these: edges, entities, evidence and both adjacencies. It changes no other table.
  pub rebuild_graph_workspace_total :
      (letters : Letters) (call : Call) (db : Database p)
      → HasEdgeIds db
      → IsOnce p.texts db.graph_entities
      → IsOnce p.texts db.graph_edge_evidence
      → (db' : Database p) × (rebuild_graph_workspace p o w letters call db
          ≡ ok (length (ready_graph_chunks p o w db), db'))
        × IsCleared db (clear_graph_workspace p o w db)
        × (materialize_graph_chunks p letters
              (call.clock 0)
              o
              w
              (ready_graph_chunks p o w db)
              (clear_graph_workspace p o w db)
            ≡ ok db')
        × OnlyGraph p letters (call.clock 0) o w db db'
  unfolding rebuild_graph_workspace clear_graph_workspace
  rebuild_graph_workspace_total letters call db ids entities_once evidence_once =
      let (db', e, only) =
        materialize_graph_chunks_total p letters (call.clock 0) o w (ready_graph_chunks p o w db)
          (clear_graph_workspace p o w db) in
      (db', rw e refl, clear_graph_workspace-IsCleared db ids entities_once evidence_once, e, only)
