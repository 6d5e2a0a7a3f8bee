-- ===== src/Tests/Rebuild.antt =====
-- A run of the rebuilding of a graph.
use mathlib.Core.List.{Memᴰ}
use hangar_ia.Prelude.{String, ◌≡◌, refl, sym, subst, string_eq, some, [], ◌∷◌, length, ok, arith}
use hangar_ia.Platform.Sample.{sample, call_at}
use hangar_ia.Types.Projections.{GraphEdge, GraphEntity, GraphEdgeEvidence}
use hangar_ia.Database.{Database}
use hangar_ia.Graph.{deterministic_extractor, extraction_version}
use hangar_ia.Graph.Store.{materialize_graph_chunks}
use hangar_ia.Graph.Materialized.{OnlyGraph}
use hangar_ia.Projections.Publish.{ready_graph_chunks}
use hangar_ia.Projections.Rebuild.{clear_graph_workspace, rebuild_graph_workspace}
use hangar_ia.Projections.Rebuild.Removals.{IsOnce}
use hangar_ia.Projections.Rebuild.Cleared.{IsCleared, HasEdgeIds, rebuild_graph_workspace_total}
use hangar_ia.Tests.Data.{no_rows}
use hangar_ia.Tests.Projections.{letters, processed}

abbrev an_edge : GraphEdge
an_edge = record {
  id = 4;
  organization_id = "acme";
  workspace_id = "lab";
  source_entity_id = 1;
  target_entity_id = 2;
  relation_type = "co_occurs_with";
  confidence = 0x3F000000;
  extractor = deterministic_extractor;
  extraction_version = extraction_version;
  created_at_unix_ms = 100;
  updated_at_unix_ms = 100;
}

abbrev an_entity : GraphEntity
an_entity = record {
  id = 1;
  organization_id = "acme";
  workspace_id = "lab";
  normalized_name = "salt";
  display_name = "Salt";
  entity_type = "keyword";
  extractor = deterministic_extractor;
  extraction_version = extraction_version;
  created_at_unix_ms = 100;
  updated_at_unix_ms = 100;
}

abbrev a_proof : GraphEdgeEvidence
a_proof = record {
  edge_id = 4;
  chunk_id = 60;
  source_sha256 = "";
  confidence = 0x3F000000;
  created_at_unix_ms = 100;
}

-- The processed document, with a graph of its own and one of another workspace.
abbrev with_edges : Database sample
with_edges = record processed.database {
  graph_edges =
      sample.uuids.insert 5 (record an_edge { id = 5; workspace_id = "shop" })
        (sample.uuids.insert 4 an_edge no_rows.graph_edges);
  graph_entities =
      sample.texts.insert "shop:salt" (record an_entity { id = 9; workspace_id = "shop" })
        (sample.texts.insert "lab:salt" an_entity no_rows.graph_entities);
  graph_edge_evidence =
      sample.texts.insert "5:61" (record a_proof { edge_id = 5; chunk_id = 61 })
        (sample.texts.insert "4:60" a_proof no_rows.graph_edge_evidence);
}

with_edges-HasEdgeIds : HasEdgeIds sample "acme" "lab" with_edges
with_edges-HasEdgeIds key edge h = ground (arith, h)

listed_twice :
    {V : Type 0} (P : String × V → Type 0) (x y : String × V)
    → P x
    → P y
    → (row : String × V) → Memᴰ row (x ∷ y ∷ [])
    → P row
listed_twice P x y first second row (Memᴰ.head e) = subst P (sym e) first
listed_twice P x y first second row (Memᴰ.tail (Memᴰ.head e)) = subst P (sym e) second
listed_twice P x y first second row (Memᴰ.tail (Memᴰ.tail m)) = elim m [ ]

entities-IsOnce : IsOnce sample.texts with_edges.graph_entities
entities-IsOnce =
    listed_twice
      (λ (row : String × GraphEntity).
        sample.texts.get row.0 with_edges.graph_entities ≡ some row.1)
      ("lab:salt", an_entity) ("shop:salt", record an_entity { id = 9; workspace_id = "shop" }) refl
      refl

evidence-IsOnce : IsOnce sample.texts with_edges.graph_edge_evidence
evidence-IsOnce =
    listed_twice
      (λ (row : String × GraphEdgeEvidence).
        sample.texts.get row.0 with_edges.graph_edge_evidence ≡ some row.1)
      ("4:60", a_proof) ("5:61", record a_proof { edge_id = 5; chunk_id = 61 }) refl refl

rebuild_graph_workspace_total_example :
    (db' : Database sample) × (rebuild_graph_workspace sample "acme" "lab" letters
        (call_at 500 90)
        with_edges
      ≡ ok (length (ready_graph_chunks sample "acme" "lab" with_edges), db'))
    × IsCleared sample "acme" "lab" with_edges
        (clear_graph_workspace sample "acme" "lab" with_edges)
    × (materialize_graph_chunks sample letters 500 "acme" "lab"
          (ready_graph_chunks sample "acme" "lab" with_edges)
          (clear_graph_workspace sample "acme" "lab" with_edges)
        ≡ ok db')
    × OnlyGraph sample letters 500 "acme" "lab" with_edges db'
rebuild_graph_workspace_total_example =
    rebuild_graph_workspace_total sample "acme" "lab" letters (call_at 500 90) with_edges
      with_edges-HasEdgeIds entities-IsOnce evidence-IsOnce
