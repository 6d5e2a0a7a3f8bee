-- ===== src/Graph/Store.antt =====
-- `materialize_graph_chunks` and the keys of the graph tables (packages/hangar-server/src/store.rs).
use Prim.Native.String.{◌++◌ as append}
use hangar_ia.Prelude.{
  ℕ, String, none, some, List, [], ◌∷◌, Outcome, ok, context, ◌>>=◌, is_some, string_eq,
  if◌then◌else◌,
}
use hangar_ia.Platform.{Uuid, Platform, find_row}
use hangar_ia.Types.Projections.{DocumentChunk, GraphEntity, GraphEdge}
use hangar_ia.Database.{Database}
use hangar_ia.Scope.{in_scope}
use hangar_ia.Graph.{
  Letters, EntityCandidate, RelationCandidate, extract, deterministic_extractor, extraction_version,
}

-- `format!("{a}:{b}")`
abbrev pub joined : String → String → String
joined a b = append a (append ":" b)

-- The maps that the loop keeps beside the tables.
pub record Graphing (p : Platform) : Type 0 where
  pub by_name : List (String × GraphEntity)
  pub by_identity : List (String × GraphEdge)
  pub db : Database p

module _ (p : Platform) where
  unfoldable pub vector_scope_key : String → String → String
  vector_scope_key organization_id workspace_id =
      p.digest (append organization_id (append "\0" workspace_id))

  unfoldable pub graph_scope_key : String → String → String
  graph_scope_key organization_id workspace_id =
      append "graph:" (vector_scope_key organization_id workspace_id)

  unfoldable pub graph_entity_key : String → String → String → String
  graph_entity_key organization_id workspace_id identity =
      joined (graph_scope_key organization_id workspace_id) identity

  unfoldable pub graph_edge_adjacency_key : String → String → Uuid → Uuid → String
  graph_edge_adjacency_key organization_id workspace_id entity_id edge_id =
      joined (graph_scope_key organization_id workspace_id)
        (joined (p.uuid_text entity_id) (p.uuid_text edge_id))

  -- `format!("{}:{}:{}", source, target, relation_type)`
  abbrev pub identity_of : Uuid → Uuid → String → String
  identity_of source target relation_type =
      joined (p.uuid_text source) (joined (p.uuid_text target) relation_type)

  module _ (letters : Letters) (now : ℕ) (organization_id workspace_id : String) where
    -- The entities and edges of the workspace, by name and by identity; a later row replaces an
    -- earlier one.
    unfoldable pub load_entities :
        List (String × GraphEntity) → List (String × GraphEntity) → List (String × GraphEntity)
    load_entities by_name [] = by_name
    load_entities by_name ((key, entity) ∷ rest) =
        load_entities
          (if in_scope entity.organization_id entity.workspace_id organization_id workspace_id
            then (entity.normalized_name, entity) ∷ by_name
            else by_name)
          rest

    unfoldable pub load_edges :
        List (String × GraphEdge) → List (Uuid × GraphEdge) → List (String × GraphEdge)
    load_edges by_identity [] = by_identity
    load_edges by_identity ((key, edge) ∷ rest) =
        load_edges
          (if in_scope edge.organization_id edge.workspace_id organization_id workspace_id
            then ((identity_of edge.source_entity_id edge.target_entity_id edge.relation_type, edge)
                ∷ by_identity)
            else by_identity)
          rest

    unfoldable pub new_entity : EntityCandidate → GraphEntity
    new_entity candidate = record {
      id = p.uuid_v5 (
          append "hangar:entity:"
            (joined organization_id (joined workspace_id candidate.normalized_name)));
      organization_id = organization_id;
      workspace_id = workspace_id;
      normalized_name = candidate.normalized_name;
      display_name = candidate.display_name;
      entity_type = "keyword";
      extractor = deterministic_extractor;
      extraction_version = extraction_version;
      created_at_unix_ms = now;
      updated_at_unix_ms = now;
    }

    -- An entity that is not known yet is stored.
    unfoldable pub add_entity : EntityCandidate → Graphing p → Graphing p
    add_entity candidate g =
        if is_some (find_row candidate.normalized_name g.by_name)
        then g
        else (let entity = new_entity candidate in
            record g {
              by_name = (candidate.normalized_name, entity) ∷ g.by_name;
              db = record (g.db) {
                graph_entities =
                    p.texts.insert
                      (graph_entity_key organization_id workspace_id candidate.normalized_name)
                      entity g.db.graph_entities;
              };
            })

    unfoldable pub add_entities : List EntityCandidate → Graphing p → Graphing p
    add_entities [] g = g
    add_entities (candidate ∷ rest) g = add_entities rest (add_entity candidate g)

    unfoldable pub new_edge : RelationCandidate → GraphEntity → GraphEntity → GraphEdge
    new_edge relation source target = record {
      id = p.uuid_v5 (
          append "hangar:edge:" (
            joined organization_id
              (joined workspace_id (identity_of source.id target.id relation.relation_type))));
      organization_id = organization_id;
      workspace_id = workspace_id;
      source_entity_id = source.id;
      target_entity_id = target.id;
      relation_type = relation.relation_type;
      confidence = relation.confidence;
      extractor = deterministic_extractor;
      extraction_version = extraction_version;
      created_at_unix_ms = now;
      updated_at_unix_ms = now;
    }

    -- The writes of an edge that is not known yet.
    unfoldable pub store_edge : GraphEdge → String → Graphing p → Graphing p
    store_edge edge identity g = record g {
      by_identity = (identity, edge) ∷ g.by_identity;
      db = record (g.db) {
        graph_edges = p.uuids.insert edge.id edge g.db.graph_edges;
        graph_edges_by_source =
            p.texts.insert
              (graph_edge_adjacency_key organization_id workspace_id edge.source_entity_id edge.id)
              edge.id g.db.graph_edges_by_source;
        graph_edges_by_target =
            p.texts.insert
              (graph_edge_adjacency_key organization_id workspace_id edge.target_entity_id edge.id)
              edge.id g.db.graph_edges_by_target;
      };
    }

    unfoldable pub store_evidence :
        DocumentChunk → RelationCandidate → GraphEdge → Graphing p → Graphing p
    store_evidence chunk relation edge g = record g {
      db = record (g.db) {
        graph_edge_evidence =
            p.texts.insert (joined (p.uuid_text edge.id) (p.uuid_text chunk.id))
              (record {
                edge_id = edge.id;
                chunk_id = chunk.id;
                source_sha256 = p.digest chunk.content;
                confidence = relation.confidence;
                created_at_unix_ms = now;
              })
              g.db.graph_edge_evidence;
      };
    }

    -- The evidence for the edge of an identity, which is stored if it is not known.
    unfoldable pub add_edge :
        DocumentChunk
        → RelationCandidate
        → GraphEntity
        → GraphEntity
        → String
        → Graphing p
        → Graphing p
    add_edge chunk relation source target identity g = elim (find_row identity g.by_identity) [
      | some edge ↦ store_evidence chunk relation edge g
      | none ↦
          let edge = new_edge relation source target in
          store_evidence chunk relation edge (store_edge edge identity g)
    ]

    unfoldable pub add_relation :
        DocumentChunk → RelationCandidate → Graphing p → Outcome (Graphing p)
    add_relation chunk relation g = do
      source ←
          context (find_row relation.source_normalized_name g.by_name)
            "graph source entity is missing"
      target ←
          context (find_row relation.target_normalized_name g.by_name)
            "graph target entity is missing"
      let identity = identity_of source.id target.id relation.relation_type
      ok (add_edge chunk relation source target identity g)

    unfoldable pub add_relations :
        DocumentChunk → List RelationCandidate → Graphing p → Outcome (Graphing p)
    add_relations chunk [] g = ok g
    add_relations chunk (relation ∷ rest) g = do
      g' ← add_relation chunk relation g
      add_relations chunk rest g'

    unfoldable pub add_chunks : List DocumentChunk → Graphing p → Outcome (Graphing p)
    add_chunks [] g = ok g
    add_chunks (chunk ∷ rest) g = do
      let extraction = extract letters chunk.content
      g' ← add_relations chunk extraction.relations (add_entities extraction.entities g)
      add_chunks rest g'

    unfoldable pub materialize_graph_chunks : List DocumentChunk → Database p → Outcome (Database p)
    materialize_graph_chunks chunks db = do
      g ← add_chunks chunks (record {
        by_name = load_entities [] (p.texts.rows db.graph_entities);
        by_identity = load_edges [] (p.uuids.rows db.graph_edges);
        db = db;
      })
      ok g.db
