-- ===== src/Graph/Materialized.antt =====
-- The errors of `materialize_graph_chunks`, and the tables that it writes.
use mathlib.Core.List.{Memᴰ}
use hangar_ia.Prelude.{
  ℕ, String, ◌≡◌, ◌≢◌, refl, sym, ◌∙◌, subst, Bool-cases, inl, inr, none, Option-cases, List, [],
  ◌∷◌, All, ok, arith, is_some, ==_refl, string_eq,
}
use hangar_ia.Platform.{Platform, find_row}
use hangar_ia.Types.Projections.{DocumentChunk, GraphEntity}
use hangar_ia.Database.{Database}
use hangar_ia.Graph.{Letters, EntityCandidate, RelationCandidate, extract}
use hangar_ia.Graph.Pairs.{names, Joins}
use hangar_ia.Graph.Extraction.{extract-IsExtraction}
use hangar_ia.Graph.Store.{
  Graphing, load_entities, load_edges, add_entity, add_entities, store_edge, store_evidence,
  add_edge, add_relation, add_relations, add_chunks, materialize_graph_chunks, identity_of,
}

-- A name that the map knows.
abbrev Knows : List (String × GraphEntity) → String → Type 0
Knows by_name n = find_row n by_name ≢ none

module _ (p : Platform) (letters : Letters) (now : ℕ) (o w : String) where
  -- A database without its graph.
  abbrev pub ungraphed : Database p → Database p
  ungraphed db = record db {
    graph_entities = p.texts.empty;
    graph_edges = p.uuids.empty;
    graph_edges_by_source = p.texts.empty;
    graph_edges_by_target = p.texts.empty;
    graph_edge_evidence = p.texts.empty;
  }

  -- Only tables of the graph differ.
  abbrev pub OnlyGraph : Database p → Database p → Type 0
  OnlyGraph db db' = ungraphed db' ≡ ungraphed db

  add_entity-Knows :
      (c : EntityCandidate) (g : Graphing p) (n : String)
      → Knows g.by_name n
      → Knows (add_entity p letters now o w c g).by_name n
  unfolding add_entity
  add_entity-Knows c g n h = ground (arith, h)

  add_entity-Knows_self :
      (c : EntityCandidate) (g : Graphing p)
      → Knows (add_entity p letters now o w c g).by_name c.normalized_name
  unfolding add_entity
  add_entity-Knows_self c g = ground (arith, ==_refl c.normalized_name)

  add_entity-OnlyGraph :
      (c : EntityCandidate) (g : Graphing p) → OnlyGraph g.db (add_entity p letters now o w c g).db
  unfolding add_entity
  add_entity-OnlyGraph c g = elim (Bool-cases (is_some (find_row c.normalized_name g.by_name))) [
    | inl old ↦ rw old refl
    | inr new ↦ rw new refl
  ]

  add_entities-Knows_old :
      (cs : List EntityCandidate) (g : Graphing p) (n : String)
      → Knows g.by_name n
      → Knows (add_entities p letters now o w cs g).by_name n
  unfolding add_entities
  add_entities-Knows_old [] g n h = h
  add_entities-Knows_old (c ∷ cs) g n h =
      add_entities-Knows_old cs (add_entity p letters now o w c g) n (add_entity-Knows c g n h)

  -- The map knows every keyword that was added.
  add_entities-Knows :
      (cs : List EntityCandidate) (g : Graphing p) (n : String)
      → Memᴰ n (names cs)
      → Knows (add_entities p letters now o w cs g).by_name n
  unfolding add_entities
  add_entities-Knows [] g n m = elim m [ ]
  add_entities-Knows (c ∷ cs) g n (Memᴰ.head e) =
      add_entities-Knows_old cs (add_entity p letters now o w c g) n (
        subst (Knows (add_entity p letters now o w c g).by_name) (sym e)
          (add_entity-Knows_self c g))
  add_entities-Knows (c ∷ cs) g n (Memᴰ.tail m) =
      add_entities-Knows cs (add_entity p letters now o w c g) n m

  add_entities-OnlyGraph :
      (cs : List EntityCandidate) (g : Graphing p)
      → OnlyGraph g.db (add_entities p letters now o w cs g).db
  unfolding add_entities
  add_entities-OnlyGraph [] g = refl
  add_entities-OnlyGraph (c ∷ cs) g =
      add_entities-OnlyGraph cs (add_entity p letters now o w c g) ∙ add_entity-OnlyGraph c g

  record Added (g g' : Graphing p) : Type 0 where
    same_names : g'.by_name ≡ g.by_name
    frame : OnlyGraph g.db g'.db

  add_edge-Added :
      (chunk : DocumentChunk) (r : RelationCandidate) (s t : GraphEntity) (identity : String)
      (g : Graphing p)
      → Added g (add_edge p letters now o w chunk r s t identity g)
  unfolding add_edge store_evidence store_edge
  add_edge-Added chunk r s t identity g = elim (Option-cases (find_row identity g.by_identity)) [
    | inl new ↦ rw (new, add_edge) (record { same_names = refl; frame = refl })
    | inr (edge, old) ↦ rw (old, add_edge) (record { same_names = refl; frame = refl })
  ]

  -- A relation of known keywords is stored.
  add_relation-Added :
      (chunk : DocumentChunk) (r : RelationCandidate) (g : Graphing p)
      → Knows g.by_name r.source_normalized_name
      → Knows g.by_name r.target_normalized_name
      → (g' : Graphing p) × (add_relation p letters now o w chunk r g ≡ ok g') × Added g g'
  unfolding add_relation
  add_relation-Added chunk r g ks kt =
      elim (Option-cases (find_row r.source_normalized_name g.by_name)) [
        | inl missing ↦ absurd (ks missing)
        | inr (s, found_s) ↦ elim (Option-cases (find_row r.target_normalized_name g.by_name)) [
          | inl missing ↦ absurd (kt missing)
          | inr (t, found_t) ↦
              let identity = identity_of p s.id t.id r.relation_type in
              (
                add_edge p letters now o w chunk r s t identity g,
                rw (found_s, found_t) refl,
                add_edge-Added chunk r s t identity g,
              )
        ]
      ]

  add_relations-Added :
      (chunk : DocumentChunk) (ns : List String) (rs : List RelationCandidate) (g : Graphing p)
      → All (Joins ns) rs
      → ((n : String) → Memᴰ n ns → Knows g.by_name n)
      → (g' : Graphing p) × (add_relations p letters now o w chunk rs g ≡ ok g') × Added g g'
  unfolding add_relations
  add_relations-Added chunk ns [] g joins known =
      (g, refl, record { same_names = refl; frame = refl })
  add_relations-Added chunk ns (r ∷ rs) g joins known =
      let (g', e, a) =
        add_relation-Added chunk r g (known _ joins.0.source) (known _ joins.0.target) in
      let (g'', e', a') = add_relations-Added chunk ns rs g' joins.1 (λ n m.
        subst (λ (l : List (String × GraphEntity)). Knows l n) (sym a.same_names) (known n m)) in
      (
        g'',
        rw e e',
        record { same_names = a'.same_names ∙ a.same_names; frame = a'.frame ∙ a.frame },
      )

  add_chunks-OnlyGraph :
      (chunks : List DocumentChunk) (g : Graphing p)
      → (g' : Graphing p) × (add_chunks p letters now o w chunks g ≡ ok g') × OnlyGraph g.db g'.db
  unfolding add_chunks
  add_chunks-OnlyGraph [] g = (g, refl, refl)
  add_chunks-OnlyGraph (chunk ∷ rest) g =
      let found = extract letters chunk.content in
      let facts = extract-IsExtraction letters chunk.content in
      let named = add_entities p letters now o w found.entities g in
      let (g', e, a) =
        add_relations-Added chunk (names found.entities) found.relations named facts.related
          (add_entities-Knows found.entities g) in
      let (g'', e', f) = add_chunks-OnlyGraph rest g' in
      (g'', rw e e', f ∙ (a.frame ∙ add_entities-OnlyGraph found.entities g))

  -- The graph of any chunks can be added to any database: no relation lacks an entity, and no table
  -- but those of the graph changes.
  pub materialize_graph_chunks_total :
      (chunks : List DocumentChunk) (db : Database p)
      → (db' : Database p) × (materialize_graph_chunks p letters now o w chunks db ≡ ok db')
        × OnlyGraph db db'
  unfolding materialize_graph_chunks
  materialize_graph_chunks_total chunks db =
      let start : Graphing p = record {
        by_name = load_entities p letters now o w [] (p.texts.rows db.graph_entities);
        by_identity = load_edges p letters now o w [] (p.uuids.rows db.graph_edges);
        db = db;
      } in
      let (g, e, f) = add_chunks-OnlyGraph chunks start in (g.db, rw e refl, f)
