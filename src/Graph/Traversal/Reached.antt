-- ===== src/Graph/Traversal/Reached.antt =====
-- What `graph_candidates` finds, against the rows of the database.
use mathlib.Core.List.{Memᴰ}
use hangar_ia.Prelude.{
  Memᴰ-All, IsRanked, All-filter_imp, ℕ, ◌+◌, ◌≤◌, min, max, String, ◌≡◌, refl, Bool, true, false,
  Bool-cases, inl, inr, some, List, [], ◌∷◌, map, filter, length, take, is_empty, All, All-take,
  All-imp, All-put, All-sort_by, arith, nat_eq, put, sort_by, take-sort_by-IsTop, string_eq,
}
use hangar_ia.Platform.{Uuid, Platform}
use hangar_ia.Platform.Rows.{rows_found}
use hangar_ia.Types.Projections.{GraphEdge, GraphEdgeEvidence}
use hangar_ia.Floats.{Floats}
use hangar_ia.Database.{Database}
use hangar_ia.Scope.{in_scope}
use hangar_ia.Graph.{Letters, query_terms}
use hangar_ia.Graph.Traversal.Ends.{walk_graph_ends}
use hangar_ia.Graph.Traversal.{
  GraphCandidate, Walk, map_by, graph_max_traversed_edges, graph_max_hops, better_first,
  scoped_edges, seeds, graph_candidates,
}
use hangar_ia.Graph.Traversal.Proposals.{IsProposal, walk_graph-Proposed}

All-map_by {ℓ} :
    {A : Type ℓ} (P : A → Type 0) (id_of : A → Uuid) (rows : List (Uuid × A)) (xs : List A)
    → All (λ (row : Uuid × A). P row.1) rows
    → All P xs
    → All (λ (row : Uuid × A). P row.1) (map_by id_of rows xs)
unfolding map_by
All-map_by P id_of rows [] old new = old
All-map_by {A = A} P id_of rows (x ∷ xs) old new =
    All-map_by P id_of (put (id_of x) x rows) xs
      (All-put (λ (row : Uuid × A). P row.1) (id_of x) x rows new.0 old) new.1

pub All-values {ℓ κ} :
    {K : Type 0} {A : Type ℓ} (P : A → Type κ) (rows : List (K × A))
    → All (λ (row : K × A). P row.1) rows
    → All P (map (λ row. row.1) rows)
All-values P [] h = tt
All-values P (row ∷ rows) h = (h.0, All-values P rows h.1)

module _ (p : Platform) (letters : Letters) (floats : Floats) where
  -- An edge that is stored, in the workspace.
  pub record IsStoredEdge (o w : String) (db : Database p) (edge : GraphEdge) : Type 0 where
    pub key : Uuid
    pub stored : p.uuids.get key db.graph_edges ≡ some edge
    pub in_workspace : in_scope edge.organization_id edge.workspace_id o w ≡ true

  -- Evidence that is stored.
  pub record IsStoredProof (db : Database p) (e : GraphEdgeEvidence) : Type 0 where
    pub key : String
    pub stored : Memᴰ (key, e) (p.texts.rows db.graph_edge_evidence)

  scoped_edges-stored :
      (o w : String) (db : Database p)
      → All (IsStoredEdge o w db) (scoped_edges p letters floats o w db)
  scoped_edges-stored o w db =
      let in_rows = p.uuids.rows db.graph_edges in
      let listed = map (λ (row : Uuid × GraphEdge). row.1) in_rows in
      let at_key : GraphEdge → Type 0 =
        λ edge. (key : Uuid) × (p.uuids.get key db.graph_edges ≡ some edge) in
      let test : GraphEdge → Bool = λ edge. in_scope edge.organization_id edge.workspace_id o w in
      All-values (IsStoredEdge o w db)
        (map_by (λ (edge : GraphEdge). edge.id) [] (filter test listed))
        (All-map_by (IsStoredEdge o w db) (λ (edge : GraphEdge). edge.id) [] (filter test listed) tt
          (All-filter_imp at_key (IsStoredEdge o w db) test listed
            (λ edge found inside. record { key = found.0; stored = found.1; in_workspace = inside })
            (All-values at_key in_rows (
              All-imp (λ (row : Uuid × GraphEdge). p.uuids.get row.0 db.graph_edges ≡ some row.1)
                (λ (row : Uuid × GraphEdge). at_key row.1) in_rows (λ row e. (row.0, e))
                (rows_found p db.graph_edges)))))

  evidence-stored :
      (db : Database p)
      → All (IsStoredProof db) (map (λ row. row.1) (p.texts.rows db.graph_edge_evidence))
  evidence-stored db =
      let in_rows = p.texts.rows db.graph_edge_evidence in
      All-values (IsStoredProof db) in_rows (
        Memᴰ-All (λ (row : String × GraphEdgeEvidence). IsStoredProof db row.1) in_rows
          (λ row m. record { key = row.0; stored = m }))

  -- The candidates of a query: at most the limit, the better scores first, and each of them stored
  -- evidence for a stored edge of the workspace, within the hops that the query may take.
  pub record IsFound (o w : String) (limit max_hops : ℕ) (db : Database p)
      (found : List GraphCandidate) : Type 0 where
    pub bounded : length found ≤ limit
    pub ranked : IsRanked (better_first floats) found
    pub proposals :
        All
          (IsProposal floats
            (map (λ row. row.1) (p.texts.rows db.graph_edge_evidence))
            (IsStoredEdge o w db)
            (IsStoredProof db)
            (max 1 (min max_hops 3)))
          found

  better_first_total :
      (x y : GraphCandidate) → better_first floats x y ≡ false → better_first floats y x ≡ true
  better_first_total x y h = floats.total y.score x.score h

  better_first_trans :
      (x y z : GraphCandidate)
      → better_first floats x y ≡ true
      → better_first floats y z ≡ true
      → better_first floats x z ≡ true
  better_first_trans x y z h k = floats.transitive z.score y.score x.score k h

  -- The walk always ends within its fuel, whatever cycles the edges of the database make, and what
  -- it finds is as `IsFound` says.
  pub graph_candidates_total :
      (o w query : String) (limit max_hops : ℕ) (db : Database p)
      → (found : List GraphCandidate) × (graph_candidates p letters floats o w query limit max_hops
            db
          ≡ some found)
        × IsFound o w limit max_hops db found
  unfolding graph_candidates
  graph_candidates_total o w query limit max_hops db =
      let terms = query_terms letters query in
      let first = seeds p letters floats terms o w db in
      let evidence = map (λ row. row.1) (p.texts.rows db.graph_edge_evidence) in
      let edges = scoped_edges p letters floats o w db in
      let hops = max 1 (min max_hops graph_max_hops) in
      let start : Walk = record {
        frontier = first;
        visited = first;
        candidates = [];
        traversed_edges = 0;
      } in
      elim (Bool-cases (is_empty terms)) [
        | inl empty ↦
            ([], rw empty refl, record { bounded = omega arith; ranked = tt; proposals = tt })
        | inr words ↦
            let (walk, ends, drained, within) =
              walk_graph_ends floats evidence (length first + graph_max_traversed_edges) edges hops
                start (omega arith) (omega arith) in
            let all =
              walk_graph-Proposed floats evidence (IsStoredEdge o w db) (IsStoredProof db) hops
                (evidence-stored db) (length first + graph_max_traversed_edges) edges start walk
                (scoped_edges-stored o w db) tt ends in
            let proposal =
              IsProposal floats evidence (IsStoredEdge o w db) (IsStoredProof db) hops in
            let values = map (λ (row : Uuid × GraphCandidate). row.1) walk.candidates in
            let top =
              take-sort_by-IsTop (better_first floats) better_first_total better_first_trans limit
                values in
            (
              take limit (sort_by (better_first floats) values),
              rw words (rw ends refl),
              record {
                bounded = top.bounded;
                ranked = top.ranked;
                proposals = All-take proposal limit (sort_by (better_first floats) values) (
                    All-sort_by proposal (better_first floats) values
                      (All-values proposal walk.candidates all));
              },
            )
      ]
