-- ===== src/Retrieval.antt =====
-- `retrieve` of packages/hangar-server/src/store.rs: the memories of a workspace that hold words of a
-- query. The words and the counting of their matches are those of the parameter `Search`.
pub mod Answers
pub mod Chunks
pub mod Graph
use hangar_ia.Prelude.{
  ℕ, ◌+◌, String, not, ◌&&◌, List, [], ◌∷◌, map, take, is_empty, Outcome, ok, err, ensure, ◌>>◌,
  Bool, ltb, leb, sort_by, string_eq, if◌then◌else◌,
}
use hangar_ia.Platform.{Uuid, Platform, Call}
use hangar_ia.Types.Memory.{Memory}
use hangar_ia.Database.{Database}
use hangar_ia.Scope.{in_scope}
use hangar_ia.Memory.{expire_due_memories}
use hangar_ia.Memory.Records.{is_retrievable}
use hangar_ia.Quotas.{sum_usize}
use hangar_ia.Context.{Search}

-- A memory with its score.
abbrev pub Scored : Type 0
Scored = ℕ × Memory

unfoldable pub matches_of : Search → List String → Memory → ℕ
matches_of engine terms memory = sum_usize (map (λ term. engine.matches term memory.content) terms)

-- The tests of a row.
abbrev pub is_match : Search → List String → String → String → ℕ → Memory → Bool
is_match engine terms organization_id workspace_id now memory =
    in_scope memory.organization_id memory.workspace_id organization_id workspace_id
    && (is_retrievable now memory && ltb 0 (matches_of engine terms memory))

-- The loop over the memories; the number counts the rows, each of which has its time.
unfoldable pub score_memories :
    Search → List String → String → String → (ℕ → ℕ) → ℕ → List (Uuid × Memory) → List Scored
score_memories engine terms organization_id workspace_id clock n [] = []
score_memories engine terms organization_id workspace_id clock n ((key, memory) ∷ rest) =
    let scored = score_memories engine terms organization_id workspace_id clock (n + 1) rest in
    if is_match engine terms organization_id workspace_id (clock n) memory
    then (matches_of engine terms memory, memory) ∷ scored
    else scored

-- `right.cmp(left)` is not `Greater`
abbrev pub scores_first : Scored → Scored → Bool
scores_first left right = leb right.0 left.0

-- The first call is the one of the expiry, which is kept whatever follows.
unfoldable pub retrieve :
    (p : Platform)
    → Search
    → Call
    → Call
    → String
    → String
    → String
    → ℕ
    → Database p
    → Outcome (List Memory) × Database p
retrieve p engine expiry call organization_id workspace_id query limit db =
    elim (expire_due_memories p expiry db) [
      | err message ↦ (err message, db)
      | ok swept ↦ (
        do
          let terms = engine.terms query
          ensure (not (is_empty terms)) "query cannot be empty"
          let scored =
              score_memories engine terms organization_id workspace_id call.clock 0
                (p.uuids.rows swept.1.memories)
          ok (map (λ s. s.1) (take limit (sort_by scores_first scored))),
        swept.1,
      )
    ]
