-- ===== src/Retrieval/Answers.antt =====
-- What `retrieve` of packages/hangar-server/src/store.rs returns.
use mathlib.Core.List.{Memᴰ}
use hangar_ia.Prelude.{
  ℕ, ◌+◌, ◌<◌, String, ◌≡◌, refl, ap, ◌∙◌, sym, true, false, List, [], ◌∷◌, map, take, is_empty,
  All, All-if, All-imp, ok, arith, IsTop, sort_by, Memᴰ-if_head, Memᴰ-if_tail, take-sort_by-IsTop,
  lt→ltb, some, string_eq,
}
use hangar_ia.Platform.{Uuid, Platform, Call}
use hangar_ia.Platform.Rows.{rows_found, Memᴰ-find_row}
use hangar_ia.Types.Memory.{Memory}
use hangar_ia.Database.{Database}
use hangar_ia.Scope.{in_scope}
use hangar_ia.Memory.Records.{is_retrievable}
use hangar_ia.Memory.Expiry.{Swept, expire_due_memories_lem}
use hangar_ia.Context.{Search}
use hangar_ia.Retrieval.{Scored, matches_of, is_match, score_memories, scores_first, retrieve}

module _ (engine : Search) (terms : List String) (o w : String) (clock : ℕ → ℕ) where
  -- A stored memory that passes the tests at some time of the call, with its number of matches.
  pub record IsMatch {ℓ} (Stored : Memory → Type ℓ) (s : Scored) : Type ℓ where
    pub stored : Stored s.1
    pub row : ℕ
    pub in_workspace : in_scope s.1.organization_id s.1.workspace_id o w ≡ true
    pub readable : is_retrievable (clock row) s.1 ≡ true
    pub counted : s.0 ≡ matches_of engine terms s.1
    pub matching : 0 < s.0

  score_memories_sound :
      (Stored : Memory → Type 0) (n : ℕ) (rs : List (Uuid × Memory))
      → All (λ (row : Uuid × Memory). Stored row.1) rs
      → All (IsMatch Stored) (score_memories engine terms o w clock n rs)
  unfolding score_memories
  score_memories_sound Stored n [] h = tt
  score_memories_sound Stored n ((key, m) ∷ rs) h =
      All-if (IsMatch Stored) (is_match engine terms o w (clock n) m) (matches_of engine terms m, m)
        (score_memories engine terms o w clock (n + 1) rs)
        (λ pass. record {
          stored = h.0;
          row = n;
          in_workspace = ground (arith, pass);
          readable = ground (arith, pass);
          counted = refl;
          matching = ground (arith, pass);
        })
        (score_memories_sound Stored (n + 1) rs h.1)

  score_memories_complete :
      (n : ℕ) (rs : List (Uuid × Memory)) (key : Uuid) (m : Memory)
      → Memᴰ (key, m) rs
      → in_scope m.organization_id m.workspace_id o w ≡ true
      → ((i : ℕ) → is_retrievable (clock i) m ≡ true)
      → 0 < matches_of engine terms m
      → Memᴰ (matches_of engine terms m, m) (score_memories engine terms o w clock n rs)
  unfolding score_memories
  score_memories_complete n [] key m i s r h = elim i [ ]
  score_memories_complete n ((j, x) ∷ rs) key m (Memᴰ.head e) s r h =
      let same : m ≡ x = ap (λ (row : Uuid × Memory). row.1) e in
      let pass : is_match engine terms o w (clock n) m ≡ true =
        ground (arith, s, r n, lt→ltb 0 (matches_of engine terms m) h) in
      Memᴰ-if_head (is_match engine terms o w (clock n) x) (matches_of engine terms m, m)
        (matches_of engine terms x, x) (score_memories engine terms o w clock (n + 1) rs)
        (ap (is_match engine terms o w (clock n)) (sym same) ∙ pass)
        (ap (λ (y : Memory). (matches_of engine terms y, y)) same)
  score_memories_complete n ((j, x) ∷ rs) key m (Memᴰ.tail i) s r h =
      Memᴰ-if_tail (is_match engine terms o w (clock n) x) (matches_of engine terms m, m)
        (matches_of engine terms x, x) (score_memories engine terms o w clock (n + 1) rs)
        (score_memories_complete (n + 1) rs key m i s r h)

module _ (p : Platform) (engine : Search) where
  open p.uuids use {get, rows, get-rows}

  abbrev Stored : Database p → Memory → Type 0
  Stored db m = (key : Uuid) × (get key db.memories ≡ some m)

  -- The best of the memories that match: `candidates` are exactly the matches, and the results are
  -- their top by the number of matches.
  pub record IsAnswer (terms : List String) (o w : String) (clock : ℕ → ℕ) (limit : ℕ)
      (db' : Database p) (results : List Memory) : Type 0 where
    pub candidates : List Scored
    pub chosen : List Scored
    pub read_off : results ≡ map (λ s. s.1) chosen
    pub top : IsTop scores_first limit candidates chosen
    pub sound : All (IsMatch engine terms o w clock (Stored db')) candidates
    pub complete :
        (key : Uuid) (m : Memory)
        → get key db'.memories ≡ some m
        → in_scope m.organization_id m.workspace_id o w ≡ true
        → ((i : ℕ) → is_retrievable (clock i) m ≡ true)
        → 0 < matches_of engine terms m
        → Memᴰ (matches_of engine terms m, m) candidates

  scores_first_total : (x y : Scored) → scores_first x y ≡ false → scores_first y x ≡ true
  scores_first_total x y h = ground arith

  scores_first_trans :
      (x y z : Scored) → scores_first x y ≡ true → scores_first y z ≡ true → scores_first x z ≡ true
  scores_first_trans x y z h k = ground arith

  -- With a word in the query, a retrieval never fails. It expires what is due, and returns the
  -- memories of the workspace that are published, not expired and hold words of the query, those with
  -- more matches first, at most the limit; one that matches is left out only if the limit is reached
  -- by memories with at least as many matches.
  pub retrieve-IsAnswer :
      (expiry call : Call) (o w query : String) (limit : ℕ) (db : Database p)
      → is_empty (engine.terms query) ≡ false
      → (results : List Memory) × (count : ℕ) × (db' : Database p) × (retrieve p engine expiry call
            o w query limit db
          ≡ (ok results, db'))
        × Swept p expiry db count db'
        × IsAnswer (engine.terms query) o w call.clock limit db' results
  unfolding retrieve
  retrieve-IsAnswer expiry call o w query limit db words =
      let (count, db', done, swept) = expire_due_memories_lem p expiry db in
      let terms = engine.terms query in
      let scored = score_memories engine terms o w call.clock 0 (rows db'.memories) in
      let chosen = take limit (sort_by scores_first scored) in
      (
        map (λ s. s.1) chosen,
        count,
        db',
        rw (done, retrieve) (rw words refl),
        swept,
        record {
          candidates = scored;
          chosen = chosen;
          read_off = refl;
          top = take-sort_by-IsTop scores_first scores_first_total scores_first_trans limit scored;
          sound =
              score_memories_sound engine terms o w call.clock (Stored db') 0 (rows db'.memories) (
                All-imp (λ (row : Uuid × Memory). get row.0 db'.memories ≡ some row.1)
                  (λ (row : Uuid × Memory). Stored db' row.1) (rows db'.memories)
                  (λ row e. (row.0, e)) (rows_found p db'.memories));
          complete = λ key m found.
              score_memories_complete engine terms o w call.clock 0 (rows db'.memories) key m
                (Memᴰ-find_row key m (rows db'.memories) (sym (get-rows key db'.memories) ∙ found));
        },
      )
