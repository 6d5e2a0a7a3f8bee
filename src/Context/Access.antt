-- ===== src/Context/Access.antt =====
-- Whose memories a context package holds.
use hangar_ia.Prelude.{
  ℕ, ◌+◌, ◌≤◌, String, true, Option, none, some, List, [], ◌∷◌, map, filter, find, ◌≡◌, refl, sym,
  ◌∙◌, ap, subst, ◌⊎◌, inl, inr, All, All-take, length, length-take-le, Option-cases, Bool-cases,
  ==_iff, ◌==◌, nat_eq, string_eq, arith, min, max, find_sound, find-All, ltb, add_usize,
}
use hangar_ia.Platform.{Uuid, Platform, Call, find_row}
use hangar_ia.Platform.Rows.{rows_found}
use hangar_ia.Types.Access.{Principal}
use hangar_ia.Types.Sharing.{MemoryShare, ContextItem}
use hangar_ia.Types.Memory.{Memory}
use hangar_ia.Database.{Database}
use hangar_ia.Sharing.{is_active_for}
use hangar_ia.Memory.Records.{is_retrievable}
use hangar_ia.Context.{
  Search, Candidate, is_usable_share, grants, candidate_of, put_candidate, stays, add_candidate,
  insert_ranked, rank_candidates, item_of, item_tokens, select_items, collect_candidates,
  usable_shares, ranked,
}

module _ {ℓ} (P : Candidate → Type ℓ) where
  abbrev AllValues : List (Uuid × Candidate) → Type ℓ
  AllValues rows = All (λ (row : Uuid × Candidate). P row.1) rows

  put-AllValues :
      (id : Uuid) (c : Candidate) (rows : List (Uuid × Candidate))
      → P c
      → AllValues rows
      → AllValues (put_candidate id c rows)
  unfolding put_candidate
  put-AllValues id c [] h a = (h, tt)
  put-AllValues id c ((key, other) ∷ rest) h a = ground (arith, h, a, put-AllValues id c rest h a.1)

  insert_ranked-All :
      (c : Candidate) (cs : List Candidate) → P c → All P cs → All P (insert_ranked c cs)
  unfolding insert_ranked
  insert_ranked-All c [] h a = (h, tt)
  insert_ranked-All c (x ∷ xs) h a = ground (arith, h, a, insert_ranked-All c xs h a.1)

  rank_candidates-All :
      (rows : List (Uuid × Candidate)) → AllValues rows → All P (rank_candidates rows)
  unfolding rank_candidates
  rank_candidates-All [] a = tt
  rank_candidates-All ((id, c) ∷ rest) a =
      insert_ranked-All c (rank_candidates rest) a.0 (rank_candidates-All rest a.1)

  add_candidate-AllValues :
      (o : Option Candidate) (rows : List (Uuid × Candidate))
      → ((c : Candidate) → o ≡ some c → P c)
      → AllValues rows
      → AllValues (add_candidate o rows)
  unfolding add_candidate
  add_candidate-AllValues none rows h a = a
  add_candidate-AllValues (some c) rows h a =
      elim (Bool-cases (stays c (find_row c.memory.id rows))) [
        | inl stay ↦ rw (stay, add_candidate) a
        | inr goes ↦ rw (goes, add_candidate) (put-AllValues c.memory.id c rows (h c refl) a)
      ]

module _ (p : Platform) (principal : Principal) (workspace : String) (call : Call)
    (db : Database p) where
  open p.uuids use {get, rows}

  -- A stored share that the principal may use, for a memory of its source workspace.
  pub record Granted (memory : Memory) (share_id : Option Uuid) : Type 0 where
    pub key : Uuid
    pub share : MemoryShare
    pub stored : get key db.memory_shares ≡ some share
    pub organization : share.organization_id ≡ principal.organization_id
    pub active :
        is_active_for share workspace principal.id principal.subject_kind (call.clock 0) ≡ true
    pub of_memory : share.memory_id ≡ memory.id
    pub source : share.source_workspace_id ≡ memory.workspace_id
    pub named : share_id ≡ some share.id

  -- A memory that the principal may read: it is stored, of the organization, published and unexpired,
  -- and it belongs to the workspace of the request or is granted.
  pub record MayRead (c : Candidate) : Type 0 where
    pub key : Uuid
    pub stored : get key db.memories ≡ some c.memory
    pub organization : c.memory.organization_id ≡ principal.organization_id
    pub place : ℕ
    pub retrievable : is_retrievable (call.clock place) c.memory ≡ true
    pub access : (c.memory.workspace_id ≡ workspace) ⊎ Granted c.memory c.share_id

  abbrev UsableRow : MemoryShare → Type 0
  UsableRow share =
      ((key : Uuid) × (get key db.memory_shares ≡ some share))
      × (is_usable_share principal workspace (call.clock 0) share ≡ true)

  usable-All :
      (rs : List (Uuid × MemoryShare))
      → All (λ (row : Uuid × MemoryShare). get row.0 db.memory_shares ≡ some row.1) rs
      → All UsableRow
          (filter (is_usable_share principal workspace (call.clock 0)) (map (λ row. row.1) rs))
  usable-All [] h = tt
  usable-All (row ∷ rs) h =
      elim (Bool-cases (is_usable_share principal workspace (call.clock 0) row.1)) [
        | inl usable ↦ rw usable (((row.0, h.0), usable), usable-All rs h.1)
        | inr other ↦ rw other (usable-All rs h.1)
      ]

  Granted-of_share :
      (memory : Memory) (share : MemoryShare)
      → UsableRow share
      → grants memory share ≡ true
      → Granted memory (some share.id)
  unfolding is_usable_share
  Granted-of_share memory share u g = record {
    key = u.0.0;
    share = share;
    stored = u.0.1;
    organization = ground (arith, u.1, ==_iff share.organization_id principal.organization_id);
    active = ground (arith, u.1);
    of_memory = ground (arith, g, ==_iff share.memory_id memory.id);
    source = ground (arith, g, ==_iff share.source_workspace_id memory.workspace_id);
    named = refl;
  }

  candidate_of-MayRead :
      (engine : Search) (ranks : String → Option ℕ) (terms : List String)
      (shares : List MemoryShare) (key : Uuid) (n : ℕ) (memory : Memory) (c : Candidate)
      → All UsableRow shares
      → get key db.memories ≡ some memory
      → candidate_of engine ranks terms principal workspace shares (call.clock n) memory ≡ some c
      → MayRead c
  unfolding candidate_of
  candidate_of-MayRead engine ranks terms shares key n memory c usable stored h =
      let own = memory.workspace_id == workspace in
      let found : Option MemoryShare = find (grants memory) shares in
      let here : memory ≡ c.memory = ground (arith, h) in
      let org : memory.organization_id ≡ principal.organization_id =
        ground (arith, h, ==_iff memory.organization_id principal.organization_id) in
      let live : is_retrievable (call.clock n) memory ≡ true = ground (arith, h) in
      let access : (memory.workspace_id ≡ workspace) ⊎ Granted memory c.share_id =
        elim (Bool-cases own) [
          | inl mine ↦ inl ((==_iff memory.workspace_id workspace).0 mine)
          | inr theirs ↦ elim (Option-cases found) [
            | inl nobody ↦ absurd (ground (arith, h, theirs, nobody))
            | inr (share, e) ↦
                let named : some share.id ≡ c.share_id = ground (arith, h, theirs, e) in
                inr (
                  subst (Granted memory) named (
                    Granted-of_share memory share
                      (find-All UsableRow (grants memory) shares share usable e)
                      (find_sound (grants memory) shares share e)))
          ]
        ] in
      record {
        key = key;
        stored = stored ∙ ap some here;
        organization = ap (λ (m : Memory). m.organization_id) (sym here) ∙ org;
        place = n;
        retrievable = ap (is_retrievable (call.clock n)) (sym here) ∙ live;
        access =
            subst (λ (m : Memory). (m.workspace_id ≡ workspace) ⊎ Granted m c.share_id) here access;
      }

  collect_candidates-All :
      (engine : Search) (ranks : String → Option ℕ) (terms : List String)
      (shares : List MemoryShare) (n : ℕ) (rs : List (Uuid × Memory))
      (candidates : List (Uuid × Candidate))
      → All UsableRow shares
      → All (λ (row : Uuid × Memory). get row.0 db.memories ≡ some row.1) rs
      → AllValues MayRead candidates
      → AllValues MayRead (
          collect_candidates p
            (λ i. candidate_of engine ranks terms principal workspace shares (call.clock (i + 1)))
            n
            rs
            candidates)
  unfolding collect_candidates
  collect_candidates-All engine ranks terms shares n [] candidates u h a = a
  collect_candidates-All engine ranks terms shares n ((key, memory) ∷ rs) candidates u h a =
      collect_candidates-All engine ranks terms shares (n + 1) rs
        (add_candidate
          (candidate_of engine ranks terms principal workspace shares (call.clock (n + 1)) memory)
          candidates)
        u h.1
        (add_candidate-AllValues MayRead
          (candidate_of engine ranks terms principal workspace shares (call.clock (n + 1)) memory)
          candidates
          (λ c e. candidate_of-MayRead engine ranks terms shares key (n + 1) memory c u h.0 e) a)

  -- The ranking holds only memories that the principal may read, and at most fifty.
  pub ranked-All :
      (engine : Search) (ranks : String → Option ℕ) (query : String) (limit : ℕ)
      → All MayRead (ranked p engine ranks call principal workspace query limit db)
        × (length (ranked p engine ranks call principal workspace query limit db) ≤ 50)
  unfolding ranked usable_shares
  ranked-All engine ranks query limit =
      let shares = usable_shares p principal workspace (call.clock 0) db in
      let all = rank_candidates (
        collect_candidates p
          (λ n.
            candidate_of engine ranks (engine.terms query) principal workspace shares
              (call.clock (n + 1)))
          0 (rows db.memories) []) in
      let bound = length-take-le (max 1 (min limit 50)) all in
      (
        All-take MayRead (max 1 (min limit 50)) all (
            rank_candidates-All MayRead
              (collect_candidates p
                (λ n.
                  candidate_of engine ranks (engine.terms query) principal workspace shares
                    (call.clock (n + 1)))
                0 (rows db.memories) [])
              (collect_candidates-All engine ranks (engine.terms query) shares 0 (rows db.memories)
                [] (usable-All (rows db.memory_shares) (rows_found p db.memory_shares))
                (rows_found p db.memories) tt)),
        omega (arith, bound),
      )

  -- An item is made from a memory that the principal may read.
  pub record FromReadable (item : ContextItem) : Type 0 where
    pub candidate : Candidate
    pub readable : MayRead candidate
    pub made : item ≡ item_of candidate

  pub select_items-All :
      (budget used : ℕ) (cs : List Candidate)
      → All MayRead cs
      → All FromReadable (select_items budget used cs).0
        × (length (select_items budget used cs).0 ≤ length cs)
  unfolding select_items
  select_items-All budget used [] a = (tt, omega arith)
  select_items-All budget used (c ∷ cs) a =
      elim (Bool-cases (ltb budget (add_usize used (item_tokens c)))) [
        | inl large ↦
            let (x, l) = select_items-All budget used cs a.1 in
            (rw (large, select_items) x, rw (large, select_items) (omega (arith, l)))
        | inr fits ↦
            let (x, l) = select_items-All budget (add_usize used (item_tokens c)) cs a.1 in
            (
              rw (fits, select_items) (record { candidate = c; readable = a.0; made = refl }, x),
              rw (fits, select_items) (omega (arith, l)),
            )
      ]
