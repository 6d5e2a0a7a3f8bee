-- ===== src/Outbox/Pages.antt =====
-- The pages of the outbox: what one call returns, and what a reader gets who follows the cursor.
use hangar_ia.Prelude.{
  ℕ, zero, suc, ◌-◌, ◌≤◌, ◌<◌, max, String, ◌≡◌, refl, ap, ◌∙◌, subst, Bool, true, false, ◌&&◌,
  Option, none, some, List, [], ◌∷◌, ◌++◌, map, length, All, All-filter, filter, take, Bool-cases,
  inl, inr, arith, leb,
}
use hangar_ia.Platform.{Uuid, Platform, IsAscending}
use hangar_ia.Types.Events.{OutboxEvent}
use hangar_ia.Database.{Database}
use hangar_ia.Outbox.{is_past, is_listed, collect_events, list_outbox_events}
use hangar_ia.Outbox.Cuts.{
  HasIds, Row, cut, drop, event_of, last, last-map, length-drop-le, length-map, map-take, take-drop,
}

module _ (o : String) (w : Option String) where
  abbrev passes : Option Uuid → Row → Bool
  passes after row = is_past after row.0 && is_listed o w row.1

  -- The loop returns as many events as there is room for, and at least one.
  collect_events-take :
      (after : Option Uuid) (limit found k : ℕ) (rs : List Row)
      → max (limit - found) 1 ≡ suc k
      → collect_events o w after limit found rs
        ≡ map event_of (take (suc k) (filter (passes after) rs))
  unfolding collect_events
  collect_events-take after limit found k [] e = refl
  collect_events-take after limit found k (row ∷ rs) e = elim (Bool-cases (passes after row)) [
    | inr skipped ↦ rw skipped (collect_events-take after limit found k rs e)
    | inl kept ↦ elim (Bool-cases (leb limit (suc found))) [
      | inl full ↦ let one : k ≡ 0 = ground (arith, e, full) in rw (kept, full, one) refl
      | inr room ↦
          let more : max (limit - suc found) 1 ≡ suc (k - 1) = ground (arith, e, room) in
          let next : k ≡ suc (k - 1) = ground (arith, e, room) in
          rw (kept, room)
            (ap (◌∷◌ row.1) (rw next (collect_events-take after limit (suc found) (k - 1) rs more)))
    ]
  ]

  -- rows_behind a row of the list, the same test leaves what stands behind it.
  above_cursor :
      (after : Option Uuid) (row : Row) (rs : List Row)
      → is_past after row.0 ≡ true
      → All (λ (r : Row). row.0 < r.0) rs
      → filter (passes (some row.0)) rs ≡ filter (passes after) rs
  above_cursor after row [] h a = refl
  above_cursor none row (r ∷ rs) h a = ground (arith, above_cursor none row rs h a.1)
  above_cursor (some c) row (r ∷ rs) h a = ground (arith, above_cursor (some c) row rs h a.1)

  All-middle :
      (P : Row → Type 0) (front back : List Row) (row : Row) → All P (front ++ (row ∷ back)) → P row
  All-middle P [] back row h = h.0
  All-middle P (f ∷ front) back row h = All-middle P front back row h.1

  in_filter-above :
      (after : Option Uuid) (k : ℕ) (rs front back : List Row) (row : Row)
      → All (λ (r : Row). k < r.0) rs
      → filter (passes after) rs ≡ front ++ (row ∷ back)
      → k < row.0
  in_filter-above after k rs front back row a e =
      All-middle (λ (r : Row). k < r.0) front back row
        (subst (All (λ (r : Row). k < r.0)) e
          (All-filter (λ (r : Row). k < r.0) (passes after) rs a))

  not_past : (row : Row) (r : Row) → r.0 < row.0 → passes (some row.0) r ≡ false
  not_past row r h = ground arith

  itself : (r : Row) → passes (some r.0) r ≡ false
  itself r = ground arith

  behind :
      (after : Option Uuid) (rs front back : List Row) (row : Row)
      → IsAscending rs
      → filter (passes after) rs ≡ front ++ (row ∷ back)
      → filter (passes (some row.0)) rs ≡ back
  behind after [] [] back row a e = absurd (cc)
  behind after [] (f ∷ front) back row a e = absurd (cc)
  behind after (r ∷ rs) [] back row a e = elim (Bool-cases (passes after r)) [
    | inl kept ↦
        let same : r ≡ row = ground (arith, e, kept) in
        let rest : filter (passes after) rs ≡ back = ground (arith, e, kept) in
        let past : is_past after r.0 ≡ true = ground (arith, kept) in
        subst (λ (x : Row). filter (passes (some x.0)) (r ∷ rs) ≡ back) same
          (rw (itself r) (above_cursor after r rs past a.0 ∙ rest))
    | inr skipped ↦
        let e' : filter (passes after) rs ≡ row ∷ back = ground (arith, e, skipped) in
        rw (not_past row r (in_filter-above after r.0 rs [] back row a.0 e'))
          (behind after rs [] back row a.1 e')
  ]
  behind after (r ∷ rs) (f ∷ front) back row a e = elim (Bool-cases (passes after r)) [
    | inl kept ↦
        let e' : filter (passes after) rs ≡ front ++ (row ∷ back) = ground (arith, e, kept) in
        rw (not_past row r (in_filter-above after r.0 rs front back row a.0 e'))
          (behind after rs front back row a.1 e')
    | inr skipped ↦
        let e' : filter (passes after) rs ≡ f ∷ (front ++ (row ∷ back)) =
          ground (arith, e, skipped) in
        rw (not_past row r (in_filter-above after r.0 rs (f ∷ front) back row a.0 e'))
          (behind after rs (f ∷ front) back row a.1 e')
  ]

  -- The events that a reader of this scope has behind a cursor, in the order of their ids.
  unfoldable pub events_behind : Option Uuid → List Row → List OutboxEvent
  events_behind after rs = map event_of (filter (passes after) rs)

module _ (p : Platform) (o : String) (w : Option String) where
  -- A reader that asks for page after page, each behind the last event of the one before, until a
  -- page is empty.
  pub follow : ℕ → Option Uuid → ℕ → Database p → List OutboxEvent
  follow zero after limit db = []
  follow (suc calls) after limit db =
      let page = list_outbox_events p o w after limit db in
      elim (last page) [ none ↦ [] | some event ↦ page ++ follow calls (some event.id) limit db ]

  abbrev rows_behind : Option Uuid → Database p → List Row
  rows_behind after db = filter (passes o w after) (p.uuids.rows db.outbox_events)

  -- A page holds the first events behind the cursor: as many as the limit allows, but never none.
  pub list_outbox_events_lem :
      (after : Option Uuid) (limit : ℕ) (db : Database p)
      → list_outbox_events p o w after limit db
        ≡ take (max limit 1) (events_behind o w after (p.uuids.rows db.outbox_events))
  unfolding list_outbox_events events_behind
  list_outbox_events_lem after limit db =
      let rs = p.uuids.rows db.outbox_events in
      let room : max (limit - 0) 1 ≡ suc (max limit 1 - 1) = omega arith in
      let size : suc (max limit 1 - 1) ≡ max limit 1 = omega arith in
      collect_events-take o w after limit 0 (max limit 1 - 1) rs room
      ∙ (map-take (suc (max limit 1 - 1)) (filter (passes o w after) rs)
          ∙ ap (λ (n : ℕ). take n (map event_of (filter (passes o w after) rs))) size)

  -- One call and its successor: the rows behind the last event of the page are those that the page
  -- leaves.
  next_page :
      (after : Option Uuid) (m : ℕ) (x : Row) (xs : List Row) (db : Database p)
      → HasIds (p.uuids.rows db.outbox_events)
      → rows_behind after db ≡ x ∷ xs
      → (event : OutboxEvent) × (last (map event_of (take (suc m) (x ∷ xs))) ≡ some event)
        × (rows_behind (some event.id) db ≡ drop (suc m) (x ∷ xs))
  next_page after m x xs db ids e =
      let rs = p.uuids.rows db.outbox_events in
      let (front, row, final, split) = cut m x xs in
      let same : row.1.id ≡ row.0 =
        All-middle o w (λ (r : Row). r.1.id ≡ r.0) front (drop (suc m) (x ∷ xs)) row
          (subst HasIds (e ∙ split)
            (All-filter (λ (r : Row). r.1.id ≡ r.0) (passes o w after) rs ids)) in
      (
        row.1,
        last-map (take (suc m) (x ∷ xs)) row final,
        rw same (
            behind o w after rs front (drop (suc m) (x ∷ xs)) row (p.ascending db.outbox_events)
              (e ∙ split)),
      )

  page_of :
      (after : Option Uuid) (limit m : ℕ) (db : Database p) (rs : List Row)
      → max limit 1 ≡ suc m
      → rows_behind after db ≡ rs
      → list_outbox_events p o w after limit db ≡ map event_of (take (suc m) rs)
  unfolding list_outbox_events
  page_of after limit m db rs size e =
      let room : max (limit - 0) 1 ≡ suc m = omega (arith, size) in
      collect_events-take o w after limit 0 m (p.uuids.rows db.outbox_events) room
      ∙ ap (λ (l : List Row). map event_of (take (suc m) l)) e

  follow_rows :
      (calls : ℕ) (after : Option Uuid) (limit m : ℕ) (db : Database p) (rs : List Row)
      → HasIds (p.uuids.rows db.outbox_events)
      → max limit 1 ≡ suc m
      → rows_behind after db ≡ rs
      → length rs ≤ calls
      → follow calls after limit db ≡ map event_of rs
  unfolding follow
  follow_rows zero after limit m db [] ids size e enough = refl
  follow_rows zero after limit m db (x ∷ xs) ids size e enough = absurd (omega arith)
  follow_rows (suc calls) after limit m db [] ids size e enough =
      rw (page_of after limit m db [] size e, follow) refl
  follow_rows (suc calls) after limit m db (x ∷ xs) ids size e enough =
      let page = page_of after limit m db (x ∷ xs) size e in
      let (event, final, rest) = next_page after m x xs db ids e in
      let left = drop (suc m) (x ∷ xs) in
      let short : length left ≤ calls = omega (arith, length-drop-le m x xs) in
      let more = follow_rows calls (some event.id) limit m db left ids size rest short in
      rw (page, follow) (rw final (rw more (rw page (take-drop (suc m) (x ∷ xs)))))

  -- With a call for each event behind the cursor, a reader gets all of them, once each and in order,
  -- whatever the limit of a page.
  pub follow-all :
      (calls : ℕ) (after : Option Uuid) (limit : ℕ) (db : Database p)
      → HasIds (p.uuids.rows db.outbox_events)
      → length (events_behind o w after (p.uuids.rows db.outbox_events)) ≤ calls
      → follow calls after limit db ≡ events_behind o w after (p.uuids.rows db.outbox_events)
  unfolding events_behind
  follow-all calls after limit db ids enough =
      let size : max limit 1 ≡ suc (max limit 1 - 1) = omega arith in
      follow_rows calls after limit (max limit 1 - 1) db (rows_behind after db) ids size refl
        (omega (arith, length-map (rows_behind after db)))
