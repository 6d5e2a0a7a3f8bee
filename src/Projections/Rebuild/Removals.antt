-- ===== src/Projections/Rebuild/Removals.antt =====
-- The loops of `clear_graph_workspace` in packages/hangar-server/src/store.rs that remove the rows of
-- a list of keys.
use mathlib.Core.List.{Memᴰ}
use hangar_ia.Prelude.{
  ◌≡◌, ◌↔◌, refl, sym, ap, ◌∙◌, subst, Bool, true, false, Bool-cases, inl, inr, some, some_inj,
  none, List, [], ◌∷◌, map, filter, any, Eq, arith, ◌==◌, ==_iff, nat_eq, string_eq, ◌&&◌,
  if◌then◌else◌,
}
use hangar_ia.Platform.{Redb, find_row}
use hangar_ia.Projections.Rebuild.{remove_all}

-- A loop of removals leaves nothing under the keys of its list, and all else as it was.
remove_all-get :
    {K : Type 0} {e : Eq K} (r : Redb K e) {V : Type 0} (ks : List K) (t : r.Table V) (j : K)
    → r.get j (remove_all r ks t) ≡ (if any (λ k. e.beq k j) ks then none else r.get j t)
unfolding remove_all
remove_all-get r [] t j = refl
remove_all-get {e = e} r (k ∷ ks) t j =
    ground (arith, remove_all-get r ks (r.remove k t) j, r.get-remove j k t)

-- A row that a loop of removals leaves is one that was there and whose key is not in its list.
pub remove_all_iff :
    {K : Type 0} {e : Eq K} (r : Redb K e) {V : Type 0} (ks : List K) (t : r.Table V) (j : K)
    (v : V)
    → (r.get j (remove_all r ks t) ≡ some v)
      ↔ ((r.get j t ≡ some v) × (any (λ k. e.beq k j) ks ≡ false))
remove_all_iff r ks t j v = (
  λ h. ground (arith, h, remove_all-get r ks t j),
  λ h. ground (arith, h, remove_all-get r ks t j),
)

-- The key of a member that passes the test is in the list.
listed :
    {X K : Type 0} ⦃e : Eq K⦄ (key_of : X → K) (test : X → Bool) (xs : List X) (x : X)
    → Memᴰ x xs
    → test x ≡ true
    → any (λ k. k == key_of x) (map key_of (filter test xs)) ≡ true
listed key_of test [] x m h = elim m [ ]
listed key_of test (y ∷ ys) x (Memᴰ.head e) h =
    let passes : test y ≡ true = ap test (sym e) ∙ h in
    let same : (key_of y == key_of x) ≡ true =
      (==_iff (key_of y) (key_of x)).1 (ap key_of (sym e)) in
    rw (passes, same) refl
listed key_of test (y ∷ ys) x (Memᴰ.tail m) h = ground (arith, listed key_of test ys x m h)

-- A key that is not in the list belongs to no member that passes the test.
unlisted :
    {X K : Type 0} ⦃e : Eq K⦄ (key_of : X → K) (test : X → Bool) (xs : List X) (j : K)
    → ((x : X) → Memᴰ x xs → key_of x ≡ j → test x ≡ false)
    → any (λ k. k == j) (map key_of (filter test xs)) ≡ false
unlisted key_of test [] j h = refl
unlisted key_of test (y ∷ ys) j h =
    let rest = unlisted key_of test ys j (λ x m. h x (Memᴰ.tail m)) in
    elim (Bool-cases (test y)) [
      | inr failed ↦ rw failed rest
      | inl passed ↦ elim (Bool-cases (key_of y == j)) [
        | inl same ↦
            let key : key_of y ≡ j = (==_iff (key_of y) j).0 same in
            absurd (ground (arith, passed, h y (Memᴰ.head refl) key))
        | inr other ↦ rw (passed, other) rest
      ]
    ]

-- The keys of the members that pass a test leave this one out exactly when no member with the key
-- passes the test.
pub unlisted_iff :
    {X K : Type 0} ⦃e : Eq K⦄ (key_of : X → K) (test : X → Bool) (xs : List X) (j : K)
    → (any (λ k. k == j) (map key_of (filter test xs)) ≡ false)
      ↔ ((x : X) → Memᴰ x xs → key_of x ≡ j → test x ≡ false)
unlisted_iff key_of test xs j = (
  λ h x m same. elim (Bool-cases (test x)) [
    | inr failed ↦ failed
    | inl passed ↦ absurd (
        ground (
          arith,
          h,
          subst (λ k. any (λ i. i == k) (map key_of (filter test xs)) ≡ true) same
              (listed key_of test xs x m passed),
        ))
  ],
  unlisted key_of test xs j,
)

-- A key of the rows that is not listed by a test on the keys fails it.
any-filter :
    {K : Type 0} ⦃e : Eq K⦄ (test : K → Bool) (ks : List K) (j : K)
    → any (λ k. k == j) (filter test ks) ≡ (test j && any (λ k. k == j) ks)
any-filter test [] j = ground arith
any-filter test (k ∷ ks) j = elim (Bool-cases (k == j)) [
  | inl same ↦
      let key : k ≡ j = (==_iff k j).0 same in
      elim (Bool-cases (test j)) [
        | inl passed ↦ rw (ap test key ∙ passed, same, passed) refl
        | inr failed ↦ rw (ap test key ∙ failed, failed) (any-filter test ks j ∙ rw failed refl)
      ]
  | inr other ↦ elim (Bool-cases (test k)) [
    | inl passed ↦ rw (passed, other) (any-filter test ks j)
    | inr failed ↦ rw (failed, other) (any-filter test ks j)
  ]
]

pub found_row :
    {K V : Type 0} ⦃e : Eq K⦄ (k : K) (v : V) (rows : List (K × V))
    → find_row k rows ≡ some v
    → Memᴰ (k, v) rows
found_row k v [] h = absurd (cc)
found_row k v ((j, u) ∷ rows) h = elim (Bool-cases (j == k)) [
  | inl same ↦ Memᴰ.head (ground (arith, h, same, (==_iff j k).0 same))
  | inr other ↦ Memᴰ.tail (found_row k v rows (ground (arith, h, other)))
]

found_key :
    {K V : Type 0} ⦃e : Eq K⦄ (k : K) (v : V) (rows : List (K × V))
    → find_row k rows ≡ some v
    → any (λ j. j == k) (map (λ (row : K × V). row.0) rows) ≡ true
found_key k v [] h = absurd (cc)
found_key k v (row ∷ rows) h = elim (Bool-cases (row.0 == k)) [
  | inl same ↦ rw same refl
  | inr other ↦ rw other (found_key k v rows (ground (arith, h, other)))
]

module _ {K : Type 0} ⦃e : Eq K⦄ (r : Redb K e) {V : Type 0} (t : r.Table V) where
  -- Each row of the table is the one that its key finds.
  abbrev pub IsOnce : Type 0
  IsOnce = (row : K × V) → Memᴰ row (r.rows t) → r.get row.0 t ≡ some row.1

  -- The removal of the keys that pass a test leaves the rows whose keys fail it.
  pub remove_keys_iff :
      (test : K → Bool) (j : K) (v : V)
      → (r.get j (remove_all r (filter test (map (λ (row : K × V). row.0) (r.rows t))) t) ≡ some v)
        ↔ ((r.get j t ≡ some v) × (test j ≡ false))
  remove_keys_iff test j v =
      let keys = map (λ (row : K × V). row.0) (r.rows t) in
      let gone = remove_all_iff r (filter test keys) t j v in
      let key : (r.get j t ≡ some v) → any (λ k. k == j) keys ≡ true =
        λ h. found_key j v (r.rows t) (sym (r.get-rows j t) ∙ h) in
      (
        λ h.
            let (found, out) = gone.0 h in
            (found, ground (arith, out, any-filter test keys j, key found)),
        λ h. gone.1 (h.0, ground (arith, h.1, any-filter test keys j)),
      )

  -- The removal of the keys of the rows that pass a test leaves the rows that fail it.
  pub remove_rows_iff :
      (test : K × V → Bool) (j : K) (v : V)
      → IsOnce
      → (r.get j (remove_all r (map (λ (row : K × V). row.0) (filter test (r.rows t))) t) ≡ some v)
        ↔ ((r.get j t ≡ some v) × (test (j, v) ≡ false))
  remove_rows_iff test j v once =
      let keys = map (λ (row : K × V). row.0) (filter test (r.rows t)) in
      let gone = remove_all_iff r keys t j v in
      let out = unlisted_iff (λ (row : K × V). row.0) test (r.rows t) j in
      (
        λ h.
            let (found, apart) = gone.0 h in
            (
              found,
              out.0 apart (j, v) (found_row j v (r.rows t) (sym (r.get-rows j t) ∙ found)) refl,
            ),
        λ h. gone.1 (
          h.0,
          out.1 (λ row m same.
              let value : row.1 ≡ v =
                some_inj (sym (once row m) ∙ (ap (λ k. r.get k t) same ∙ h.0)) in
              let whole : row ≡ (j, v) = cc in ap test whole ∙ h.1),
        ),
      )
