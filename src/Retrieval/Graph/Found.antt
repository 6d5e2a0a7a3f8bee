-- ===== src/Retrieval/Graph/Found.antt =====
-- What is found in the maps by id that `retrieve_graph` of packages/hangar-server/src/store.rs
-- builds from the rows of its tables.
use hangar_ia.Prelude.{
  ◌≡◌, refl, subst, Bool, true, false, not, Bool-cases, inl, inr, Option, none, some, some_inj,
  List, [], ◌∷◌, All, All-put, arith, ◌==◌, ==_iff, nat_eq, if◌then◌else◌, put,
}
use hangar_ia.Platform.{Uuid, find_row}
use hangar_ia.Graph.Traversal.{map_by}

-- What is found under a key has, with the key, the property of all the rows.
find_row_All :
    {V : Type 0} (P : Uuid × V → Type 0) (k : Uuid) (v : V) (rows : List (Uuid × V))
    → All P rows
    → find_row k rows ≡ some v
    → P (k, v)
find_row_All P k v [] h e = absurd (cc)
find_row_All P k v ((j, u) ∷ rows) h e = elim (Bool-cases (j == k)) [
  | inl same ↦
      let key : j ≡ k = (==_iff j k).0 same in
      let value : u ≡ v = some_inj (ground (arith, e, same)) in
      let row : (j, u) ≡ (k, v) = cc in subst P row h.0
  | inr other ↦ find_row_All P k v rows h.1 (ground (arith, e, other))
]

map_by_All :
    {A : Type 0} (Q : A → Type 0) (id_of : A → Uuid) (rows : List (Uuid × A)) (xs : List A)
    → All (λ (row : Uuid × A). (id_of row.1 ≡ row.0) × Q row.1) rows
    → All Q xs
    → All (λ (row : Uuid × A). (id_of row.1 ≡ row.0) × Q row.1) (map_by id_of rows xs)
unfolding map_by
map_by_All Q id_of rows [] old new = old
map_by_All {A} Q id_of rows (x ∷ xs) old new =
    map_by_All Q id_of (put (id_of x) x rows) xs
      (All-put (λ (row : Uuid × A). (id_of row.1 ≡ row.0) × Q row.1) (id_of x) x rows (refl, new.0)
        old)
      new.1

-- What a map by id finds under an id has that id, and the property of all that the map was built of.
pub map_by-found :
    {A : Type 0} (Q : A → Type 0) (id_of : A → Uuid) (xs : List A) (k : Uuid) (v : A)
    → All Q xs
    → find_row k (map_by id_of [] xs) ≡ some v
    → (id_of v ≡ k) × Q v
map_by-found {A} Q id_of xs k v h e =
    find_row_All (λ (row : Uuid × A). (id_of row.1 ≡ row.0) × Q row.1) k v (map_by id_of [] xs)
      (map_by_All Q id_of [] xs tt h) e

-- What passes a guard.
pub guard-some :
    {A : Type 0} {r : A} (t : Bool) (x : Option A)
    → (if not t then none else x) ≡ some r
    → (t ≡ true) × (x ≡ some r)
guard-some true x h = (refl, h)
guard-some false x h = absurd (cc)
