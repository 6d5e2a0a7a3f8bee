-- ===== src/Projections/Confirm/Marked.antt =====
-- The loops that mark the manifests of a document ready.
use hangar_ia.Prelude.{
  ℕ, ◌+◌, String, ◌≡◌, ◌≢◌, refl, ◌∙◌, Bool, true, Bool-cases, inl, inr, none, some, Option-cases,
  List, [], ◌∷◌, All, All-imp, ok, arith, ◌==◌, ==_refl, nat_eq, string_eq,
}
use hangar_ia.Platform.{Uuid, Platform}
use hangar_ia.Projections.Prepare.{insert_manifests}
use hangar_ia.Projections.Confirm.{mark_ready}

module _ (p : Platform) where
  open p.uuids use {Table, get, insert, get-insert}

  module _ {M : Type 0} where
    abbrev pub IsPresent : Table M → Uuid → Type 0
    IsPresent t id = get id t ≢ none

    insert-IsPresent :
        (id j : Uuid) (m : M) (t : Table M) → IsPresent t j → IsPresent (insert id m t) j
    insert-IsPresent id j m t h = ground (arith, h, get-insert j id m t)

    insert-IsPresent_self : (id : Uuid) (m : M) (t : Table M) → IsPresent (insert id m t) id
    insert-IsPresent_self id m t = ground (arith, get-insert id id m t, ==_refl id)

    insert_manifests-old :
        (rows : List (Uuid × M)) (t : Table M) (j : Uuid)
        → IsPresent t j
        → IsPresent (insert_manifests p rows t) j
    unfolding insert_manifests
    insert_manifests-old [] t j h = h
    insert_manifests-old ((id, m) ∷ rows) t j h =
        insert_manifests-old rows (insert id m t) j (insert-IsPresent id j m t h)

    -- All manifests of a list are present once they are inserted.
    pub insert_manifests-IsPresent :
        (rows : List (Uuid × M)) (t : Table M)
        → All (λ (row : Uuid × M). IsPresent (insert_manifests p rows t) row.0) rows
    unfolding insert_manifests
    insert_manifests-IsPresent [] t = tt
    insert_manifests-IsPresent ((id, m) ∷ rows) t = (
      insert_manifests-old rows (insert id m t) id (insert-IsPresent_self id m t),
      insert_manifests-IsPresent rows (insert id m t),
    )

    module _ (ready : ℕ → M → M) (is_ready : M → Bool)
        (good : (n : ℕ) (m : M) → is_ready (ready n m) ≡ true) where
      -- A manifest that is there and ready.
      abbrev pub IsMarked : Table M → Uuid → Type 0
      IsMarked t id = (m : M) × (get id t ≡ some m) × (is_ready m ≡ true)

      insert-IsMarked :
          (n : ℕ) (m : M) (id j : Uuid) (t : Table M)
          → IsMarked t j
          → IsMarked (insert id (ready n m) t) j
      insert-IsMarked n m id j t (old, found, is) = elim (Bool-cases (id == j)) [
        | inl same ↦ (ready n m, get-insert j id (ready n m) t ∙ rw same refl, good n m)
        | inr other ↦ (old, get-insert j id (ready n m) t ∙ rw other found, is)
      ]

      insert-IsMarked_self :
          (n : ℕ) (m : M) (id : Uuid) (t : Table M) → IsMarked (insert id (ready n m) t) id
      insert-IsMarked_self n m id t =
          (ready n m, get-insert id id (ready n m) t ∙ rw (==_refl id) refl, good n m)

      -- The loop finds what is present, marks it, and unmarks nothing.
      pub mark_ready_total :
          (message : String) (times : ℕ → ℕ) (n : ℕ) (ids : List Uuid) (t : Table M)
          → All (IsPresent t) ids
          → (t' : Table M) × (mark_ready p ready message times n ids t ≡ ok t')
            × All (IsMarked t') ids
            × ((j : Uuid) → IsMarked t j → IsMarked t' j)
      unfolding mark_ready
      mark_ready_total message times n [] t h = (t, refl, tt, λ j m. m)
      mark_ready_total message times n (id ∷ ids) t h = elim (Option-cases (get id t)) [
        | inl missing ↦ absurd (h.0 missing)
        | inr (m, found) ↦
            let next = insert id (ready (times n) m) t in
            let still =
              All-imp (IsPresent t) (IsPresent next) ids
                (λ j. insert-IsPresent id j (ready (times n) m) t) h.1 in
            let (t', e, marked, keeps) = mark_ready_total message times (n + 1) ids next still in
            (
              t',
              rw found e,
              (keeps id (insert-IsMarked_self (times n) m id t), marked),
              λ j old. keeps j (insert-IsMarked (times n) m id j t old),
            )
      ]
