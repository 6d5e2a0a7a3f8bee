-- ===== src/Projections/Keys/Fresh.antt =====
-- The search for a free ANN key, and the keys of the chunks of a document.
use hangar_ia.Prelude.{
  String, map, subst, is_none, ensure, >>-eq-ok, ok_inj, string_eq, ℕ, zero, suc, ◌+◌, ◌≤◌, ◌<◌,
  ◌≡◌, ◌≢◌, refl, ap, true, false, Bool-cases, inl, inr, none, some, List, [], ◌∷◌, length, All, ok,
  >>=-eq-ok, leb, arith, nat_eq, if◌then◌else◌,
}
use hangar_ia.Projections.Keys.{
  is_used, next_u64, skip_used, free_key, Allocation, mapping_key, allocate,
}
use hangar_ia.Platform.{Uuid, Platform}
use hangar_ia.Types.Projections.{DocumentChunk}

-- The used keys from a number on.
above : List ℕ → ℕ → ℕ
above [] key = 0
above (u ∷ used) key = (if leb key u then 1 else 0) + above used key

above-le : (used : List ℕ) (key : ℕ) → above used (key + 1) ≤ above used key
unfolding above
above-le [] key = omega arith
above-le (u ∷ used) key = ground (arith, above-le used key)

above-used :
    (used : List ℕ) (key : ℕ) → is_used used key ≡ true → above used (key + 1) < above used key
unfolding above
above-used [] key h = absurd (cc)
above-used (u ∷ used) key h = ground (arith, above-used used key, above-le used key)

above-length : (used : List ℕ) (key : ℕ) → above used key ≤ length used
unfolding above
above-length [] key = omega arith
above-length (u ∷ used) key = ground (arith, above-length used key)

-- With a round more than there are used keys, the loop ends.
skip_used_ends :
    (fuel : ℕ) (used : List ℕ) (key : ℕ) → above used key < fuel → skip_used fuel used key ≢ none
unfolding skip_used
skip_used_ends zero used key h = absurd (omega arith)
skip_used_ends (suc fuel) used key h = elim (Bool-cases (is_used used key)) [
  | inl taken ↦
      let step = above-used used key taken in
      ground (arith, taken, skip_used_ends fuel used (key + 1) (omega (arith, step)))
  | inr free ↦ rw free (λ e. cc)
]

pub free_key-ends : (used : List ℕ) (key : ℕ) → skip_used (suc (length used)) used key ≢ none
free_key-ends used key =
    skip_used_ends (suc (length used)) used key (omega (arith, above-length used key))

skip_used-free :
    (fuel : ℕ) (used : List ℕ) (key k : ℕ)
    → skip_used fuel used key ≡ some (ok k)
    → (is_used used k ≡ false) × (key ≤ k)
unfolding skip_used
skip_used-free zero used key k h = absurd (cc)
skip_used-free (suc fuel) used key k h = ground (arith, h, skip_used-free fuel used (key + 1) k)

free_key-free :
    (used : List ℕ) (key k : ℕ) → free_key used key ≡ ok k → (is_used used k ≡ false) × (key ≤ k)
unfolding free_key
free_key-free used key k h =
    ground (arith, h, skip_used-free (suc (length used)) used key k, free_key-ends used key)

-- Keys that ascend from a counter on, and end below another.
abbrev pub Ascend : ℕ → List (DocumentChunk × ℕ) → ℕ → Type 0
Ascend low [] high = low ≤ high
Ascend low (pair ∷ pairs) high = (low ≤ pair.1) × Ascend (pair.1 + 1) pairs high

All-unused :
    (key : ℕ) (used : List ℕ) (pairs : List (DocumentChunk × ℕ))
    → All (λ (pair : DocumentChunk × ℕ). is_used (key ∷ used) pair.1 ≡ false) pairs
    → All (λ (pair : DocumentChunk × ℕ). is_used used pair.1 ≡ false) pairs
All-unused key used [] h = tt
All-unused key used (pair ∷ pairs) h = (ground (arith, h.0), All-unused key used pairs h.1)

next_u64-ok : (k after : ℕ) → next_u64 k ≡ ok after → after ≡ k + 1
next_u64-ok k after h = ground (arith, h)

module _ (p : Platform) (scope : String) where
  pub record IsAllocated (chunks : List DocumentChunk) (used : List ℕ) (next : ℕ) (r : Allocation p)
      : Type 0 where
    pub for_each : map (λ pair. pair.0) r.prepared_vectors ≡ chunks
    pub unused : All (λ (pair : DocumentChunk × ℕ). is_used used pair.1 ≡ false) r.prepared_vectors
    pub ascending : Ascend next r.prepared_vectors r.next_ann_key

  Ascend-weaken :
      (low low' high : ℕ) (pairs : List (DocumentChunk × ℕ))
      → low ≤ low'
      → Ascend low' pairs high
      → Ascend low pairs high
  Ascend-weaken low low' high [] h a = omega arith
  Ascend-weaken low low' high (pair ∷ pairs) h a = (omega arith, a.1)

  -- Each chunk of a document gets a key; none of the keys is in use; they ascend from the counter on,
  -- so no two are equal, and the counter that is left is beyond them.
  pub allocate-IsAllocated :
      (chunks : List DocumentChunk) (used : List ℕ) (next : ℕ) (table : p.texts.Table Uuid)
      (r : Allocation p)
      → allocate p scope chunks used next table ≡ ok r
      → IsAllocated chunks used next r
  unfolding allocate
  allocate-IsAllocated [] used next table r h =
      subst (IsAllocated [] used next) (ok_inj h)
        (record { for_each = refl; unused = tt; ascending = omega arith })
  allocate-IsAllocated (chunk ∷ chunks) used next table r h =
      let (key, found, rest₁) = >>=-eq-ok (free_key used next) _ h in
      let (after, bumped, rest₂) = >>=-eq-ok (next_u64 key) _ rest₁ in
      let (unmapped, rest₃) =
        >>-eq-ok
          (ensure (is_none (p.texts.get (mapping_key p scope key) table))
            "ANN key is already mapped in this workspace")
          _ rest₂ in
      let (more, others, final) =
        >>=-eq-ok
          (allocate p scope chunks (key ∷ used) after
            (p.texts.insert (mapping_key p scope key) chunk.id table))
          _ rest₃ in
      let (free, from) = free_key-free used next key found in
      let ih = allocate-IsAllocated chunks (key ∷ used) after _ more others in
      subst (IsAllocated (chunk ∷ chunks) used next) (ok_inj final) (record {
        for_each = ap (◌∷◌ chunk) ih.for_each;
        unused = (free, All-unused key used more.prepared_vectors ih.unused);
        ascending = (
          from,
          subst (λ (n : ℕ). Ascend n more.prepared_vectors more.next_ann_key)
              (next_u64-ok key after bumped) ih.ascending,
        );
      })
