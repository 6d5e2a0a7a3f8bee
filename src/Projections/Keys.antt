-- ===== src/Projections/Keys.antt =====
-- The ANN keys of the chunks of a workspace: the smallest free numbers from a counter on.
pub mod Fresh
use Prim.Native.String.{◌++◌ as append}
use hangar_ia.Platform.{Uuid, Platform}
use hangar_ia.Types.Projections.{DocumentChunk}
use hangar_ia.Prelude.{
  String, is_none, ◌>>◌, string_eq, ℕ, zero, suc, ◌+◌, ◌-◌, ◌^◌, Bool, Option, none, some, List, [],
  ◌∷◌, any, length, Outcome, ok, err, ensure, ◌>>=◌, ltb, ◌==◌, nat_eq, if◌then◌else◌,
}

-- `used_ann_keys.contains(&key)`
abbrev pub is_used : List ℕ → ℕ → Bool
is_used used key = any (λ other. key == other) used

-- `checked_add(1)` on a u64
abbrev pub next_u64 : ℕ → Outcome ℕ
next_u64 n = if ltb n (2 ^ 64 - 1) then ok (n + 1) else err "exhausted ANN key space for workspace"

-- The `while` over used keys; `none` says that the fuel ran out.
unfoldable pub skip_used : ℕ → List ℕ → ℕ → Option (Outcome ℕ)
skip_used zero used key = none
skip_used (suc fuel) used key =
    let later = skip_used fuel used (key + 1) in
    if is_used used key
    then if ltb key (2 ^ 64 - 1) then later else some (err "exhausted ANN key space for workspace")
    else some (ok key)

-- The fuel is one round for each used key, and one more.
unfoldable pub free_key : List ℕ → ℕ → Outcome ℕ
free_key used key = elim (skip_used (suc (length used)) used key) [
  | none ↦ err "out of fuel"
  | some found ↦ found
]

-- The chunks with their keys, the counter behind them, and the table of mappings.
pub record Allocation (p : Platform) : Type 0 where
  pub prepared_vectors : List (DocumentChunk × ℕ)
  pub next_ann_key : ℕ
  pub vector_chunks : p.texts.Table Uuid

module _ (p : Platform) (vector_scope : String) where
  -- `format!("{vector_scope}:{ann_key}")`
  abbrev pub mapping_key : ℕ → String
  mapping_key ann_key = append vector_scope (append ":" (p.number_text ann_key))

  -- The loop over the chunks.
  unfoldable pub allocate :
      List DocumentChunk → List ℕ → ℕ → p.texts.Table Uuid → Outcome (Allocation p)
  allocate [] used next table =
      ok (record { prepared_vectors = []; next_ann_key = next; vector_chunks = table })
  allocate (chunk ∷ rest) used next table = do
    key ← free_key used next
    after ← next_u64 key
    ensure (is_none (p.texts.get (mapping_key key) table))
        "ANN key is already mapped in this workspace"
    more ← allocate rest (key ∷ used) after (p.texts.insert (mapping_key key) chunk.id table)
    ok (record more { prepared_vectors = (chunk, key) ∷ more.prepared_vectors })
