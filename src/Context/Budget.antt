-- ===== src/Context/Budget.antt =====
-- The items of a context package against its budget of tokens.
use hangar_ia.Prelude.{
  ℕ, ◌+◌, ◌^◌, ◌≤◌, ◌<◌, List, [], ◌∷◌, ◌≡◌, refl, All, sum_by, arith, add_usize, div_ceil_four,
  len, ltb, max, Bool-cases, inl, inr,
}
use hangar_ia.Types.Sharing.{ContextItem}
use hangar_ia.Context.{Candidate, item_tokens, select_items}

-- The content of a memory fits the address space.
abbrev pub IsSmall : Candidate → Type 0
IsSmall c = len c.memory.content < 2 ^ 63

abbrev pub tokens_of : List ContextItem → ℕ
tokens_of items = sum_by (λ (item : ContextItem). item.estimated_tokens) items

-- A used budget and one more item do not wrap.
add_item :
    (used tokens size budget : ℕ)
    → tokens ≡ max (div_ceil_four size) 1
    → size < 2 ^ 63
    → used ≤ budget
    → budget ≤ 8192
    → add_usize used tokens ≡ used + tokens
add_item used tokens size budget e h u b = omega (arith, e)

pub record WithinBudget (budget used : ℕ) (selected : List ContextItem × ℕ) : Type 0 where
  pub counted : selected.1 ≡ used + tokens_of selected.0
  pub within : selected.1 ≤ budget

-- From a used part of the budget on, the selection adds the tokens of its items, and stays within.
pub select_items-WithinBudget :
    (budget used : ℕ) (cs : List Candidate)
    → budget ≤ 8192
    → used ≤ budget
    → All IsSmall cs
    → WithinBudget budget used (select_items budget used cs)
unfolding select_items
select_items-WithinBudget budget used [] b u s = record { counted = omega arith; within = u }
select_items-WithinBudget budget used (c ∷ cs) b u s =
    let sum = add_item used (item_tokens c) (len c.memory.content) budget refl s.0 u b in
    elim (Bool-cases (ltb budget (add_usize used (item_tokens c)))) [
      | inl large ↦ rw (large, select_items) (select_items-WithinBudget budget used cs b u s.1)
      | inr fits ↦
          let next = add_usize used (item_tokens c) in
          let below : next ≤ budget = ground (arith, fits) in
          let rest = select_items-WithinBudget budget next cs b below s.1 in
          rw (fits, select_items)
            (record { counted = omega (arith, rest.counted, sum); within = rest.within })
    ]
