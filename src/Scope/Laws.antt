-- ===== src/Scope/Laws.antt =====
-- The role order, and what a passed scope check gives.
use hangar_ia.Prelude.{String, ◌≡◌, true, arith, ==_iff, string_eq, nat_eq}
use hangar_ia.Scope.{in_scope}

-- The rank of a role: a reader below a writer below an owner.
pub in_scope-eq : (a b o w : String) → in_scope a b o w ≡ true → (a ≡ o) × (b ≡ w)
in_scope-eq a b o w h = ground (arith, ==_iff a o, ==_iff b w)
