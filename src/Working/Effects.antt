-- ===== src/Working/Effects.antt =====
-- Actions on the working memory: an outcome and the store that is left.
use hangar_ia.Prelude.{Outcome, ok, err}
use hangar_ia.Types.Working.{WorkingMemoryStore}

abbrev pub Action : Type 0 → Type 0
Action A = WorkingMemoryStore → Outcome A × WorkingMemoryStore

module _ {A : Type 0} where
  abbrev pub pure : A → Action A
  pure a store = (ok a, store)

  abbrev pub lift : Outcome A → Action A
  lift outcome store = (outcome, store)

  abbrev pub gets : (WorkingMemoryStore → A) → Action A
  gets f store = (ok (f store), store)

abbrev pub modify : (WorkingMemoryStore → WorkingMemoryStore) → Action (Unit {0})
modify f store = (ok tt, f store)

module _ {A B : Type 0} where
  abbrev pub continue : Outcome A → (A → Action B) → Action B
  continue (ok a) f store = f a store
  continue (err message) f store = (err message, store)

  infixl 5 ◌>>=◌ ◌>>◌
  abbrev pub ◌>>=◌ : Action A → (A → Action B) → Action B
  ◌>>=◌ m f store = let (outcome, store') = m store in continue outcome f store'

  abbrev pub ◌>>◌ : Action A → Action B → Action B
  m >> k = m >>= λ _. k
